-- ===== src/Scan.antt =====
-- src/opentracker/scan_urlencoded_query.c: percent decoding of the parts of a request. A string is
-- its bytes up to the end of the buffer; a pointer into it is what is left of it. Decoding in place
-- writes behind the place it reads, so what it writes is a list of its own.
pub mod Decode
pub mod Keywords
pub mod Fixed
use tstracker.Base.Int.{ℤ, pos, negsuc}
use tstracker.Base.{
  get_elem?, ◌>>=◌, ℕ, zero, suc, ◌+◌, ◌-◌, ◌*◌, ◌%◌, ◌^◌, Bool, true, false, not, ◌&&◌, ◌||◌,
  Option, none, some, List, [], ◌∷◌, ◌++◌, length, get_or, get_elem?, bit_and, bit_or, ltb, leb, u8,
  u32, ◌==◌, if◌then◌else◌, replicate,
}

abbrev pub scan_path : ℕ
scan_path = 1

abbrev pub scan_searchpath_param : ℕ
scan_searchpath_param = 2

abbrev pub scan_searchpath_value : ℕ
scan_searchpath_value = 4

abbrev pub scan_searchpath_terminator : ℕ
scan_searchpath_terminator = 8

-- The table, row by row as the source has it.
abbrev pub unreserved_table : List ℕ
unreserved_table =
    8 ∷ 0 ∷ 0 ∷ 0 ∷ 0 ∷ 0 ∷ 0 ∷ 0 ∷ 0 ∷ 0 ∷ 8 ∷ 0 ∷ 0 ∷ 8 ∷ replicate 18 0
    ++ (8 ∷ 7 ∷ 8 ∷ 8 ∷ 8 ∷ 7 ∷ 0 ∷ replicate 22 7 ++ 4 ∷ 7 ∷ 6 ∷ [])
    ++ (4 ∷ replicate 26 7 ++ 8 ∷ 8 ∷ 8 ∷ 8 ∷ 7 ∷ [])
    ++ (8 ∷ replicate 26 7 ++ 8 ∷ 8 ∷ 8 ∷ 7 ∷ 0 ∷ [])
    ++ replicate 128 0

unfoldable pub is_unreserved : ℕ → ℕ
is_unreserved c = get_or unreserved_table c 0

abbrev pub stays_in : ℕ → ℕ → Bool
stays_in flags c = not (bit_and (is_unreserved c) flags == 0)

unfoldable pub fromhex : ℕ → ℕ
fromhex c =
    let x = u8 (c + 256 - 48) in
    let y = u8 (bit_and x 0xdf + 256 - 17) in
    if leb x 9 then x else if ltb y 6 then y + 10 else 0xff

-- How the loop ends: outside the buffer, at a broken escape, or at a byte that ends the part.
pub data Decoded : Type 0 where
  fault broken : Decoded
  stopped : List ℕ → ℕ → List ℕ → Decoded

abbrev pub emit : ℕ → Decoded → Decoded
emit c fault = fault
emit c broken = broken
emit c (stopped out e s) = stopped (c ∷ out) e s

abbrev pub from_digits : ℕ → ℕ → ℕ
from_digits x y = bit_or (fromhex y) (u8 (fromhex x * 16))

unfoldable pub decode_loop : ℕ → List ℕ → Decoded
decode_loop flags [] = fault
decode_loop flags (c ∷ []) = if stays_in flags c then fault else stopped [] c []
decode_loop flags (c ∷ x ∷ []) =
    let plain = emit c (decode_loop flags (x ∷ [])) in
    let escape = if fromhex x == 0xff then broken else fault in
    if stays_in flags c then (if c == 37 then escape else plain) else stopped [] c (x ∷ [])
decode_loop flags (c ∷ x ∷ y ∷ s) =
    let plain = emit c (decode_loop flags (x ∷ y ∷ s)) in
    let rest = emit (from_digits x y) (decode_loop flags s) in
    let escape = if fromhex x == 0xff then broken else if fromhex y == 0xff then broken else rest in
    if stays_in flags c then (if c == 37 then escape else plain) else stopped [] c (x ∷ y ∷ s)

-- What is handed out: -1, -2, or the decoded part, with the next scan position.
pub data Query : Type 0 where
  fault parse_error finished : Query
  parsed : List ℕ → List ℕ → Query

abbrev pub is_hard : ℕ → Bool
is_hard c = (c == 0) || (c == 13) || (c == 10) || (c == 32)

abbrev pub at_end : ℕ → List ℕ → ℕ → List ℕ → Query
at_end flags out c s =
    let hard = if length out == 0 then finished else parsed out (c ∷ s) in
    let amp =
      if flags == scan_path
      then parse_error
      else if flags == scan_searchpath_param
      then parsed out (c ∷ s)
      else parsed out s in
    if is_hard c
    then hard
    else if c == 63
    then (if flags == scan_path then parsed out s else parse_error)
    else if c == 61
    then (if flags == scan_searchpath_param then parsed out s else parse_error)
    else if c == 38
    then amp
    else parse_error

unfoldable pub scan_urlencoded_query : ℕ → List ℕ → Query
scan_urlencoded_query flags s = elim (decode_loop flags s) [
  | fault ↦ fault
  | broken ↦ parse_error
  | stopped out c rest ↦ at_end flags out c rest
]

-- The position after the value, or `none` outside the buffer.
unfoldable pub scan_urlencoded_skipvalue : List ℕ → Option (List ℕ)
scan_urlencoded_skipvalue [] = none
scan_urlencoded_skipvalue (c ∷ s) =
    let rest = scan_urlencoded_skipvalue s in
    let f = is_unreserved c in
    if not (bit_and f scan_searchpath_value == 0)
    then rest
    else if not (bit_and f scan_searchpath_terminator == 0)
    then some (c ∷ s)
    else some s

-- `ot_keywords`: the key without its NUL.
pub record Keyword : Type 0 where
  pub key : List ℕ
  pub value : ℤ

-- If `strncmp( key, dest, match_length )` is 0, where `dest` has that length.
unfoldable pub strncmp_equal : List ℕ → List ℕ → Bool
strncmp_equal [] [] = true
strncmp_equal [] (d ∷ ds) = d == 0
strncmp_equal (k ∷ ks) [] = true
strncmp_equal (k ∷ ks) (d ∷ ds) = let rest = strncmp_equal ks ds in if k == d then rest else false

-- The test of the loop; `none` if `key[match_length]` lies behind the NUL of the key.
unfoldable pub keyword_hit : List ℕ → List ℕ → Option Bool
keyword_hit key dest =
    let last = get_elem? (key ++ 0 ∷ []) (length dest) >>= λ c. some (c == 0) in
    if strncmp_equal key dest then last else some false

unfoldable pub keyword_loop : List Keyword → List ℕ → Option ℤ
keyword_loop [] dest = some (negsuc 2)
keyword_loop (k ∷ ks) dest = keyword_hit k.key dest >>= λ hit.
    let rest = keyword_loop ks dest in if hit then some k.value else rest

-- The result with the next scan position.
unfoldable pub scan_find_keywords : List Keyword → ℕ → List ℕ → Option (ℤ × List ℕ)
scan_find_keywords keywords flags s = elim (scan_urlencoded_query flags s) [
  | fault ↦ none
  | parse_error ↦ some (negsuc 0, s)
  | finished ↦ some (negsuc 1, s)
  | parsed out rest ↦
      if length out == 0
      then some (negsuc 2, rest)
      else (keyword_loop keywords out >>= λ v. some (v, rest))
]
