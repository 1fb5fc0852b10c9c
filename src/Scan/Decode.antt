-- ===== src/Scan/Decode.antt =====
-- Percent decoding: what it reads, what it writes, and that it undoes the encoding.
use tstracker.Base.{
  ℕ, suc, ◌+◌, ◌/◌, ◌%◌, ◌≤◌, ◌<◌, ◌≡◌, ◌≢◌, ◌⊎◌, refl, inl, inr, Bool, true, false, not, ◌&&◌,
  List, [], ◌∷◌, ◌++◌, length, All, arith, ltb, ◌==◌, if◌then◌else◌, Bool-cases, holds_below,
  holds_below-true,
}
use tstracker.Scan.{
  scan_path, scan_searchpath_param, scan_searchpath_value, is_unreserved, stays_in, fromhex,
  Decoded, fault, broken, stopped, emit, from_digits, decode_loop, Query, parsed, parse_error,
  finished, is_hard, at_end, scan_urlencoded_query,
}

-- The three ways to scan.
abbrev pub IsFlag : ℕ → Type 0
IsFlag flags =
    (flags ≡ scan_path) ⊎ ((flags ≡ scan_searchpath_param) ⊎ (flags ≡ scan_searchpath_value))

abbrev pub hex_digit : ℕ → ℕ
hex_digit d = if ltb d 10 then 48 + d else 87 + d

abbrev pub escaped : ℕ → List ℕ → List ℕ
escaped b rest = 37 ∷ hex_digit (b / 16) ∷ hex_digit (b % 16) ∷ rest

-- Every byte escaped, before what follows.
abbrev pub encode : List ℕ → List ℕ → List ℕ
encode [] rest = rest
encode (b ∷ bs) rest = escaped b (encode bs rest)

abbrev digits_back : ℕ → Bool
digits_back b =
    not (fromhex (hex_digit (b / 16)) == 0xff)
    && not (fromhex (hex_digit (b % 16)) == 0xff)
    && (from_digits (hex_digit (b / 16)) (hex_digit (b % 16)) == b)

digits_back_table : holds_below digits_back 256 ≡ true
unfolding holds_below fromhex
digits_back_table = refl

percent_stays : (flags : ℕ) → IsFlag flags → stays_in flags 37 ≡ true
unfolding is_unreserved
percent_stays flags (inl e) = rw e refl
percent_stays flags (inr (inl e)) = rw e refl
percent_stays flags (inr (inr e)) = rw e refl

space_ends : (flags : ℕ) → IsFlag flags → stays_in flags 32 ≡ false
unfolding is_unreserved
space_ends flags (inl e) = rw e refl
space_ends flags (inr (inl e)) = rw e refl
space_ends flags (inr (inr e)) = rw e refl

module _ (flags : ℕ) (f : IsFlag flags) (rest : List ℕ) where
  stop_at_space : (s : List ℕ) → decode_loop flags (32 ∷ s) ≡ stopped [] 32 s
  unfolding decode_loop
  stop_at_space [] = rw (space_ends flags f) refl
  stop_at_space (x ∷ []) = rw (space_ends flags f) refl
  stop_at_space (x ∷ y ∷ s) = rw (space_ends flags f) refl

  decode_loop-encode :
      (bs : List ℕ)
      → All (λ b. b < 256) bs
      → decode_loop flags (encode bs (32 ∷ rest)) ≡ stopped bs 32 rest
  unfolding decode_loop
  decode_loop-encode [] a = stop_at_space rest
  decode_loop-encode (b ∷ bs) a =
      let t = holds_below-true digits_back b 256 a.0 digits_back_table in
      let h : (fromhex (hex_digit (b / 16)) == 0xff) ≡ false = ground arith in
      let l : (fromhex (hex_digit (b % 16)) == 0xff) ≡ false = ground arith in
      let e : from_digits (hex_digit (b / 16)) (hex_digit (b % 16)) ≡ b = ground arith in
      rw (percent_stays flags f, h, l, e, decode_loop-encode bs a.1) refl

  -- Scanning a part of which every byte is escaped, up to a space, gives the bytes back, and the
  -- next scan starts at the space.
  pub scan_urlencoded_query-encode :
      (b : ℕ) (bs : List ℕ)
      → All (λ b. b < 256) (b ∷ bs)
      → scan_urlencoded_query flags (encode (b ∷ bs) (32 ∷ rest)) ≡ parsed (b ∷ bs) (32 ∷ rest)
  unfolding scan_urlencoded_query
  scan_urlencoded_query-encode b bs a =
      let more : (length (b ∷ bs) == 0) ≡ false = ground arith in
      rw (decode_loop-encode (b ∷ bs) a, scan_urlencoded_query) (rw more refl)

-- The loop stopped inside the buffer, having written no more than it read.
abbrev Within : ℕ → Decoded → Type 0
Within n fault = ⊥
Within n broken = Unit
Within n (stopped out c rest) = length out + length rest < n

abbrev pub QueryWithin : ℕ → Query → Type 0
QueryWithin n fault = ⊥
QueryWithin n parse_error = Unit
QueryWithin n finished = Unit
QueryWithin n (parsed out rest) = length out + length rest ≤ n

Within-emit : (c n m : ℕ) (d : Decoded) → Within n d → suc n ≤ m → Within m (emit c d)
Within-emit c n m fault w h = w
Within-emit c n m broken w h = w
Within-emit c n m (stopped out e rest) w h = omega arith

module _ (flags : ℕ) (f : IsFlag flags) (t : ℕ) (hard : is_hard t ≡ true) where
  hard-cases : (t ≡ 0) ⊎ ((t ≡ 13) ⊎ ((t ≡ 10) ⊎ (t ≡ 32)))
  hard-cases = ground (arith, hard)

  hard_class : is_unreserved t ≡ 8
  unfolding is_unreserved
  hard_class = elim hard-cases [
    | inl e ↦ rw e refl
    | inr (inl e) ↦ rw e refl
    | inr (inr (inl e)) ↦ rw e refl
    | inr (inr (inr e)) ↦ rw e refl
  ]

  hard_ends : stays_in flags t ≡ false
  hard_ends = elim f [
    | inl e ↦ rw (e, hard_class) refl
    | inr (inl e) ↦ rw (e, hard_class) refl
    | inr (inr e) ↦ rw (e, hard_class) refl
  ]

  hard_no_digit : fromhex t ≡ 0xff
  unfolding fromhex
  hard_no_digit = elim hard-cases [
    | inl e ↦ rw e refl
    | inr (inl e) ↦ rw e refl
    | inr (inr (inl e)) ↦ rw e refl
    | inr (inr (inr e)) ↦ rw e refl
  ]

  stop_at_hard : (s : List ℕ) → decode_loop flags (t ∷ s) ≡ stopped [] t s
  unfolding decode_loop
  stop_at_hard [] = rw hard_ends refl
  stop_at_hard (x ∷ []) = rw hard_ends refl
  stop_at_hard (x ∷ y ∷ s) = rw hard_ends refl

  -- One round of the loop on a byte with two behind it.
  round-Within :
      (c x y n : ℕ) (s : List ℕ)
      → Within (suc (suc n)) (decode_loop flags (x ∷ y ∷ s))
      → ((fromhex x == 0xff) ≡ false → (fromhex y == 0xff) ≡ false → Within n (decode_loop flags s))
      → length s ≡ n
      → Within (suc (suc (suc n))) (decode_loop flags (c ∷ x ∷ y ∷ s))
  unfolding decode_loop
  round-Within c x y n s plain rest e = elim (Bool-cases (stays_in flags c)) [
    | inr ends ↦ rw ends (omega arith)
    | inl stays ↦ rw stays (elim (Bool-cases (c == 37)) [
      | inr other ↦ rw other (Within-emit c (suc (suc n)) (suc (suc (suc n))) _ plain (omega arith))
      | inl percent ↦ rw percent (elim (Bool-cases (fromhex x == 0xff)) [
        | inl bad ↦ rw bad tt
        | inr high ↦ rw high (elim (Bool-cases (fromhex y == 0xff)) [
          | inl bad ↦ rw bad tt
          | inr low ↦
              rw low (
                Within-emit (from_digits x y) n (suc (suc (suc n))) _ (rest high low) (omega arith))
        ])
      ])
    ])
  ]

  no_digit : (fromhex t == 0xff) ≢ false
  no_digit e = ground (arith, hard_no_digit)

  two_left : (a : ℕ) → Within 2 (decode_loop flags (a ∷ t ∷ []))
  unfolding decode_loop
  two_left a = elim (Bool-cases (stays_in flags a)) [
    | inr ends ↦ rw ends (omega arith)
    | inl stays ↦ rw stays (elim (Bool-cases (a == 37)) [
      | inr other ↦ rw (other, hard_ends) (omega arith)
      | inl percent ↦ rw (percent, hard_no_digit) tt
    ])
  ]

  decode_loop-Within :
      (pre post : List ℕ) → Within (length (pre ++ t ∷ post)) (decode_loop flags (pre ++ t ∷ post))
  decode_loop-Within [] post = rw (stop_at_hard post) (omega arith)
  decode_loop-Within (a ∷ []) [] = two_left a
  decode_loop-Within (a ∷ []) (p ∷ post) =
      round-Within a t p (length post) post (rw (stop_at_hard (p ∷ post)) (omega arith))
        (λ h l. absurd (no_digit h)) refl
  decode_loop-Within (a ∷ b ∷ []) post =
      round-Within a b t (length post) post (decode_loop-Within (b ∷ []) post)
        (λ h l. absurd (no_digit l)) refl
  decode_loop-Within (a ∷ b ∷ c ∷ pre) post =
      round-Within a b c (length (pre ++ t ∷ post)) (pre ++ t ∷ post)
        (decode_loop-Within (b ∷ c ∷ pre) post) (λ h l. decode_loop-Within pre post) refl

  at_end-cases :
      (out rest : List ℕ) (c : ℕ)
      → (at_end flags out c rest ≡ parse_error)
        ⊎ ((at_end flags out c rest ≡ finished)
            ⊎ ((at_end flags out c rest ≡ parsed out rest)
                ⊎ (at_end flags out c rest ≡ parsed out (c ∷ rest))))
  at_end-cases out rest c = ground arith

  at_end-QueryWithin :
      (n : ℕ) (d : Decoded)
      → Within n d
      → QueryWithin n (elim d [
        | fault ↦ fault
        | broken ↦ parse_error
        | stopped out c rest ↦ at_end flags out c rest
      ])
  at_end-QueryWithin n fault w = w
  at_end-QueryWithin n broken w = w
  at_end-QueryWithin n (stopped out c rest) w = elim (at_end-cases out rest c) [
    | inl e ↦ rw (e, at_end) tt
    | inr (inl e) ↦ rw (e, at_end) tt
    | inr (inr (inl e)) ↦ rw (e, at_end) (omega arith)
    | inr (inr (inr e)) ↦ rw (e, at_end) (omega arith)
  ]

  -- In a buffer that holds a NUL, a line end or a space the scan, in any of its three ways, reads
  -- nothing outside the buffer, whatever the other bytes are; and a part that it hands out is no
  -- longer than what was read for it, so decoding in place overtakes no byte still to be read.
  pub scan_urlencoded_query-QueryWithin :
      (pre post : List ℕ)
      → QueryWithin (length (pre ++ t ∷ post)) (scan_urlencoded_query flags (pre ++ t ∷ post))
  unfolding scan_urlencoded_query
  scan_urlencoded_query-QueryWithin pre post =
      at_end-QueryWithin (length (pre ++ t ∷ post)) _ (decode_loop-Within pre post)
