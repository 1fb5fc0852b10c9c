-- ===== src/Http/Ends.antt =====
-- The loops over a query end: a round that goes on has fewer bytes before it.
use tstracker.Base.{
  ℕ, ◌+◌, ◌≤◌, ◌<◌, ◌≡◌, ◌≢◌, refl, ap, inl, inr, ◌⊎◌, Bool, true, false, Option, none, some, List,
  [], ◌∷◌, length, arith, ◌==◌, if◌then◌else◌, Bool-cases, ◌>>=◌,
}
use tstracker.Base.Int.{ℤ, negsuc}
use tstracker.Scan.{
  Decoded, stopped, broken, from_digits, fromhex, stays_in, emit, decode_loop, Query, parsed,
  is_hard, parse_error, at_end, scan_urlencoded_query, scan_urlencoded_skipvalue,
  scan_find_keywords, keyword_loop, Keyword, scan_searchpath_param, scan_path,
}

-- A decoded part with its end took at least a byte for each byte of it.
abbrev Shorter : List ℕ → Decoded → Type 0
Shorter s Decoded.fault = Unit
Shorter s Decoded.broken = Unit
Shorter s (Decoded.stopped out c rest) = length out + length rest < length s

Shorter-emit :
    (c : ℕ) (t s : List ℕ) (d : Decoded) → length t < length s → Shorter t d → Shorter s (emit c d)
Shorter-emit c t s Decoded.fault less h = tt
Shorter-emit c t s Decoded.broken less h = tt
Shorter-emit c t s (Decoded.stopped out e rest) less h = omega arith

-- What is shorter whether a test succeeds or not.
abbrev either : Bool → Decoded → Decoded → Decoded
either b d e = if b then d else e

Shorter-if :
    (b : Bool) (s : List ℕ) (d e : Decoded) → Shorter s d → Shorter s e → Shorter s (either b d e)
Shorter-if true s d e hd he = hd
Shorter-if false s d e hd he = he

decode_loop-Shorter : (flags : ℕ) (s : List ℕ) → Shorter s (decode_loop flags s)
unfolding decode_loop
decode_loop-Shorter flags [] = tt
decode_loop-Shorter flags (c ∷ []) =
    Shorter-if (stays_in flags c) (c ∷ []) Decoded.fault (stopped [] c []) tt (omega arith)
decode_loop-Shorter flags (c ∷ x ∷ []) =
    let all = c ∷ x ∷ [] in
    let plain = emit c (decode_loop flags (x ∷ [])) in
    let escape = either (fromhex x == 0xff) broken Decoded.fault in
    Shorter-if (stays_in flags c) all (either (c == 37) escape plain) (stopped [] c (x ∷ []))
      (Shorter-if (c == 37) all escape plain
        (Shorter-if (fromhex x == 0xff) all broken Decoded.fault tt tt)
        (Shorter-emit c (x ∷ []) all (decode_loop flags (x ∷ [])) (omega arith)
          (decode_loop-Shorter flags (x ∷ []))))
      (omega arith)
decode_loop-Shorter flags (c ∷ x ∷ y ∷ s) =
    let all = c ∷ x ∷ y ∷ s in
    let plain = emit c (decode_loop flags (x ∷ y ∷ s)) in
    let rest = emit (from_digits x y) (decode_loop flags s) in
    let second = either (fromhex y == 0xff) broken rest in
    let escape = either (fromhex x == 0xff) broken second in
    Shorter-if (stays_in flags c) all (either (c == 37) escape plain) (stopped [] c (x ∷ y ∷ s))
      (Shorter-if (c == 37) all escape plain
        (Shorter-if (fromhex x == 0xff) all broken second tt (
          Shorter-if (fromhex y == 0xff) all broken rest tt (
            Shorter-emit (from_digits x y) s all (decode_loop flags s) (omega arith)
              (decode_loop-Shorter flags s))))
        (Shorter-emit c (x ∷ y ∷ s) all (decode_loop flags (x ∷ y ∷ s)) (omega arith)
          (decode_loop-Shorter flags (x ∷ y ∷ s))))
      (omega arith)

-- A part took no less bytes than it has, and one more if it is empty, unless it stopped at `&`, which
-- is left before the value that is skipped.
abbrev pub Scans : List ℕ → Query → Type 0
Scans s (Query.parsed out rest) =
    (length out + length rest ≤ length s)
    × ((length out ≢ 0) ⊎ (length rest < length s) ⊎ ((r : List ℕ) × (rest ≡ 38 ∷ r)))
Scans s _ = Unit

Scans-if :
    (b : Bool) (s : List ℕ) (p q : Query) → Scans s p → Scans s q → Scans s (if b then p else q)
Scans-if true s p q hp hq = hp
Scans-if false s p q hp hq = hq

at_end-Scans :
    (flags : ℕ) (out : List ℕ) (c : ℕ) (s t : List ℕ)
    → length out + length t < length s
    → Scans s (at_end flags out c t)
at_end-Scans flags out c s t h = elim (Bool-cases (is_hard c)) [
  | inl hard ↦ elim (Bool-cases (length out == 0)) [
    | inl empty ↦ rw (hard, empty) tt
    | inr some_out ↦ rw (hard, some_out) (omega arith, inl (ground arith))
  ]
  | inr soft ↦
      let before : Scans s (parsed out t) = (omega arith, inr (inl (omega arith))) in
      let at_amp : c ≡ 38 → Scans s (parsed out (c ∷ t)) =
        λ e. (omega arith, inr (inr (t, ap (λ c. c ∷ t) e))) in
      let slash = if flags == scan_path then parsed out t else parse_error in
      let equal = if flags == scan_searchpath_param then parsed out t else parse_error in
      let amp = if flags == scan_searchpath_param then parsed out (c ∷ t) else parsed out t in
      let amp' = if flags == scan_path then parse_error else amp in
      let last = if c == 38 then amp' else parse_error in
      rw soft (
        Scans-if (c == 63) s slash (if c == 61 then equal else last)
          (Scans-if (flags == scan_path) s (parsed out t) parse_error before tt)
          (Scans-if (c == 61) s equal last
            (Scans-if (flags == scan_searchpath_param) s (parsed out t) parse_error before tt)
            (elim (Bool-cases (c == 38)) [
              | inl is_amp ↦ rw is_amp (
                  Scans-if (flags == scan_path) s parse_error amp tt (
                    Scans-if (flags == scan_searchpath_param) s (parsed out (c ∷ t)) (parsed out t)
                      (at_amp (ground arith)) before))
              | inr other ↦ rw other tt
            ])))
]

pub scan_urlencoded_query-Scans : (flags : ℕ) (s : List ℕ) → Scans s (scan_urlencoded_query flags s)
unfolding scan_urlencoded_query
scan_urlencoded_query-Scans flags s = go (decode_loop flags s) (decode_loop-Shorter flags s)
  where
    go :
        (d : Decoded)
        → Shorter s d
        → Scans s (elim d [
          | Decoded.fault ↦ Query.fault
          | Decoded.broken ↦ parse_error
          | Decoded.stopped out c rest ↦ at_end flags out c rest
        ])
    go Decoded.fault h = tt
    go Decoded.broken h = tt
    go (Decoded.stopped out c rest) h = at_end-Scans flags out c s rest h

pub scan_urlencoded_skipvalue-shorter :
    (s t : List ℕ) → scan_urlencoded_skipvalue s ≡ some t → length t ≤ length s
unfolding scan_urlencoded_skipvalue
scan_urlencoded_skipvalue-shorter [] t e = cc
scan_urlencoded_skipvalue-shorter (c ∷ s) t e =
    ground (arith, scan_urlencoded_skipvalue-shorter s t)

-- What a keyword leaves: less, unless the loop ends by it or goes on to skip an empty one.
abbrev pub Leaves : List ℕ → Option (ℤ × List ℕ) → Type 0
Leaves s none = Unit
Leaves s (some (v, rest)) =
    (length rest ≤ length s)
    × ((v ≡ negsuc 0)
        ⊎ (v ≡ negsuc 1)
        ⊎ (length rest < length s)
        ⊎ ((v ≡ negsuc 2) × (r : List ℕ) × (rest ≡ 38 ∷ r)))

found-Leaves :
    (s rest : List ℕ) (o : Option ℤ) → length rest < length s → Leaves s (o >>= λ v. some (v, rest))
found-Leaves s rest none h = tt
found-Leaves s rest (some v) h = (omega arith, inr (inr (inl h)))

pub scan_find_keywords-Leaves :
    (keywords : List Keyword) (flags : ℕ) (s : List ℕ)
    → Leaves s (scan_find_keywords keywords flags s)
unfolding scan_find_keywords
scan_find_keywords-Leaves keywords flags s =
    go (scan_urlencoded_query flags s) (scan_urlencoded_query-Scans flags s)
  where
    go :
        (q : Query)
        → Scans s q
        → Leaves s (elim q [
          | Query.fault ↦ none
          | Query.parse_error ↦ some (negsuc 0, s)
          | Query.finished ↦ some (negsuc 1, s)
          | Query.parsed out rest ↦
              if length out == 0
              then some (negsuc 2, rest)
              else (keyword_loop keywords out >>= λ v. some (v, rest))
        ])
    go Query.fault h = tt
    go Query.parse_error h = (omega arith, inl refl)
    go Query.finished h = (omega arith, inr (inl refl))
    go (Query.parsed out rest) (le, how) = elim (Bool-cases (length out == 0)) [
      | inl empty ↦ rw empty (elim how [
        | inl some_out ↦ absurd (some_out (ground arith))
        | inr (inl less) ↦ (omega arith, inr (inr (inl less)))
        | inr (inr (r, e)) ↦ (omega arith, inr (inr (inr (refl, r, e))))
      ])
      | inr some_out ↦ rw some_out (found-Leaves s rest (keyword_loop keywords out) (ground arith))
    ]
