-- ===== src/Scan/Keywords.antt =====
-- `scan_find_keywords`: the table of keywords against the part that was scanned.
use tstracker.Base.{
  ℕ, zero, suc, ◌≤◌, ◌≡◌, ◌≢◌, refl, Bool, true, false, none, some, List, [], ◌∷◌, ◌++◌, length,
  length-append, All, arith, get_elem?, ◌==◌, if◌then◌else◌, Bool-cases, inl, inr,
}
use tstracker.Base.Int.{ℤ, negsuc}
use tstracker.Scan.{Keyword, strncmp_equal, keyword_hit, keyword_loop}

-- Equality of byte strings.
abbrev pub bytes_equal : List ℕ → List ℕ → Bool
bytes_equal [] [] = true
bytes_equal [] (d ∷ ds) = false
bytes_equal (k ∷ ks) [] = false
bytes_equal (k ∷ ks) (d ∷ ds) = if k == d then bytes_equal ks ds else false

-- The value of the first keyword that equals the part, or -3.
abbrev pub lookup : List Keyword → List ℕ → ℤ
lookup [] dest = negsuc 2
lookup (k ∷ ks) dest = if bytes_equal k.key dest then k.value else lookup ks dest

abbrev pub NoNul : List ℕ → Type 0
NoNul = All (λ b. b ≢ 0)

keyword_hit-bytes_equal :
    (key dest : List ℕ)
    → NoNul key
    → NoNul dest
    → keyword_hit key dest ≡ some (bytes_equal key dest)
unfolding keyword_hit strncmp_equal
keyword_hit-bytes_equal [] [] a b = refl
keyword_hit-bytes_equal [] (d ∷ ds) a b = ground (arith, b.0)
keyword_hit-bytes_equal (k ∷ ks) [] a b = ground (arith, a.0)
keyword_hit-bytes_equal (k ∷ ks) (d ∷ ds) a b =
    ground (arith, keyword_hit-bytes_equal ks ds a.1 b.1)

-- For keywords without a NUL and a part without one, the loop reads no key behind its end and gives
-- the value of the first keyword that equals the part, or -3 if there is none.
pub keyword_loop-lookup :
    (ks : List Keyword) (dest : List ℕ)
    → All (λ k. NoNul k.key) ks
    → NoNul dest
    → keyword_loop ks dest ≡ some (lookup ks dest)
unfolding keyword_loop
keyword_loop-lookup [] dest a b = refl
keyword_loop-lookup (k ∷ ks) dest a b =
    rw (keyword_hit-bytes_equal k.key dest a.0 b, keyword_loop-lookup ks dest a.1 b)
      (elim (Bool-cases (bytes_equal k.key dest)) [
        | inl hit ↦ rw hit refl
        | inr miss ↦ rw miss refl
      ])

beyond : (xs : List ℕ) (i : ℕ) → length xs ≤ i → get_elem? xs i ≡ none
beyond [] i h = refl
beyond (x ∷ xs) zero h = absurd (omega arith)
beyond (x ∷ xs) (suc i) h = beyond xs i (omega arith)

strncmp_equal-nul : (key rest : List ℕ) → strncmp_equal key (key ++ 0 ∷ rest) ≡ true
unfolding strncmp_equal
strncmp_equal-nul [] rest = refl
strncmp_equal-nul (k ∷ ks) rest = ground (arith, strncmp_equal-nul ks rest)

-- A part that holds the first keyword of the table and then a NUL, which `%00` decodes to, makes the
-- loop read behind the end of the key.
pub keyword_loop-nul :
    (k : Keyword) (ks : List Keyword) (rest : List ℕ)
    → keyword_loop (k ∷ ks) (k.key ++ 0 ∷ rest) ≡ none
unfolding keyword_loop keyword_hit
keyword_loop-nul k ks rest =
    let past =
      beyond (k.key ++ 0 ∷ []) (length (k.key ++ 0 ∷ rest))
        (omega (arith, length-append k.key (0 ∷ []), length-append k.key (0 ∷ rest))) in
    rw (strncmp_equal-nul k.key rest, past) refl
