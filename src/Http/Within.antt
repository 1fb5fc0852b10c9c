-- ===== src/Http/Within.antt =====
-- What one round of the loop over a query leaves of it, and how many rounds are enough.
use tstracker.Base.{
  ℕ, zero, suc, ◌≤◌, ◌<◌, ◌≡◌, ◌≢◌, ◌∙◌, refl, ap, inl, inr, Bool, true, false, Option, none, some,
  List, ◌∷◌, length, arith, ◌==◌, if◌then◌else◌,
}
use tstracker.Base.Int.{ℤ, pos, negsuc}
use tstracker.Scan.{
  Query, scan_urlencoded_query, scan_urlencoded_skipvalue, scan_find_keywords, Keyword,
  is_unreserved, scan_searchpath_param, scan_searchpath_value,
}
use tstracker.Scan.Fixed.{scan_fixed_int}
use tstracker.Http.{HttpError}
use tstracker.Http.Ends.{
  Scans, scan_urlencoded_query-Scans, Leaves, scan_find_keywords-Leaves,
  scan_urlencoded_skipvalue-shorter,
}
use tstracker.Http.Query.{
  Round, Scanned, query_loop, with_value, with_number, with_hash, skip_value, on_keyword,
}

module _ {A : Type 0} where
  -- A round that goes on has at most what `s` has before it.
  abbrev pub Within : List ℕ → Round A → Type 0
  Within s (Round.again a t) = length t ≤ length s
  Within s _ = Unit

  -- It has less.
  abbrev Shrinks : List ℕ → Round A → Type 0
  Shrinks s (Round.again a t) = length t < length s
  Shrinks s _ = Unit

  pub Within-if :
      (b : Bool) (s : List ℕ) (x y : Round A)
      → Within s x
      → Within s y
      → Within s (if b then x else y)
  Within-if true s x y hx hy = hx
  Within-if false s x y hx hy = hy

  Within-Shrinks : (s t : List ℕ) (r : Round A) → length t < length s → Within t r → Shrinks s r
  Within-Shrinks s t Round.crash less h = tt
  Within-Shrinks s t (Round.failed e) less h = tt
  Within-Shrinks s t (Round.ended a) less h = tt
  Within-Shrinks s t (Round.again a u) less h = omega arith

  Shrinks-by :
      (s : List ℕ) (r : Round A) (a : A) (t : List ℕ)
      → r ≡ Round.again a t
      → length t < length s
      → Shrinks s r
  Shrinks-by s r a t e less = rw e less

  with_value-Within :
      (s : List ℕ) (next : List ℕ → List ℕ → Round A)
      → ((out rest : List ℕ) → length rest ≤ length s → Within s (next out rest))
      → Within s (with_value s next)
  unfolding with_value
  with_value-Within s next h =
      go (scan_urlencoded_query scan_searchpath_value s)
        (scan_urlencoded_query-Scans scan_searchpath_value s)
    where
      go :
          (q : Query)
          → Scans s q
          → Within s (elim q [
            | Query.fault ↦ Round.crash
            | Query.parse_error ↦ Round.failed HttpError.error_400_param
            | Query.finished ↦ Round.failed HttpError.error_400_param
            | Query.parsed out rest ↦
                if length out == 0 then Round.failed HttpError.error_400_param else next out rest
          ])
      go Query.fault k = tt
      go Query.parse_error k = tt
      go Query.finished k = tt
      go (Query.parsed out rest) (le, how) =
          Within-if (length out == 0) s (Round.failed HttpError.error_400_param) (next out rest) tt
            (h out rest (omega arith))

  pub with_number-Within :
      (s : List ℕ) (next : ℕ → ℤ → List ℕ → Round A)
      → ((left : ℕ) (n : ℤ) (rest : List ℕ) → length rest ≤ length s → Within s (next left n rest))
      → Within s (with_number s next)
  unfolding with_number
  with_number-Within s next h =
      with_value-Within s _ (λ out rest le. go (scan_fixed_int out) rest le)
    where
      go :
          (o : Option (ℕ × ℤ)) (rest : List ℕ)
          → length rest ≤ length s
          → Within s (elim o [ none ↦ Round.crash | some (left, n) ↦ next left n rest ])
      go none rest le = tt
      go (some (left, n)) rest le = h left n rest le

  pub with_hash-Within :
      (s : List ℕ) (next : List ℕ → List ℕ → Round A)
      → ((out rest : List ℕ) → length rest ≤ length s → Within s (next out rest))
      → Within s (with_hash s next)
  unfolding with_hash
  with_hash-Within s next h = with_value-Within s _ (λ out rest le.
      Within-if (length out == 20) s (next out rest) (Round.failed HttpError.error_400_param)
        (h out rest le) tt)

  skip_value-Within : (a : A) (s : List ℕ) → Within s (skip_value a s)
  unfolding skip_value
  skip_value-Within a s =
      go (scan_urlencoded_skipvalue s) (λ t e. scan_urlencoded_skipvalue-shorter s t e)
    where
      go :
          (o : Option (List ℕ))
          → ((t : List ℕ) → o ≡ some t → length t ≤ length s)
          → Within s (elim o [ none ↦ Round.crash | some t ↦ Round.again a t ])
      go none h = tt
      go (some t) h = h t refl

  -- An empty keyword before `&` is skipped with it.
  skip_value-amp : (a : A) (r : List ℕ) → skip_value a (38 ∷ r) ≡ Round.again a r
  unfolding skip_value scan_urlencoded_skipvalue is_unreserved
  skip_value-amp a r = refl

  pub on_keyword-Shrinks :
      (keywords : List Keyword) (case : ℕ → List ℕ → A → Round A) (s : List ℕ) (a : A)
      → ((n : ℕ) (rest : List ℕ) → Within rest (case n rest a))
      → Shrinks s (on_keyword keywords case s a)
  unfolding on_keyword
  on_keyword-Shrinks keywords case s a h =
      go (scan_find_keywords keywords scan_searchpath_param s)
        (scan_find_keywords-Leaves keywords scan_searchpath_param s)
    where
      skipped :
          (rest : List ℕ) (v : ℕ)
          → Leaves s (some (negsuc (suc (suc v)), rest))
          → Shrinks s (skip_value a rest)
      skipped rest v (le, inl e) = cc
      skipped rest v (le, inr (inl e)) = cc
      skipped rest v (le, inr (inr (inl less))) =
          Within-Shrinks s rest (skip_value a rest) less (skip_value-Within a rest)
      skipped rest v (le, inr (inr (inr (e, r, amp)))) =
          Shrinks-by s (skip_value a rest) a r (ap (skip_value a) amp ∙ skip_value-amp a r)
            (omega (arith, ap (length {A = ℕ}) amp, le))

      go :
          (o : Option (ℤ × List ℕ))
          → Leaves s o
          → Shrinks s (elim o [
            | none ↦ Round.crash
            | some (v, rest) ↦ elim v [
              | negsuc n ↦
                  if n == 0
                  then Round.failed HttpError.error_400_param
                  else if n == 1
                  then Round.ended a
                  else skip_value a rest
              | pos n ↦ case n rest a
            ]
          ])
      go none l = tt
      go (some (negsuc zero, rest)) l = tt
      go (some (negsuc (suc zero), rest)) l = tt
      go (some (negsuc (suc (suc v)), rest)) l =
          let not_0 : (suc (suc v) == 0) ≡ false = ground arith in
          let not_1 : (suc (suc v) == 1) ≡ false = ground arith in
          rw (not_0, not_1) (skipped rest v l)
      go (some (pos n, rest)) (le, inl e) = cc
      go (some (pos n, rest)) (le, inr (inl e)) = cc
      go (some (pos n, rest)) (le, inr (inr (inl less))) =
          Within-Shrinks s rest (case n rest a) less (h n rest)
      go (some (pos n, rest)) (le, inr (inr (inr (e, r, amp)))) = cc

  -- With a round for each byte, and one more, a loop whose rounds shrink ends.
  pub query_loop-ends :
      (round : List ℕ → A → Round A)
      → ((s : List ℕ) (a : A) → Shrinks s (round s a))
      → (fuel : ℕ) (s : List ℕ) (a : A) → length s < fuel
      → query_loop round fuel s a ≢ Scanned.unfinished
  unfolding query_loop
  query_loop-ends round h zero s a enough = absurd (omega arith)
  query_loop-ends round h (suc fuel) s a enough =
      go (round s a) (h s a) (λ t b less. query_loop-ends round h fuel t b (omega arith))
    where
      go :
          (r : Round A)
          → Shrinks s r
          → ((t : List ℕ) (b : A)
              → length t < length s
              → query_loop round fuel t b ≢ Scanned.unfinished)
          → elim r [
            | Round.crash ↦ Scanned.crash
            | Round.failed e ↦ Scanned.failed e
            | Round.ended b ↦ Scanned.scanned b
            | Round.again b t ↦ query_loop round fuel t b
          ]
            ≢ Scanned.unfinished
      go Round.crash l rest = λ e. cc
      go (Round.failed x) l rest = λ e. cc
      go (Round.ended b) l rest = λ e. cc
      go (Round.again b t) l rest = rest t b l
