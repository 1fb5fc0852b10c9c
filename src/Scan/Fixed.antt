-- ===== src/Scan/Fixed.antt =====
-- `scan_fixed_int` of src/opentracker/scan_urlencoded_query.c: a decimal number of a request.
use tstracker.Base.{
  ℕ, zero, suc, ◌+◌, ◌-◌, ◌*◌, ◌/◌, ◌%◌, ◌^◌, ◌≤◌, ◌<◌, ◌≡◌, refl, Option, none, some, List, [],
  ◌∷◌, ◌++◌, true, false, Bool-cases, inl, inr, ap, ◌∙◌, append_assoc, append-nil, sym, length,
  arith, u32, ltb, ◌==◌, if◌then◌else◌, is_digit, dec_loop, dec,
}
use tstracker.Base.Int.{ℤ, pos, negsuc, ◌-ℤ◌}
use native.Mathlib.Numerals.{unary_clauses}

-- The loop over the digits: what is left of the length, and `*tmp` as its 32 bits.
unfoldable pub digits_loop : List ℕ → ℕ → ℕ × ℕ
digits_loop [] tmp = (0, tmp)
digits_loop (c ∷ s) tmp =
    let rest = digits_loop s (u32 (10 * tmp + c + 2 ^ 32 - 48)) in
    if is_digit c then rest else (suc (length s), tmp)

-- An `int` from its 32 bits.
abbrev pub int_of : ℕ → ℤ
int_of n = if ltb n (2 ^ 31) then pos n else negsuc (2 ^ 32 - 1 - n)

-- The bytes that are left, and the number. `none` is the read of `*data` where there is no byte.
unfoldable pub scan_fixed_int : List ℕ → Option (ℕ × ℤ)
scan_fixed_int [] = none
scan_fixed_int (c ∷ s) =
    let negative = digits_loop s 0 in
    let positive = digits_loop (c ∷ s) 0 in
    some (
      if c == 45
      then (negative.0, int_of (u32 (2 ^ 32 - negative.1)))
      else (positive.0, int_of positive.1))

digits_loop_lem :
    (c : ℕ) (s : List ℕ) (n m : ℕ)
    → c + 10 * n ≡ 48 + m
    → 10 * n ≤ m
    → m < 10 * n + 10
    → m < 2 ^ 32
    → digits_loop (c ∷ s) n ≡ digits_loop s m
unfolding digits_loop
digits_loop_lem c s n m e low high small =
    let w : u32 (10 * n + c + 2 ^ 32 - 48) ≡ m = omega arith in
    let t : is_digit c ≡ true = ground arith in rw (t, w) refl

digits_loop-dec_loop :
    (fuel n : ℕ) (s : List ℕ)
    → n < 10 ^ fuel
    → n < 2 ^ 32
    → digits_loop (dec_loop fuel n ++ s) 0 ≡ digits_loop s n
unfolding dec_loop
digits_loop-dec_loop zero n s few small = ap (digits_loop s) (omega arith)
digits_loop-dec_loop (suc fuel) n s few small = elim (Bool-cases (ltb n 10)) [
  | inl one ↦
      rw one
        (digits_loop_lem (48 + n) s 0 n (omega arith) (omega arith) (ground arith) (omega arith))
  | inr more ↦
      rw (more, append_assoc (dec_loop fuel (n / 10)) ((48 + n % 10) ∷ []) s)
        (digits_loop-dec_loop fuel (n / 10) ((48 + n % 10) ∷ s)
            (omega (arith, simp unary_clauses at few)) (omega arith)
          ∙ digits_loop_lem (48 + n % 10) s (n / 10) n (omega arith) (omega arith) (omega arith)
              small)
]

-- A printed number begins with a digit.
dec_loop-digit :
    (fuel n : ℕ) → (c : ℕ) × (t : List ℕ) × (dec_loop (suc fuel) n ≡ c ∷ t) × (is_digit c ≡ true)
unfolding dec_loop
dec_loop-digit zero n = elim (Bool-cases (ltb n 10)) [
  | inl one ↦ (48 + n, [], rw one refl, ground arith)
  | inr more ↦ (48 + n % 10, [], rw more refl, ground arith)
]
dec_loop-digit (suc fuel) n = elim (Bool-cases (ltb n 10)) [
  | inl one ↦ (48 + n, [], rw one refl, ground arith)
  | inr more ↦
      let (c, t, e, d) = dec_loop-digit fuel (n / 10) in
      (c, t ++ (48 + n % 10) ∷ [], rw (more, e) refl, d)
]

digits_loop-dec : (n : ℕ) → n < 2 ^ 32 → digits_loop (dec n) 0 ≡ (0, n)
unfolding dec digits_loop
digits_loop-dec n small =
    ap (λ s. digits_loop s 0) (sym (append-nil (dec_loop 20 n)))
    ∙ digits_loop-dec_loop 20 n [] (omega arith) small

-- A number that does not begin with a minus sign.
scan_fixed_int-plain :
    (c : ℕ) (t : List ℕ) (m : ℕ)
    → is_digit c ≡ true
    → digits_loop (c ∷ t) 0 ≡ (0, m)
    → m < 2 ^ 31
    → scan_fixed_int (c ∷ t) ≡ some (0, pos m)
unfolding scan_fixed_int
scan_fixed_int-plain c t m d e small =
    let no_minus : (c == 45) ≡ false = ground arith in
    let small' : ltb m (2 ^ 31) ≡ true = ground arith in rw (no_minus, e, small') refl

scan_fixed_int-minus :
    (s : List ℕ) (m : ℕ)
    → digits_loop s 0 ≡ (0, m)
    → m < 2 ^ 31
    → scan_fixed_int (45 ∷ s) ≡ some (0, pos 0 -ℤ pos m)
unfolding scan_fixed_int ◌-ℤ◌
scan_fixed_int-minus s m e small = rw e (ap (λ n. some (0, n)) (ground arith))

dec-digit : (n : ℕ) → (c : ℕ) × (t : List ℕ) × (dec n ≡ c ∷ t) × (is_digit c ≡ true)
unfolding dec
dec-digit n = dec_loop-digit 19 n

-- Scanning what the printing of a number below 2^31 gives yields the number, with nothing left;
-- with a minus sign before it, it yields the negative.
pub scan_fixed_int-dec :
    (n : ℕ)
    → n < 2 ^ 31
    → (scan_fixed_int (dec n) ≡ some (0, pos n))
      × (scan_fixed_int (45 ∷ dec n) ≡ some (0, pos 0 -ℤ pos n))
scan_fixed_int-dec n small =
    let all = digits_loop-dec n (omega arith) in
    let (c, t, e, d) = dec-digit n in
    (
      rw e (scan_fixed_int-plain c t n d (rw e at all) small),
      scan_fixed_int-minus (dec n) n all small,
    )
