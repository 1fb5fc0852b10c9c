-- ===== src/Base/Bytes.antt =====
-- Byte strings: the order of `memcmp`, and the arithmetic of machine words.
use Prim.Native.Nat.{ℕ, zero, suc, ◌+◌, ◌-◌, ◌%◌, ◌^◌, ◌≤◌, ◌<◌, compare, Ordering}
use mathlib.Core.Path.{◌≡◌, refl}
use mathlib.Core.Bool.{Bool, true, ◌&&◌}
use mathlib.Core.List.{List, [], ◌∷◌}
use native.Mathlib.Omega.{arith}

-- The sign of `memcmp` on two strings of one length (a proper prefix counts as smaller).
unfoldable pub memcmp : List ℕ → List ℕ → Ordering
memcmp [] [] = Ordering.eq
memcmp [] (y ∷ ys) = Ordering.lt
memcmp (x ∷ xs) [] = Ordering.gt
memcmp (x ∷ xs) (y ∷ ys) = elim (compare x y) [
  | Ordering.lt ↦ Ordering.lt
  | Ordering.gt ↦ Ordering.gt
  | Ordering.eq ↦ memcmp xs ys
]

pub memcmp_self : (xs : List ℕ) → memcmp xs xs ≡ Ordering.eq
unfolding memcmp
memcmp_self [] = refl
memcmp_self (x ∷ xs) = ground (arith, memcmp_self xs)

pub memcmp→eq : (xs ys : List ℕ) → memcmp xs ys ≡ Ordering.eq → xs ≡ ys
unfolding memcmp
memcmp→eq [] [] h = refl
memcmp→eq [] (y ∷ ys) h = cc
memcmp→eq (x ∷ xs) [] h = cc
memcmp→eq (x ∷ xs) (y ∷ ys) h = ground (arith, memcmp→eq xs ys)

pub memcmp_flip : (xs ys : List ℕ) → memcmp xs ys ≡ Ordering.lt → memcmp ys xs ≡ Ordering.gt
unfolding memcmp
memcmp_flip [] [] h = cc
memcmp_flip [] (y ∷ ys) h = refl
memcmp_flip (x ∷ xs) [] h = cc
memcmp_flip (x ∷ xs) (y ∷ ys) h = ground (arith, memcmp_flip xs ys)

pub memcmp_flip_gt : (xs ys : List ℕ) → memcmp xs ys ≡ Ordering.gt → memcmp ys xs ≡ Ordering.lt
unfolding memcmp
memcmp_flip_gt [] [] h = cc
memcmp_flip_gt [] (y ∷ ys) h = cc
memcmp_flip_gt (x ∷ xs) [] h = refl
memcmp_flip_gt (x ∷ xs) (y ∷ ys) h = ground (arith, memcmp_flip_gt xs ys)

pub memcmp_trans :
    (xs ys zs : List ℕ)
    → memcmp xs ys ≡ Ordering.lt
    → memcmp ys zs ≡ Ordering.lt
    → memcmp xs zs ≡ Ordering.lt
unfolding memcmp
memcmp_trans [] [] zs h k = cc
memcmp_trans [] (y ∷ ys) [] h k = cc
memcmp_trans [] (y ∷ ys) (z ∷ zs) h k = refl
memcmp_trans (x ∷ xs) [] zs h k = cc
memcmp_trans (x ∷ xs) (y ∷ ys) [] h k = cc
memcmp_trans (x ∷ xs) (y ∷ ys) (z ∷ zs) h k = ground (arith, memcmp_trans xs ys zs)

abbrev pub u8 : ℕ → ℕ
u8 n = n % 2 ^ 8

abbrev pub u32 : ℕ → ℕ
u32 n = n % 2 ^ 32

abbrev pub u64 : ℕ → ℕ
u64 n = n % 2 ^ 64

-- `a - b` of `size_t` operands below 2^64.
abbrev pub sub64 : ℕ → ℕ → ℕ
sub64 a b = (a + 2 ^ 64 - b) % 2 ^ 64

pub sub64_exact : (a b : ℕ) → b ≤ a → a < 2 ^ 64 → sub64 a b ≡ a - b
sub64_exact a b h k = omega arith

-- A test of all numbers below a limit, one by one, for tables of bytes.
unfoldable pub holds_below : (ℕ → Bool) → ℕ → Bool
holds_below test zero = true
holds_below test (suc limit) = holds_below test limit && test limit

pub holds_below-true :
    (test : ℕ → Bool) (n limit : ℕ) → n < limit → holds_below test limit ≡ true → test n ≡ true
unfolding holds_below
holds_below-true test n zero below ok = absurd (omega arith)
holds_below-true test n (suc limit) below ok = ground (arith, holds_below-true test n limit)
