-- ===== src/Vector/Weight.antt =====
-- Sums over a sorted array: how putting and dropping a member changes a count.
use tstracker.Base.{ℕ, ◌+◌, ◌≡◌, Option, none, some, List, [], ◌∷◌, ◌++◌, arith}
use tstracker.Vector.Ordered.{find, put, drop_key, find_above}
use tstracker.Vector.Search.{IsSorted}

module _ {A : Type 0} (w : A → ℕ) where
  abbrev pub sum_by : List A → ℕ
  sum_by [] = 0
  sum_by (x ∷ xs) = w x + sum_by xs

  abbrev pub weight? : Option A → ℕ
  weight? none = 0
  weight? (some x) = w x

  pub sum_by-append : (xs ys : List A) → sum_by (xs ++ ys) ≡ sum_by xs + sum_by ys
  sum_by-append [] ys = omega arith
  sum_by-append (x ∷ xs) ys = omega (arith, sum_by-append xs ys)

  module _ (key : A → List ℕ) where
    pub sum_by-put :
        (x : A) (xs : List A)
        → IsSorted key xs
        → sum_by (put key x xs) + weight? (find key (key x) xs) ≡ sum_by xs + w x
    unfolding put find
    sum_by-put x [] s = omega arith
    sum_by-put x (y ∷ ys) s = ground (arith, sum_by-put x ys s.1, find_above key (key x) y ys s.0)

    pub sum_by-drop :
        (k : List ℕ) (xs : List A)
        → IsSorted key xs
        → sum_by (drop_key key k xs) + weight? (find key k xs) ≡ sum_by xs
    unfolding drop_key find
    sum_by-drop k [] s = omega arith
    sum_by-drop k (y ∷ ys) s = ground (arith, sum_by-drop k ys s.1, find_above key k y ys s.0)
