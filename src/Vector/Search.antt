-- ===== src/Vector/Search.antt =====
-- The binary search of src/opentracker/ot_vector.c against a linear scan of the sorted array.
use tstracker.Base.{
  ℕ, zero, suc, ◌+◌, ◌-◌, ◌/◌, ◌^◌, ◌≤◌, ◌<◌, ◌≡◌, ◌≢◌, ◌∙◌, refl, inl, inr, Bool, true, false, not,
  Option, some, List, [], ◌∷◌, Ordering, arith, length, get_elem?, get_elem?-some, All, u32, ◌==◌,
  memcmp, memcmp→eq, memcmp_flip, memcmp_flip_gt, memcmp_trans, Ordering-cases,
}
use tstracker.Vector.{search_loop, binary_search}

-- How the member at an index compares; past the end it counts as greater.
abbrev pub at {ℓ} : {A : Type ℓ} → (A → Ordering) → List A → ℕ → Ordering
at cmp [] i = Ordering.gt
at cmp (x ∷ xs) zero = cmp x
at cmp (x ∷ xs) (suc i) = at cmp xs i

module _ {ℓ} {A : Type ℓ} (cmp : A → Ordering) where
  -- The linear scan: where the first member that is not smaller stands, and if it is equal.
  unfoldable pub locate : List A → ℕ × Bool
  locate [] = (0, false)
  locate (x ∷ xs) = elim (cmp x) [
    | Ordering.lt ↦ (suc (locate xs).0, (locate xs).1)
    | Ordering.eq ↦ (0, true)
    | Ordering.gt ↦ (0, false)
  ]

  pub at-get_elem? : (xs : List A) (i : ℕ) {x : A} → get_elem? xs i ≡ some x → at cmp xs i ≡ cmp x
  at-get_elem? [] i h = cc
  at-get_elem? (x ∷ xs) zero h = ground arith
  at-get_elem? (x ∷ xs) (suc i) h = at-get_elem? xs i h

  at_end : (xs : List A) → at cmp xs (length xs) ≡ Ordering.gt
  at_end [] = refl
  at_end (x ∷ xs) = at_end xs

  locate_eq :
      (xs : List A) (i : ℕ)
      → ((j : ℕ) → j < i → at cmp xs j ≡ Ordering.lt)
      → at cmp xs i ≡ Ordering.eq
      → locate xs ≡ (i, true)
  unfolding locate
  locate_eq [] i h e = cc
  locate_eq (x ∷ xs) zero h e = ground arith
  locate_eq (x ∷ xs) (suc i) h e =
      ground (arith, h 0, locate_eq xs i (λ j p. h (suc j) (omega arith)) e)

  locate_gt :
      (xs : List A) (i : ℕ)
      → i ≤ length xs
      → ((j : ℕ) → j < i → at cmp xs j ≡ Ordering.lt)
      → at cmp xs i ≡ Ordering.gt
      → locate xs ≡ (i, false)
  unfolding locate
  locate_gt [] zero b h e = refl
  locate_gt [] (suc i) b h e = absurd (omega arith)
  locate_gt (x ∷ xs) zero b h e = ground arith
  locate_gt (x ∷ xs) (suc i) b h e =
      ground (arith, h 0, locate_gt xs i (omega arith) (λ j p. h (suc j) (omega arith)) e)

  abbrev pub Ascending : List A → Type 0
  Ascending xs = (i j : ℕ) → i < j → at cmp xs i ≢ Ordering.lt → at cmp xs j ≡ Ordering.gt

  -- The search succeeds, at the place of the scan, and `*exactmatch` tells if there is a match.
  abbrev pub Finds : List A → Option (ℕ × ℕ) → Type 0
  Finds xs r = (e : ℕ) × (r ≡ some ((locate xs).0, e)) × ((e == 0) ≡ not (locate xs).1)

  module _ (xs : List A) (short : length xs < 2 ^ 32) (asc : Ascending xs) where
    below_of_lt :
        (i j k : ℕ) → at cmp xs i ≡ Ordering.lt → k ≡ i + 1 → j < k → at cmp xs j ≡ Ordering.lt
    below_of_lt i j k e q p = ground (arith, asc j i)

    before : (i j : ℕ) → at cmp xs i ≡ Ordering.eq → j < i → at cmp xs j ≡ Ordering.lt
    before i j e p = ground (arith, asc j i, Ordering-cases (at cmp xs j))

    search_loop-Finds :
        (fuel interval base : ℕ)
        → interval < fuel
        → base + interval ≤ length xs
        → ((j : ℕ) → j < base → at cmp xs j ≡ Ordering.lt)
        → at cmp xs (base + interval) ≡ Ordering.gt
        → Finds xs (search_loop cmp xs fuel interval base)
    unfolding search_loop
    search_loop-Finds zero interval base f b lo hi = absurd (omega arith)
    search_loop-Finds (suc fuel) zero base f b lo hi =
        let e : base + 0 ≡ base = omega arith in
        let l = locate_gt xs base (omega arith) lo (rw e at hi) in (0, ground arith, ground arith)
    search_loop-Finds (suc fuel) (suc n) base f b lo hi =
        let (x, ex) = get_elem?-some xs (base + suc n / 2) (omega arith) in
        let ax = at-get_elem? xs (base + suc n / 2) ex in
        elim (Ordering-cases (cmp x)) [
          | inl c ↦
              rw (ex, search_loop)
                (rw c (
                  search_loop-Finds fuel ((suc n - 1) / 2) (base + suc n / 2 + 1) (omega arith)
                    (omega arith)
                    (λ j. below_of_lt (base + suc n / 2) j (base + suc n / 2 + 1) (ax ∙ c) refl)
                    (let q : base + suc n / 2 + 1 + (suc n - 1) / 2 ≡ base + suc n = omega arith in
                      rw q hi)))
          | inr (inl c) ↦
              rw (ex, search_loop)
                (rw c (
                  let l =
                    locate_eq xs (base + suc n / 2) (λ j p. before (base + suc n / 2) j (ax ∙ c) p)
                      (ax ∙ c) in
                  (u32 (suc n), ground arith, ground arith)))
          | inr (inr c) ↦
              rw (ex, search_loop)
                (rw c
                  (search_loop-Finds fuel (suc n / 2) base (omega arith) (omega arith) lo (ax ∙ c)))
        ]

    pub binary_search-Finds : Finds xs (binary_search cmp xs)
    unfolding binary_search
    binary_search-Finds =
        search_loop-Finds (suc (length xs)) (length xs) 0 (omega arith) (omega arith)
          (λ j p. absurd (omega arith))
          (let q : 0 + length xs ≡ length xs = omega arith in rw q (at_end xs))

-- An array in the strict order of its keys.
module _ {ℓ} {A : Type ℓ} (key : A → List ℕ) where
  abbrev pub Less : A → A → Type 0
  Less x y = memcmp (key x) (key y) ≡ Ordering.lt

  abbrev pub IsSorted : List A → Type 0
  IsSorted [] = Unit
  IsSorted (x ∷ xs) = All (Less x) xs × IsSorted xs

  abbrev pub against : List ℕ → A → Ordering
  against k x = memcmp (key x) k

  pub above_of_Less :
      (k : List ℕ) (x y : A) → Less x y → against k x ≢ Ordering.lt → against k y ≡ Ordering.gt
  above_of_Less k x y h n = elim (Ordering-cases (against k x)) [
    | inl c ↦ absurd (n c)
    | inr (inl c) ↦ memcmp_flip k (key y) (rw (memcmp→eq (key x) k c) at h)
    | inr (inr c) ↦
        memcmp_flip k (key y) (memcmp_trans k (key x) (key y) (memcmp_flip_gt (key x) k c) h)
  ]

  at-Less :
      (k : List ℕ) (x : A) (xs : List A) (j : ℕ)
      → All (Less x) xs
      → against k x ≢ Ordering.lt
      → at (against k) xs j ≡ Ordering.gt
  at-Less k x [] j a n = refl
  at-Less k x (y ∷ ys) zero a n = above_of_Less k x y a.0 n
  at-Less k x (y ∷ ys) (suc j) a n = at-Less k x ys j a.1 n

  pub IsSorted-Ascending : (k : List ℕ) (xs : List A) → IsSorted xs → Ascending (against k) xs
  IsSorted-Ascending k [] s i j p n = refl
  IsSorted-Ascending k (x ∷ xs) s zero zero p n = absurd (omega arith)
  IsSorted-Ascending k (x ∷ xs) s zero (suc j) p n = at-Less k x xs j s.0 n
  IsSorted-Ascending k (x ∷ xs) s (suc i) zero p n = absurd (omega arith)
  IsSorted-Ascending k (x ∷ xs) s (suc i) (suc j) p n =
      IsSorted-Ascending k xs s.1 i j (omega arith) n

  -- On a sorted array of fewer than 2^32 members the search returns, without reading outside the
  -- array, the place that a linear scan finds, and `*exactmatch` is zero exactly when the scan
  -- finds no member with the key.
  pub binary_search-locate :
      (k : List ℕ) (xs : List A)
      → IsSorted xs
      → length xs < 2 ^ 32
      → Finds (against k) xs (binary_search (against k) xs)
  binary_search-locate k xs s short =
      binary_search-Finds (against k) xs short (IsSorted-Ascending k xs s)
