-- ===== src/Vector/Ordered.antt =====
-- Sorted arrays as maps from keys: looking up, putting and dropping a member by a linear scan.
use tstracker.Base.{
  ℕ, ◌≤◌, ◌<◌, ◌≡◌, ◌≢◌, refl, inl, inr, true, false, Option, none, some, List, [], ◌∷◌, Ordering,
  arith, length, get_elem?, set, insert_at, remove_at, All, memcmp, memcmp_self, memcmp→eq,
  memcmp_flip_gt, memcmp_trans, Ordering-cases,
}
use tstracker.Vector.Search.{locate, Less, IsSorted, against, above_of_Less}

module _ {ℓ} {A : Type ℓ} (key : A → List ℕ) where
  -- The member with the key.
  unfoldable pub find : List ℕ → List A → Option A
  find k [] = none
  find k (y ∷ ys) = elim (memcmp (key y) k) [
    | Ordering.eq ↦ some y
    | Ordering.lt ↦ find k ys
    | Ordering.gt ↦ find k ys
  ]

  -- The member takes the place of the one with its key, or goes between its neighbours.
  unfoldable pub put : A → List A → List A
  put x [] = x ∷ []
  put x (y ∷ ys) = elim (memcmp (key y) (key x)) [
    | Ordering.lt ↦ y ∷ put x ys
    | Ordering.eq ↦ x ∷ ys
    | Ordering.gt ↦ x ∷ y ∷ ys
  ]

  unfoldable pub drop_key : List ℕ → List A → List A
  drop_key k [] = []
  drop_key k (y ∷ ys) = elim (memcmp (key y) k) [
    | Ordering.lt ↦ y ∷ drop_key k ys
    | Ordering.eq ↦ ys
    | Ordering.gt ↦ y ∷ ys
  ]

  pub find_above :
      (k : List ℕ) (y : A) (ys : List A)
      → All (Less key y) ys
      → against key k y ≢ Ordering.lt
      → find k ys ≡ none
  unfolding find
  find_above k y [] a n = refl
  find_above k y (z ∷ zs) a n =
      ground (arith, above_of_Less key k y z a.0 n, find_above k y zs a.1 n)

  pub All-Less_trans :
      (x y : A) (ys : List A) → Less key x y → All (Less key y) ys → All (Less key x) ys
  All-Less_trans x y [] h a = tt
  All-Less_trans x y (z ∷ zs) h a =
      (memcmp_trans (key x) (key y) (key z) h a.0, All-Less_trans x y zs h a.1)

  pub All-put : (P : A → Type 0) (x : A) (xs : List A) → P x → All P xs → All P (put x xs)
  unfolding put
  All-put P x [] h a = (h, tt)
  All-put P x (y ∷ ys) h a = elim (Ordering-cases (memcmp (key y) (key x))) [
    | inl c ↦ rw (c, put) (a.0, All-put P x ys h a.1)
    | inr (inl c) ↦ rw (c, put) (h, a.1)
    | inr (inr c) ↦ rw (c, put) (h, a)
  ]

  All-of_key : (y x : A) (zs : List A) → key y ≡ key x → All (Less key y) zs → All (Less key x) zs
  All-of_key y x [] e a = tt
  All-of_key y x (z ∷ zs) e a = (rw e at a.0, All-of_key y x zs e a.1)

  pub put-IsSorted : (x : A) (xs : List A) → IsSorted key xs → IsSorted key (put x xs)
  unfolding put
  put-IsSorted x [] s = (tt, tt)
  put-IsSorted x (y ∷ ys) s = elim (Ordering-cases (memcmp (key y) (key x))) [
    | inl c ↦ rw (c, put) (All-put (Less key y) x ys c s.0, put-IsSorted x ys s.1)
    | inr (inl c) ↦
        rw (c, put) (let e = memcmp→eq (key y) (key x) c in (All-of_key y x ys e s.0, s.1))
    | inr (inr c) ↦
        rw (c, put)
          (let h = memcmp_flip_gt (key y) (key x) c in ((h, All-Less_trans x y ys h s.0), s))
  ]

  -- What is found after a put: the new member under its key, and what was there under any other.
  pub find-put :
      (j : List ℕ) (x : A) (xs : List A)
      → find j (put x xs) ≡ elim (memcmp (key x) j) [ Ordering.eq ↦ some x | _ ↦ find j xs ]
  unfolding find put
  find-put j x [] = ground arith
  find-put j x (y ∷ ys) = ground (
    arith,
    find-put j x ys,
    memcmp→eq (key y) (key x),
    memcmp→eq (key y) j,
    memcmp→eq (key x) j,
    memcmp_self (key x),
  )

  -- The places that `locate` gives are those of `put`, `drop_key` and `find`.
  module _ (x : A) where
    abbrev cmp : A → Ordering
    cmp = against key (key x)

    pub locate_hit-put :
        (xs : List A) → (locate cmp xs).1 ≡ true → set xs (locate cmp xs).0 x ≡ put x xs
    unfolding locate put
    locate_hit-put [] h = cc
    locate_hit-put (y ∷ ys) h = ground (arith, locate_hit-put ys)

    pub locate_miss-put :
        (xs : List A) → (locate cmp xs).1 ≡ false → insert_at (locate cmp xs).0 x xs ≡ put x xs
    unfolding locate put
    locate_miss-put [] h = refl
    locate_miss-put (y ∷ ys) h = ground (arith, locate_miss-put ys)

  module _ (k : List ℕ) where
    abbrev cmp_key : A → Ordering
    cmp_key = against key k

    pub locate_le : (xs : List A) → (locate cmp_key xs).0 ≤ length xs
    unfolding locate
    locate_le [] = omega arith
    locate_le (y ∷ ys) = ground (arith, locate_le ys)

    pub locate_hit-find :
        (xs : List A)
        → (locate cmp_key xs).1 ≡ true
        → ((locate cmp_key xs).0 < length xs)
          × (get_elem? xs (locate cmp_key xs).0 ≡ find k xs)
          × (find k xs ≢ none)
    unfolding locate find
    locate_hit-find [] h = cc
    locate_hit-find (y ∷ ys) h = ground (arith, locate_hit-find ys)

    pub locate_miss-find :
        (xs : List A) → IsSorted key xs → (locate cmp_key xs).1 ≡ false → find k xs ≡ none
    unfolding locate find
    locate_miss-find [] s h = refl
    locate_miss-find (y ∷ ys) s h = ground (arith, locate_miss-find ys s.1, find_above k y ys s.0)

    pub locate_hit-drop :
        (xs : List A)
        → (locate cmp_key xs).1 ≡ true
        → remove_at (locate cmp_key xs).0 xs ≡ drop_key k xs
    unfolding locate drop_key
    locate_hit-drop [] h = cc
    locate_hit-drop (y ∷ ys) h = ground (arith, locate_hit-drop ys)

    pub locate_miss-drop : (xs : List A) → (locate cmp_key xs).1 ≡ false → drop_key k xs ≡ xs
    unfolding locate drop_key
    locate_miss-drop [] h = refl
    locate_miss-drop (y ∷ ys) h = ground (arith, locate_miss-drop ys)

    pub All-drop : (P : A → Type 0) (xs : List A) → All P xs → All P (drop_key k xs)
    unfolding drop_key
    All-drop P [] a = tt
    All-drop P (y ∷ ys) a = elim (Ordering-cases (memcmp (key y) k)) [
      | inl c ↦ rw (c, drop_key) (a.0, All-drop P ys a.1)
      | inr (inl c) ↦ rw (c, drop_key) a.1
      | inr (inr c) ↦ rw (c, drop_key) a
    ]

    pub drop_key-IsSorted : (xs : List A) → IsSorted key xs → IsSorted key (drop_key k xs)
    unfolding drop_key
    drop_key-IsSorted [] s = tt
    drop_key-IsSorted (y ∷ ys) s = elim (Ordering-cases (memcmp (key y) k)) [
      | inl c ↦ rw (c, drop_key) (All-drop (Less key y) ys s.0, drop_key-IsSorted ys s.1)
      | inr (inl c) ↦ rw (c, drop_key) s.1
      | inr (inr c) ↦ rw (c, drop_key) s
    ]

    find_of_Less :
        (j : List ℕ) (y : A) (ys : List A)
        → All (Less key y) ys
        → memcmp (key y) j ≢ Ordering.lt
        → find j (y ∷ ys) ≡ elim (memcmp (key y) j) [ Ordering.eq ↦ some y | _ ↦ none ]
    unfolding find
    find_of_Less j y ys a n = ground (arith, find_above j y ys a n)

    -- After a drop nothing is found under the key, and what was there under any other.
    pub find-drop_key :
        (j : List ℕ) (xs : List A)
        → IsSorted key xs
        → find j (drop_key k xs) ≡ elim (memcmp k j) [ Ordering.eq ↦ none | _ ↦ find j xs ]
    unfolding find drop_key
    find-drop_key j [] s = ground arith
    find-drop_key j (y ∷ ys) s = ground (
      arith,
      find-drop_key j ys s.1,
      memcmp→eq (key y) k,
      memcmp→eq (key y) j,
      memcmp→eq k j,
      find_above j y ys s.0,
    )
