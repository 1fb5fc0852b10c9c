-- ===== src/Vector/Insert.antt =====
-- What `vector_find_or_insert` of src/opentracker/ot_vector.c does on every branch.
use tstracker.Base.{
  ℕ, zero, suc, ◌+◌, ◌*◌, ◌^◌, ◌≤◌, ◌<◌, ◌≡◌, ◌≢◌, refl, inl, inr, Bool, true, false, Option, none,
  some, List, u64, arith, get_elem?, get_or, set, set-insert_at, remove_at, remove_at-insert_at,
  length-insert_at, ◌==◌, Bool-cases,
}
use tstracker.Vector.{
  Vector, Found, null, found, size, grown_space, make_room, vector_find_or_insert,
}
use tstracker.Vector.Search.{locate, IsSorted, against, binary_search-locate}
use tstracker.Vector.Ordered.{
  find, put, locate_hit-put, locate_miss-put, locate_le, locate_hit-find, locate_miss-find,
}
use tstracker.Vector.Space.{Fits, IsBounded, grown_space_room}

module _ {A : Type 0} (key : A → List ℕ) (x : A) (m : ℕ) (realloc_ok : ℕ → Bool)
    (v : Vector A) where
  -- What the caller is handed, and what the array is once it has written `x` to the place.
  abbrev pub Outcome : Option (Found ℕ (Vector A)) → Type 0
  Outcome none = ⊥
  Outcome (some null) =
      (realloc_ok (u64 (grown_space v.space * m)) ≡ false)
      × (v.space ≤ size v)
      × (find key (key x) v.items ≡ none)
  Outcome (some (found i zero w)) =
      (find key (key x) v.items ≡ none)
      × (i < size w)
      × (set w.items i x ≡ put key x v.items)
      × (size w ≡ size v + 1)
      × Fits m w
      × (remove_at i w.items ≡ v.items)
  Outcome (some (found i (suc e) w)) =
      (w ≡ v)
      × (i < size v)
      × Fits m w
      × (get_elem? v.items i ≡ find key (key x) v.items)
      × (set v.items i x ≡ put key x v.items)

  module _ (junk : A) (sorted : IsSorted key v.items) (pos : 0 < m) (le : m ≤ 64)
      (bounded : IsBounded realloc_ok) (f : Fits m v) (short : size v < 2 ^ 32) where
    abbrev place : ℕ × Bool
    place = locate (against key (key x)) v.items

    make_room-Outcome : place.1 ≡ false → Outcome (some (make_room m realloc_ok junk v place.0))
    unfolding make_room
    make_room-Outcome miss = ground (
      arith,
      locate_miss-find key (key x) v.items sorted miss,
      locate_miss-put key x v.items miss,
      locate_le key (key x) v.items,
      length-insert_at place.0 (get_or v.items place.0 junk) v.items,
      remove_at-insert_at place.0 (get_or v.items place.0 junk) v.items,
      set-insert_at place.0 (get_or v.items place.0 junk) x v.items,
      grown_space_room m (size v) v.space realloc_ok pos le f.within f.small bounded,
    )

    hit-Outcome : (e : ℕ) → place.1 ≡ true → e ≢ 0 → Outcome (some (found place.0 e v))
    hit-Outcome zero hit n = absurd (n refl)
    hit-Outcome (suc e) hit n =
        let (b, g, _) = locate_hit-find key (key x) v.items hit in
        (refl, b, f, g, locate_hit-put key x v.items hit)

    -- A match is handed out where it stands; without one a place is opened in order, with space
    -- for it; and only a failed realloc of a full array gives null.
    pub vector_find_or_insert-Outcome :
        Outcome (vector_find_or_insert m (against key (key x)) realloc_ok junk v)
    unfolding vector_find_or_insert
    vector_find_or_insert-Outcome =
        let (e, r, hit) = binary_search-locate key (key x) v.items sorted short in
        rw (r, vector_find_or_insert)
          (elim (Bool-cases place.1) [
            | inl yes_hit ↦
                let n : (e == 0) ≡ false = ground arith in
                rw n (hit-Outcome e yes_hit (ground arith))
            | inr miss ↦ let z : (e == 0) ≡ true = ground arith in rw z (make_room-Outcome miss)
          ])
