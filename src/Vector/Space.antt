-- ===== src/Vector/Space.antt =====
-- The capacity of an array of src/opentracker/ot_vector.c: growing and shrinking.
use tstracker.Base.{
  ℕ, zero, suc, ◌+◌, ◌*◌, ◌/◌, ◌^◌, ◌≤◌, ◌<◌, ◌≡◌, refl, inl, inr, u64, ◌==◌, Bool-cases, Bool,
  true, false, List, [], ◌∷◌, ◌&&◌, arith, length, length-remove_at, ltb, leb,
}
use tstracker.Vector.{
  Vector, size, shrink_loop, vector_fixup_peers, vector_remove_torrent, grown_space,
}

-- What libc documents: no allocation of 2^63 bytes or more succeeds.
abbrev pub IsBounded : (ℕ → Bool) → Type 0
IsBounded ok = (n : ℕ) → ok n ≡ true → n < 2 ^ 63

-- The array is full, and the allocation for one more member fails.
abbrev pub Refuses : {A : Type 0} → (ℕ → Bool) → ℕ → Vector A → Type 0
Refuses ok member_size v =
    (v.space ≤ size v) × (ok (u64 (grown_space v.space * member_size)) ≡ false)

-- The members fit in the space, which is one block of memory.
pub record Fits {ℓ} {A : Type ℓ} (member_size : ℕ) (v : Vector A) : Type 0 where
  pub within : size v ≤ v.space
  pub small : v.space * member_size < 2 ^ 63

le_mul : (a m : ℕ) → 0 < m → a ≤ a * m
le_mul a m h = grind arith

pub mul_mono : (a b m : ℕ) → a ≤ b → a * m ≤ b * m
mul_mono a b m h = grind arith

-- Growing a full array gives room for one more, in one block again.
pub grown_space_room :
    (m n space : ℕ) (ok : ℕ → Bool)
    → 0 < m
    → m ≤ 64
    → n ≤ space
    → space * m < 2 ^ 63
    → IsBounded ok
    → ok (u64 (grown_space space * m)) ≡ true
    → (n + 1 ≤ grown_space space) × (grown_space space * m < 2 ^ 63)
grown_space_room m n space ok pos le h k bounded e = elim (Bool-cases (space == 0)) [
  | inl empty ↦ let g : grown_space space ≡ 2 = ground arith in rw g (ground arith)
  | inr more ↦
      let g : grown_space space ≡ 2 * space = ground (arith, le_mul space m pos) in
      let b = rw g at (bounded (u64 (grown_space space * m)) e) in
      rw g (ground (arith, b, le_mul space m pos))
]

-- The loop's own test, on the array as it leaves it.
abbrev pub is_slack : ℕ → ℕ → Bool
is_slack n space = ltb (n * 4) space && leb 4 space

-- With fuel for each unit of space the loop ends by its test, and cuts off no member.
pub shrink_loop_lem :
    (fuel n space : ℕ)
    → space ≤ fuel
    → n ≤ space
    → (n ≤ shrink_loop fuel n space)
      × (shrink_loop fuel n space ≤ space)
      × (is_slack n (shrink_loop fuel n space) ≡ false)
unfolding shrink_loop
shrink_loop_lem zero n space h k = ground arith
shrink_loop_lem (suc fuel) n space h k = ground (arith, shrink_loop_lem fuel n (space / 2))

pub nil_of_length {ℓ} : {A : Type ℓ} (xs : List A) → length xs ≡ 0 → xs ≡ []
nil_of_length [] h = refl
nil_of_length (x ∷ xs) h = absurd (omega arith)

module _ {A : Type 0} (v : Vector A) (m : ℕ) (f : Fits m v) where
  -- After the fixup the members are the same, they fit, and no further halving is due.
  pub vector_fixup_peers_lem :
      ((vector_fixup_peers v).items ≡ v.items)
      × Fits m (vector_fixup_peers v)
      × (is_slack (size v) (vector_fixup_peers v).space ≡ false)
  unfolding vector_fixup_peers
  vector_fixup_peers_lem = ground (
    arith,
    nil_of_length v.items,
    shrink_loop_lem v.space (size v) v.space (omega arith) f.within,
    mul_mono (shrink_loop v.space (size v) v.space) v.space m,
    f.small,
    f.within,
  )

  pub vector_remove_torrent-Fits : (i : ℕ) → i < size v → Fits m (vector_remove_torrent v i)
  unfolding vector_remove_torrent
  vector_remove_torrent-Fits i h =
      ground
        (arith, mul_mono (v.space / 2) v.space m, length-remove_at i v.items h, f.within, f.small)
