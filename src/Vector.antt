-- ===== src/Vector.antt =====
-- src/opentracker/ot_vector.c and include/opentracker/ot_vector.h: the growing sorted array. The
-- live members are a list, so `vector->size` is its length; a place in the array is an index.
-- `none` stands for a read outside the array or an endless loop, `null` for a failed realloc.
pub mod Search
pub mod Ordered
pub mod Insert
pub mod Space
pub mod Weight
use tstracker.Base.{
  ℕ, zero, suc, ◌+◌, ◌-◌, ◌*◌, ◌/◌, ◌%◌, ◌^◌, Bool, true, false, not, ◌&&◌, Option, none, some,
  List, [], Ordering, length, get_elem?, get_or, insert_at, remove_at, u32, u64, ltb, leb, ◌==◌,
  if◌then◌else◌, ◌>>=◌,
}

abbrev pub min_members : ℕ
min_members = 2

abbrev pub grow_ratio : ℕ
grow_ratio = 2

abbrev pub shrink_thresh : ℕ
shrink_thresh = 4

abbrev pub shrink_ratio : ℕ
shrink_ratio = 2

pub record Vector {ℓ} (A : Type ℓ) : Type ℓ where
  pub items : List A
  pub space : ℕ

abbrev pub size {ℓ} : {A : Type ℓ} → Vector A → ℕ
size v = length v.items

-- What `vector_find_or_insert` and its callers are handed: the place, `*exactmatch`, the vector.
pub data Found {ℓ} (P : Type 0) (V : Type ℓ) : Type ℓ where
  null : Found P V
  found : P → ℕ → V → Found P V

module _ {ℓ} {A : Type ℓ} (cmp : A → Ordering) where
  -- `cmp x` is `memcmp( x, key, compare_size )`; `*exactmatch` receives the low 32 bits of the
  -- interval. What the `elim` of the body binds waits, so a call is made only where C loops.
  unfoldable pub search_loop : List A → ℕ → ℕ → ℕ → Option (ℕ × ℕ)
  search_loop items zero interval base = none
  search_loop items (suc fuel) zero base = some (base, 0)
  search_loop items (suc fuel) (suc n) base =
      let interval = suc n in
      let lookat = base + interval / 2 in
      elim (get_elem? items lookat) [
        | none ↦ none
        | some x ↦ elim (cmp x) [
          | Ordering.eq ↦ some (lookat, u32 interval)
          | Ordering.lt ↦ search_loop items fuel ((interval - 1) / 2) (lookat + 1)
          | Ordering.gt ↦ search_loop items fuel (interval / 2) base
        ]
      ]

  unfoldable pub binary_search : List A → Option (ℕ × ℕ)
  unfolding search_loop
  binary_search items = search_loop items (suc (length items)) (length items) 0

-- `memmove` up by one: the place opened still holds its old member, or what lay past the end.
abbrev pub open_place {ℓ} : {A : Type ℓ} → A → ℕ → List A → List A
open_place junk i xs = insert_at i (get_or xs i junk) xs

abbrev pub grown_space : ℕ → ℕ
grown_space space = if space == 0 then min_members else u64 (grow_ratio * space)

-- The part of the two insert functions after the search found no match.
-- `realloc_ok n` tells if a realloc to `n` bytes succeeds at this moment.
unfoldable pub make_room {ℓ} : {A : Type ℓ} → ℕ → (ℕ → Bool) → A → Vector A → ℕ → Found ℕ (Vector A)
make_room member_size realloc_ok junk v i =
    let new_space = grown_space v.space in
    if ltb v.space (size v + 1)
    then (if realloc_ok (u64 (new_space * member_size))
        then found i 0 (record { items = open_place junk i v.items; space = new_space })
        else null)
    else found i 0 (record v { items = open_place junk i v.items })

unfoldable pub vector_find_or_insert {ℓ} :
    {A : Type ℓ} → ℕ → (A → Ordering) → (ℕ → Bool) → A → Vector A → Option (Found ℕ (Vector A))
unfolding binary_search make_room
vector_find_or_insert member_size cmp realloc_ok junk v = do
  (i, exactmatch) ← binary_search cmp v.items
  some (if exactmatch == 0 then make_room member_size realloc_ok junk v i else found i exactmatch v)

-- The loop of `vector_fixup_peers`.
unfoldable pub shrink_loop : ℕ → ℕ → ℕ → ℕ
shrink_loop zero size space = space
shrink_loop (suc fuel) size space =
    let rest = shrink_loop fuel size (space / shrink_ratio) in
    if ltb (size * shrink_thresh) space && leb (shrink_ratio * min_members) space
    then rest
    else space

-- A realloc to a smaller block is taken to succeed, as the source takes it.
unfoldable pub vector_fixup_peers {ℓ} : {A : Type ℓ} → Vector A → Vector A
unfolding shrink_loop
vector_fixup_peers v =
    if size v == 0
    then record { items = []; space = 0 }
    else record v { space = shrink_loop v.space (size v) v.space }

-- The torrent's peer list is freed with it.
unfoldable pub vector_remove_torrent {ℓ} : {A : Type ℓ} → Vector A → ℕ → Vector A
vector_remove_torrent v i =
    if size v == 0
    then v
    else (let left = size v - 1 in
        record {
          items = remove_at i v.items;
          space =
              if ltb (left * shrink_thresh) v.space && leb (shrink_ratio * min_members) v.space
              then v.space / shrink_ratio
              else v.space;
        })
