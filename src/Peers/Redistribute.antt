-- ===== src/Peers/Redistribute.antt =====
-- `vector_redistribute_buckets` of src/opentracker/ot_vector.c: changing the number of buckets. The
-- two nested loops over the old buckets visit their peers in order, as one list.
pub mod Sort
pub mod Select
pub mod Move
pub mod Kept
use tstracker.Base.{
  ℕ, zero, suc, ◌+◌, ◌*◌, ◌/◌, ◌^◌, Bool, true, false, ◌&&◌, Option, none, some, List, [], ◌∷◌,
  ◌++◌, map, take, ◌>>=◌, Ordering, length, get_elem?, set, replicate, u32, u64, memcmp, ltb, leb,
  ◌==◌, if◌then◌else◌,
}
use tstracker.Peer.{Peer, sizeof_peer}
use tstracker.Vector.{Vector, size, min_members, grow_ratio}
use tstracker.Peers.{Peers, plain, buckets, vector_hash_peer}

-- Which allocations succeed: of the bucket list, of the n-th bucket, and of the growth that the
-- n-th peer moved asks for; each is asked for a number of bytes.
pub record Memory : Type 0 where
  pub list_ok : ℕ → Bool
  pub bucket_ok : ℕ → ℕ → Bool
  pub grow_ok : ℕ → ℕ → Bool

abbrev pub sizeof_vector : ℕ
sizeof_vector = 24

abbrev pub vectors : Peers → List (Vector Peer)
vectors (plain v) = v ∷ []
vectors (buckets vs) = vs

abbrev pub members : List (Vector Peer) → List Peer
members [] = []
members (v ∷ vs) = v.items ++ members vs

-- The peers that the loop over the old buckets visits: `int peer_count_old` takes the size of each,
-- and counts down from it. A negative value makes the loop leave the array.
unfoldable pub old_members : List (Vector Peer) → Option (List Peer)
old_members [] = some []
old_members (v ∷ vs) =
    let rest = old_members vs in
    if ltb (u32 (size v)) (2 ^ 31)
    then (rest >>= λ ps. some (take (u32 (size v)) v.items ++ ps))
    else none

unfoldable pub num_buckets_new : ℕ → ℕ → ℕ
num_buckets_new peer_count old =
    if ltb peer_count 255
    then 1
    else if ltb 8192 peer_count
    then 64
    else if leb 512 peer_count && ltb peer_count 4096
    then 16
    else if ltb peer_count 512 && leb old 16
    then old
    else if ltb peer_count 512
    then 1
    else if ltb peer_count 8192 && ltb 1 old
    then old
    else 16

-- A `size_t` stored in an `int`: the loop that reads it takes a negative value as 0.
abbrev pub int_of : ℕ → ℕ
int_of n = if ltb (u32 n) (2 ^ 31) then u32 n else 0

-- `while( bucket_size_new < tmp ) bucket_size_new *= OT_VECTOR_GROW_RATIO`
unfoldable pub bucket_size : ℕ → ℕ → ℕ → ℕ
bucket_size zero size tmp = size
bucket_size (suc fuel) size tmp =
    let rest = bucket_size fuel (size * grow_ratio) tmp in if ltb size tmp then rest else size

-- Every malloc of the loop over the buckets, from the last to the first.
unfoldable pub all_buckets_ok : (ℕ → ℕ → Bool) → ℕ → ℕ → Bool
all_buckets_ok bucket_ok bytes zero = true
all_buckets_ok bucket_ok bytes (suc n) = all_buckets_ok bucket_ok bytes n && bucket_ok n bytes

pub data Moved : Type 0 where
  fault no_memory : Moved
  done : List (Vector Peer) → Moved

abbrev pub dest : ℕ → List ℕ → ℕ
dest n addr = if ltb 1 n then vector_hash_peer addr n else 0

unfoldable pub move_peer : ℕ → (ℕ → Bool) → Peer → List (Vector Peer) → Moved
move_peer n grow_ok p vs = elim (get_elem? vs (dest n p.addr)) [
  | none ↦ fault
  | some v ↦
      if ltb v.space (size v + 1)
      then (if grow_ok (u64 (sizeof_peer * grow_ratio * v.space))
          then done (
              set vs (dest n p.addr)
                (record { items = v.items ++ p ∷ []; space = u64 (v.space * grow_ratio) }))
          else no_memory)
      else done (set vs (dest n p.addr) (record v { items = v.items ++ p ∷ [] }))
]

unfoldable pub move_all : ℕ → (ℕ → ℕ → Bool) → ℕ → List Peer → List (Vector Peer) → Moved
unfolding move_peer
move_all n grow_ok k [] vs = done vs
move_all n grow_ok k (p ∷ ps) vs = elim (move_peer n (grow_ok k) p vs) [
  | fault ↦ fault
  | no_memory ↦ no_memory
  | done ws ↦ move_all n grow_ok (suc k) ps ws
]

-- libc's `qsort` with `vector_compare_peer`.
unfoldable pub sort_insert : Peer → List Peer → List Peer
sort_insert x [] = x ∷ []
sort_insert x (y ∷ ys) = elim (memcmp y.addr x.addr) [
  | Ordering.lt ↦ y ∷ sort_insert x ys
  | _ ↦ x ∷ y ∷ ys
]

unfoldable pub qsort : List Peer → List Peer
unfolding sort_insert
qsort [] = []
qsort (x ∷ xs) = sort_insert x (qsort xs)

abbrev pub sort_vector : Vector Peer → Vector Peer
sort_vector v = record v { items = qsort v.items }

abbrev pub link : ℕ → List (Vector Peer) → Option Peers
link n vs = if ltb 1 n then some (buckets vs) else elim vs [ [] ↦ none | v ∷ _ ↦ some (plain v) ]

abbrev pub new_size : ℕ → ℕ → ℕ
new_size peer_count n = bucket_size 64 min_members (int_of (peer_count / n))

unfoldable pub rebuild : Memory → ℕ → ℕ → Peers → Option Peers
unfolding all_buckets_ok move_all qsort bucket_size old_members
rebuild mem peer_count n ps =
    let space = new_size peer_count n in
    let empty : Vector Peer = record { items = []; space = space } in
    if all_buckets_ok mem.bucket_ok (u64 (space * sizeof_peer)) n
    then (old_members (vectors ps) >>= λ xs.
        elim (move_all n mem.grow_ok 0 xs (replicate n empty)) [
          | fault ↦ none
          | no_memory ↦ some ps
          | done vs ↦ link n (map sort_vector vs)
        ])
    else some ps

unfoldable pub vector_redistribute_buckets : Memory → ℕ → Peers → Option Peers
unfolding num_buckets_new rebuild
vector_redistribute_buckets mem peer_count ps =
    let old = length (vectors ps) in
    let n = num_buckets_new peer_count old in
    if n == old
    then some ps
    else if mem.list_ok (u64 (n * sizeof_vector))
    then rebuild mem peer_count n ps
    else some ps
