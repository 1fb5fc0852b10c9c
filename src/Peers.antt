-- ===== src/Peers.antt =====
-- The peers of one torrent: `peer_list->peers` of include/opentracker/trackerlogic.h with the peer
-- operations of src/opentracker/ot_vector.c. C keeps one vector, or, marked by `space` 0 below
-- `size`, an array of vectors among which the peers are spread by their hash.
pub mod Spread
pub mod Update
pub mod Removal
pub mod Redistribute
use tstracker.Base.{
  ℕ, zero, suc, ◌+◌, ◌*◌, ◌%◌, Bool, true, false, not, Option, none, some, List, [], ◌∷◌, Ordering,
  length, get_elem?, set, remove_at, u8, u32, ltb, ◌==◌, if◌then◌else◌, ◌>>=◌,
}
use tstracker.Peer.{Peer, sizeof_peer, is_seeding}
use tstracker.Vector.{
  Vector, Found, null, found, size, binary_search, vector_find_or_insert, vector_fixup_peers,
}
use tstracker.Vector.Search.{against}

pub data Peers : Type 0 where
  plain : Vector Peer → Peers
  buckets : List (Vector Peer) → Peers

-- `peers.size` and `peers.space` as C has them.
abbrev pub outer_size : Peers → ℕ
outer_size (plain v) = size v
outer_size (buckets vs) = length vs

abbrev pub outer_space : Peers → ℕ
outer_space (plain v) = v.space
outer_space (buckets vs) = 0

-- OT_PEERLIST_HASBUCKETS
unfoldable pub has_buckets : Peers → Bool
has_buckets ps = ltb (outer_space ps) (outer_size ps)

unfoldable pub hash_loop : ℕ → List ℕ → ℕ
hash_loop hash [] = hash
hash_loop hash (b ∷ bs) = hash_loop (u32 (hash + (u32 (hash * 32) + b))) bs

unfoldable pub vector_hash_peer : List ℕ → ℕ → ℕ
unfolding hash_loop
vector_hash_peer addr bucket_count = u8 (hash_loop 5381 addr % bucket_count)

abbrev pub cmp_addr : List ℕ → Peer → Ordering
cmp_addr addr = against Peer.addr addr

-- A place is a bucket (0 in a plain vector) and an index in it.
abbrev pub in_plain : Found ℕ (Vector Peer) → Found (ℕ × ℕ) Peers
in_plain null = null
in_plain (found i e w) = found (0, i) e (plain w)

abbrev pub in_bucket : List (Vector Peer) → ℕ → Found ℕ (Vector Peer) → Found (ℕ × ℕ) Peers
in_bucket vs b null = null
in_bucket vs b (found i e w) = found (b, i) e (buckets (set vs b w))

unfoldable pub vector_find_or_insert_peer :
    (ℕ → Bool) → Peer → List ℕ → Peers → Option (Found (ℕ × ℕ) Peers)
unfolding vector_find_or_insert vector_hash_peer
vector_find_or_insert_peer realloc_ok junk addr (plain v) = do
  r ← vector_find_or_insert sizeof_peer (cmp_addr addr) realloc_ok junk v
  some (in_plain r)
vector_find_or_insert_peer realloc_ok junk addr (buckets vs) = do
  let b = vector_hash_peer addr (length vs)
  v ← get_elem? vs b
  r ← vector_find_or_insert sizeof_peer (cmp_addr addr) realloc_ok junk v
  some (in_bucket vs b r)

-- `*peer_dest`, and `memcpy( peer_dest, peer, sizeof( ot_peer ) )`.
unfoldable pub read_peer : Peers → ℕ × ℕ → Option Peer
read_peer (plain v) (b, i) = get_elem? v.items i
read_peer (buckets vs) (b, i) = do v ← get_elem? vs b; get_elem? v.items i

abbrev pub write_item : Vector Peer → ℕ → Peer → Vector Peer
write_item v i p = record v { items = set v.items i p }

unfoldable pub write_peer : Peers → ℕ × ℕ → Peer → Peers
write_peer (plain v) (b, i) p = plain (write_item v i p)
write_peer (buckets vs) (b, i) p = elim (get_elem? vs b) [
  | none ↦ buckets vs
  | some v ↦ buckets (set vs b (write_item v i p))
]

-- The body of `vector_remove_peer` once the vector is chosen.
unfoldable pub remove_from : List ℕ → Vector Peer → Option (ℕ × Vector Peer)
unfolding binary_search vector_fixup_peers
remove_from addr v = do
  (i, exactmatch) ← binary_search (cmp_addr addr) v.items
  let miss = some (0, v)
  let hit = do
    match ← get_elem? v.items i
    some (
      (if is_seeding match then 2 else 1),
      vector_fixup_peers (record v { items = remove_at i v.items }),
    )
  if exactmatch == 0 then miss else hit

unfoldable pub vector_remove_peer : List ℕ → Peers → Option (ℕ × Peers)
unfolding remove_from vector_hash_peer
vector_remove_peer addr (plain v) =
    if size v == 0
    then some (0, plain v)
    else do (code, w) ← remove_from addr v; some (code, plain w)
vector_remove_peer addr (buckets vs) = if length vs == 0 then some (0, buckets vs) else do
  let b = vector_hash_peer addr (length vs)
  v ← get_elem? vs b
  (code, w) ← remove_from addr v
  some (code, buckets (set vs b w))
