-- ===== src/Clean.antt =====
-- src/opentracker/ot_clean.c: peers that have not announced themselves for 45 minutes are dropped,
-- and torrents nobody asks for. Times are minutes; a clock may go back, so they are integers.
pub mod Survivors
pub mod Sweep
pub mod Torrent
use tstracker.Base.{
  ℕ, zero, suc, ◌+◌, ◌-◌, ◌^◌, Bool, true, false, not, ◌||◌, Option, none, some, List, [], ◌∷◌,
  ◌++◌, length, ltb, sub64, ◌==◌, if◌then◌else◌, ◌>>=◌,
}
use tstracker.Base.Int.{ℤ, pos, negsuc, ◌+ℤ◌, ◌-ℤ◌, ltb_ℤ, byte_of}
use tstracker.Peer.{Peer, is_seeding, peer_timeout, torrent_timeout, peer_bucket_mincount}
use tstracker.Peerlist.{Peerlist}
use tstracker.Vector.{Vector, size, vector_fixup_peers}
use tstracker.Peers.{Peers, plain, buckets, has_buckets}
use tstracker.Peers.Redistribute.{Memory, vectors, vector_redistribute_buckets}

-- `timedout + OT_PEERTIME( peers )`
abbrev pub timediff : ℤ → Peer → ℤ
timediff timedout p = timedout +ℤ pos p.time

unfoldable pub is_fresh : ℤ → Peer → Bool
is_fresh timedout p = ltb_ℤ (timediff timedout p) (pos peer_timeout)

unfoldable pub aged : ℤ → Peer → Peer
aged timedout p = record p { time = byte_of (timediff timedout p) }

-- The first loop: up to the first peer that has timed out. The second value is what is left.
unfoldable pub age_loop : ℤ → List Peer → List Peer × List Peer
age_loop timedout [] = ([], [])
age_loop timedout (p ∷ ps) =
    let rest = age_loop timedout ps in
    if is_fresh timedout p then (aged timedout p ∷ rest.0, rest.1) else ([], p ∷ ps)

-- The second loop: what it copies to the insert point, and the seeders among what it skips.
unfoldable pub copy_loop : ℤ → List Peer → List Peer × ℕ
copy_loop timedout [] = ([], 0)
copy_loop timedout (p ∷ ps) =
    let rest = copy_loop timedout ps in
    if is_fresh timedout p
    then (aged timedout p ∷ rest.0, rest.1)
    else (rest.0, (if is_seeding p then rest.1 + 1 else rest.1))

pub record Cleaned : Type 0 where
  pub kept : List Peer
  pub removed : ℕ
  pub removed_seeders : ℕ

unfoldable pub clean_single_bucket : ℤ → List Peer → Cleaned
clean_single_bucket timedout ps =
    let (aged_peers, left) = age_loop timedout ps in
    let (copied, seeders) = copy_loop timedout left in
    record {
      kept = aged_peers ++ copied;
      removed = length left - length copied;
      removed_seeders = seeders;
    }

-- One round of the loop over the buckets.
unfoldable pub clean_vector : ℤ → Vector Peer → Vector Peer
clean_vector timedout v =
    let c = clean_single_bucket timedout v.items in
    let w : Vector Peer = record v { items = c.kept } in
    if ltb (size w) c.removed then vector_fixup_peers w else w

pub record Swept : Type 0 where
  pub vectors : List (Vector Peer)
  pub peer_count : ℕ
  pub removed_seeders : ℕ
  pub update_stats : Bool

-- The seeders are counted beyond the range of an `int` here; `sweep_torrent` has the fault there.
unfoldable pub sweep_loop : ℤ → List (Vector Peer) → ℕ → ℕ → Bool → Swept
sweep_loop timedout [] peer_count seeders update = record {
  vectors = [];
  peer_count = peer_count;
  removed_seeders = seeders;
  update_stats = update;
}
sweep_loop timedout (v ∷ vs) peer_count seeders update =
    let c = clean_single_bucket timedout v.items in
    let seeders' = seeders + c.removed_seeders in
    let update' = update || (ltb 0 c.removed || ltb 0 seeders') in
    let rest = sweep_loop timedout vs (sub64 peer_count c.removed) seeders' update' in
    record rest { vectors = clean_vector timedout v ∷ rest.vectors }

abbrev pub sweep_peers : Peers → List (Vector Peer) → Option Peers
sweep_peers (plain v) (w ∷ []) = some (plain w)
sweep_peers (plain v) ws = none
sweep_peers (buckets vs) ws = some (buckets ws)

-- `int removed_seeders`, which is counted up: a fault where it overflows on the way.
abbrev pub int_or_fault : ℕ → Option ℕ
int_or_fault n = if ltb n (2 ^ 31) then some n else none

-- `clean_single_torrent` from the loop on: the return value, the peer list, and if
-- `ts_update_torrent_stats` is called on it.
unfoldable pub sweep_torrent : Memory → ℤ → ℤ → Peerlist → Option (ℕ × Peerlist × Bool)
sweep_torrent mem now timedout l = do
  let s = sweep_loop timedout (vectors l.peers) l.peer_count 0 false
  removed_seeders ← int_or_fault s.removed_seeders
  swept ← sweep_peers l.peers s.vectors
  peers ←
      (if ltb peer_bucket_mincount s.peer_count || has_buckets swept
        then vector_redistribute_buckets mem s.peer_count swept
        else some swept)
  some (
    0,
    record {
      base = if s.peer_count == 0 then now -ℤ pos peer_timeout else now;
      seed_count = sub64 l.seed_count removed_seeders;
      peer_count = s.peer_count;
      down_count = l.down_count;
      peers = peers;
    },
    s.update_stats,
  )

abbrev pub is_zero : ℤ → Bool
is_zero (pos n) = n == 0
is_zero (negsuc n) = false

unfoldable pub clean_single_torrent : Memory → ℤ → Peerlist → Option (ℕ × Peerlist × Bool)
clean_single_torrent mem now l =
    let timedout = now -ℤ l.base in
    if is_zero timedout
    then some (0, l, false)
    else if ltb_ℤ (pos torrent_timeout) timedout
    then some (1, l, false)
    else if ltb_ℤ (pos peer_timeout) timedout
    then (if l.peer_count == 0
        then some ((if l.down_count == 0 then 1 else 0), l, false)
        else sweep_torrent mem now (pos peer_timeout) l)
    else sweep_torrent mem now timedout l
