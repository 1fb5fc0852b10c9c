-- ===== src/Tracker.antt =====
-- src/opentracker/trackerlogic.c on one bucket of torrents: announcing and removing a peer, and
-- loading a saved torrent; with `ts_torrentdb_add_seedbanks` of src/terasaur/ts_export.cpp. The
-- bucket is locked throughout. The reply to a client is compiled from the list that is handed back.
pub mod Announce
pub mod Removal
pub mod Seedbanks
pub mod Bucket
pub mod Saved
pub mod Enter
pub mod Reply
pub mod Select
pub mod Response
use tstracker.Base.{
  ℕ, zero, suc, ◌+◌, ◌-◌, ◌*◌, Bool, true, false, not, ◌&&◌, Option, none, some, List, [], ◌∷◌,
  ◌++◌, Ordering, get_elem?, set, u64, sub64, ◌||◌, ◌⊎◌, inl, inr, bit_and, bit_or, bit_xor, ◌==◌,
  if◌then◌else◌, ◌>>=◌,
}
use tstracker.Base.Int.{ℤ}
use tstracker.Peer.{Peer, has_flag, flag_seeding, flag_completed, is_seeding}
use tstracker.Peerlist.{Peerlist, empty_peerlist}
use tstracker.Vector.{
  Vector, Found, null, found, binary_search, vector_find_or_insert, vector_remove_torrent,
}
use tstracker.Vector.Search.{against}
use tstracker.Peers.{Peers, vector_find_or_insert_peer, read_peer, write_peer, vector_remove_peer}
use tstracker.Peers.Redistribute.{Memory}
use tstracker.Clean.{clean_single_torrent}

pub record Torrent : Type 0 where
  pub hash : List ℕ
  pub peer_list : Peerlist

abbrev pub sizeof_torrent : ℕ
sizeof_torrent = 32

abbrev pub cmp_hash : List ℕ → Torrent → Ordering
cmp_hash hash = against Torrent.hash hash

-- What the outside decides during one call: the lists of the torrent database, the clock, and
-- which allocations succeed. `junk` is what lies in memory that was never written.
pub record Host : Type 0 where
  pub hash_is_valid : List ℕ → Bool
  pub seedbanks : List ℕ → List (List ℕ)  -- addresses, `torrentdb::get_seedbanks`
  pub now_minutes : ℤ
  pub torrents_ok : ℕ → Bool  -- realloc of the bucket
  pub peer_list_ok : Bool  -- malloc of a peer list
  pub seedbank_ok : ℕ → ℕ → Bool  -- realloc for the n-th seedbank
  pub peers_ok : ℕ → Bool  -- realloc for the peer
  pub memory : Memory
  pub junk_peer : Peer
  pub junk_torrent : Torrent

-- What is told to the statistics.
pub data Event : Type 0 where
  completed : Event
  renewed : ℕ → Event
  torrent_stats : ℕ → Event  -- `ts_update_torrent_stats`, with its `increment_completed`

abbrev pub seedbank_peer : List ℕ → Peer
seedbank_peer addr = record { addr = addr; flag = flag_seeding; time = 0 }

abbrev pub with_seedbank : Peerlist → List ℕ → Found (ℕ × ℕ) Peers → Peerlist
with_seedbank l addr null = l
with_seedbank l addr (found at exactmatch qs) =
    if exactmatch == 0
    then record l {
      seed_count = u64 (l.seed_count + 1);
      peer_count = u64 (l.peer_count + 1);
      peers = write_peer qs at (seedbank_peer addr);
    }
    else l

-- `ts_torrentdb_add_seedbanks`, from the k-th address on.
unfoldable pub add_seedbanks :
    (ℕ → ℕ → Bool) → Peer → ℕ → List (List ℕ) → Peerlist → Option Peerlist
add_seedbanks ok junk k [] l = some l
add_seedbanks ok junk k (addr ∷ addrs) l = do
  r ← vector_find_or_insert_peer (ok k) junk addr l.peers
  add_seedbanks ok junk (suc k) addrs (with_seedbank l addr r)

-- A fresh announcement; whoever claims to have completed must be a seeder.
unfoldable pub sanitize : Peer → Peer
sanitize p = record p {
  time = 0;
  flag =
      if bit_and p.flag (bit_or flag_completed flag_seeding) == flag_completed
      then bit_xor p.flag flag_completed
      else p.flag;
}

abbrev pub bump : Bool → ℕ → ℕ
bump b n = if b then u64 (n + 1) else n

-- The counters when the peer is new to the torrent.
unfoldable pub count_new : Peer → Peerlist → Peerlist
count_new p l = record l {
  peer_count = u64 (l.peer_count + 1);
  down_count = bump (has_flag p.flag flag_completed) l.down_count;
  seed_count = bump (is_seeding p) l.seed_count;
}

-- The counters when the peer takes the place of `old`.
unfoldable pub count_renewed : Peer → Peer → Peerlist → Peerlist
count_renewed old p l = record l {
  down_count =
      bump (not (has_flag old.flag flag_completed) && has_flag p.flag flag_completed) l.down_count;
  seed_count =
      bump (not (is_seeding old) && is_seeding p)
        (if is_seeding old && not (is_seeding p) then sub64 l.seed_count 1 else l.seed_count);
}

-- Once completed, always completed.
unfoldable pub carry_completed : Peer → Peer → Peer
carry_completed old p =
    if has_flag old.flag flag_completed then record p { flag = bit_or p.flag flag_completed } else p

abbrev pub one_if : Bool → ℕ
one_if b = if b then 1 else 0

abbrev pub completed_event : Bool → List Event
completed_event b = if b then completed ∷ [] else []

pub record Announced : Type 0 where
  pub list : Peerlist
  pub events : List Event
  pub stored : Bool  -- false if there was no memory for the peer

-- From the search for the peer to the `memcpy` of it.
abbrev pub announced_new : Peerlist → Peer → Peers → ℕ × ℕ → Announced
announced_new l p qs at =
    let done = has_flag p.flag flag_completed in
    record {
      list = record (count_new p l) { peers = write_peer qs at p };
      events = completed_event done ++ torrent_stats (one_if done) ∷ [];
      stored = true;
    }

abbrev pub announced_renewed : Peerlist → Peer → Peer → Peers → ℕ × ℕ → Announced
announced_renewed l old p qs at =
    let done = not (has_flag old.flag flag_completed) && has_flag p.flag flag_completed in
    record {
      list = record (count_renewed old p l) { peers = write_peer qs at (carry_completed old p) };
      events = renewed old.time ∷ completed_event done ++ torrent_stats (one_if done) ∷ [];
      stored = true;
    }

abbrev pub announce_at : Peerlist → Peer → Found (ℕ × ℕ) Peers → Option Announced
announce_at l p null = some (record { list = l; events = []; stored = false })
announce_at l p (found at exactmatch qs) =
    let renewal = read_peer qs at >>= λ old. some (announced_renewed l old (sanitize p) qs at) in
    if exactmatch == 0 then some (announced_new l (sanitize p) qs at) else renewal

unfoldable pub announce_peer : (ℕ → Bool) → Peer → Peer → Peerlist → Option Announced
announce_peer realloc_ok junk p l = do
  r ← vector_find_or_insert_peer realloc_ok junk p.addr l.peers
  announce_at l p r

-- The torrent of the hash, and 1 if it is new, as `delta_torrentcount`.
pub record Opened : Type 0 where
  pub place : ℕ
  pub torrents : Vector Torrent
  pub list : Peerlist
  pub delta : ℕ

abbrev pub write_torrent : Vector Torrent → ℕ → Torrent → Vector Torrent
write_torrent v i t = record v { items = set v.items i t }

-- A new entry, unless there is no memory for its peer list; an old one is cleaned first, whatever
-- that call returns. `inr` hands back the torrents where the caller returns early.
abbrev pub open_at :
    Host → List ℕ → Vector Torrent → Found ℕ (Vector Torrent) → Option (Opened ⊎ Vector Torrent)
open_at host hash v null = some (inr v)
open_at host hash v (found i exactmatch w) =
    let created =
      if host.peer_list_ok
      then some (inl (record { place = i; torrents = w; list = empty_peerlist; delta = 1 }))
      else some (inr (vector_remove_torrent w i)) in
    let existing = get_elem? w.items i >>= λ t.
    clean_single_torrent host.memory host.now_minutes t.peer_list >>= λ (code, l, updated).
    some (inl (record { place = i; torrents = w; list = l; delta = 0 })) in
    if exactmatch == 0 then created else existing

unfoldable pub open_torrent : Host → List ℕ → Vector Torrent → Option (Opened ⊎ Vector Torrent)
open_torrent host hash v = do
  r ← vector_find_or_insert sizeof_torrent (cmp_hash hash) host.torrents_ok host.junk_torrent v
  open_at host hash v r

-- What `add_peer_to_torrent_and_return_peers` does to the bucket: the change of the torrent count,
-- and the list from which it compiles the reply, if it does.
pub record Answer : Type 0 where
  pub torrents : Vector Torrent
  pub delta : ℕ
  pub events : List Event
  pub reply_from : Option Peerlist

abbrev pub refused : Vector Torrent → Answer
refused v = record { torrents = v; delta = 0; events = []; reply_from = none }

abbrev pub answer : List ℕ → Opened → Announced → Answer
answer hash o a = record {
  torrents = write_torrent o.torrents o.place (record { hash = hash; peer_list = a.list });
  delta = o.delta;
  events = a.events;
  reply_from = if a.stored then some a.list else none;
}

abbrev pub announce_in : Host → List ℕ → Peer → Opened ⊎ Vector Torrent → Option Answer
announce_in host hash p (inr w) = some (refused w)
announce_in host hash p (inl o) =
    add_seedbanks host.seedbank_ok host.junk_peer 0 (host.seedbanks hash)
      (record o.list { base = host.now_minutes })
    >>= λ l. announce_peer host.peers_ok host.junk_peer p l >>= λ a. some (answer hash o a)

unfoldable pub add_peer_to_torrent : Host → List ℕ → Peer → Vector Torrent → Option Answer
add_peer_to_torrent host hash p v =
    let opened = open_torrent host hash v >>= announce_in host hash p in
    if host.hash_is_valid hash then opened else some (refused v)

-- `add_torrent_from_saved_state`: the torrents, and the change of their count.
abbrev pub saved_at :
    Host → List ℕ → ℤ → ℕ → Vector Torrent → Found ℕ (Vector Torrent) → Vector Torrent × ℕ
saved_at host hash base down_count v null = (v, 0)
saved_at host hash base down_count v (found i exactmatch w) =
    if exactmatch == 0
    then (if host.peer_list_ok
        then (
          write_torrent w i (record {
            hash = hash;
            peer_list = record empty_peerlist { base = base; down_count = down_count };
          }),
          1,
        )
        else (vector_remove_torrent w i, 0))
    else (w, 0)

unfoldable pub add_torrent_from_saved_state :
    Host → List ℕ → ℤ → ℕ → Vector Torrent → Option (Vector Torrent × ℕ)
add_torrent_from_saved_state host hash base down_count v =
    let add =
      vector_find_or_insert sizeof_torrent (cmp_hash hash) host.torrents_ok host.junk_torrent v
      >>= λ r. some (saved_at host hash base down_count v r) in
    if host.hash_is_valid hash then add else some (v, 0)

-- The counters after `vector_remove_peer` returned `code`: the cases of the switch fall through.
unfoldable pub count_removed : ℕ → Peers → Peerlist → Peerlist
count_removed code ps l = record l {
  seed_count = if code == 2 then sub64 l.seed_count 1 else l.seed_count;
  peer_count = if (code == 2) || (code == 1) then sub64 l.peer_count 1 else l.peer_count;
  peers = ps;
}

-- `remove_peer_from_torrent`: the torrents, and the list whose counters the reply gives; without
-- the torrent that is the dummy list, with its counters at 0.
unfoldable pub remove_peer_from_torrent :
    List ℕ → Peer → Vector Torrent → Option (Vector Torrent × Peerlist)
remove_peer_from_torrent hash p v = do
  (i, exactmatch) ← binary_search (cmp_hash hash) v.items
  let hit = get_elem? v.items i >>= λ t.
      vector_remove_peer p.addr t.peer_list.peers >>= λ (code, ps).
      let l = count_removed code ps t.peer_list in
      some (write_torrent v i (record t { peer_list = l }), l)
  if exactmatch == 0 then some (v, empty_peerlist) else hit
