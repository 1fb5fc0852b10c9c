-- ===== src/Scrape.antt =====
-- The scrapes and the iteration over all the torrents of src/opentracker/trackerlogic.c, on the
-- buckets as a whole: each bucket is locked while it is worked on, so its part is one step.
pub mod Bucket
pub mod All
pub mod Text
pub mod Replies
use tstracker.Base.{
  ℕ, zero, suc, Bool, true, false, Option, none, some, List, [], ◌∷◌, ◌++◌, get_elem?, replicate,
  ◌==◌, if◌then◌else◌, ◌>>=◌, codes, zd, htonl,
}
use tstracker.Base.Int.{ℤ, pos, negsuc}
use tstracker.Peerlist.{Peerlist}
use tstracker.Vector.{Vector, binary_search, vector_remove_torrent}
use tstracker.Peers.Redistribute.{Memory}
use tstracker.Clean.{clean_single_torrent}
use tstracker.Mutex.{bucket_of_hash, add_delta}
use tstracker.Tracker.{Torrent, cmp_hash, write_torrent}
use tstracker.Tracker.Response.{leech_count}

-- `all_torrents`, and the count that unlocking a bucket changes.
pub record AllTorrents : Type 0 where
  pub bucket : ℕ → Vector Torrent
  pub torrent_count : ℕ

abbrev pub bucket_count : ℕ
bucket_count = 1024

-- A bucket is written and unlocked with the change of the count.
unfoldable pub put_bucket : AllTorrents → ℕ → Vector Torrent → ℤ → AllTorrents
put_bucket s b v delta = record {
  bucket = λ c. if c == b then v else s.bucket c;
  torrent_count = add_delta s.torrent_count delta;
}

-- One hash in its bucket: the list whose counters the reply gives, the bucket, and
-- `delta_torrentcount`. A torrent that has timed out is taken away.
pub record Scraped : Type 0 where
  pub counters : Option Peerlist
  pub torrents : Vector Torrent
  pub delta : ℤ

abbrev pub scraped_torrent : Vector Torrent → ℕ → Torrent → ℕ × Peerlist × Bool → Scraped
scraped_torrent v i t (code, l, updated) =
    if code == 0
    then record {
      counters = some l;
      torrents = write_torrent v i (record t { peer_list = l });
      delta = pos 0;
    }
    else record { counters = none; torrents = vector_remove_torrent v i; delta = negsuc 0 }

unfoldable pub scrape_bucket : Memory → ℤ → List ℕ → Vector Torrent → Option Scraped
scrape_bucket mem now hash v = do
  (i, exactmatch) ← binary_search (cmp_hash hash) v.items
  let hit = get_elem? v.items i >>= λ t.
      clean_single_torrent mem now t.peer_list >>= λ r. some (scraped_torrent v i t r)
  if exactmatch == 0 then some (record { counters = none; torrents = v; delta = pos 0 }) else hit

unfoldable pub scrape_hash :
    Memory → ℤ → List ℕ → AllTorrents → Option (Option Peerlist × AllTorrents)
scrape_hash mem now hash s = do
  b ← bucket_of_hash hash
  r ← scrape_bucket mem now hash (s.bucket b)
  some (r.counters, put_bucket s b r.torrents r.delta)

unfoldable pub udp_entry : Option Peerlist → List ℕ
udp_entry none = replicate 12 0
udp_entry (some l) = htonl l.seed_count ++ htonl l.down_count ++ htonl (leech_count l)

unfoldable pub return_udp_scrape_for_torrent :
    Memory → ℤ → List ℕ → AllTorrents → Option (List ℕ × AllTorrents)
return_udp_scrape_for_torrent mem now hash s = do
  (l, t) ← scrape_hash mem now hash s
  some (udp_entry l, t)

unfoldable pub tcp_entry : List ℕ → Option Peerlist → List ℕ
tcp_entry hash none = []
tcp_entry hash (some l) =
    codes "20:"
    ++ hash
    ++ codes "d8:completei"
    ++ zd l.seed_count
    ++ codes "e10:downloadedi"
    ++ zd l.down_count
    ++ codes "e10:incompletei"
    ++ zd (leech_count l)
    ++ codes "ee"

-- The loop over the hashes: what it prints.
unfoldable pub tcp_entries :
    Memory → ℤ → List (List ℕ) → AllTorrents → Option (List ℕ × AllTorrents)
tcp_entries mem now [] s = some ([], s)
tcp_entries mem now (hash ∷ hashes) s = do
  (l, t) ← scrape_hash mem now hash s
  (rest, u) ← tcp_entries mem now hashes t
  some (tcp_entry hash l ++ rest, u)

unfoldable pub return_tcp_scrape_for_torrent :
    Memory → ℤ → List (List ℕ) → AllTorrents → Option (List ℕ × AllTorrents)
return_tcp_scrape_for_torrent mem now hashes s = do
  (entries, t) ← tcp_entries mem now hashes s
  some (codes "d5:filesd" ++ entries ++ codes "ee", t)

-- `iterate_all_torrents` with a callback that folds an `A`: it returns true to leave the bucket.
module _ {A : Type 0} (for_each : Torrent → A → Bool × A) where
  unfoldable pub bucket_loop : List Torrent → A → A
  bucket_loop [] a = a
  bucket_loop (t ∷ ts) a =
      let r = for_each t a in let rest = bucket_loop ts r.1 in if r.0 then r.1 else rest

  -- From bucket `b` on, `n` buckets; `running b` is `g_opentracker_running` after bucket `b`.
  unfoldable pub iterate_from : (ℕ → Bool) → (ℕ → Vector Torrent) → ℕ → ℕ → A → A
  unfolding bucket_loop
  iterate_from running bucket b zero a = a
  iterate_from running bucket b (suc n) a =
      let here = bucket_loop (Vector.items (bucket b)) a in
      let rest = iterate_from running bucket (suc b) n here in if running b then rest else here

  unfoldable pub iterate_all_torrents : (ℕ → Bool) → AllTorrents → A → A
  iterate_all_torrents running s a = iterate_from running s.bucket 0 bucket_count a
