-- ===== src/Worker.antt =====
-- The loop of `clean_worker` of src/opentracker/ot_clean.c over the buckets, without the pauses.
pub mod Swept
use tstracker.Base.{
  ℕ, zero, suc, Bool, Option, none, some, ltb, get_elem?, ◌==◌, ◌>>=◌, if◌then◌else◌,
}
use tstracker.Base.Int.{ℤ, pos, negsuc}
use tstracker.Peerlist.{Peerlist}
use tstracker.Vector.{Vector, size, vector_remove_torrent}
use tstracker.Peers.Redistribute.{Memory}
use tstracker.Clean.{clean_single_torrent}
use tstracker.Tracker.{Torrent, write_torrent}
use tstracker.Scrape.{AllTorrents, put_bucket, bucket_count}

abbrev pub decrement : ℤ → ℤ
decrement (pos zero) = negsuc 0
decrement (pos (suc n)) = pos n
decrement (negsuc n) = negsuc (suc n)

-- What a round leaves: the place it goes on at, the bucket, and `delta_torrentcount`. Taking a torrent
-- away moves the next one to the same place.
abbrev pub after_cleaning :
    Vector Torrent → ℕ → ℤ → Torrent → ℕ × Peerlist × Bool → ℕ × Vector Torrent × ℤ
after_cleaning v toffs delta t (code, l, updated) =
    if code == 0
    then (suc toffs, write_torrent v toffs (record t { peer_list = l }), delta)
    else (toffs, vector_remove_torrent v toffs, decrement delta)

-- The loop over the torrents of a bucket; `none` is the end of the fuel too.
unfoldable pub clean_loop : Memory → ℤ → ℕ → ℕ → Vector Torrent → ℤ → Option (Vector Torrent × ℤ)
clean_loop mem now zero toffs v delta = none
clean_loop mem now (suc fuel) toffs v delta =
    let more = get_elem? v.items toffs >>= λ t. clean_single_torrent mem now t.peer_list >>= λ r.
    let (i, w, d) = after_cleaning v toffs delta t r in clean_loop mem now fuel i w d in
    if ltb toffs (size v) then more else some (v, delta)

-- One bucket, with a round for each torrent and one more.
unfoldable pub clean_bucket : Memory → ℤ → ℕ → AllTorrents → Option AllTorrents
unfolding clean_loop
clean_bucket mem now bucket s =
    clean_loop mem now (suc (size (s.bucket bucket))) 0 (s.bucket bucket) (pos 0) >>= λ (v, delta).
    some (put_bucket s bucket v delta)

-- `bucket--` from OT_BUCKET_COUNT on; a tracker that is told to stop has the bucket at hand cleaned.
unfoldable pub clean_pass : (ℕ → Bool) → Memory → (ℕ → ℤ) → ℕ → AllTorrents → Option AllTorrents
unfolding clean_bucket
clean_pass running mem now zero s = some s
clean_pass running mem now (suc bucket) s = clean_bucket mem (now bucket) bucket s >>= λ t.
    let rest = clean_pass running mem now bucket t in if running bucket then rest else some t
