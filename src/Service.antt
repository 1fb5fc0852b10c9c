-- ===== src/Service.antt =====
-- What the request handlers call: `add_peer_to_torrent_and_return_peers` and
-- `remove_peer_from_torrent` of src/opentracker/trackerlogic.c with their buckets and their replies.
use tstracker.Base.{Bool, false, Option, none, some, List, [], ℕ, ◌>>=◌, codes}
use tstracker.Base.Int.{pos}
use tstracker.Peer.{Peer}
use tstracker.Peerlist.{Peerlist}
use tstracker.Mutex.{bucket_of_hash}
use tstracker.Tracker.{Host, Event, add_peer_to_torrent, remove_peer_from_torrent}
use tstracker.Tracker.Response.{
  Proto, Draws, return_peers_for_torrent, removal_reply, request_interval,
}
use tstracker.Scrape.{AllTorrents, put_bucket}

-- The bytes written from the reply pointer on, and what the call does to the torrents and tells the
-- statistics.
pub record Served : Type 0 where
  pub reply : List ℕ
  pub torrents : AllTorrents
  pub events : List Event

abbrev pub invalid_hash : List ℕ
invalid_hash =
    codes "d14:failure reason63:Requested download is not authorized for use with this tracker.e"

-- Without a list to compile from, the reply is empty, but for a hash that is not valid over TCP.
unfoldable pub refusal : Bool → Proto → List ℕ
refusal false Proto.tcp = invalid_hash
refusal _ _ = []

abbrev pub reply_of : Draws → Proto → ℕ → Bool → Option Peerlist → Option (List ℕ)
reply_of draws proto amount valid none = some (refusal valid proto)
reply_of draws proto amount valid (some l) = return_peers_for_torrent draws l amount proto

unfoldable pub add_peer_to_torrent_and_return_peers :
    Host → Draws → Proto → List ℕ → Peer → ℕ → AllTorrents → Option Served
add_peer_to_torrent_and_return_peers host draws proto hash p amount s = do
  b ← bucket_of_hash hash
  a ← add_peer_to_torrent host hash p (s.bucket b)
  reply ← reply_of draws proto amount (host.hash_is_valid hash) a.reply_from
  some (record {
    reply = reply;
    torrents = put_bucket s b a.torrents (pos a.delta);
    events = a.events;
  })

-- The reply is `none` where the protocol has none.
unfoldable pub remove_peer :
    Draws → Proto → List ℕ → Peer → AllTorrents → Option (Option (List ℕ) × AllTorrents)
remove_peer draws proto hash p s = do
  b ← bucket_of_hash hash
  (v, l) ← remove_peer_from_torrent hash p (s.bucket b)
  some (removal_reply (request_interval draws.interval) l proto, put_bucket s b v (pos 0))
