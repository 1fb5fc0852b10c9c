-- ===== src/Tracker/Response.antt =====
-- `return_peers_for_torrent` of src/opentracker/trackerlogic.c, and the replies of
-- `remove_peer_from_torrent`: what is compiled from a peer list into the reply buffer.
pub mod Filled
use tstracker.Base.{
  ℕ, ◌+◌, ◌-◌, ◌*◌, ◌/◌, ◌%◌, Bool, Option, none, some, List, [], ◌∷◌, ◌++◌, length, ltb, sub64,
  u64, ◌==◌, if◌then◌else◌, ◌>>=◌, codes, dec, zd, htonl,
}
use tstracker.Peer.{peer_compare_size}
use tstracker.Peerlist.{Peerlist}
use tstracker.Tracker.Reply.{Cursors, return_peers_all}
use tstracker.Tracker.Select.{return_peers_selection}

-- PROTO_FLAG
pub data Proto : Type 0 where
  tcp udp mca selfpipe : Proto

-- OT_CLIENT_REQUEST_INTERVAL_RANDOM, of what `random()` gives.
unfoldable pub request_interval : ℕ → ℕ
request_interval drawn = 60 * 30 - 60 * 6 / 2 + drawn % (60 * 6)

-- What `random()` gives: for the interval, and for the selection.
pub record Draws : Type 0 where
  pub interval : ℕ
  pub selection : ℕ → ℕ

abbrev pub leech_count : Peerlist → ℕ
leech_count l = sub64 l.peer_count l.seed_count

abbrev pub intervals : ℕ → List ℕ
intervals erval = codes "e8:intervali" ++ dec erval ++ codes "e12:min intervali" ++ dec (erval / 2)

unfoldable pub reply_head : ℕ → Peerlist → ℕ → Proto → List ℕ
reply_head erval l amount Proto.tcp =
    codes "d8:completei"
    ++ zd l.seed_count
    ++ codes "e10:downloadedi"
    ++ zd l.down_count
    ++ codes "e10:incompletei"
    ++ zd (leech_count l)
    ++ intervals erval
    ++ codes "e5:peers"
    ++ zd (u64 (peer_compare_size * amount))
    ++ codes ":"
reply_head erval l amount _ = htonl erval ++ htonl (leech_count l) ++ htonl l.seed_count

abbrev pub reply_tail : Proto → List ℕ
reply_tail Proto.tcp = codes "e"
reply_tail _ = []

-- The bytes between the cursors' starting places. `none` if the cursors do not meet: then bytes
-- would be sent that this call did not write.
unfoldable pub between : ℕ × Cursors → Option (List ℕ)
between (written, c) =
    if length c.front + length c.back == written then some (c.front ++ c.back) else none

unfoldable pub peers_body : (ℕ → ℕ) → Peerlist → ℕ → Option (List ℕ)
peers_body draw l amount =
    let selection = return_peers_selection draw l amount >>= between in
    if amount == 0
    then some []
    else if amount == l.peer_count
    then between (return_peers_all l)
    else selection

unfoldable pub return_peers_for_torrent : Draws → Peerlist → ℕ → Proto → Option (List ℕ)
return_peers_for_torrent draws l amount proto =
    let n = if ltb l.peer_count amount then l.peer_count else amount in
    peers_body draws.selection l n >>= λ body.
    some (reply_head (request_interval draws.interval) l n proto ++ body ++ reply_tail proto)

-- The reply to a peer that leaves, from `ws->reply` on over TCP, and over UDP from the third word
-- on; other protocols leave the reply and its size as they were.
unfoldable pub removal_reply : ℕ → Peerlist → Proto → Option (List ℕ)
removal_reply erval l Proto.tcp = some (
    codes "d8:completei"
    ++ zd l.seed_count
    ++ codes "e10:incompletei"
    ++ zd (leech_count l)
    ++ intervals erval
    ++ codes "e5:peers0:e")
removal_reply erval l Proto.udp = some (htonl erval ++ htonl (leech_count l) ++ htonl l.seed_count)
removal_reply erval l _ = none
