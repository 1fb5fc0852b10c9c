-- ===== src/Livesync.antt =====
-- src/opentracker/ot_livesync.c, of a build with WANT_SYNC_LIVE: announcements are collected in a
-- buffer that goes out as one packet when it is nearly full or old, and packets of other trackers
-- are applied. What the tracker does with one announcement is a parameter.
pub mod Entries
pub mod Sent
pub mod Relay
use tstracker.Base.{
  ℕ, zero, suc, ◌+◌, ◌-◌, ◌*◌, ◌/◌, Bool, true, false, not, ◌&&◌, ◌||◌, Option, none, some, List,
  [], ◌∷◌, ◌++◌, length, take, drop, get_or, ltb, leb, ◌==◌, ◌>>=◌, if◌then◌else◌, Ordering, memcmp,
  htonl, ntohl,
}
use tstracker.Base.Int.{ℤ, pos, ◌+ℤ◌, ltb_ℤ}
use tstracker.Peer.{Peer, bytes, peer_compare_size, sizeof_peer, flag_stopped, has_flag}
use tstracker.Access.{Blessing, accesslist_isblessed, same_ip}
use tstracker.Tracker.Response.{Proto}
use tstracker.Stats.{StatusEvent, Issued}

abbrev pub sizeof_hash : ℕ
sizeof_hash = 20

abbrev pub buffsize_peers : ℕ
buffsize_peers = 1480

abbrev pub watermark_peers : ℕ
watermark_peers = sizeof_peer + sizeof_hash

abbrev pub maxdelay : ℤ
maxdelay = pos 15

abbrev pub may_livesync : ℕ
may_livesync = 4

-- The tracker id and the type of the packet, OT_SYNC_PEER.
abbrev pub header : List ℕ → List ℕ
header tracker_id = tracker_id ++ htonl 0

abbrev pub header_size : ℕ
header_size = 8

-- `g_outbuf` up to `g_outbuf_data`, and `g_next_packet_time`.
pub record Outgoing : Type 0 where
  pub outbuf : List ℕ
  pub next_packet_time : ℤ

unfoldable pub livesync_init : ℤ → List ℕ → Outgoing
livesync_init now tracker_id = record {
  outbuf = header tracker_id;
  next_packet_time = now +ℤ maxdelay;
}

-- The packet that is sent, and the buffer cut back to its first words.
unfoldable pub livesync_issue_peersync : ℤ → Outgoing → List ℕ × Outgoing
livesync_issue_peersync now o =
    (o.outbuf, record { outbuf = take header_size o.outbuf; next_packet_time = now +ℤ maxdelay })

unfoldable pub livesync_ticker : ℤ → Outgoing → Option (List ℕ) × Outgoing
unfolding livesync_issue_peersync
livesync_ticker now o =
    let (packet, next) = livesync_issue_peersync now o in
    if ltb_ℤ o.next_packet_time now && ltb header_size (length o.outbuf)
    then (some packet, next)
    else (none, o)

-- `none` is a write behind the buffer.
unfoldable pub livesync_tell : ℤ → List ℕ → Peer → Outgoing → Option (Option (List ℕ) × Outgoing)
unfolding livesync_issue_peersync
livesync_tell now hash p o =
    let told : Outgoing = record o { outbuf = o.outbuf ++ (hash ++ bytes p) } in
    let (packet, next) = livesync_issue_peersync now told in
    if ltb buffsize_peers (length told.outbuf)
    then none
    else if leb (buffsize_peers - watermark_peers) (length told.outbuf)
    then some (some packet, next)
    else some (none, told)

-- What the tracker does with an announcement that comes from another one, FLAG_MCA.
pub record Tracker (S : Type 0) : Type 0 where
  pub remove_peer : List ℕ → Peer → S → Option S
  pub add_peer : List ℕ → Peer → S → Option S

-- The peer in `sizeof_peer` bytes.
abbrev pub peer_of_bytes : List ℕ → Peer
peer_of_bytes s = record {
  addr = take peer_compare_size s;
  flag = get_or s peer_compare_size 0;
  time = get_or s (suc peer_compare_size) 0;
}

module _ {S : Type 0} (tracker : Tracker S) where
  unfoldable pub sync_peer : List ℕ → Peer → S → Option S
  sync_peer hash p s =
      if has_flag p.flag flag_stopped
      then tracker.remove_peer hash p s
      else tracker.add_peer hash p s

  -- The loop over what follows the first words of a packet; the tracker runs throughout. Each round
  -- takes bytes away, so as many rounds as bytes are enough.
  unfoldable pub peersync_loop : ℕ → List ℕ → S → Option S
  peersync_loop zero request s = some s
  peersync_loop (suc fuel) request s =
      let more =
        sync_peer (take sizeof_hash request)
          (peer_of_bytes (take sizeof_peer (drop sizeof_hash request))) s
        >>= λ t. peersync_loop fuel (drop (sizeof_hash + sizeof_peer) request) t in
      if leb (sizeof_hash + sizeof_peer) (length request) then more else some s

  unfoldable pub livesync_handle_peersync : List ℕ → S → Option (S × Issued)
  unfolding peersync_loop
  livesync_handle_peersync request s =
      let rest = drop header_size request in
      peersync_loop (length rest) rest s >>= λ t. some (
        t,
        record {
          event = StatusEvent.sync;
          proto = Proto.tcp;
          event_data = length rest / (sizeof_hash + sizeof_peer);
        },
      )

  -- A round of `livesync_worker`, for a packet from `ip`: one that is too short, comes from an address
  -- that may not sync or from this tracker, or is of another type is dropped.
  unfoldable pub livesync_worker : List Blessing → List ℕ → List ℕ → List ℕ → S → Option S
  unfolding livesync_handle_peersync
  livesync_worker admins tracker_id ip request s =
      let handled = livesync_handle_peersync request s >>= λ (t, issued). some t in
      if leb (length request) header_size
        || not (accesslist_isblessed ip may_livesync admins)
        || same_ip (take 4 request) tracker_id
      then some s
      else if ntohl (take 4 (drop 4 request)) == 0
      then handled
      else some s
