-- ===== src/Proxy/Relay.antt =====
-- What a proxy tells the trackers of its network, of src/opentracker/proxy.c: the live sync buffer of
-- the proxy, an array that is not emptied between the packets.
pub mod Buffer
pub mod Tells
pub mod Packets
use tstracker.Base.{
  ℕ, zero, suc, ◌+◌, ◌-◌, Bool, ◌&&◌, Option, none, some, List, [], ◌∷◌, ◌++◌, length, take, drop,
  replicate, ltb, leb, ◌>>=◌, if◌then◌else◌, htonl,
}
use tstracker.Base.Int.{ℤ, ◌+ℤ◌, ltb_ℤ}
use tstracker.Peer.{peer_compare_size, sizeof_peer}
use tstracker.Livesync.{header, header_size, maxdelay, buffsize_peers, watermark_peers, sizeof_hash}
use tstracker.Livesync.Sent.{and_then}
use tstracker.Proxy.Stream.{ToldPeer}

-- `g_peerbuffer_start`, `g_peerbuffer_pos` as an index, and `g_next_packet_time`.
pub record Peerbuffer : Type 0 where
  pub start : List ℕ
  pub pos : ℕ
  pub next_packet_time : ℤ

-- `memcpy` into an array.
abbrev pub overwrite : ℕ → List ℕ → List ℕ → List ℕ
overwrite pos bytes mem = take pos mem ++ (bytes ++ drop (pos + length bytes) mem)

-- The first lines of `server_mainloop`.
unfoldable pub init : ℤ → List ℕ → Peerbuffer
init now tracker_id = record {
  start = overwrite 0 (header tracker_id) (replicate buffsize_peers 0);
  pos = header_size;
  next_packet_time = now +ℤ maxdelay;
}

unfoldable pub issue_peersync : ℤ → Peerbuffer → List ℕ × Peerbuffer
issue_peersync now b =
    (take b.pos b.start, record b { pos = header_size; next_packet_time = now +ℤ maxdelay })

-- It looks for more than the tracker id.
unfoldable pub ticker : ℤ → Peerbuffer → Option (List ℕ) × Peerbuffer
unfolding issue_peersync
ticker now b =
    let (packet, next) = issue_peersync now b in
    if ltb_ℤ b.next_packet_time now && ltb 4 b.pos then (some packet, next) else (none, b)

-- All of the peer but its last byte, its age, is written. `none` is a write behind the array.
unfoldable pub livesync_proxytell :
    ℤ → ToldPeer → Peerbuffer → Option (Option (List ℕ) × Peerbuffer)
unfolding issue_peersync
livesync_proxytell now t b =
    let bytes = t.prefix ∷ (t.hash ++ t.peer) in
    let told : Peerbuffer = record b {
      start = overwrite b.pos bytes b.start;
      pos = b.pos + (sizeof_hash + sizeof_peer);
    } in
    let (packet, next) = issue_peersync now told in
    if ltb buffsize_peers told.pos
    then none
    else if leb (buffsize_peers - watermark_peers) told.pos
    then some (some packet, next)
    else some (none, told)

-- What happens to the buffer: the handlers tell a peer, and the main loop ticks after each round.
pub data ProxyEvent : Type 0 where
  tells : ℤ → ToldPeer → ProxyEvent
  ticks : ℤ → ProxyEvent

abbrev pub proxy_event : ProxyEvent → Peerbuffer → Option (Option (List ℕ) × Peerbuffer)
proxy_event (ProxyEvent.tells now t) b = livesync_proxytell now t b
proxy_event (ProxyEvent.ticks now) b = some (ticker now b)

-- The packets that come of any run of events, each at its time.
unfoldable pub relay : List ProxyEvent → Peerbuffer → Option (List (List ℕ) × Peerbuffer)
unfolding livesync_proxytell ticker
relay [] b = some ([], b)
relay (e ∷ es) b =
    proxy_event e b >>= λ (packet, c). relay es c >>= λ (ps, d). some (and_then packet ps, d)
