-- ===== src/Tests/Sync.antt =====
-- Trackers and proxies that tell each other announcements, and a full scrape.
use tstracker.Base.{
  ℕ, ◌*◌, ◌≡◌, ◌≢◌, refl, ap, arith, true, false, List, [], ◌∷◌, ◌++◌, some, length, get_elem?, ◌≤◌,
  replicate, get_or, memcmp,
}
use tstracker.Base.Int.{pos}
use tstracker.Peer.{Peer}
use tstracker.Access.{Blessing, accesslist_isblessed}
use tstracker.Livesync.{Tracker, may_livesync}
use tstracker.Livesync.Sent.{SyncEvent, tells, ticks}
use tstracker.Livesync.Relay.{Relays, livesync_tell-Relays}
use tstracker.Proxy.Stream.{
  PacketState, Progress, Block, put_packet, process_indata, process_loop, read_header, peers_of,
  tell_peers,
}
use tstracker.Proxy.Stream.Blocks.{Fits, told_blocks}
use tstracker.Proxy.Stream.RoundTrip.{told_as, process_indata-put_packet}
use tstracker.Proxy.Stream.Pieces.{process_indata-pieces}
use tstracker.Proxy.Handshake.{Proxy, already_connected, handle_accept}
use tstracker.Proxy.Handshake.Steps.{proxy_start, here, then_to, accepts, no_ip, idle_peer}
use tstracker.Proxy.Handshake.Distinct.{IsDistinct}
use tstracker.Proxy.Handshake.Kept.{ProxyReaches-IsDistinct}
use tstracker.Proxy.Handshake.Connects.{Connects, outgoing-Connects}
use tstracker.Proxy.Relay.{ProxyEvent}
use tstracker.Proxy.Relay.Packets.{Tells, relay-Tells}
use tstracker.Tracker.{Torrent}
use tstracker.Fullscrape.{Maps, fullscrape_make}
use tstracker.Fullscrape.Whole.{IsAnswer, framed, all_entries, fullscrape_make-IsAnswer}
use tstracker.Tests.{leecher, two_peer_list}

abbrev file : List ℕ
file = replicate 20 7

-- A tracker that keeps the peers it is told.
abbrev keeps_all : Tracker (List Peer)
keeps_all = record { remove_peer = λ hash p s. some s; add_peer = λ hash p s. some (p ∷ s) }

abbrev admins : List Blessing
admins = record { ip = 10 ∷ 0 ∷ 0 ∷ 9 ∷ []; permissions = 4 } ∷ []

may_sync : accesslist_isblessed (10 ∷ 0 ∷ 0 ∷ 9 ∷ []) may_livesync admins ≡ true
unfolding accesslist_isblessed memcmp
may_sync = refl

abbrev my_id : List ℕ
my_id = 1 ∷ 2 ∷ 3 ∷ 4 ∷ []

abbrev other_id : List ℕ
other_id = 9 ∷ 2 ∷ 3 ∷ 4 ∷ []

other_id-my_id : other_id ≢ my_id
other_id-my_id e = omega (arith, ap (λ xs. get_or xs 0 0) e)

abbrev two_events : List SyncEvent
two_events = tells (pos 5) (record { hash = file; peer = leecher }) ∷ ticks (pos 40) ∷ []

livesync_tell-Relays_example :
    Relays keeps_all admins my_id other_id
      (10 ∷ 0 ∷ 0 ∷ 9 ∷ [])
      refl
      other_id-my_id
      may_sync
      two_events
      (pos 0)
      []
livesync_tell-Relays_example =
    livesync_tell-Relays keeps_all admins my_id other_id (10 ∷ 0 ∷ 0 ∷ 9 ∷ []) refl other_id-my_id
      may_sync two_events (pos 0) [] (record { hash_long = refl; addr_long = refl }, tt)

abbrev no_packet : PacketState
no_packet = record { tcount = 0; tprefix = 0; type = 0 }

abbrev peer_a : List ℕ
peer_a = 10 ∷ 0 ∷ 0 ∷ 1 ∷ 26 ∷ 225 ∷ 0 ∷ []

abbrev peer_b : List ℕ
peer_b = 10 ∷ 0 ∷ 0 ∷ 2 ∷ 26 ∷ 225 ∷ 128 ∷ []

abbrev three : Block
three = record { tail = replicate 19 7; peers = peer_a ∷ peer_b ∷ peer_a ∷ [] }

three-Fits : Fits 0 three
three-Fits = record {
  tail_long = refl;
  peers_long = (refl, (refl, (refl, tt)));
  some_there = omega arith;
  few = omega arith;
  exact = λ h. absurd (h refl);
}

process_indata-put_packet_example :
    process_indata no_packet (put_packet 0 7 1 (three ∷ []) ++ [])
    ≡ told_as
        (told_blocks 7 (three ∷ []))
        (process_indata (record { tcount = 0; tprefix = 7; type = 0 }) [])
process_indata-put_packet_example =
    process_indata-put_packet no_packet 0 7 three [] [] refl (omega arith) (three-Fits, tt)
      (λ e. absurd (omega (arith, e)))

-- A packet of two torrents with two peers each, cut within the second.
abbrev first_piece : List ℕ
first_piece = 2 ∷ 7 ∷ 0 ∷ 2 ∷ (replicate 19 7 ++ (peer_a ++ (peer_b ++ replicate 5 8)))

abbrev second_piece : List ℕ
second_piece = replicate 14 8 ++ (peer_b ++ peer_a)

abbrev after_first : Progress
after_first = record {
  packet = record { tcount = 1; tprefix = 7; type = 2 };
  indata = replicate 5 8;
  told =
      record { prefix = 7; hash = replicate 19 7; peer = peer_a }
      ∷ record { prefix = 7; hash = replicate 19 7; peer = peer_b }
      ∷ [];
}

first_run : process_indata no_packet first_piece ≡ some after_first
unfolding process_indata process_loop read_header peers_of tell_peers
first_run = refl

process_indata-pieces_example :
    process_indata no_packet (first_piece ++ second_piece)
    ≡ told_as after_first.told
        (process_indata after_first.packet (after_first.indata ++ second_piece))
process_indata-pieces_example =
    process_indata-pieces no_packet first_piece second_piece after_first first_run (omega arith)

abbrev one_peer : List (List ℕ × ℕ)
one_peer = (no_ip, 9009) ∷ []

abbrev with_guest : Proxy
with_guest =
    handle_accept (record { newfd = pos 8; port = 4000; registered = true } ∷ [])
      (proxy_start one_peer)

ProxyReaches-IsDistinct_example : IsDistinct my_id with_guest.connections
ProxyReaches-IsDistinct_example = ProxyReaches-IsDistinct my_id one_peer with_guest (
    then_to (proxy_start one_peer) with_guest here (
      accepts (record { newfd = pos 8; port = 4000; registered = true } ∷ [])
        (proxy_start one_peer)))

none_connected : already_connected other_id (proxy_start one_peer).connections ≡ false
unfolding already_connected proxy_start
none_connected = refl

at_first : get_elem? (proxy_start one_peer).connections 0 ≡ some (idle_peer true no_ip 9009)
unfolding proxy_start
at_first = refl

one_counted : ((proxy_start one_peer).count ≡ 1) × (length (proxy_start one_peer).connections ≡ 20)
unfolding proxy_start
one_counted = (refl, refl)

outgoing-Connects_example : Connects my_id (proxy_start one_peer) 0 other_id
outgoing-Connects_example =
    outgoing-Connects my_id 0 other_id (proxy_start one_peer) (idle_peer true no_ip 9009) refl
      other_id-my_id none_connected (omega (arith, one_counted)) (omega (arith, one_counted))
      at_first refl refl

-- Three bytes for each, as for bytes that all need escapes.
abbrev escapes : List ℕ → List ℕ
escapes [] = []
escapes (b ∷ s) = 37 ∷ 48 ∷ 48 ∷ escapes s

escapes_short : (s : List ℕ) → length (escapes s) ≤ 3 * length s
escapes_short [] = omega arith
escapes_short (b ∷ s) = omega (arith, escapes_short s)

abbrev torrents : List (List Torrent)
torrents = (record { hash = file; peer_list = two_peer_list } ∷ []) ∷ [] ∷ []

abbrev all_mapped : Maps
all_mapped = record { realloc_ok = λ n. true; mmap_ok = λ n. true }

fullscrape_make-IsAnswer_example :
    IsAnswer escapes all_mapped
      (λ n. refl)
      escapes_short
      0x0203
      (framed escapes all_mapped
        (λ n. refl)
        escapes_short
        0x0203
        (all_entries escapes all_mapped (λ n. refl) escapes_short 0x0203 torrents))
      (fullscrape_make escapes all_mapped 0x0203 torrents)
fullscrape_make-IsAnswer_example =
    fullscrape_make-IsAnswer escapes all_mapped (λ n. refl) escapes_short 0x0203 torrents
      ((refl, tt), (tt, tt))

abbrev two_told : List ProxyEvent
two_told =
    ProxyEvent.tells (pos 3) (record { prefix = 7; hash = replicate 19 7; peer = peer_a })
    ∷ ProxyEvent.ticks (pos 30)
    ∷ ProxyEvent.tells (pos 31) (record { prefix = 7; hash = replicate 19 7; peer = peer_b })
    ∷ []

relay-Tells_example : Tells my_id (pos 0) two_told
relay-Tells_example = relay-Tells my_id refl (pos 0) two_told (
  record { hash_long = refl; peer_long = refl },
  (record { hash_long = refl; peer_long = refl }, tt),
)
