-- ===== src/Tests/Packets.antt =====
-- UDP packets and HTTP requests to a tracker with one torrent.
use tstracker.Base.{
  ℕ, ◌≡◌, ◌≢◌, refl, ap, arith, true, [], ◌∷◌, ◌++◌, replicate, none, some, htonl, ntohl, memcmp,
}
use tstracker.Base.Int.{pos}
use tstracker.Vector.{binary_search, vector_fixup_peers}
use tstracker.Peers.{vector_remove_peer}
use tstracker.Tracker.{Host, count_removed, remove_peer_from_torrent}
use tstracker.Tracker.Response.{Draws, removal_reply}
use tstracker.Scrape.{AllTorrents, put_bucket}
use tstracker.Service.{remove_peer}
use tstracker.Udp.{
  Keys, World, Packet, Reaction, handle_udp6, handle_action, announce, announced_peer,
  announced_flag, announced_numwant, renew_key, udp_make_connectionid,
}
use tstracker.Udp.Guard.{Guarded, has_connid, handle_udp6-Guarded, handle_udp6-connid}
use tstracker.Tests.{leecher, two_peer_list, all_granted, granted}
use tstracker.Tests.Scrapes.{hash, tracker}

abbrev pub draws : Draws
draws = record { interval = 77; selection = λ n. n }

abbrev pub host : Host
host = record {
  hash_is_valid = λ h. true;
  seedbanks = λ h. [];
  now_minutes = pos 110;
  torrents_ok = granted;
  peer_list_ok = true;
  seedbank_ok = λ k. granted;
  peers_ok = granted;
  memory = all_granted;
  junk_peer = leecher;
  junk_torrent = record { hash = []; peer_list = two_peer_list };
}

-- A cipher that reverses nothing: the id of 10.0.0.1 is then 0 0 0 0 10 0 0 1.
abbrev world : World
world = record {
  cipher = λ ip. ip;
  drawn_keys = (1, 2);
  host = host;
  draws = draws;
  stale = replicate 20 0;
}

abbrev keys : Keys
keys = record { current = 1; previous = 2; hour_of_the_key = pos 50 }

-- The peer at 10.0.0.1 leaves the torrent.
abbrev goodbye : Packet
goodbye = record {
  bytes =
      (0 ∷ 0 ∷ 0 ∷ 0 ∷ 10 ∷ 0 ∷ 0 ∷ 1 ∷ [])
      ++ (0 ∷ 0 ∷ 0 ∷ 1 ∷ 4 ∷ 3 ∷ 2 ∷ 1 ∷ [])
      ++ hash
      ++ replicate 20 65
      ++ replicate 24 0
      ++ (0 ∷ 0 ∷ 0 ∷ 3 ∷ [])
      ++ replicate 12 0
      ++ (26 ∷ 225 ∷ []);
  remoteip = replicate 12 0 ++ 10 ∷ 0 ∷ 0 ∷ 1 ∷ [];
  remoteport = 6881;
}

handle_udp6-Guarded_example : Guarded world goodbye tracker (handle_udp6 world goodbye keys tracker)
handle_udp6-Guarded_example = handle_udp6-Guarded world goodbye keys tracker

abbrev run : Reaction
unfolding handle_udp6
run = elim (handle_udp6 world goodbye keys tracker) [
  | some r ↦ r
  | none ↦ record { sent = none; issued = []; told = []; keys = keys; torrents = tracker }
]

abbrev peers_left : AllTorrents → ℕ
peers_left s = elim ((s.bucket 4).items) [ [] ↦ 0 | t ∷ ts ↦ t.peer_list.peer_count ]

run_right : handle_udp6 world goodbye keys tracker ≡ some run
unfolding handle_udp6 handle_action announce announced_peer announced_flag announced_numwant
    renew_key udp_make_connectionid remove_peer remove_peer_from_torrent vector_remove_peer
    count_removed put_bucket removal_reply binary_search vector_fixup_peers memcmp htonl ntohl
run_right = refl

-- One of the two peers is left.
one_left : peers_left run.torrents ≡ 1
unfolding handle_udp6 handle_action announce announced_peer announced_flag announced_numwant
    renew_key udp_make_connectionid remove_peer remove_peer_from_torrent vector_remove_peer
    count_removed put_bucket removal_reply binary_search vector_fixup_peers memcmp htonl ntohl
one_left = refl

run_changes : run.torrents ≢ tracker
run_changes same =
    let before : peers_left run.torrents ≡ 2 = ap peers_left same in
    absurd (omega (arith, one_left, before))

handle_udp6-connid_example : has_connid world goodbye ≡ true
handle_udp6-connid_example = handle_udp6-connid world goodbye keys tracker run run_right run_changes
