-- ===== src/Tests/Buckets.antt =====
-- One bucket of torrents.
use tstracker.Base.{◌+◌, ◌^◌, ◌<◌, arith, true, [], ◌∷◌, memcmp}
use tstracker.Base.Int.{pos}
use tstracker.Vector.{Vector}
use tstracker.Vector.Ordered.{find}
use tstracker.Tracker.{
  Torrent, Host, add_peer_to_torrent, add_torrent_from_saved_state, remove_peer_from_torrent,
}
use tstracker.Tracker.Bucket.{TorrentsOk}
use tstracker.Tracker.Saved.{
  LoadedOr, PeerGoneOr, add_torrent_from_saved_state-Loaded, remove_peer_from_torrent-PeerGone,
}
use tstracker.Tracker.Enter.{HostOk, EndsOr, known_peers, add_peer_to_torrent-Ends}
use tstracker.Tests.{
  granted, granted-IsBounded, seeder, leecher, newcomer, two_peer_list, two_peer_list-IsCounted,
  all_granted,
}

abbrev torrent : Torrent
torrent = record { hash = 1 ∷ 2 ∷ 3 ∷ []; peer_list = two_peer_list }

abbrev bucket : Vector Torrent
bucket = record { items = torrent ∷ []; space = 2 }

abbrev host : Host
host = record {
  hash_is_valid = λ h. true;
  seedbanks = λ h. leecher.addr ∷ [];
  now_minutes = pos 110;
  torrents_ok = granted;
  peer_list_ok = true;
  seedbank_ok = λ k. granted;
  peers_ok = granted;
  memory = all_granted;
  junk_peer = leecher;
  junk_torrent = torrent;
}

host-HostOk : HostOk host
host-HostOk = record {
  torrents_bounded = granted-IsBounded;
  seedbank_bounded = λ k. granted-IsBounded;
  peers_bounded = granted-IsBounded;
  memory_bounded = λ i. granted-IsBounded;
}

bucket-TorrentsOk : TorrentsOk bucket
bucket-TorrentsOk = record {
  sorted = (tt, tt);
  fits = record { within = omega arith; small = omega arith };
  counted = (two_peer_list-IsCounted, tt);
}

bucket_room : known_peers host host-HostOk torrent.hash bucket bucket-TorrentsOk + 1 + 1 < 2 ^ 31
unfolding find memcmp
bucket_room = omega arith

add_peer_to_torrent-Ends_example :
    EndsOr host host-HostOk torrent.hash bucket bucket-TorrentsOk newcomer true
      (add_peer_to_torrent host torrent.hash newcomer bucket)
add_peer_to_torrent-Ends_example =
    add_peer_to_torrent-Ends host host-HostOk torrent.hash bucket bucket-TorrentsOk newcomer
      (omega arith) bucket_room (omega arith)

add_torrent_from_saved_state-Loaded_example :
    LoadedOr host
      (9 ∷ [])
      (pos 5)
      17
      bucket
      true
      (add_torrent_from_saved_state host (9 ∷ []) (pos 5) 17 bucket)
add_torrent_from_saved_state-Loaded_example =
    add_torrent_from_saved_state-Loaded host granted-IsBounded (9 ∷ []) (pos 5) 17 bucket
      bucket-TorrentsOk (omega arith)

remove_peer_from_torrent-PeerGone_example :
    PeerGoneOr torrent.hash seeder bucket bucket-TorrentsOk
      (remove_peer_from_torrent torrent.hash seeder bucket)
remove_peer_from_torrent-PeerGone_example =
    remove_peer_from_torrent-PeerGone torrent.hash seeder bucket bucket-TorrentsOk (omega arith)
