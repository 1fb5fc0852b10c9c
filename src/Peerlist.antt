-- ===== src/Peerlist.antt =====
-- `struct ot_peerlist` of include/opentracker/trackerlogic.h, and when its counters are right.
use tstracker.Base.{ℕ, ◌^◌, ◌<◌, ◌≡◌, [], if◌then◌else◌}
use tstracker.Base.Int.{ℤ, pos}
use tstracker.Peer.{Peer, is_seeding}
use tstracker.Peers.{Peers, plain}
use tstracker.Peers.Spread.{IsSpread, total, one}

pub record Peerlist : Type 0 where
  pub base : ℤ  -- ot_time, in minutes
  pub seed_count : ℕ
  pub peer_count : ℕ
  pub down_count : ℕ
  pub peers : Peers

-- `byte_zero( torrent->peer_list, sizeof( ot_peerlist ) )`
abbrev pub empty_peerlist : Peerlist
empty_peerlist = record {
  base = pos 0;
  seed_count = 0;
  peer_count = 0;
  down_count = 0;
  peers = plain (record { items = []; space = 0 });
}

-- 1 for a peer that counts as a seed.
abbrev pub seeds : Peer → ℕ
seeds p = if is_seeding p then 1 else 0

-- The peers are in order, and the two counters say how many there are and how many are seeding.
-- There are fewer than an `int` can count, as ot_clean.c and ot_vector.c count them in one.
pub record IsCounted (l : Peerlist) : Type 0 where
  pub spread : IsSpread l.peers
  pub peers_right : l.peer_count ≡ total one l.peers
  pub seeds_right : l.seed_count ≡ total seeds l.peers
  pub few : l.peer_count < 2 ^ 31
