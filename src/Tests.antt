-- ===== src/Tests.antt =====
-- Small inputs on which the theorems apply, with runs of the code on them.
mod Vectors
mod Lists
mod Buckets
mod Threads
mod Requests
mod Replies
pub mod Scrapes
pub mod Packets
mod Events
mod Sync
use tstracker.Base.{
  ℕ, ◌^◌, ◌≤◌, ◌<◌, ◌≡◌, refl, arith, Bool, true, List, [], ◌∷◌, Option, none, some, All, memcmp,
  ltb,
}
use tstracker.Base.Int.{ℤ, pos}
use tstracker.Peer.{Peer}
use tstracker.Peerlist.{Peerlist, IsCounted}
use tstracker.Vector.{Vector}
use tstracker.Vector.Search.{IsSorted}
use tstracker.Vector.Space.{IsBounded}
use tstracker.Peers.{Peers, plain}
use tstracker.Peers.Spread.{VectorOk, IsSpread, total}
use tstracker.Peers.Redistribute.{Memory}

-- An allocator that refuses what libc never grants.
abbrev pub granted : ℕ → Bool
granted n = ltb n (2 ^ 63)

pub granted-IsBounded : IsBounded granted
granted-IsBounded n e = ground arith

abbrev pub seeder : Peer
seeder = record { addr = 10 ∷ 0 ∷ 0 ∷ 1 ∷ 26 ∷ 225 ∷ []; flag = 0x80; time = 3 }

abbrev pub leecher : Peer
leecher = record { addr = 10 ∷ 0 ∷ 0 ∷ 2 ∷ 26 ∷ 225 ∷ []; flag = 0; time = 40 }

abbrev pub newcomer : Peer
newcomer = record { addr = 9 ∷ 0 ∷ 0 ∷ 1 ∷ 26 ∷ 225 ∷ []; flag = 0xc0; time = 7 }

abbrev pub two_peers : Vector Peer
two_peers = record { items = seeder ∷ leecher ∷ []; space = 2 }

pub two_peers-VectorOk : VectorOk two_peers
unfolding memcmp
two_peers-VectorOk = record {
  sorted = ((refl, tt), (tt, tt));
  fits = record { within = omega arith; small = omega arith };
}

abbrev pub two_peer_list : Peerlist
two_peer_list = record {
  base = pos 100;
  seed_count = 1;
  peer_count = 2;
  down_count = 5;
  peers = plain two_peers;
}

pub two_peer_list-IsCounted : IsCounted two_peer_list
unfolding total
two_peer_list-IsCounted = record {
  spread = two_peers-VectorOk;
  peers_right = refl;
  seeds_right = refl;
  few = omega arith;
}

abbrev pub all_granted : Memory
all_granted = record { list_ok = granted; bucket_ok = λ i. granted; grow_ok = λ i. granted }
