-- ===== src/Tracker/Removal.antt =====
-- The counters after `remove_peer_from_torrent` on the peer list of one torrent.
use tstracker.Base.{ℕ, ◌≡◌, refl, none, List, arith, Ordering, memcmp}
use tstracker.Peerlist.{Peerlist, IsCounted, seeds}
use tstracker.Clean.Sweep.{total-seeds-le}
use tstracker.Peers.{Peers}
use tstracker.Peers.Spread.{find_peer, one}
use tstracker.Peers.Removal.{Removed}
use tstracker.Tracker.{count_removed}

pub record Leaves (l : Peerlist) (addr : List ℕ) (m : Peerlist) : Type 0 where
  pub counted : IsCounted m
  pub lookup :
      (j : List ℕ)
      → find_peer j m.peers ≡ elim (memcmp addr j) [ Ordering.eq ↦ none | _ ↦ find_peer j l.peers ]
  pub base_kept : m.base ≡ l.base
  pub down_kept : m.down_count ≡ l.down_count

module _ (l : Peerlist) (c : IsCounted l) (addr : List ℕ) where
  pub count_removed-Leaves :
      (code : ℕ) (ps : Peers)
      → Removed addr l.peers code ps
      → Leaves l addr (count_removed code ps l)
  unfolding count_removed
  count_removed-Leaves code ps r =
      let le = total-seeds-le l.peers in
      record {
        counted = record {
          spread = r.spread;
          peers_right = ground (arith, r.returned, r.counted one, c.peers_right, c.few);
          seeds_right =
              ground (arith, r.returned, r.counted seeds, c.seeds_right, c.peers_right, c.few, le);
          few = ground (arith, r.returned, r.counted one, c.peers_right, c.few);
        };
        lookup = r.lookup;
        base_kept = refl;
        down_kept = refl;
      }
