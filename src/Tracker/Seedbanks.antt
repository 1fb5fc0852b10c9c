-- ===== src/Tracker/Seedbanks.antt =====
-- `ts_torrentdb_add_seedbanks`: the seedbanks of a torrent among its peers.
use tstracker.Base.{
  ℕ, zero, suc, ◌+◌, ◌^◌, ◌≤◌, ◌<◌, ◌≡◌, ◌⊎◌, ◌∙◌, refl, inl, inr, Bool, true, false, Option, none,
  some, List, [], ◌∷◌, length, arith, memcmp→eq, ◌==◌, ◌>>=◌,
}
use tstracker.Peer.{Peer, is_seeding}
use tstracker.Peerlist.{Peerlist, IsCounted, seeds}
use tstracker.Vector.{Found, null, found}
use tstracker.Vector.Space.{IsBounded}
use tstracker.Clean.Sweep.{total-seeds-le}
use tstracker.Peers.{Peers}
use tstracker.Peers.Spread.{find_peer, one}
use tstracker.Peers.Update.{WrittenOr, vector_find_or_insert_peer-Written}
use tstracker.Tracker.{seedbank_peer, with_seedbank, add_seedbanks}

-- Known peers stay as they are, and at most `n` peers are new.
pub record Joined (n : ℕ) (l m : Peerlist) : Type 0 where
  pub counted : IsCounted m
  pub kept : (j : List ℕ) {p : Peer} → find_peer j l.peers ≡ some p → find_peer j m.peers ≡ some p
  pub only_seeds :
      (j : List ℕ) {p : Peer}
      → find_peer j m.peers ≡ some p
      → find_peer j l.peers ≡ some p ⊎ (is_seeding p ≡ true)
  pub few_new : m.peer_count ≤ l.peer_count + n
  pub base_kept : m.base ≡ l.base
  pub down_kept : m.down_count ≡ l.down_count

abbrev pub JoinedOr : ℕ → Peerlist → Option Peerlist → Type 0
JoinedOr n l none = ⊥
JoinedOr n l (some m) = Joined n l m

Joined-self : (n : ℕ) (l : Peerlist) → IsCounted l → Joined n l l
Joined-self n l c = record {
  counted = c;
  kept = λ j e. e;
  only_seeds = λ j e. inl e;
  few_new = omega arith;
  base_kept = refl;
  down_kept = refl;
}

Joined-step : (n : ℕ) (l m o : Peerlist) → Joined 1 l m → Joined n m o → Joined (suc n) l o
Joined-step n l m o a b = record {
  counted = b.counted;
  kept = λ j e. b.kept j (a.kept j e);
  only_seeds = λ j e. elim (b.only_seeds j e) [ inl f ↦ a.only_seeds j f | inr s ↦ inr s ];
  few_new = omega (arith, a.few_new, b.few_new);
  base_kept = b.base_kept ∙ a.base_kept;
  down_kept = b.down_kept ∙ a.down_kept;
}

module _ (realloc_ok : ℕ → Bool) (l : Peerlist) (c : IsCounted l) (addr : List ℕ)
    (room : l.peer_count + 1 < 2 ^ 31) where
  seeds-room : l.seed_count + 1 < 2 ^ 31
  seeds-room = omega (arith, total-seeds-le l.peers, c.peers_right, c.seeds_right)

  with_seedbank-Joined :
      (r : Option (Found (ℕ × ℕ) Peers))
      → WrittenOr (seedbank_peer addr) realloc_ok l.peers r
      → JoinedOr 1 l (r >>= λ f. some (with_seedbank l addr f))
  with_seedbank-Joined none w = w
  with_seedbank-Joined (some null) w = Joined-self 1 l c
  with_seedbank-Joined (some (found at zero qs)) w = record {
    counted = record {
      spread = w.spread;
      peers_right = ground (arith, w.counted one, w.matched, c.peers_right);
      seeds_right = ground (arith, w.counted seeds, w.matched, c.seeds_right, seeds-room);
      few = ground (arith, room);
    };
    kept = λ j e. ground (arith, w.lookup j, w.matched, memcmp→eq addr j, e);
    only_seeds = λ j e. ground (arith, w.lookup j, e);
    few_new = ground arith;
    base_kept = refl;
    down_kept = refl;
  }
  with_seedbank-Joined (some (found at (suc e) qs)) w =
      let more : (suc e == 0) ≡ false = ground arith in rw more (Joined-self 1 l c)

then_Joined :
    (l m : Peerlist) (n : ℕ)
    → Joined 1 l m
    → (r : Option Peerlist) → JoinedOr n m r
    → JoinedOr (suc n) l r
then_Joined l m n a none b = b
then_Joined l m n a (some o) b = Joined-step n l m o a b

bind-Joined :
    (l : Peerlist) (addr : List ℕ) (n : ℕ) (f : Peerlist → Option Peerlist)
    → ((m : Peerlist) → Joined 1 l m → JoinedOr n m (f m))
    → (r : Option (Found (ℕ × ℕ) Peers)) → JoinedOr 1 l (r >>= λ g. some (with_seedbank l addr g))
    → JoinedOr (suc n) l (r >>= λ g. f (with_seedbank l addr g))
bind-Joined l addr n f h none a = a
bind-Joined l addr n f h (some g) a =
    then_Joined l (with_seedbank l addr g) n a _ (h (with_seedbank l addr g) a)

module _ (ok : ℕ → ℕ → Bool) (bounded : (k : ℕ) → IsBounded (ok k)) (junk : Peer) where
  -- Given a torrent whose counters are right and stay below 2^31 with the seedbanks added, the call
  -- does not fault, whichever allocations fail. Its counters stay right, every peer that was found
  -- is still found as it was, whatever else is found is seeding, and the time base and the number
  -- of downloads are as they were.
  pub add_seedbanks-Joined :
      (k : ℕ) (addrs : List (List ℕ)) (l : Peerlist)
      → IsCounted l
      → l.peer_count + length addrs < 2 ^ 31
      → JoinedOr (length addrs) l (add_seedbanks ok junk k addrs l)
  unfolding add_seedbanks
  add_seedbanks-Joined k [] l c room = Joined-self 0 l c
  add_seedbanks-Joined k (addr ∷ addrs) l c room =
      bind-Joined l addr (length addrs) (add_seedbanks ok junk (suc k) addrs)
        (λ m a. add_seedbanks-Joined (suc k) addrs m a.counted (omega (arith, a.few_new, room))) _
        (with_seedbank-Joined (ok k) l c addr (omega (arith, room)) _ (
          vector_find_or_insert_peer-Written (seedbank_peer addr) junk (ok k) (bounded k) l.peers
            c.spread (omega (arith, c.peers_right, c.few))))
