-- ===== src/Clean/Torrent.antt =====
-- `clean_single_torrent` on every branch.
use tstracker.Base.{
  ℕ, ◌^◌, ◌≤◌, ◌<◌, ◌≡◌, ◌≢◌, ◌⊎◌, ◌∙◌, refl, sym, inl, inr, Bool, true, false, ◌||◌, Option, none,
  some, List, arith, ltb, sub64, sub64_exact, ◌==◌, if◌then◌else◌, Bool-cases,
}
use tstracker.Base.Int.{ℤ, pos, ◌-ℤ◌, ltb_ℤ}
use tstracker.Peer.{peer_timeout, torrent_timeout, peer_bucket_mincount}
use tstracker.Peerlist.{Peerlist, IsCounted, seeds}
use tstracker.Vector.Space.{IsBounded}
use tstracker.Peers.{Peers, has_buckets}
use tstracker.Peers.Spread.{IsSpread, find_peer, bucket_total, total, one}
use tstracker.Peers.Redistribute.{Memory, vectors, vector_redistribute_buckets}
use tstracker.Peers.Redistribute.Kept.{Kept, KeptOr, vector_redistribute_buckets-Kept}
use tstracker.Clean.{Swept, sweep_loop, sweep_torrent, is_zero, clean_single_torrent}
use tstracker.Clean.Survivors.{survivor}
use tstracker.Clean.Sweep.{
  sweep_loop-Sweeps, sweep_peers-AgedFrom, vectors-AllOk, total-vectors, total-seeds-le,
}

-- What is left of a peer list after `d` minutes.
pub record Aged (d now : ℤ) (l m : Peerlist) : Type 0 where
  pub counted : IsCounted m
  pub found : (j : List ℕ) → find_peer j m.peers ≡ survivor d (find_peer j l.peers)
  pub fewer : m.peer_count ≤ l.peer_count
  pub down_kept : m.down_count ≡ l.down_count
  pub base_moved : m.base ≡ (if m.peer_count == 0 then now -ℤ pos peer_timeout else now)

-- Some time has passed, no more than a day, and there are peers if it is more than 45 minutes.
pub record IsDue (now : ℤ) (l : Peerlist) : Type 0 where
  pub moved : is_zero (now -ℤ l.base) ≡ false
  pub young : ltb_ℤ (pos torrent_timeout) (now -ℤ l.base) ≡ false
  pub worth_keeping : (ltb_ℤ (pos peer_timeout) (now -ℤ l.base) ≡ false) ⊎ (l.peer_count ≢ 0)

module _ (mem : Memory) (bounded : (i : ℕ) → IsBounded (mem.grow_ok i)) (l : Peerlist) where
  Kept-self : (ps : Peers) → IsSpread ps → Kept ps ps
  Kept-self ps ok = record { spread = ok; found = λ j. refl; counted = λ g. refl }

  -- The call of `vector_redistribute_buckets`, or its omission.
  regroup-Kept :
      (b : Bool) (pc : ℕ) (ps : Peers)
      → IsSpread ps
      → total one ps < 2 ^ 31
      → (qs : Peers) × ((if b then vector_redistribute_buckets mem pc ps else some ps) ≡ some qs)
        × Kept ps qs
  regroup-Kept false pc ps ok few = (ps, refl, Kept-self ps ok)
  regroup-Kept true pc ps ok few =
      made (vector_redistribute_buckets mem pc ps)
        (vector_redistribute_buckets-Kept mem bounded pc ps ok few)
    where
      made : (r : Option Peers) → KeptOr ps r → (qs : Peers) × (r ≡ some qs) × Kept ps qs
      made none k = absurd k
      made (some qs) k = (qs, refl, k)

  module _ (now : ℤ) (c : IsCounted l) where
    abbrev swept : ℤ → Swept
    swept d = sweep_loop d (vectors l.peers) l.peer_count 0 false

    abbrev result : ℤ → Peers → Peerlist
    result d qs = record {
      base = if (swept d).peer_count == 0 then now -ℤ pos peer_timeout else now;
      seed_count = sub64 l.seed_count (swept d).removed_seeders;
      peer_count = (swept d).peer_count;
      down_count = l.down_count;
      peers = qs;
    }

    sweep_torrent-Aged :
        (d : ℤ)
        → (m : Peerlist) × (u : Bool) × (sweep_torrent mem now d l ≡ some (0, m, u))
          × Aged d now l m
    unfolding sweep_torrent
    sweep_torrent-Aged d =
        let tot : bucket_total one (vectors l.peers) ≡ l.peer_count =
          sym (total-vectors one l.peers) ∙ sym c.peers_right in
        let sw =
          sweep_loop-Sweeps d (vectors l.peers) l.peer_count 0 false
            (vectors-AllOk l.peers c.spread) (omega (arith, tot)) (omega (arith, c.few)) in
        let (ps, e, a) = sweep_peers-AgedFrom d l.peers c.spread in
        let (qs, f, k) =
          regroup-Kept (ltb peer_bucket_mincount (swept d).peer_count || has_buckets ps)
            (swept d).peer_count ps a.spread
            (omega (arith, a.total_left one, sw.peers_left, tot, sw.fewer, c.few)) in
        let peers_now : (swept d).peer_count ≡ total one qs =
          omega (arith, sw.peers_left, tot, a.total_left one, k.counted one) in
        let seeds_all = total-vectors seeds l.peers in
        let small : l.seed_count < 2 ^ 64 =
          omega (arith, total-seeds-le l.peers, c.peers_right, c.seeds_right, c.few) in
        let few_seeders : ltb (swept d).removed_seeders (2 ^ 31) ≡ true =
          ground
            (arith, sw.seeders_gone, seeds_all, total-seeds-le l.peers, c.peers_right, c.few) in
        let seeds_now : sub64 l.seed_count (swept d).removed_seeders ≡ total seeds qs = omega (
          arith,
          sub64_exact l.seed_count (swept d).removed_seeders
              (omega (arith, sw.seeders_gone, seeds_all, c.seeds_right)) small,
          sw.seeders_gone,
          seeds_all,
          c.seeds_right,
          a.total_left seeds,
          k.counted seeds,
        ) in
        (
          result d qs,
          (swept d).update_stats,
          rw (few_seeders, sw.vectors, e, f) refl,
          record {
            counted = record {
              spread = k.spread;
              peers_right = peers_now;
              seeds_right = seeds_now;
              few = omega (arith, sw.fewer, c.few);
            };
            found = λ j. k.found j ∙ a.found j;
            fewer = sw.fewer;
            down_kept = refl;
            base_moved = refl;
          },
        )

    abbrev elapsed : ℤ
    elapsed = now -ℤ l.base

    -- What the call can do, each with its condition. No two of the conditions can both hold.
    pub data Outcome (r : Option (ℕ × Peerlist × Bool)) : Type 0 where
      untouched : is_zero elapsed ≡ true → r ≡ some (0, l, false) → Outcome r
      forgotten :
          (ltb_ℤ (pos torrent_timeout) elapsed ≡ true)
            ⊎ ((ltb_ℤ (pos peer_timeout) elapsed ≡ true) × (l.peer_count ≡ 0) × (l.down_count ≡ 0))
          → r ≡ some (1, l, false)
          → Outcome r
      idle :
          ltb_ℤ (pos peer_timeout) elapsed ≡ true
          → ltb_ℤ (pos torrent_timeout) elapsed ≡ false
          → l.peer_count ≡ 0
          → l.down_count ≢ 0
          → r ≡ some (0, l, false)
          → Outcome r
      aged_by :
          (d : ℤ) (m : Peerlist) (u : Bool)
          → d ≡ (if ltb_ℤ (pos peer_timeout) elapsed then pos peer_timeout else elapsed)
          → IsDue now l
          → Aged d now l m
          → r ≡ some (0, m, u)
          → Outcome r

    swept_by :
        (d : ℤ)
        → d ≡ (if ltb_ℤ (pos peer_timeout) elapsed then pos peer_timeout else elapsed)
        → IsDue now l
        → Outcome (sweep_torrent mem now d l)
    swept_by d e due = let (m, u, r, a) = sweep_torrent-Aged d in aged_by d m u e due a r

    quiet :
        ltb_ℤ (pos peer_timeout) elapsed ≡ true
        → ltb_ℤ (pos torrent_timeout) elapsed ≡ false
        → l.peer_count ≡ 0
        → Outcome (some ((if l.down_count == 0 then 1 else 0), l, false))
    quiet old young none_left = elim (Bool-cases (l.down_count == 0)) [
      | inl unused ↦ rw unused (forgotten (inr (old, none_left, ground arith)) refl)
      | inr used ↦ rw used (idle old young none_left (ground arith) refl)
    ]

    -- Given counters that are right, and whichever allocations fail, the call does not fault. It
    -- leaves the list alone if no time has passed; returns 1, for a torrent to be removed, after
    -- more than a day, or after more than 45 minutes if there is no peer and never was a download;
    -- leaves a list with no peer but with downloads alone; and else ages the peers by the minutes
    -- gone, 45 at most: the counters stay right, each lookup finds what survives of the peer it
    -- found before, and the time base moves to now, or 45 minutes before if no peer is left.
    pub clean_single_torrent-Outcome : Outcome (clean_single_torrent mem now l)
    unfolding clean_single_torrent
    clean_single_torrent-Outcome = elim (Bool-cases (is_zero elapsed)) [
      | inl same ↦ rw same (untouched same refl)
      | inr moved ↦ rw moved (elim (Bool-cases (ltb_ℤ (pos torrent_timeout) elapsed)) [
        | inl dead ↦ rw dead (forgotten (inl dead) refl)
        | inr young ↦ rw young (elim (Bool-cases (ltb_ℤ (pos peer_timeout) elapsed)) [
          | inl old ↦ rw old (elim (Bool-cases (l.peer_count == 0)) [
            | inl empty ↦ rw empty (quiet old young (ground arith))
            | inr some_left ↦ rw some_left (
                swept_by (pos peer_timeout) (rw old refl)
                  (record { moved = moved; young = young; worth_keeping = inr (ground arith) }))
          ])
          | inr recent ↦ rw recent (
              swept_by elapsed (rw recent refl)
                (record { moved = moved; young = young; worth_keeping = inl recent }))
        ])
      ])
    ]
