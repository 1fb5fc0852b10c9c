-- ===== src/Clean/Sweep.antt =====
-- The loop of `clean_single_torrent` over the buckets.
use tstracker.Base.{
  ℕ, suc, ◌+◌, ◌^◌, ◌≤◌, ◌<◌, ◌≡◌, ◌∙◌, refl, sym, ap, Bool, ◌||◌, some, List, [], ◌∷◌, map, arith,
  length, length-map, get_elem?-map, get_elem?-some, All, ltb, sub64, sub64_exact,
}
use tstracker.Base.Int.{ℤ}
use tstracker.Peer.{Peer}
use tstracker.Peerlist.{seeds}
use tstracker.Vector.{Vector}
use tstracker.Vector.Ordered.{find}
use tstracker.Vector.Weight.{sum_by}
use tstracker.Peers.{Peers, plain, buckets, vector_hash_peer}
use tstracker.Peers.Spread.{
  VectorOk, BucketsOk, IsSpread, find_peer, find_peer-home, bucket_total, total, one, sum_by-one,
  vector_hash_peer-lt, get_elem?-BucketsOk,
}
use tstracker.Peers.Redistribute.{vectors}
use tstracker.Clean.{clean_single_bucket, clean_vector, Swept, sweep_loop, sweep_peers}
use tstracker.Clean.Survivors.{
  survivors, survivor, clean_single_bucket-survivors, clean_vector-items, clean_vector-Ok,
  survivors-InBucket, find-survivors,
}

abbrev pub AllOk : List (Vector Peer) → Type 0
AllOk = All VectorOk

BucketsOk-AllOk : (n b : ℕ) (vs : List (Vector Peer)) → BucketsOk n b vs → AllOk vs
BucketsOk-AllOk n b [] ok = tt
BucketsOk-AllOk n b (v ∷ vs) ok = (ok.0, BucketsOk-AllOk n (suc b) vs ok.2)

pub vectors-AllOk : (ps : Peers) → IsSpread ps → AllOk (vectors ps)
vectors-AllOk (plain v) ok = (ok, tt)
vectors-AllOk (buckets vs) ok = BucketsOk-AllOk (length vs) 0 vs ok.2

pub total-vectors : (g : Peer → ℕ) (ps : Peers) → total g ps ≡ bucket_total g (vectors ps)
unfolding total
total-vectors g (plain v) = omega arith
total-vectors g (buckets vs) = refl

seeds-le-one : (ps : List Peer) → sum_by seeds ps ≤ sum_by one ps
seeds-le-one [] = omega arith
seeds-le-one (p ∷ ps) = ground (arith, seeds-le-one ps)

bucket_seeds-le : (vs : List (Vector Peer)) → bucket_total seeds vs ≤ bucket_total one vs
bucket_seeds-le [] = omega arith
bucket_seeds-le (v ∷ vs) = omega (arith, seeds-le-one v.items, bucket_seeds-le vs)

pub total-seeds-le : (ps : Peers) → total seeds ps ≤ total one ps
unfolding total
total-seeds-le (plain v) = seeds-le-one v.items
total-seeds-le (buckets vs) = bucket_seeds-le vs

module _ (d : ℤ) where
  abbrev pub cleaned : List (Vector Peer) → List (Vector Peer)
  cleaned = map (clean_vector d)

  -- One vector: how many peers and seeders are left, against what the bucket's round reports.
  clean_vector-counts :
      (v : Vector Peer)
      → VectorOk v
      → (sum_by one (clean_vector d v).items + (clean_single_bucket d v.items).removed
          ≡ sum_by one v.items)
        × (sum_by seeds (clean_vector d v).items + (clean_single_bucket d v.items).removed_seeders
            ≡ sum_by seeds v.items)
  clean_vector-counts v h =
      let e = clean_vector-items d v h in
      let (_, n, s) = clean_single_bucket-survivors d v.items in
      rw e (omega (arith, n, sum_by-one (survivors d v.items), sum_by-one v.items), s)

  pub record Sweeps (vs : List (Vector Peer)) (pc seeders : ℕ) (update : Bool) (s : Swept)
      : Type 0 where
    pub vectors : s.vectors ≡ cleaned vs
    pub peers_left : s.peer_count + bucket_total one vs ≡ pc + bucket_total one (cleaned vs)
    pub fewer : s.peer_count ≤ pc
    pub seeders_gone :
        s.removed_seeders + bucket_total seeds (cleaned vs) ≡ seeders + bucket_total seeds vs

  pub sweep_loop-Sweeps :
      (vs : List (Vector Peer)) (pc seeders : ℕ) (update : Bool)
      → AllOk vs
      → bucket_total one vs ≤ pc
      → pc < 2 ^ 64
      → Sweeps vs pc seeders update (sweep_loop d vs pc seeders update)
  unfolding sweep_loop
  sweep_loop-Sweeps [] pc seeders update ok le small = record {
    vectors = refl;
    peers_left = omega arith;
    fewer = omega arith;
    seeders_gone = omega arith;
  }
  sweep_loop-Sweeps (v ∷ vs) pc seeders update ok le small =
      let c = clean_single_bucket d v.items in
      let (n, k) = clean_vector-counts v ok.0 in
      let e = sub64_exact pc c.removed (omega (arith, n)) small in
      let r =
        sweep_loop-Sweeps vs (sub64 pc c.removed) (seeders + c.removed_seeders)
          (update || (ltb 0 c.removed || ltb 0 (seeders + c.removed_seeders))) ok.1
          (omega (arith, e, n)) (omega (arith, e)) in
      record {
        vectors = ap (◌∷◌ (clean_vector d v)) r.vectors;
        peers_left = omega (arith, r.peers_left, e, n);
        fewer = omega (arith, r.fewer, e, n);
        seeders_gone = omega (arith, r.seeders_gone, k);
      }

  pub record AgedFrom (ps qs : Peers) : Type 0 where
    pub spread : IsSpread qs
    pub found : (j : List ℕ) → find_peer j qs ≡ survivor d (find_peer j ps)
    pub total_left : (g : Peer → ℕ) → total g qs ≡ bucket_total g (cleaned (vectors ps))

  cleaned-BucketsOk :
      (n b : ℕ) (vs : List (Vector Peer)) → BucketsOk n b vs → BucketsOk n b (cleaned vs)
  cleaned-BucketsOk n b [] ok = tt
  cleaned-BucketsOk n b (v ∷ vs) ok = (
    clean_vector-Ok d v ok.0,
    rw (clean_vector-items d v ok.0) (survivors-InBucket d n b v.items ok.1),
    cleaned-BucketsOk n (suc b) vs ok.2,
  )

  -- The swept peers: spread, sorted, and each lookup finds what survives of what it found.
  pub sweep_peers-AgedFrom :
      (ps : Peers)
      → IsSpread ps
      → (qs : Peers) × (sweep_peers ps (cleaned (vectors ps)) ≡ some qs) × AgedFrom ps qs
  unfolding total find_peer
  sweep_peers-AgedFrom (plain v) ok = (
    plain (clean_vector d v),
    refl,
    record {
      spread = clean_vector-Ok d v ok;
      found = λ j. rw (clean_vector-items d v ok) (find-survivors d j v.items ok.sorted);
      total_left = λ g. omega arith;
    },
  )
  sweep_peers-AgedFrom (buckets vs) ok = (
    buckets (cleaned vs),
    refl,
    record {
      spread =
          rw (length-map (clean_vector d) vs) (ok.0, ok.1, cleaned-BucketsOk (length vs) 0 vs ok.2);
      found = λ j.
          let lt = vector_hash_peer-lt j (length vs) (omega (arith, ok.0)) ok.1 in
          let (v, here) = get_elem?-some vs (vector_hash_peer j (length vs)) lt in
          let h = (get_elem?-BucketsOk (length vs) vs 0 _ ok.2 here).0 in
          find_peer-home j (cleaned vs) (clean_vector d v)
            (rw (length-map (clean_vector d) vs) (get_elem?-map (clean_vector d) vs _ here))
          ∙ ap (find Peer.addr j) (clean_vector-items d v h)
          ∙ find-survivors d j v.items h.sorted
          ∙ ap (survivor d) (sym (find_peer-home j vs v here));
      total_left = λ g. refl;
    },
  )
