-- ===== src/Peers/Redistribute/Kept.antt =====
-- Changing the number of buckets keeps the peers: what a lookup finds and what a count gives.
use tstracker.Base.{
  ℕ, zero, suc, ◌+◌, ◌*◌, ◌/◌, ◌^◌, ◌≤◌, ◌<◌, ◌≡◌, ◌∙◌, refl, sym, ap, inl, inr, Option, none, some,
  List, [], ◌∷◌, map, arith, length, get_elem?, get_elem?-some, get_elem?-map, length-map, u32, u64,
  take-length, true, All, ltb, ◌==◌, Bool-cases,
}
use tstracker.Peer.{Peer, sizeof_peer}
use tstracker.Vector.{Vector, size, min_members}
use tstracker.Vector.Space.{IsBounded}
use tstracker.Peers.{Peers, plain, buckets, vector_hash_peer}
use tstracker.Peers.Spread.{
  VectorOk, InBucket, BucketsOk, IsSpread, find_peer, find_peer-home, bucket_total, total,
  sum_by-one, one, vector_hash_peer-lt,
}
use tstracker.Peers.Redistribute.{
  Memory, sizeof_vector, Moved, fault, no_memory, done, dest, vectors, members, num_buckets_new,
  old_members, int_of, bucket_size, new_size, all_buckets_ok, qsort, sort_vector, link, rebuild,
  vector_redistribute_buckets,
}
use tstracker.Peers.Redistribute.Sort.{look, Distinct, qsort-Sorts}
use tstracker.Peers.Redistribute.Select.{
  select, look-select, select-Distinct, select-InDest, Lists, members-Lists,
}
use tstracker.Peers.Redistribute.Move.{
  Fills, FillsAll, Buckets, BucketsOr, move_all-Buckets, start-Buckets,
}

-- The same peers in another layout.
pub record Kept (ps qs : Peers) : Type 0 where
  pub spread : IsSpread qs
  pub found : (j : List ℕ) → find_peer j qs ≡ find_peer j ps
  pub counted : (g : Peer → ℕ) → total g qs ≡ total g ps

abbrev pub KeptOr : Peers → Option Peers → Type 0
KeptOr ps none = ⊥
KeptOr ps (some qs) = Kept ps qs

Kept-self : (ps : Peers) → IsSpread ps → Kept ps ps
Kept-self ps ok = record { spread = ok; found = λ j. refl; counted = λ g. refl }

-- The doubling stops at a size that is no more than twice what is asked for.
pub bucket_size_bound :
    (fuel size tmp : ℕ)
    → size ≤ 2 * tmp + 2
    → 0 < size
    → (0 < bucket_size fuel size tmp) × (bucket_size fuel size tmp ≤ 2 * tmp + 2)
unfolding bucket_size
bucket_size_bound zero size tmp h pos = (pos, h)
bucket_size_bound (suc fuel) size tmp h pos = ground (arith, bucket_size_bound fuel (size * 2) tmp)

new_size_bound : (pc n : ℕ) → (0 < new_size pc n) × (new_size pc n * sizeof_peer < 2 ^ 63)
new_size_bound pc n =
    let (a, b) = bucket_size_bound 64 min_members (int_of (pc / n)) (omega arith) (omega arith) in
    (a, ground (arith, b))

module _ (n : ℕ) (pos : 0 < n) (le : n ≤ 64) (xs : List Peer) (d : Distinct xs) where
  sorted-Ok : (b : ℕ) (v : Vector Peer) → Fills n xs b v → VectorOk (sort_vector v)
  sorted-Ok b v f =
      let s = qsort-Sorts v.items (rw f.holds (select-Distinct n b xs d)) in
      record {
        sorted = s.sorted;
        fits = record {
          within =
              omega (
                arith,
                sum_by-one (qsort v.items),
                sum_by-one v.items,
                s.counted one,
                f.fits.within,
              );
          small = f.fits.small;
        };
      }

  look-sorted :
      (b : ℕ) (v : Vector Peer)
      → Fills n xs b v
      → (j : List ℕ) → dest n j ≡ b
      → look j (qsort v.items) ≡ look j xs
  look-sorted b v f j e =
      let s = qsort-Sorts v.items (rw f.holds (select-Distinct n b xs d)) in
      s.found j ∙ ap (look j) f.holds ∙ ground (arith, look-select n b j xs)

  total-sorted :
      (g : Peer → ℕ) (b : ℕ) (vs : List (Vector Peer))
      → FillsAll n xs b vs
      → bucket_total g (map sort_vector vs) ≡ bucket_total g vs
  total-sorted g b [] f = refl
  total-sorted g b (v ∷ vs) f =
      let s = qsort-Sorts v.items (rw f.0.holds (select-Distinct n b xs d)) in
      omega (arith, s.counted g, total-sorted g (suc b) vs f.1)

  sorted-BucketsOk :
      (b : ℕ) (vs : List (Vector Peer))
      → 1 < n
      → FillsAll n xs b vs
      → BucketsOk n b (map sort_vector vs)
  sorted-BucketsOk b [] many f = tt
  sorted-BucketsOk b (v ∷ vs) many f =
      let s = qsort-Sorts v.items (rw f.0.holds (select-Distinct n b xs d)) in
      (
        sorted-Ok b v f.0,
        s.every (InBucket n b) (rw f.0.holds (in_bucket (select n b xs) (select-InDest n b xs))),
        sorted-BucketsOk (suc b) vs many f.1,
      )
    where
      in_bucket : (ps : List Peer) → All (λ p. dest n p.addr ≡ b) ps → All (InBucket n b) ps
      in_bucket [] a = tt
      in_bucket (p ∷ ps) a = (ground (arith, a.0), in_bucket ps a.1)

  get_elem?-FillsAll :
      (b c : ℕ) (vs : List (Vector Peer)) {v : Vector Peer}
      → FillsAll n xs b vs
      → get_elem? vs c ≡ some v
      → Fills n xs (b + c) v
  get_elem?-FillsAll b c [] f e = cc
  get_elem?-FillsAll b zero (u ∷ vs) {v} f e =
      let q : u ≡ v = ground arith in let z : b + 0 ≡ b = omega arith in rw (z, ← q) f.0
  get_elem?-FillsAll b (suc c) (u ∷ vs) f e =
      let z : b + suc c ≡ suc b + c = omega arith in rw z (get_elem?-FillsAll (suc b) c vs f.1 e)

  module _ (ps : Peers) (l : Lists ps xs) (vs : List (Vector Peer)) (bs : Buckets n xs vs) where
    Kept-buckets : 1 < n → Kept ps (buckets (map sort_vector vs))
    unfolding total
    Kept-buckets many = record {
      spread =
          rw (length-map sort_vector vs, bs.count) (many, le, sorted-BucketsOk 0 vs many bs.fill);
      found = λ j.
          let lt = vector_hash_peer-lt j n pos le in
          let (v, here) = get_elem?-some vs (vector_hash_peer j n) (omega (arith, bs.count)) in
          let f = get_elem?-FillsAll 0 (vector_hash_peer j n) vs bs.fill here in
          find_peer-home j (map sort_vector vs) (sort_vector v) (
            rw (length-map sort_vector vs, bs.count)
              (get_elem?-map sort_vector vs (vector_hash_peer j n) here))
          ∙ look-sorted (0 + vector_hash_peer j n) v f j (ground arith)
          ∙ sym (l.found j);
      counted = λ g. total-sorted g 0 vs bs.fill ∙ bs.counted g ∙ sym (l.counted g);
    }

    Kept-plain : (v : Vector Peer) → vs ≡ v ∷ [] → n ≡ 1 → Kept ps (plain (sort_vector v))
    unfolding total find_peer
    Kept-plain v e single =
        let fill = rw e at bs.fill in
        record {
          spread = sorted-Ok 0 v fill.0;
          found = λ j. look-sorted 0 v fill.0 j (ground arith) ∙ sym (l.found j);
          counted = λ g.
              omega (arith, total-sorted g 0 (v ∷ []) fill, rw e at (bs.counted g), l.counted g);
        }

    one_bucket :
        (us : List (Vector Peer))
        → vs ≡ us
        → n ≡ 1
        → KeptOr ps (elim (map sort_vector us) [ [] ↦ none | v ∷ _ ↦ some (plain v) ])
    one_bucket [] e single = absurd (omega (arith, bs.count, ap length e))
    one_bucket (v ∷ []) e single = Kept-plain v e single
    one_bucket (v ∷ u ∷ us) e single = absurd (omega (arith, bs.count, ap length e))

    link-Kept : KeptOr ps (link n (map sort_vector vs))
    link-Kept = elim (Bool-cases (ltb 1 n)) [
      | inl many ↦ rw many (Kept-buckets (ground arith))
      | inr single ↦ rw single (one_bucket vs refl (ground arith))
    ]

total-vectors : (g : Peer → ℕ) (ps : Peers) → total g ps ≡ bucket_total g (vectors ps)
unfolding total
total-vectors g (plain v) = omega arith
total-vectors g (buckets vs) = refl

old_members-all :
    (vs : List (Vector Peer)) → bucket_total one vs < 2 ^ 31 → old_members vs ≡ some (members vs)
unfolding old_members
old_members-all [] few = refl
old_members-all (v ∷ vs) few =
    let n = sum_by-one v.items in
    let whole : u32 (size v) ≡ size v = omega (arith, n, few) in
    let fits : ltb (size v) (2 ^ 31) ≡ true = ground (arith, n, few) in
    let rest = old_members-all vs (omega (arith, few)) in
    rw (whole, fits, rest, take-length v.items) refl

num_buckets_new_bounds :
    (pc old : ℕ) → 0 < old → old ≤ 64 → (0 < num_buckets_new pc old) × (num_buckets_new pc old ≤ 64)
unfolding num_buckets_new
num_buckets_new_bounds pc old h k = ground arith

old_bounds : (ps : Peers) → IsSpread ps → (0 < length (vectors ps)) × (length (vectors ps) ≤ 64)
old_bounds (plain v) ok = omega arith
old_bounds (buckets vs) ok = omega (arith, ok.0, ok.1)

module _ (mem : Memory) (bounded : (i : ℕ) → IsBounded (mem.grow_ok i)) (pc : ℕ) (ps : Peers)
    (ok : IsSpread ps) (few : total one ps < 2 ^ 31) where
  abbrev old_peers : List Peer
  old_peers = members (vectors ps)

  finish-Kept :
      (n : ℕ) (pos : 0 < n) (le : n ≤ 64) (m : Moved)
      → BucketsOr n old_peers m
      → KeptOr ps
          (elim m [ fault ↦ none | no_memory ↦ some ps | done vs ↦ link n (map sort_vector vs) ])
  finish-Kept n pos le fault h = h
  finish-Kept n pos le no_memory h = Kept-self ps ok
  finish-Kept n pos le (done vs) h =
      let l = members-Lists ps ok in link-Kept n pos le old_peers l.distinct ps l vs h

  rebuild-Kept : (n : ℕ) → 0 < n → n ≤ 64 → KeptOr ps (rebuild mem pc n ps)
  unfolding rebuild
  rebuild-Kept n pos le =
      let (a, b) = new_size_bound pc n in
      elim (Bool-cases (all_buckets_ok mem.bucket_ok (u64 (new_size pc n * sizeof_peer)) n)) [
        | inr refused ↦ rw refused (Kept-self ps ok)
        | inl granted ↦
            rw (granted, old_members-all (vectors ps) (omega (arith, few, total-vectors one ps)))
              (finish-Kept n pos le _ (
                move_all-Buckets n pos le [] old_peers mem.grow_ok 0 _ bounded
                  (start-Buckets n (new_size pc n) a b)))
      ]

  -- Given peers that are spread and sorted and fewer than 2^31, whatever the peer count and whichever allocations
  -- fail, the call neither faults nor loses a peer: the peers it leaves are spread and sorted, each
  -- lookup finds what it found before, and each count is the same.
  pub vector_redistribute_buckets-Kept : KeptOr ps (vector_redistribute_buckets mem pc ps)
  unfolding vector_redistribute_buckets
  vector_redistribute_buckets-Kept =
      let old = length (vectors ps) in
      let (lo, hi) = old_bounds ps ok in
      let (pos, le) = num_buckets_new_bounds pc old lo hi in
      elim (Bool-cases (num_buckets_new pc old == old)) [
        | inl same ↦ rw same (Kept-self ps ok)
        | inr other ↦
            rw other
              (elim (Bool-cases (mem.list_ok (u64 (num_buckets_new pc old * sizeof_vector)))) [
                | inr refused ↦ rw refused (Kept-self ps ok)
                | inl granted ↦ rw granted (rebuild-Kept (num_buckets_new pc old) pos le)
              ])
      ]
