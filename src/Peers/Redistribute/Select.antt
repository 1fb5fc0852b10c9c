-- ===== src/Peers/Redistribute/Select.antt =====
-- The peers that belong in one bucket, and the peers of a bucket list as one list.
use mathlib.Core.List.{append-nil}
use tstracker.Base.{
  ℕ, zero, suc, ◌+◌, ◌<◌, ◌≡◌, ◌≢◌, refl, sym, none, some, List, [], ◌∷◌, ◌++◌, arith, length,
  get_elem?, All, memcmp→eq, memcmp_self, ◌==◌, if◌then◌else◌,
}
use tstracker.Peer.{Peer}
use tstracker.Vector.{Vector}
use tstracker.Vector.Search.{IsSorted}
use tstracker.Vector.Ordered.{find, find_above}
use tstracker.Vector.Weight.{sum_by, sum_by-append}
use tstracker.Peers.{Peers, plain, buckets, vector_hash_peer}
use tstracker.Peers.Spread.{InBucket, BucketsOk, IsSpread, find_peer, bucket_total, total}
use tstracker.Peers.Redistribute.{dest, vectors, members}
use tstracker.Peers.Redistribute.Sort.{look, Distinct, look-append}

module _ (n b : ℕ) where
  unfoldable pub select : List Peer → List Peer
  select [] = []
  select (p ∷ ps) = if dest n p.addr == b then p ∷ select ps else select ps

  pub select-append :
      (ps : List Peer) (p : Peer)
      → select (ps ++ p ∷ []) ≡ (if dest n p.addr == b then select ps ++ p ∷ [] else select ps)
  unfolding select
  select-append [] p = refl
  select-append (q ∷ qs) p = ground (arith, select-append qs p)

  pub look-select :
      (j : List ℕ) (ps : List Peer)
      → look j (select ps) ≡ (if dest n j == b then look j ps else none)
  unfolding select find
  look-select j [] = ground arith
  look-select j (p ∷ ps) = ground (arith, look-select j ps, memcmp→eq p.addr j)

  pub select-Distinct : (ps : List Peer) → Distinct ps → Distinct (select ps)
  unfolding select
  select-Distinct [] d = tt
  select-Distinct (p ∷ ps) d = ground (arith, look-select p.addr ps, select-Distinct ps d.1)

  pub select-InDest : (ps : List Peer) → All (λ p. dest n p.addr ≡ b) (select ps)
  unfolding select
  select-InDest [] = tt
  select-InDest (p ∷ ps) = ground (arith, select-InDest ps)

sorted-Distinct : (ps : List Peer) → IsSorted Peer.addr ps → Distinct ps
sorted-Distinct [] s = tt
sorted-Distinct (p ∷ ps) s = (
  find_above Peer.addr p.addr p ps s.0 (λ e. ground (arith, memcmp_self p.addr)),
  sorted-Distinct ps s.1,
)

Distinct-append :
    (ps qs : List Peer)
    → Distinct ps
    → Distinct qs
    → All (λ p. look p.addr qs ≡ none) ps
    → Distinct (ps ++ qs)
Distinct-append [] qs d e a = e
Distinct-append (p ∷ ps) qs d e a =
    (ground (arith, look-append p.addr ps qs, a.0, d.0), Distinct-append ps qs d.1 e a.1)

module _ (n : ℕ) where
  look-other :
      (j : List ℕ) (b : ℕ) (ps : List Peer)
      → All (InBucket n b) ps
      → vector_hash_peer j n ≢ b
      → look j ps ≡ none
  unfolding find
  look-other j b [] a ne = refl
  look-other j b (p ∷ ps) a ne = ground (arith, a.0, look-other j b ps a.1 ne, memcmp→eq p.addr j)

  look-members-earlier :
      (j : List ℕ) (b : ℕ) (vs : List (Vector Peer))
      → BucketsOk n b vs
      → vector_hash_peer j n < b
      → look j (members vs) ≡ none
  unfolding find
  look-members-earlier j b [] ok lt = refl
  look-members-earlier j b (v ∷ vs) ok lt = ground (
    arith,
    look-append j v.items (members vs),
    look-other j b v.items ok.1 (omega arith),
    look-members-earlier j (suc b) vs ok.2 (omega arith),
  )

  -- Among all the peers a lookup finds what it finds in the bucket of its hash.
  look-members :
      (j : List ℕ) (b c : ℕ) (vs : List (Vector Peer))
      → BucketsOk n b vs
      → vector_hash_peer j n ≡ b + c
      → look j (members vs) ≡ elim (get_elem? vs c) [ none ↦ none | some v ↦ look j v.items ]
  unfolding find
  look-members j b c [] ok e = refl
  look-members j b zero (v ∷ vs) ok e = ground (
    arith,
    look-append j v.items (members vs),
    look-members-earlier j (suc b) vs ok.2 (omega arith),
  )
  look-members j b (suc c) (v ∷ vs) ok e = ground (
    arith,
    look-append j v.items (members vs),
    look-other j b v.items ok.1 (omega arith),
    look-members j (suc b) c vs ok.2 (omega arith),
  )

  apart :
      (b : ℕ) (ps : List Peer) (vs : List (Vector Peer))
      → All (InBucket n b) ps
      → BucketsOk n (suc b) vs
      → All (λ p. look p.addr (members vs) ≡ none) ps
  apart b [] vs a ok = tt
  apart b (p ∷ ps) vs a ok =
      (look-members-earlier p.addr (suc b) vs ok (omega (arith, a.0)), apart b ps vs a.1 ok)

  members-Distinct : (b : ℕ) (vs : List (Vector Peer)) → BucketsOk n b vs → Distinct (members vs)
  members-Distinct b [] ok = tt
  members-Distinct b (v ∷ vs) ok =
      Distinct-append v.items (members vs) (sorted-Distinct v.items ok.0.sorted)
        (members-Distinct (suc b) vs ok.2) (apart b v.items vs ok.1 ok.2)

sum_by-members :
    (g : Peer → ℕ) (vs : List (Vector Peer)) → sum_by g (members vs) ≡ bucket_total g vs
sum_by-members g [] = refl
sum_by-members g (v ∷ vs) = omega (arith, sum_by-append g v.items (members vs), sum_by-members g vs)

-- All the peers as one list in which lookups and counts come out the same.
pub record Lists (ps : Peers) (xs : List Peer) : Type 0 where
  pub distinct : Distinct xs
  pub found : (j : List ℕ) → find_peer j ps ≡ look j xs
  pub counted : (g : Peer → ℕ) → total g ps ≡ sum_by g xs

pub members-Lists : (ps : Peers) → IsSpread ps → Lists ps (members (vectors ps))
unfolding find_peer total
members-Lists (plain v) ok = rw (append-nil v.items) (record {
  distinct = sorted-Distinct v.items ok.sorted;
  found = λ j. refl;
  counted = λ g. refl;
})
members-Lists (buckets vs) ok = record {
  distinct = members-Distinct (length vs) 0 vs ok.2;
  found = λ j.
      sym (look-members (length vs) j 0 (vector_hash_peer j (length vs)) vs ok.2 (omega arith));
  counted = λ g. sym (sum_by-members g vs);
}
