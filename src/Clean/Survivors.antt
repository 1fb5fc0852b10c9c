-- ===== src/Clean/Survivors.antt =====
-- The two loops of `clean_single_bucket` as one filter, and what it keeps.
use tstracker.Base.{
  ℕ, ◌+◌, ◌-◌, ◌≤◌, ◌≡◌, ◌∙◌, refl, ap, Bool, Option, none, some, List, [], ◌∷◌, ◌++◌, Ordering,
  arith, length, All, memcmp, ltb, if◌then◌else◌, Bool-cases, inl, inr,
}
use tstracker.Base.Int.{ℤ}
use tstracker.Peer.{Peer, sizeof_peer}
use tstracker.Peerlist.{seeds}
use tstracker.Vector.{Vector, size, vector_fixup_peers}
use tstracker.Vector.Search.{IsSorted}
use tstracker.Vector.Ordered.{find, find_above}
use tstracker.Vector.Space.{Fits, vector_fixup_peers_lem}
use tstracker.Vector.Weight.{sum_by}
use tstracker.Peers.Spread.{VectorOk, InBucket}
use tstracker.Clean.{is_fresh, aged, age_loop, copy_loop, clean_single_bucket, clean_vector}

module _ (d : ℤ) where
  -- The peers that have not timed out, older by the time gone.
  pub survivors : List Peer → List Peer
  survivors [] = []
  survivors (p ∷ ps) = if is_fresh d p then aged d p ∷ survivors ps else survivors ps

  pub survivor : Option Peer → Option Peer
  survivor none = none
  survivor (some p) = if is_fresh d p then some (aged d p) else none

  copy_loop-survivors :
      (ps : List Peer)
      → ((copy_loop d ps).0 ≡ survivors ps)
        × (sum_by seeds (survivors ps) + (copy_loop d ps).1 ≡ sum_by seeds ps)
        × (length (survivors ps) ≤ length ps)
  unfolding copy_loop survivors aged
  copy_loop-survivors [] = (refl, refl, omega arith)
  copy_loop-survivors (p ∷ ps) = ground (arith, copy_loop-survivors ps)

  loops-survivors :
      (ps : List Peer)
      → ((age_loop d ps).0 ++ (copy_loop d (age_loop d ps).1).0 ≡ survivors ps)
        × (sum_by seeds (survivors ps) + (copy_loop d (age_loop d ps).1).1 ≡ sum_by seeds ps)
        × (length (survivors ps)
              + (length (age_loop d ps).1 - length (copy_loop d (age_loop d ps).1).0)
            ≡ length ps)
  unfolding age_loop survivors aged
  loops-survivors [] = ground (arith, copy_loop-survivors [])
  loops-survivors (p ∷ ps) = ground (arith, loops-survivors ps, copy_loop-survivors (p ∷ ps))

  -- The two loops keep exactly the peers that have not timed out, aged; the counts of removed peers
  -- and of removed seeders are what is missing.
  pub clean_single_bucket-survivors :
      (ps : List Peer)
      → ((clean_single_bucket d ps).kept ≡ survivors ps)
        × (length (survivors ps) + (clean_single_bucket d ps).removed ≡ length ps)
        × (sum_by seeds (survivors ps) + (clean_single_bucket d ps).removed_seeders
            ≡ sum_by seeds ps)
  unfolding clean_single_bucket
  clean_single_bucket-survivors ps = let (a, b, c) = loops-survivors ps in (a, c, b)

  survivors-Less :
      (k : List ℕ) (ps : List Peer)
      → All (λ p. memcmp k p.addr ≡ Ordering.lt) ps
      → All (λ p. memcmp k p.addr ≡ Ordering.lt) (survivors ps)
  unfolding survivors aged
  survivors-Less k [] a = tt
  survivors-Less k (p ∷ ps) a = ground (arith, survivors-Less k ps a.1)

  survivors-IsSorted : (ps : List Peer) → IsSorted Peer.addr ps → IsSorted Peer.addr (survivors ps)
  unfolding survivors aged
  survivors-IsSorted [] s = tt
  survivors-IsSorted (p ∷ ps) s =
      ground (arith, survivors-Less p.addr ps s.0, survivors-IsSorted ps s.1)

  pub survivors-InBucket :
      (n b : ℕ) (ps : List Peer) → All (InBucket n b) ps → All (InBucket n b) (survivors ps)
  unfolding survivors aged
  survivors-InBucket n b [] a = tt
  survivors-InBucket n b (p ∷ ps) a = ground (arith, survivors-InBucket n b ps a.1)

  pub find-survivors :
      (j : List ℕ) (ps : List Peer)
      → IsSorted Peer.addr ps
      → find Peer.addr j (survivors ps) ≡ survivor (find Peer.addr j ps)
  unfolding survivors survivor find aged
  find-survivors j [] s = refl
  find-survivors j (p ∷ ps) s =
      ground (arith, find-survivors j ps s.1, find_above Peer.addr j p ps s.0)

  module _ (v : Vector Peer) (h : VectorOk v) where
    abbrev cut : Vector Peer
    cut = record v { items = (clean_single_bucket d v.items).kept }

    abbrev slack : Bool
    slack = ltb (size cut) (clean_single_bucket d v.items).removed

    cut-Fits : Fits sizeof_peer cut
    cut-Fits =
        let (e, n, _) = clean_single_bucket-survivors v.items in
        record { within = omega (arith, ap length e, n, h.fits.within); small = h.fits.small }

    fixup : ((vector_fixup_peers cut).items ≡ cut.items) × Fits sizeof_peer (vector_fixup_peers cut)
    fixup = let (a, b, _) = vector_fixup_peers_lem cut sizeof_peer cut-Fits in (a, b)

    clean_vector-Fits : Fits sizeof_peer (clean_vector d v)
    unfolding clean_vector
    clean_vector-Fits = elim (Bool-cases slack) [
      | inl few ↦ rw few fixup.1
      | inr many ↦ rw many cut-Fits
    ]

    pub clean_vector-items : (clean_vector d v).items ≡ survivors v.items
    unfolding clean_vector
    clean_vector-items = elim (Bool-cases slack) [
      | inl few ↦ rw few (fixup.0 ∙ (clean_single_bucket-survivors v.items).0)
      | inr many ↦ rw many (clean_single_bucket-survivors v.items).0
    ]

    pub clean_vector-Ok : VectorOk (clean_vector d v)
    clean_vector-Ok = record {
      sorted = rw clean_vector-items (survivors-IsSorted v.items h.sorted);
      fits = clean_vector-Fits;
    }
