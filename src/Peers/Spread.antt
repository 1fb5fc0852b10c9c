-- ===== src/Peers/Spread.antt =====
-- The invariant of a torrent's peers: each vector is sorted and fits its space, and in a bucket list
-- every peer stands in the bucket of its hash.
use tstracker.Base.{
  ℕ, zero, suc, ◌+◌, ◌≤◌, ◌<◌, ◌≡◌, refl, true, false, Option, none, some, List, [], ◌∷◌, arith,
  length, length-set, get_elem?, set, All, ◌==◌, if◌then◌else◌,
}
use tstracker.Peer.{Peer, sizeof_peer}
use tstracker.Vector.{Vector}
use tstracker.Vector.Search.{IsSorted}
use tstracker.Vector.Ordered.{find}
use tstracker.Vector.Space.{Fits}
use tstracker.Vector.Weight.{sum_by}
use tstracker.Peers.{Peers, plain, buckets, has_buckets, vector_hash_peer}

pub record VectorOk (v : Vector Peer) : Type 0 where
  pub sorted : IsSorted Peer.addr v.items
  pub fits : Fits sizeof_peer v

abbrev pub InBucket : ℕ → ℕ → Peer → Type 0
InBucket n b p = vector_hash_peer p.addr n ≡ b

-- The vectors from bucket `b` on, of `n` in all.
abbrev pub BucketsOk : ℕ → ℕ → List (Vector Peer) → Type 0
BucketsOk n b [] = Unit
BucketsOk n b (v ∷ vs) = VectorOk v × All (InBucket n b) v.items × BucketsOk n (suc b) vs

abbrev pub IsSpread : Peers → Type 0
IsSpread (plain v) = VectorOk v
IsSpread (buckets vs) = (1 < length vs) × (length vs ≤ 64) × BucketsOk (length vs) 0 vs

-- Where a lookup goes.
unfoldable pub find_peer : List ℕ → Peers → Option Peer
find_peer addr (plain v) = find Peer.addr addr v.items
find_peer addr (buckets vs) = elim (get_elem? vs (vector_hash_peer addr (length vs))) [
  | none ↦ none
  | some v ↦ find Peer.addr addr v.items
]

abbrev pub bucket_total : (Peer → ℕ) → List (Vector Peer) → ℕ
bucket_total w [] = 0
bucket_total w (v ∷ vs) = sum_by w v.items + bucket_total w vs

-- A count over all the peers.
unfoldable pub total : (Peer → ℕ) → Peers → ℕ
total w (plain v) = sum_by w v.items
total w (buckets vs) = bucket_total w vs

abbrev pub one : Peer → ℕ
one p = 1

-- The mark by which C tells the two layouts apart reads the layout rightly: a vector never has more
-- members than space, and a bucket list has space 0 and at least one bucket.
pub has_buckets-IsSpread :
    (ps : Peers) → IsSpread ps → has_buckets ps ≡ elim ps [ plain v ↦ false | buckets vs ↦ true ]
unfolding has_buckets
has_buckets-IsSpread (plain v) ok = ground (arith, ok.fits.within)
has_buckets-IsSpread (buckets vs) ok = ground (arith, ok.0)

pub vector_hash_peer-lt : (addr : List ℕ) (n : ℕ) → 0 < n → n ≤ 64 → vector_hash_peer addr n < n
unfolding vector_hash_peer
vector_hash_peer-lt addr n pos le = grind arith

module _ (n : ℕ) where
  pub get_elem?-BucketsOk :
      (vs : List (Vector Peer)) (b c : ℕ) {v : Vector Peer}
      → BucketsOk n b vs
      → get_elem? vs c ≡ some v
      → VectorOk v × All (InBucket n (b + c)) v.items
  get_elem?-BucketsOk [] b c ok e = cc
  get_elem?-BucketsOk (u ∷ vs) b zero {v} ok e =
      let q : u ≡ v = ground arith in let z : b + 0 ≡ b = omega arith in rw (← q, z) (ok.0, ok.1)
  get_elem?-BucketsOk (u ∷ vs) b (suc c) ok e =
      let z : b + suc c ≡ suc b + c = omega arith in rw z (get_elem?-BucketsOk vs (suc b) c ok.2 e)

  pub set-BucketsOk :
      (vs : List (Vector Peer)) (b c : ℕ) (w : Vector Peer)
      → BucketsOk n b vs
      → VectorOk w
      → All (InBucket n (b + c)) w.items
      → BucketsOk n b (set vs c w)
  set-BucketsOk [] b c w ok h a = tt
  set-BucketsOk (u ∷ vs) b zero w ok h a = (h, (let e : b + 0 ≡ b = omega arith in rw e at a), ok.2)
  set-BucketsOk (u ∷ vs) b (suc c) w ok h a = (
    ok.0,
    ok.1,
    set-BucketsOk vs (suc b) c w ok.2 h (let e : b + suc c ≡ suc b + c = omega arith in rw e at a),
  )

pub bucket_total-set :
    (g : Peer → ℕ) (vs : List (Vector Peer)) (c : ℕ) (v w : Vector Peer)
    → get_elem? vs c ≡ some v
    → bucket_total g (set vs c w) + sum_by g v.items ≡ bucket_total g vs + sum_by g w.items
bucket_total-set g [] c v w e = cc
bucket_total-set g (u ∷ vs) zero v w e = let q : u ≡ v = ground arith in rw q (omega arith)
bucket_total-set g (u ∷ vs) (suc c) v w e = omega (arith, bucket_total-set g vs c v w e)

pub sum_by-le-bucket_total :
    (g : Peer → ℕ) (vs : List (Vector Peer)) (c : ℕ) (v : Vector Peer)
    → get_elem? vs c ≡ some v
    → sum_by g v.items ≤ bucket_total g vs
sum_by-le-bucket_total g [] c v e = cc
sum_by-le-bucket_total g (u ∷ vs) zero v e = let q : u ≡ v = ground arith in rw q (omega arith)
sum_by-le-bucket_total g (u ∷ vs) (suc c) v e = omega (arith, sum_by-le-bucket_total g vs c v e)

pub sum_by-one : (xs : List Peer) → sum_by one xs ≡ length xs
sum_by-one [] = refl
sum_by-one (x ∷ xs) = omega (arith, sum_by-one xs)

pub get_elem?-set :
    {A : Type 0} (xs : List A) (i j : ℕ) (x : A)
    → i < length xs
    → get_elem? (set xs i x) j ≡ (if i == j then some x else get_elem? xs j)
get_elem?-set [] i j x h = absurd (omega arith)
get_elem?-set (y ∷ ys) zero zero x h = refl
get_elem?-set (y ∷ ys) zero (suc j) x h = ground arith
get_elem?-set (y ∷ ys) (suc i) zero x h = ground arith
get_elem?-set (y ∷ ys) (suc i) (suc j) x h = ground (arith, get_elem?-set ys i j x)

-- A lookup after one bucket is replaced.
pub find_peer-set :
    (j : List ℕ) (vs : List (Vector Peer)) (b : ℕ) (u : Vector Peer)
    → b < length vs
    → find_peer j (buckets (set vs b u)) ≡ (
        if b == vector_hash_peer j (length vs)
        then find Peer.addr j u.items
        else find_peer j (buckets vs))
unfolding find_peer
find_peer-set j vs b u h =
    ground (arith, length-set vs b u, get_elem?-set vs b (vector_hash_peer j (length vs)) u h)

pub find_peer-home :
    (j : List ℕ) (vs : List (Vector Peer)) (v : Vector Peer)
    → get_elem? vs (vector_hash_peer j (length vs)) ≡ some v
    → find_peer j (buckets vs) ≡ find Peer.addr j v.items
unfolding find_peer
find_peer-home j vs v e = ground (arith, e)
