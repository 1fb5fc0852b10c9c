-- ===== src/Scrape/All.antt =====
-- A scrape on all the buckets: the tracker as a map from hashes to torrents.
use tstracker.Base.{
  ℕ, zero, suc, ◌+◌, ◌*◌, ◌^◌, ◌≤◌, ◌<◌, ◌≡◌, refl, ap, inl, inr, Option, some, List, [], ◌∷◌,
  length, All, arith, ◌==◌, ◌>>=◌, if◌then◌else◌, Bool-cases,
}
use tstracker.Base.Int.{ℤ}
use tstracker.Vector.{Vector, size}
use tstracker.Mutex.{bucket_of_hash, add_delta}
use tstracker.Tracker.{Torrent}
use tstracker.Tracker.Bucket.{TorrentsOk, find_torrent}
use tstracker.Scrape.{AllTorrents, put_bucket, bucket_count}

-- The torrents in the first `n` buckets.
unfoldable pub sizes : (ℕ → Vector Torrent) → ℕ → ℕ
sizes bucket zero = 0
sizes bucket (suc n) = sizes bucket n + size (bucket n)

-- Every bucket is in order, and the count of torrents is right.
pub record AllOk (s : AllTorrents) : Type 0 where
  pub ordered : (b : ℕ) → TorrentsOk (s.bucket b)
  pub few : (b : ℕ) → size (s.bucket b) < 2 ^ 32
  pub counted : s.torrent_count ≡ sizes s.bucket bucket_count

-- The 20 bytes of a hash; the first ones choose the bucket.
pub record IsHash (hash : List ℕ) : Type 0 where
  pub long : length hash ≡ 20
  pub bytes : All (λ b. b < 256) hash

abbrev pub find_all : List ℕ → AllTorrents → Option Torrent
find_all hash s = bucket_of_hash hash >>= λ b. find_torrent hash (s.bucket b)

pub IsHash-bucket :
    (hash : List ℕ) → IsHash hash → (b : ℕ) × (bucket_of_hash hash ≡ some b) × (b < bucket_count)
IsHash-bucket [] h = absurd (omega (arith, h.long))
IsHash-bucket (a ∷ []) h = absurd (omega (arith, h.long))
IsHash-bucket (a ∷ b ∷ []) h = absurd (omega (arith, h.long))
IsHash-bucket (a ∷ b ∷ c ∷ []) h = absurd (omega (arith, h.long))
IsHash-bucket (a ∷ b ∷ c ∷ d ∷ s) h =
    let (x, (y, (z, (w, rest)))) = h.bytes in (_, refl, omega arith)

abbrev replaced : (ℕ → Vector Torrent) → ℕ → Vector Torrent → ℕ → Vector Torrent
replaced bucket b v c = if c == b then v else bucket c

sizes-above :
    (bucket : ℕ → Vector Torrent) (b : ℕ) (v : Vector Torrent) (n : ℕ)
    → n ≤ b
    → sizes (replaced bucket b v) n ≡ sizes bucket n
unfolding sizes
sizes-above bucket b v zero h = refl
sizes-above bucket b v (suc n) h = ground (arith, sizes-above bucket b v n)

sizes-replaced :
    (bucket : ℕ → Vector Torrent) (b : ℕ) (v : Vector Torrent) (n : ℕ)
    → b < n
    → sizes (replaced bucket b v) n + size (bucket b) ≡ sizes bucket n + size v
unfolding sizes
sizes-replaced bucket b v zero h = absurd (omega arith)
sizes-replaced bucket b v (suc n) h = elim (Bool-cases (n == b)) [
  | inl last ↦
      let e : n ≡ b = ground arith in
      rw last (ground (arith, sizes-above bucket b v n (omega arith), ap (λ c. size (bucket c)) e))
  | inr inner ↦ rw inner (ground (arith, sizes-replaced bucket b v n))
]

pub sizes-few :
    (bucket : ℕ → Vector Torrent) (n : ℕ)
    → ((b : ℕ) → size (bucket b) < 2 ^ 32)
    → sizes bucket n ≤ n * 2 ^ 32
unfolding sizes
sizes-few bucket zero h = omega arith
sizes-few bucket (suc n) h = omega (arith, sizes-few bucket n h, h n)

pub put_bucket-AllOk :
    (s : AllTorrents) (ok : AllOk s) (b : ℕ) (v : Vector Torrent) (delta : ℤ)
    → b < bucket_count
    → TorrentsOk v
    → size v ≤ size (s.bucket b)
    → add_delta s.torrent_count delta + size (s.bucket b) ≡ s.torrent_count + size v
    → AllOk (put_bucket s b v delta)
unfolding put_bucket
put_bucket-AllOk s ok b v delta bound good fewer count = record {
  ordered = λ c. elim (Bool-cases (c == b)) [
    | inl here ↦ rw here good
    | inr other ↦ rw other (ok.ordered c)
  ];
  few = λ c. elim (Bool-cases (c == b)) [
    | inl here ↦ rw here (omega (arith, ok.few b))
    | inr other ↦ rw other (ok.few c)
  ];
  counted = omega (arith, sizes-replaced s.bucket b v bucket_count bound, ok.counted, count);
}

pub sizes-one : (bucket : ℕ → Vector Torrent) (n b : ℕ) → b < n → size (bucket b) ≤ sizes bucket n
unfolding sizes
sizes-one bucket zero b h = absurd (omega arith)
sizes-one bucket (suc n) b h = elim (Bool-cases (n == b)) [
  | inl last ↦ let e : n ≡ b = ground arith in omega (arith, ap (λ c. size (bucket c)) e)
  | inr inner ↦ let d : b < n = ground arith in omega (arith, sizes-one bucket n b d)
]
