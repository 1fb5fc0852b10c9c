-- ===== src/Proxy/Stream/Count.antt =====
-- The number of peers of a torrent, written and read.
use tstracker.Base.{ℕ, ◌/◌, ◌^◌, ◌<◌, ◌≡◌, some, List, ◌++◌, arith, leb, inl, inr, Bool-cases}
use tstracker.Proxy.Stream.{put_count, get_count}

-- Three bytes hold every number that a packet of peers can have.
pub get_count-put_count :
    (n : ℕ) (rest : List ℕ)
    → 0 < n
    → n < 2 ^ 21
    → get_count 7 0 0 (put_count 10 n ++ rest) ≡ some (n, rest)
unfolding get_count put_count
get_count-put_count n rest low high = elim (Bool-cases (leb n 0x7f)) [
  | inl one ↦ ground (arith, one)
  | inr more ↦ elim (Bool-cases (leb (n / 128) 0x7f)) [
    | inl two ↦ ground (arith, more, two)
    | inr three ↦ ground (arith, more, three)
  ]
]
