-- ===== src/Udp/Scrapes.antt =====
-- A scrape packet is answered: the loop ends, and the reply fits the output buffer.
use tstracker.Base.{
  ℕ, zero, suc, ◌+◌, ◌-◌, ◌*◌, ◌≤◌, ◌<◌, ◌≡◌, ◌∙◌, refl, ap, inl, inr, Option, some, List, [], ◌∷◌,
  ◌++◌, length, length-append, length-take, length-drop, take, drop, All, arith, ltb, if◌then◌else◌,
  Bool-cases,
}
use tstracker.Base.Int.{ℤ}
use tstracker.Peerlist.{Peerlist}
use tstracker.Vector.Space.{IsBounded}
use tstracker.Peers.Redistribute.{Memory}
use tstracker.Scrape.{AllTorrents, udp_entry}
use tstracker.Scrape.All.{AllOk, IsHash}
use tstracker.Scrape.Replies.{MapStep, return_udp_scrape_for_torrent-entry}
use tstracker.Udp.{scrape_loop}

All-drop : (P : ℕ → Type 0) (n : ℕ) (xs : List ℕ) → All P xs → All P (drop n xs)
All-drop P zero xs a = a
All-drop P (suc n) [] a = tt
All-drop P (suc n) (x ∷ xs) a = All-drop P n xs a.1

All-take : (P : ℕ → Type 0) (n : ℕ) (xs : List ℕ) → All P xs → All P (take n xs)
All-take P zero xs a = tt
All-take P (suc n) [] a = tt
All-take P (suc n) (x ∷ xs) a = (a.0, All-take P n xs a.1)

-- The hashes that a packet of `byte_count` bytes makes the loop look at, from the k-th on: as long as
-- one begins within the packet, `n` at most.
unfoldable pub hashes_in : List ℕ → ℕ → ℕ → ℕ → List (List ℕ)
hashes_in inbuf byte_count zero k = []
hashes_in inbuf byte_count (suc n) k =
    if ltb (k * 20) (byte_count - 16)
    then take 20 (drop (16 + 20 * k) inbuf) ∷ hashes_in inbuf byte_count n (suc k)
    else []

module _ (mem : Memory) (bounded : (i : ℕ) → IsBounded (mem.grow_ok i)) (now : ℤ) (inbuf : List ℕ)
    (long : 16 + 20 * 75 ≤ length inbuf) (bytes : All (λ b. b < 256) inbuf) (byte_count : ℕ) where
  IsHash-in : (k : ℕ) → k < 75 → IsHash (take 20 (drop (16 + 20 * k) inbuf))
  IsHash-in k few =
      let rest = length-drop (16 + 20 * k) inbuf in
      record {
        long = length-take 20 (drop (16 + 20 * k) inbuf) (omega (arith, rest));
        bytes =
            All-take (λ b. b < 256) 20 (drop (16 + 20 * k) inbuf)
              (All-drop (λ b. b < 256) (16 + 20 * k) inbuf bytes);
      }

  -- What the loop answers: 12 bytes for each hash, in order, each by a step on the map of torrents.
  pub data Answers : List (List ℕ) → AllTorrents → List ℕ → AllTorrents → Type 0 where
    done : (s : AllTorrents) → Answers [] s [] s
    next :
        {hash : List ℕ} {hashes : List (List ℕ)} {s t u : AllTorrents} {r : Option Peerlist}
        {entries : List ℕ}
        → MapStep now hash s t r
        → Answers hashes t entries u
        → Answers (hash ∷ hashes) s (udp_entry r ++ entries) u

  scrape_from :
      (n k : ℕ) (s : AllTorrents)
      → k + n ≤ 75
      → AllOk s
      → (entries : List ℕ) × (t : AllTorrents) × (scrape_loop mem now inbuf byte_count n k s
          ≡ some (entries, k + length (hashes_in inbuf byte_count n k), t))
        × Answers (hashes_in inbuf byte_count n k) s entries t
        × AllOk t
        × (length entries ≡ 12 * length (hashes_in inbuf byte_count n k))
  unfolding scrape_loop hashes_in
  scrape_from zero k s few ok = ([], s, ap (λ c. some ([], c, s)) (omega arith), done s, ok, refl)
  scrape_from (suc n) k s few ok = elim (Bool-cases (ltb (k * 20) (byte_count - 16))) [
    | inr over ↦ (
      [],
      s,
      rw over (ap (λ c. some ([], c, s)) (omega arith)),
      rw over (done s),
      ok,
      rw over refl,
    )
    | inl more ↦
        let (r, t, e, step, twelve) =
          return_udp_scrape_for_torrent-entry mem bounded now (take 20 (drop (16 + 20 * k) inbuf)) s
            (IsHash-in k (omega arith)) ok in
        let (entries, u, f, steps, ok', many) = scrape_from n (suc k) t (omega arith) step.ok in
        (
          udp_entry r ++ entries,
          u,
          rw (more, e, f) (ap (λ c. some (udp_entry r ++ entries, c, u)) (omega arith)),
          rw more (next step steps),
          ok',
          rw more (omega (arith, length-append (udp_entry r) entries, twelve, many)),
        )
  ]

  length-hashes_in : (n k : ℕ) → length (hashes_in inbuf byte_count n k) ≤ n
  unfolding hashes_in
  length-hashes_in zero k = omega arith
  length-hashes_in (suc n) k = ground (arith, length-hashes_in n (suc k))

  -- Given an input buffer with room for 75 hashes behind its first 16 bytes and buckets in order,
  -- the loop over a scrape packet ends and does not fault. It answers for each hash that begins
  -- within the packet, up to 75 of them, one step on the map of torrents after the other, with 12
  -- bytes each; with the two words before them the reply has at most 908 bytes.
  pub scrape_loop-Answers :
      (s : AllTorrents)
      → AllOk s
      → (entries : List ℕ) × (t : AllTorrents) × (scrape_loop mem now inbuf byte_count 75 0 s
          ≡ some (entries, length (hashes_in inbuf byte_count 75 0), t))
        × Answers (hashes_in inbuf byte_count 75 0) s entries t
        × AllOk t
        × (length entries ≡ 12 * length (hashes_in inbuf byte_count 75 0))
        × (8 + length entries ≤ 908)
  scrape_loop-Answers s ok =
      let (entries, t, e, steps, ok', many) = scrape_from 75 0 s (omega arith) ok in
      (
        entries,
        t,
        e ∙ ap (λ c. some (entries, c, t)) (omega arith),
        steps,
        ok',
        many,
        omega (arith, many, length-hashes_in 75 0),
      )
