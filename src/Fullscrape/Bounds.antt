-- ===== src/Fullscrape/Bounds.antt =====
-- How long the entry of a torrent is.
use tstracker.Base.{
  ℕ, suc, ◌+◌, ◌*◌, ◌≤◌, ◌≡◌, refl, inl, inr, Bool-cases, List, [], ◌∷◌, ◌++◌, length,
  length-append, ◌==◌, codes, zd, htonl, length-dec, length-zd, length-htonl, arith,
}
use tstracker.Base.Int.{ℤ, pos, negsuc}
use tstracker.Peerlist.{Peerlist}
use tstracker.Tracker.{Torrent}
use tstracker.Fullscrape.{scrape_entry, to_hex, zd_ℤ, two_counts, leechers, bencoded, maxentrylen}

length-to_hex : (s : List ℕ) → length (to_hex s) ≡ 2 * length s
unfolding to_hex
length-to_hex [] = refl
length-to_hex (b ∷ s) = omega (arith, length-to_hex s)

length-zd_ℤ : (n : ℤ) → length (zd_ℤ n) ≤ 21
length-zd_ℤ (pos n) = omega (arith, length-dec n)
length-zd_ℤ (negsuc n) = omega (arith, length-dec (suc n))

append_at_most :
    (m n : ℕ) (xs ys : List ℕ) → length xs ≤ m → length ys ≤ n → length (xs ++ ys) ≤ m + n
append_at_most m n xs ys a b = omega (arith, a, b, length-append xs ys)

two_counts_at_most : (a b : List ℕ) → length a ≤ 21 → length b ≤ 21 → length (two_counts a b) ≤ 45
two_counts_at_most a b h k =
    omega (arith, h, k, length-append a (58 ∷ (b ++ (10 ∷ []))), length-append b (10 ∷ []))

bencoded_at_most :
    (hash : List ℕ) (l : Peerlist) → length hash ≡ 20 → length (bencoded hash l) ≤ 130
bencoded_at_most hash l h = append_at_most 3 127 (codes "20:") _ (omega arith) (
    append_at_most 20 107 hash _ (omega (arith, h)) (
      append_at_most 12 95 (codes "d8:completei") _ (omega arith) (
        append_at_most 21 74 (zd l.seed_count) _ (length-zd l.seed_count) (
          append_at_most 15 59 (codes "e10:downloadedi") _ (omega arith) (
            append_at_most 21 38 (zd l.down_count) _ (length-zd l.down_count) (
              append_at_most 15 23 (codes "e10:incompletei") _ (omega arith) (
                append_at_most 21 2 (zd (leechers l)) (codes "ee") (length-zd (leechers l))
                  (omega arith))))))))

within : (xs : List ℕ) (m : ℕ) → length xs ≤ m → m ≤ maxentrylen → length xs ≤ maxentrylen
within xs m a b = omega (arith, a, b)

-- `OT_SCRAPE_MAXENTRYLEN` is enough, whatever the counters are.
pub scrape_entry_at_most :
    (urlencoded : List ℕ → List ℕ)
    → ((s : List ℕ) → length (urlencoded s) ≤ 3 * length s)
    → (task : ℕ) (t : Torrent) → length t.hash ≡ 20
    → length (scrape_entry urlencoded task t) ≤ maxentrylen
unfolding scrape_entry
scrape_entry_at_most urlencoded short task t h =
    let l : Peerlist = t.peer_list in
    let seeds = length-zd l.seed_count in
    let leeches = length-zd (leechers l) in
    let hex : length (to_hex t.hash) ≤ 40 = omega (arith, length-to_hex t.hash, h) in
    let escaped : length (urlencoded t.hash) ≤ 60 = omega (arith, short t.hash, h) in
    elim (Bool-cases (task == 0x0202)) [
      | inl a ↦ rw a (
          within _ 85
            (append_at_most 40 45 (to_hex t.hash) _ hex
              (two_counts_at_most (zd l.seed_count) (zd (leechers l)) seeds leeches))
            (omega arith))
      | inr a ↦ elim (Bool-cases (task == 0x0201)) [
        | inl b ↦
            rw (a, b)
              (within _ 28
                (append_at_most 20 8 t.hash _ (omega (arith, h)) (
                  append_at_most 4 4 (htonl l.seed_count) (htonl (leechers l))
                    (omega (arith, length-htonl l.seed_count))
                    (omega (arith, length-htonl (leechers l)))))
                (omega arith))
        | inr b ↦ elim (Bool-cases (task == 0x0203)) [
          | inl c ↦
              rw (a, b, c)
                (within _ 105
                  (append_at_most 60 45 (urlencoded t.hash) _ escaped
                    (two_counts_at_most (zd l.seed_count) (zd (leechers l)) seeds leeches))
                  (omega arith))
          | inr c ↦ elim (Bool-cases (task == 0x0204)) [
            | inl d ↦
                rw (a, b, c, d)
                  (within _ 85
                    (append_at_most 40 45 (to_hex t.hash) _ hex (
                      two_counts_at_most (zd_ℤ l.base) (zd l.down_count) (length-zd_ℤ l.base)
                        (length-zd l.down_count)))
                    (omega arith))
            | inr d ↦
                rw (a, b, c, d)
                  (within (bencoded t.hash l) 130 (bencoded_at_most t.hash l h) (omega arith))
          ]
        ]
      ]
    ]
