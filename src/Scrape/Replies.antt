-- ===== src/Scrape/Replies.antt =====
-- The replies to a scrape over UDP and over TCP: they tell of the map from hashes to torrents.
use tstracker.Base.{
  ℕ, suc, ◌+◌, ◌*◌, ◌^◌, ◌≤◌, ◌<◌, ◌≡◌, ◌≢◌, ◌∙◌, refl, ap, inl, inr, true, Option, none, some,
  List, [], ◌∷◌, ◌++◌, length, length-append, length-htonl, length-zd, codes, All, arith, Ordering,
  memcmp, memcmp_self, ◌==◌, Bool-cases, Option-cases,
}
use tstracker.Base.Int.{ℤ, pos, negsuc, ◌-ℤ◌}
use tstracker.Peerlist.{Peerlist, IsCounted}
use tstracker.Vector.{Vector, size}
use tstracker.Vector.Space.{IsBounded}
use tstracker.Peers.Redistribute.{Memory}
use tstracker.Mutex.{bucket_of_hash, add_delta}
use tstracker.Tracker.{Torrent}
use tstracker.Tracker.Bucket.{find_torrent, find-All}
use tstracker.Tracker.Response.{leech_count}
use tstracker.Scrape.{
  AllTorrents, Scraped, put_bucket, bucket_count, scrape_bucket, scrape_hash,
  return_udp_scrape_for_torrent, udp_entry, tcp_entry, tcp_entries, return_tcp_scrape_for_torrent,
}
use tstracker.Scrape.Bucket.{
  Tended, HasTimedOut, Scrapes, told, dropped, unknown, ScrapesOr, scrape_bucket-Scrapes,
}
use tstracker.Scrape.Text.{
  UdpTells, CountedOr, udp_entry-UdpTells, scrape_reply, with_file, entries_of, tcp_entry-entries,
  scrape_reply-entries,
}
use tstracker.Scrape.All.{
  AllOk, IsHash, IsHash-bucket, find_all, put_bucket-AllOk, sizes-few, sizes-one,
}

-- What is told of a hash, and what becomes of its torrent.
pub data Told (now : ℤ) (before after : Option Torrent) : Option Peerlist → Type 0 where
  tended :
      (t : Torrent) (m : Peerlist)
      → before ≡ some t
      → Tended now t.peer_list m
      → (HasTimedOut (now -ℤ t.peer_list.base) t.peer_list → ⊥)
      → IsCounted m
      → after ≡ some (record t { peer_list = m })
      → Told now before after (some m)
  expired :
      (t : Torrent)
      → before ≡ some t
      → HasTimedOut (now -ℤ t.peer_list.base) t.peer_list
      → after ≡ none
      → Told now before after none
  missing : before ≡ none → after ≡ none → Told now before after none

Told-CountedOr :
    (now : ℤ) (before after : Option Torrent) (r : Option Peerlist)
    → Told now before after r
    → CountedOr r
Told-CountedOr now before after (some m) (tended t l b how lives right a) = right
Told-CountedOr now before after none (expired t b why a) = tt
Told-CountedOr now before after none (missing b a) = tt

-- One hash as an update of the map.
pub record MapStep (now : ℤ) (hash : List ℕ) (s t : AllTorrents) (r : Option Peerlist)
    : Type 0 where
  pub ok : AllOk t
  pub here : Told now (find_all hash s) (find_all hash t) r
  pub others : (h : List ℕ) → memcmp hash h ≢ Ordering.eq → find_all h t ≡ find_all h s

find_all-put :
    (s : AllTorrents) (b : ℕ) (v : Vector Torrent) (delta : ℤ) (h : List ℕ)
    → ((c : ℕ) → bucket_of_hash h ≡ some c → c ≡ b → find_torrent h v ≡ find_torrent h (s.bucket b))
    → find_all h (put_bucket s b v delta) ≡ find_all h s
unfolding put_bucket
find_all-put s b v delta h same = elim (Option-cases (bucket_of_hash h)) [
  | inl short ↦ rw short refl
  | inr (c, e) ↦ rw e (elim (Bool-cases (c == b)) [
    | inl here ↦ let d : c ≡ b = ground arith in rw (here, d) (same c e d)
    | inr other ↦ rw other refl
  ])
]

find_all-here :
    (s : AllTorrents) (b : ℕ) (v : Vector Torrent) (delta : ℤ) (h : List ℕ)
    → bucket_of_hash h ≡ some b
    → find_all h (put_bucket s b v delta) ≡ find_torrent h v
unfolding put_bucket
find_all-here s b v delta h e = let same : (b == b) ≡ true = ground arith in rw (e, same) refl

ScrapesOr-some :
    (now : ℤ) (hash : List ℕ) (v : Vector Torrent) (o : Option Scraped)
    → ScrapesOr now hash v o
    → (r : Scraped) × (o ≡ some r) × Scrapes now hash v r
ScrapesOr-some now hash v none x = absurd x
ScrapesOr-some now hash v (some r) x = (r, refl, x)

-- The two cases of a lookup after a write or a removal.
abbrev lookup_by : Ordering → Option Torrent → Option Torrent → Option Torrent
lookup_by o x y = elim o [ Ordering.eq ↦ x | _ ↦ y ]

same_case : (o : Ordering) (x y : Option Torrent) → o ≡ Ordering.eq → lookup_by o x y ≡ x
same_case o x y e = rw e refl

other_case : (o : Ordering) (x y : Option Torrent) → o ≢ Ordering.eq → lookup_by o x y ≡ y
other_case Ordering.lt x y apart = refl
other_case Ordering.eq x y apart = absurd (apart refl)
other_case Ordering.gt x y apart = refl

count_kept : (n : ℕ) → n < 2 ^ 64 → add_delta n (pos 0) ≡ n
count_kept n h = omega arith

count_less : (n : ℕ) → n < 2 ^ 64 → 0 < n → suc (add_delta n (negsuc 0)) ≡ n
count_less n h some_there = omega arith

AllOk-bounds :
    (s : AllTorrents) (ok : AllOk s) (b : ℕ)
    → b < bucket_count
    → (s.torrent_count < 2 ^ 64) × (size (s.bucket b) ≤ s.torrent_count)
AllOk-bounds s ok b bound =
    let all = sizes-few s.bucket bucket_count ok.few in
    let one = sizes-one s.bucket bucket_count b bound in
    (rw ok.counted (omega (all, arith)), rw ok.counted one)

length-udp_entry : (r : Option Peerlist) → length (udp_entry r) ≡ 12
unfolding udp_entry
length-udp_entry none = refl
length-udp_entry (some l) = simp (length-append, length-htonl) refl

length-tcp_entry :
    (hash : List ℕ) → IsHash hash → (r : Option Peerlist) → length (tcp_entry hash r) ≤ 130
unfolding tcp_entry
length-tcp_entry hash is_hash none = omega arith
length-tcp_entry hash is_hash (some l) = simp length-append (
    omega (
      arith,
      is_hash.long,
      length-zd l.seed_count,
      length-zd l.down_count,
      length-zd (leech_count l),
    ))

module _ (mem : Memory) (bounded : (i : ℕ) → IsBounded (mem.grow_ok i)) (now : ℤ) where
  module _ (hash : List ℕ) (s : AllTorrents) (ok : AllOk s) (b : ℕ)
      (e : bucket_of_hash hash ≡ some b) (bound : b < bucket_count) where
    step-MapStep :
        (r : Scraped)
        → Scrapes now hash (s.bucket b) r
        → MapStep now hash s (put_bucket s b r.torrents r.delta) r.counters
    step-MapStep r (told t m there how lives right holds counters (delta, sized)) =
        let v = s.bucket b in
        let (c, same) =
          find-All (λ t. IsCounted t.peer_list) hash v.items (ok.ordered b).counted there in
        let now_there : find_torrent hash r.torrents ≡ some (record t { peer_list = m }) =
          holds.lookup hash ∙ same_case (memcmp t.hash hash) _ _ (rw same (memcmp_self hash)) in
        rw (counters, delta)
          (record {
            ok =
                put_bucket-AllOk s ok b r.torrents (pos 0) bound holds.ok (omega arith)
                  (omega (count_kept s.torrent_count (AllOk-bounds s ok b bound).0, sized, arith));
            here =
                tended t m (rw e there) how lives right
                  (find_all-here s b r.torrents (pos 0) hash e ∙ now_there);
            others = λ h apart.
                find_all-put s b r.torrents (pos 0) h
                  (λ c f d. holds.lookup h ∙ other_case (memcmp t.hash h) _ _ (rw same apart));
          })
    step-MapStep r (dropped t there why gone counters (delta, sized)) =
        rw (counters, delta)
          (record {
            ok = put_bucket-AllOk s ok b r.torrents (negsuc 0) bound gone.ok (omega arith) (
                let (low, high) = AllOk-bounds s ok b bound in
                omega (count_less s.torrent_count low (omega (high, sized, arith)), sized, arith));
            here = expired t (rw e there) why (
                find_all-here s b r.torrents (negsuc 0) hash e
                ∙ gone.lookup hash
                ∙ same_case (memcmp hash hash) _ _ (memcmp_self hash));
            others = λ h apart.
                find_all-put s b r.torrents (negsuc 0) h
                  (λ c f d. gone.lookup h ∙ other_case (memcmp hash h) _ _ apart);
          })
    step-MapStep r (unknown miss same) = rw same (record {
      ok =
          put_bucket-AllOk s ok b (s.bucket b) (pos 0) bound (ok.ordered b) (omega arith)
            (omega (count_kept s.torrent_count (AllOk-bounds s ok b bound).0, arith));
      here = missing (rw e miss) (find_all-here s b (s.bucket b) (pos 0) hash e ∙ miss);
      others = λ h apart. find_all-put s b (s.bucket b) (pos 0) h (λ c f d. refl);
    })

  scrape_hash-MapStep :
      (hash : List ℕ) (s : AllTorrents)
      → IsHash hash
      → AllOk s
      → (r : Option Peerlist) × (t : AllTorrents) × (scrape_hash mem now hash s ≡ some (r, t))
        × MapStep now hash s t r
  unfolding scrape_hash
  scrape_hash-MapStep hash s is_hash ok =
      let (b, e, bound) = IsHash-bucket hash is_hash in
      let (r, f, x) =
        ScrapesOr-some now hash (s.bucket b) (scrape_bucket mem now hash (s.bucket b))
          (scrape_bucket-Scrapes now hash (s.bucket b) mem bounded (ok.ordered b) (ok.few b)) in
      (
        r.counters,
        put_bucket s b r.torrents r.delta,
        rw (e, f) refl,
        step-MapStep hash s ok b e bound r x,
      )

  pub return_udp_scrape_for_torrent-entry :
      (hash : List ℕ) (s : AllTorrents)
      → IsHash hash
      → AllOk s
      → (r : Option Peerlist) × (t : AllTorrents) × (return_udp_scrape_for_torrent mem now hash s
          ≡ some (udp_entry r, t))
        × MapStep now hash s t r
        × (length (udp_entry r) ≡ 12)
  unfolding return_udp_scrape_for_torrent
  return_udp_scrape_for_torrent-entry hash s is_hash ok =
      let (r, t, e, step) = scrape_hash-MapStep hash s is_hash ok in
      (r, t, rw e refl, step, length-udp_entry r)

  -- Given a hash of 20 bytes and buckets in order, whichever allocations fail, the scrape over UDP
  -- does not fault and is one step on the map from hashes to torrents: a torrent that is there and
  -- has not timed out is cleaned and told, one that has timed out is gone and nothing is told, and
  -- every other hash has the torrent it had. The buckets are in order again, the count of torrents
  -- included. What is told are three words: the number of seeds, the number of downloads in 32 bits,
  -- and the number of other peers; 12 zero bytes stand for nothing told.
  pub return_udp_scrape_for_torrent-MapStep :
      (hash : List ℕ) (s : AllTorrents)
      → IsHash hash
      → AllOk s
      → (r : Option Peerlist) × (d : List ℕ) × (t : AllTorrents) × (return_udp_scrape_for_torrent
            mem now hash s
          ≡ some (d, t))
        × MapStep now hash s t r
        × UdpTells r d
  return_udp_scrape_for_torrent-MapStep hash s is_hash ok =
      let (r, t, e, step, twelve) = return_udp_scrape_for_torrent-entry hash s is_hash ok in
      (r, udp_entry r, t, e, step, udp_entry-UdpTells r (Told-CountedOr now _ _ r step.here))

  -- The steps of a scrape over TCP, in the order of the hashes, and the files they tell of.
  pub data MapSteps
      : List (List ℕ) → AllTorrents → List (List ℕ × Peerlist) → AllTorrents → Type 0 where
    done : (s : AllTorrents) → MapSteps [] s [] s
    next :
        {hash : List ℕ} {hashes : List (List ℕ)} {s t u : AllTorrents} {r : Option Peerlist}
        {files : List (List ℕ × Peerlist)}
        → MapStep now hash s t r
        → MapSteps hashes t files u
        → MapSteps (hash ∷ hashes) s (with_file hash r files) u

  tcp_entries-MapSteps :
      (hashes : List (List ℕ)) (s : AllTorrents)
      → All IsHash hashes
      → AllOk s
      → (files : List (List ℕ × Peerlist)) × (t : AllTorrents) × (tcp_entries mem now hashes s
          ≡ some (entries_of files, t))
        × MapSteps hashes s files t
        × AllOk t
        × (length (entries_of files) ≤ 130 * length hashes)
  unfolding tcp_entries
  tcp_entries-MapSteps [] s are_hashes ok = ([], s, refl, done s, ok, omega arith)
  tcp_entries-MapSteps (hash ∷ hashes) s are_hashes ok =
      let (r, t, e, step) = scrape_hash-MapStep hash s are_hashes.0 ok in
      let (files, u, f, steps, ok', few) = tcp_entries-MapSteps hashes t are_hashes.1 step.ok in
      let printed =
        tcp_entry-entries hash r files are_hashes.0.long (Told-CountedOr now _ _ r step.here) in
      (
        with_file hash r files,
        u,
        rw (e, f) (ap (λ xs. some (xs, u)) printed),
        next step steps,
        ok',
        omega (
          arith,
          ap length printed,
          length-tcp_entry hash are_hashes.0 r,
          length-append (tcp_entry hash r) (entries_of files),
          few,
        ),
      )

  -- Given hashes of 20 bytes and buckets in order, the scrape over TCP does not fault: it takes one
  -- step for each hash in turn, and leaves the buckets in order. The reply is the bencoded dictionary
  -- in which `files` has, for each hash that a step tells of, in the same order, a dictionary with its
  -- numbers of seeds, of downloads and of other peers. It has at most 130 bytes for each hash asked
  -- for and 12 more.
  pub return_tcp_scrape_for_torrent-MapSteps :
      (hashes : List (List ℕ)) (s : AllTorrents)
      → All IsHash hashes
      → AllOk s
      → (files : List (List ℕ × Peerlist)) × (t : AllTorrents) × (return_tcp_scrape_for_torrent mem
            now hashes s
          ≡ some (scrape_reply files, t))
        × MapSteps hashes s files t
        × AllOk t
        × (length (scrape_reply files) ≤ 12 + 130 * length hashes)
  unfolding return_tcp_scrape_for_torrent
  return_tcp_scrape_for_torrent-MapSteps hashes s are_hashes ok =
      let (files, t, e, steps, ok', few) = tcp_entries-MapSteps hashes s are_hashes ok in
      let whole = scrape_reply-entries files in
      let bound : length (codes "d5:filesd" ++ entries_of files ++ codes "ee")
          ≤ 12 + 130 * length hashes =
        simp length-append (omega (arith, few)) in
      (
        files,
        t,
        rw e (ap (λ xs. some (xs, t)) whole),
        steps,
        ok',
        omega (arith, ap length whole, bound),
      )
