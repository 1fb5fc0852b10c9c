-- ===== src/Scrape/Bucket.antt =====
-- One hash of a scrape in its bucket: what is told, and what becomes of the torrent.
use tstracker.Base.{
  ℕ, suc, ◌^◌, ◌<◌, ◌≢◌, if◌then◌else◌, ◌≡◌, ◌∙◌, refl, sym, ap, inl, inr, ◌⊎◌, Bool, true, false,
  Option, none, some, List, length, length-set, length-remove_at, get_elem?-some, arith, Ordering,
  memcmp, ◌==◌, ◌>>=◌, Bool-cases,
}
use tstracker.Base.Int.{ℤ, pos, negsuc, ◌-ℤ◌, ltb_ℤ}
use tstracker.Peer.{peer_timeout, torrent_timeout}
use tstracker.Peerlist.{Peerlist, IsCounted}
use tstracker.Vector.{Vector, size, vector_remove_torrent}
use tstracker.Vector.Search.{binary_search-locate, locate}
use tstracker.Vector.Space.{IsBounded, vector_remove_torrent-Fits}
use tstracker.Vector.Ordered.{
  locate_hit-find, locate_miss-find, locate_hit-drop, drop_key-IsSorted, find-drop_key, All-drop,
}
use tstracker.Peers.Redistribute.{Memory}
use tstracker.Clean.{is_zero}
use tstracker.Clean.Torrent.{
  Aged, IsDue, Outcome, untouched, forgotten, idle, aged_by, clean_single_torrent-Outcome,
}
use tstracker.Tracker.{Torrent, sizeof_torrent, cmp_hash}
use tstracker.Tracker.Bucket.{
  TorrentsOk, find_torrent, find-All, Holds, hit-Holds, vector_remove_torrent-items,
}
use tstracker.Scrape.{Scraped, scrape_bucket, scraped_torrent}

-- The torrent of the hash is gone, and the others are as they were.
pub record Gone (v : Vector Torrent) (hash : List ℕ) (w : Vector Torrent) : Type 0 where
  pub ok : TorrentsOk w
  pub lookup :
      (h : List ℕ)
      → find_torrent h w ≡ elim (memcmp hash h) [ Ordering.eq ↦ none | _ ↦ find_torrent h v ]

hit-Gone :
    (v : Vector Torrent) (ok : TorrentsOk v) (hash : List ℕ)
    → (locate (cmp_hash hash) v.items).1 ≡ true
    → Gone v hash (vector_remove_torrent v (locate (cmp_hash hash) v.items).0)
hit-Gone v ok hash hit =
    let i = (locate (cmp_hash hash) v.items).0 in
    let (b, g, n) = locate_hit-find Torrent.hash hash v.items hit in
    let same = vector_remove_torrent-items v i b ∙ locate_hit-drop Torrent.hash hash v.items hit in
    record {
      ok = record {
        sorted = rw same (drop_key-IsSorted Torrent.hash hash v.items ok.sorted);
        fits = vector_remove_torrent-Fits v sizeof_torrent ok.fits i b;
        counted =
            rw same (All-drop Torrent.hash hash (λ t. IsCounted t.peer_list) v.items ok.counted);
      };
      lookup = λ h. rw same (find-drop_key Torrent.hash hash h v.items ok.sorted);
    }

-- More than a day old, or more than 45 minutes without a peer or a download.
abbrev pub HasTimedOut : ℤ → Peerlist → Type 0
HasTimedOut elapsed l =
    (ltb_ℤ (pos torrent_timeout) elapsed ≡ true)
    ⊎ ((ltb_ℤ (pos peer_timeout) elapsed ≡ true) × (l.peer_count ≡ 0) × (l.down_count ≡ 0))

-- What cleaning makes of a list that has not timed out: it is as it was if no time has passed, or
-- if it has no peer but downloads after 45 minutes, and has aged else, by 45 minutes at most.
pub data Tended (now : ℤ) (l m : Peerlist) : Type 0 where
  as_it_was : is_zero (now -ℤ l.base) ≡ true → m ≡ l → Tended now l m
  worth_keeping :
      ltb_ℤ (pos peer_timeout) (now -ℤ l.base) ≡ true
      → ltb_ℤ (pos torrent_timeout) (now -ℤ l.base) ≡ false
      → l.peer_count ≡ 0
      → l.down_count ≢ 0
      → m ≡ l
      → Tended now l m
  has_aged :
      (d : ℤ)
      → d ≡ (if ltb_ℤ (pos peer_timeout) (now -ℤ l.base) then pos peer_timeout else now -ℤ l.base)
      → IsDue now l
      → Aged d now l m
      → Tended now l m

no_time : (t : ℕ) (e : ℤ) → is_zero e ≡ true → ltb_ℤ (pos t) e ≡ false
no_time t (pos n) z = ground arith
no_time t (negsuc n) z = ground arith

-- What is tended has not timed out.
pub Tended-lives : (now : ℤ) (l m : Peerlist) → Tended now l m → HasTimedOut (now -ℤ l.base) l → ⊥
Tended-lives now l m (as_it_was z same) (inl old) =
    cc (old, no_time torrent_timeout (now -ℤ l.base) z)
Tended-lives now l m (as_it_was z same) (inr (old, none_left, unused)) =
    cc (old, no_time peer_timeout (now -ℤ l.base) z)
Tended-lives now l m (worth_keeping old young none_left used same) (inl dead) = cc (dead, young)
Tended-lives now l m (worth_keeping old young none_left used same) (inr (o, n, unused)) =
    used unused
Tended-lives now l m (has_aged d e due aged) (inl dead) = cc (dead, due.young)
Tended-lives now l m (has_aged d e due aged) (inr (old, none_left, unused)) =
    elim due.worth_keeping [ inl recent ↦ cc (old, recent) | inr peers_left ↦ peers_left none_left ]

module _ (now : ℤ) (hash : List ℕ) (v : Vector Torrent) where
  pub data Scrapes (r : Scraped) : Type 0 where
    told :
        (t : Torrent) (m : Peerlist)
        → find_torrent hash v ≡ some t
        → Tended now t.peer_list m
        → (HasTimedOut (now -ℤ t.peer_list.base) t.peer_list → ⊥)
        → IsCounted m
        → Holds v (record t { peer_list = m }) r.torrents
        → r.counters ≡ some m
        → (r.delta ≡ pos 0) × (size r.torrents ≡ size v)
        → Scrapes r
    dropped :
        (t : Torrent)
        → find_torrent hash v ≡ some t
        → HasTimedOut (now -ℤ t.peer_list.base) t.peer_list
        → Gone v hash r.torrents
        → r.counters ≡ none
        → (r.delta ≡ negsuc 0) × (suc (size r.torrents) ≡ size v)
        → Scrapes r
    unknown :
        find_torrent hash v ≡ none
        → r ≡ record { counters = none; torrents = v; delta = pos 0 }
        → Scrapes r

  abbrev pub ScrapesOr : Option Scraped → Type 0
  ScrapesOr none = ⊥
  ScrapesOr (some r) = Scrapes r

  module _ (ok : TorrentsOk v) where
    abbrev place : ℕ × Bool
    place = locate (cmp_hash hash) v.items

    module _ (mem : Memory) (t : Torrent) (hit : place.1 ≡ true)
        (there : find_torrent hash v ≡ some t) where
      kept_torrent :
          (m : Peerlist) (u : Bool)
          → Tended now t.peer_list m
          → IsCounted m
          → Scrapes (scraped_torrent v place.0 t (0, m, u))
      kept_torrent m u tended counted =
          let (c, e) = find-All (λ t. IsCounted t.peer_list) hash v.items ok.counted there in
          let w : Torrent = record t { peer_list = m } in
          told t m there tended (Tended-lives now t.peer_list m tended) counted
            (hit-Holds v ok w counted hash e hit) refl (refl, length-set v.items place.0 w)

      cleaned-ScrapesOr :
          (bounded : (i : ℕ) → IsBounded (mem.grow_ok i)) (c : IsCounted t.peer_list)
          (r : Option (ℕ × Peerlist × Bool))
          → Outcome mem bounded t.peer_list now c r
          → ScrapesOr (r >>= λ r. some (scraped_torrent v place.0 t r))
      cleaned-ScrapesOr bounded c r (untouched z e) =
          rw e (kept_torrent t.peer_list false (as_it_was z refl) c)
      cleaned-ScrapesOr bounded c r (idle old young none_left used e) =
          rw e (kept_torrent t.peer_list false (worth_keeping old young none_left used refl) c)
      cleaned-ScrapesOr bounded c r (aged_by d m u is_d due aged e) =
          rw e (kept_torrent m u (has_aged d is_d due aged) aged.counted)
      cleaned-ScrapesOr bounded c r (forgotten why e) =
          let (b, g, n) = locate_hit-find Torrent.hash hash v.items hit in
          rw e (
            dropped t there why (hit-Gone v ok hash hit) refl (
              refl,
              ap (λ xs. suc (length xs)) (vector_remove_torrent-items v place.0 b)
                  ∙ length-remove_at place.0 v.items b,
            ))

  -- Given a bucket of fewer than 2^32 torrents in order, the step does not fault, whichever
  -- allocations fail. A torrent that is there and has not timed out is cleaned, and its counters are
  -- told; one that has timed out is taken out of the bucket, the change of the count is -1, and
  -- nothing is told; and a hash without a torrent changes nothing. Every other torrent is as it was.
  pub scrape_bucket-Scrapes :
      (mem : Memory)
      → ((i : ℕ) → IsBounded (mem.grow_ok i))
      → TorrentsOk v
      → size v < 2 ^ 32
      → ScrapesOr (scrape_bucket mem now hash v)
  unfolding scrape_bucket
  scrape_bucket-Scrapes mem bounded ok short =
      let (e, r, hit) = binary_search-locate Torrent.hash hash v.items ok.sorted short in
      let place = locate (cmp_hash hash) v.items in
      rw r (elim (Bool-cases place.1) [
        | inl yes_hit ↦
            let more : (e == 0) ≡ false = ground arith in
            let (b, g, n) = locate_hit-find Torrent.hash hash v.items yes_hit in
            let (t, here) = get_elem?-some v.items place.0 b in
            let (c, same) =
              find-All (λ t. IsCounted t.peer_list) hash v.items ok.counted (sym g ∙ here) in
            rw (more, here)
              (cleaned-ScrapesOr ok mem t yes_hit (sym g ∙ here) bounded c _
                (clean_single_torrent-Outcome mem bounded t.peer_list now c))
        | inr miss ↦
            let z : (e == 0) ≡ true = ground arith in
            rw z (unknown (locate_miss-find Torrent.hash hash v.items ok.sorted miss) refl)
      ])
