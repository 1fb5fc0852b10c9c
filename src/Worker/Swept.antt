-- ===== src/Worker/Swept.antt =====
-- What a sweep over a bucket keeps, and what it takes away.
use tstracker.Base.{
  ℕ, zero, suc, ◌+◌, ◌<◌, ◌≡◌, ◌∙◌, refl, ap, Bool, true, false, Option, some, List, [], ◌∷◌, ◌++◌,
  length, length-append, append_assoc, append-nil, get_elem?, set, remove_at, All, arith, ltb,
  ◌>>=◌,
}
use tstracker.Base.Int.{ℤ, pos, negsuc, ◌-ℤ◌}
use tstracker.Peerlist.{Peerlist, IsCounted}
use tstracker.Vector.{Vector, size, vector_remove_torrent}
use tstracker.Vector.Space.{IsBounded}
use tstracker.Peers.Redistribute.{Memory}
use tstracker.Clean.Torrent.{
  Outcome, untouched, forgotten, idle, aged_by, clean_single_torrent-Outcome,
}
use tstracker.Tracker.{Torrent, write_torrent}
use tstracker.Tracker.Bucket.{vector_remove_torrent-items}
use tstracker.Scrape.Bucket.{HasTimedOut, Tended, as_it_was, worth_keeping, has_aged, Tended-lives}
use tstracker.Worker.{clean_loop, after_cleaning, decrement}

-- The torrents before and after, in order, and how many have gone.
pub data Swept (now : ℤ) : List Torrent → List Torrent → ℕ → Type 0 where
  over : Swept now [] [] 0
  stays :
      {ts us : List Torrent} {k : ℕ} (t : Torrent) (m : Peerlist)
      → Tended now t.peer_list m
      → (HasTimedOut (now -ℤ t.peer_list.base) t.peer_list → ⊥)
      → IsCounted m
      → Swept now ts us k
      → Swept now (t ∷ ts) (record t { peer_list = m } ∷ us) k
  goes :
      {ts us : List Torrent} {k : ℕ} (t : Torrent)
      → HasTimedOut (now -ℤ t.peer_list.base) t.peer_list
      → Swept now ts us k
      → Swept now (t ∷ ts) us (suc k)

-- The change of the count after `k` torrents have gone.
abbrev pub minus : ℕ → ℤ
minus zero = pos 0
minus (suc k) = negsuc k

decrement-minus : (k : ℕ) → decrement (minus k) ≡ minus (suc k)
decrement-minus zero = refl
decrement-minus (suc k) = refl

get_elem?-middle :
    (front : List Torrent) (t : Torrent) (ts : List Torrent)
    → get_elem? (front ++ t ∷ ts) (length front) ≡ some t
get_elem?-middle [] t ts = refl
get_elem?-middle (x ∷ front) t ts = get_elem?-middle front t ts

set-middle :
    (front : List Torrent) (t u : Torrent) (ts : List Torrent)
    → set (front ++ t ∷ ts) (length front) u ≡ (front ++ u ∷ []) ++ ts
set-middle [] t u ts = refl
set-middle (x ∷ front) t u ts = ap (◌∷◌ x) (set-middle front t u ts)

remove_at-middle :
    (front : List Torrent) (t : Torrent) (ts : List Torrent)
    → remove_at (length front) (front ++ t ∷ ts) ≡ front ++ ts
remove_at-middle [] t ts = refl
remove_at-middle (x ∷ front) t ts = ap (◌∷◌ x) (remove_at-middle front t ts)

module _ (mem : Memory) (bounded : (i : ℕ) → IsBounded (mem.grow_ok i)) (now : ℤ) where
  -- How the loop ends, with `front` behind it and `ts` before it.
  pub record LoopEnds (front ts : List Torrent) (j : ℕ) (r : Option (Vector Torrent × ℤ))
      : Type 0 where
    pub us : List Torrent
    pub gone : ℕ
    pub bucket : Vector Torrent
    pub result : r ≡ some (bucket, minus (j + gone))
    pub items : bucket.items ≡ front ++ us
    pub swept : Swept now ts us gone

  module _ (front ts : List Torrent) (t : Torrent) (v : Vector Torrent) (j fuel : ℕ)
      (e : v.items ≡ front ++ t ∷ ts) where
    abbrev go_on : ℕ × Peerlist × Bool → Option (Vector Torrent × ℤ)
    go_on r =
        let (i, w, d) = after_cleaning v (length front) (minus j) t r in
        clean_loop mem now fuel i w d

    kept-LoopEnds :
        (m : Peerlist) (u : Bool)
        → Tended now t.peer_list m
        → IsCounted m
        → ((front' : List Torrent) (v' : Vector Torrent)
            → v'.items ≡ front' ++ ts
            → LoopEnds front' ts j (clean_loop mem now fuel (length front') v' (minus j)))
        → LoopEnds front (t ∷ ts) j (go_on (0, m, u))
    kept-LoopEnds m u tended c rest =
        let w : Torrent = record t { peer_list = m } in
        let front' : List Torrent = front ++ w ∷ [] in
        let moved : length front' ≡ suc (length front) =
          omega (arith, length-append front (w ∷ [])) in
        let written : set v.items (length front) w ≡ front' ++ ts =
          rw e (set-middle front t w ts) in
        let x = rest front' (write_torrent v (length front) w) written in
        let y : LoopEnds front' ts j (
            clean_loop mem now fuel (suc (length front)) (write_torrent v (length front) w)
              (minus j)) =
          rw moved at x in
        record {
          us = w ∷ y.us;
          gone = y.gone;
          bucket = y.bucket;
          result = y.result;
          items = y.items ∙ append_assoc front (w ∷ []) y.us;
          swept = stays t m tended (Tended-lives now t.peer_list m tended) c y.swept;
        }

    gone-LoopEnds :
        (m : Peerlist) (u : Bool)
        → HasTimedOut (now -ℤ t.peer_list.base) t.peer_list
        → ((v' : Vector Torrent)
            → v'.items ≡ front ++ ts
            → LoopEnds front ts (suc j) (clean_loop mem now fuel (length front) v' (minus (suc j))))
        → LoopEnds front (t ∷ ts) j (go_on (1, m, u))
    gone-LoopEnds m u why rest =
        let inside : length front < size v = rw e (omega (arith, length-append front (t ∷ ts))) in
        let left : (vector_remove_torrent v (length front)).items ≡ front ++ ts =
          vector_remove_torrent-items v (length front) inside
          ∙ rw e (remove_at-middle front t ts) in
        let y = rest (vector_remove_torrent v (length front)) left in
        record {
          us = y.us;
          gone = suc y.gone;
          bucket = y.bucket;
          result =
              rw (decrement-minus j) (y.result ∙ ap (λ n. some (y.bucket, minus n)) (omega arith));
          items = y.items;
          swept = goes t why y.swept;
        }

    cleaned-LoopEnds :
        (c : IsCounted t.peer_list) (r : Option (ℕ × Peerlist × Bool))
        → Outcome mem bounded t.peer_list now c r
        → ((front' : List Torrent) (v' : Vector Torrent) (j' : ℕ)
            → v'.items ≡ front' ++ ts
            → LoopEnds front' ts j' (clean_loop mem now fuel (length front') v' (minus j')))
        → LoopEnds front (t ∷ ts) j (r >>= go_on)
    cleaned-LoopEnds c r (untouched z f) rest =
        rw f (kept-LoopEnds t.peer_list false (as_it_was z refl) c (λ fr w. rest fr w j))
    cleaned-LoopEnds c r (idle old young none_left used f) rest = rw f (
        kept-LoopEnds t.peer_list false (worth_keeping old young none_left used refl) c
          (λ fr w. rest fr w j))
    cleaned-LoopEnds c r (aged_by d m u is_d due aged f) rest =
        rw f (kept-LoopEnds m u (has_aged d is_d due aged) aged.counted (λ fr w. rest fr w j))
    cleaned-LoopEnds c r (forgotten why f) rest =
        rw f (gone-LoopEnds t.peer_list false why (λ w. rest front w (suc j)))

  clean_loop-ends :
      (fuel : ℕ) (front ts : List Torrent) (v : Vector Torrent) (j : ℕ)
      → v.items ≡ front ++ ts
      → length ts < fuel
      → All (λ t. IsCounted t.peer_list) ts
      → LoopEnds front ts j (clean_loop mem now fuel (length front) v (minus j))
  unfolding clean_loop
  clean_loop-ends zero front ts v j e enough counted = absurd (omega (arith, enough))
  clean_loop-ends (suc fuel) front [] v j e enough counted =
      let past : ltb (length front) (size v) ≡ false = rw (e, append-nil front) (ground arith) in
      rw past (record {
        us = [];
        gone = 0;
        bucket = v;
        result = ap (λ n. some (v, minus n)) (omega arith);
        items = e;
        swept = over;
      })
  clean_loop-ends (suc fuel) front (t ∷ ts) v j e enough (c, counted) =
      let inside : length front < size v = rw e (omega (arith, length-append front (t ∷ ts))) in
      let test : ltb (length front) (size v) ≡ true = ground (arith, inside) in
      let there : get_elem? v.items (length front) ≡ some t = rw e (get_elem?-middle front t ts) in
      rw (test, there)
        (cleaned-LoopEnds front ts t v j fuel e c _
          (clean_single_torrent-Outcome mem bounded t.peer_list now c)
          (λ fr w k f. clean_loop-ends fuel fr ts w k f (omega (arith, enough)) counted))

  -- Given the counters of every torrent of a bucket right, the loop of the cleaner ends within one
  -- round for each torrent and one more and does not fault, whichever allocations fail. The torrents
  -- that have timed out are gone and no others, the rest stay in their order, each aged as far as it
  -- is due and with its counters right, and the change of the count is the number gone, negated.
  pub clean_loop-Swept :
      (v : Vector Torrent)
      → All (λ t. IsCounted t.peer_list) v.items
      → LoopEnds [] v.items 0 (clean_loop mem now (suc (size v)) 0 v (pos 0))
  clean_loop-Swept v counted =
      clean_loop-ends (suc (size v)) [] v.items v 0 refl (omega arith) counted
