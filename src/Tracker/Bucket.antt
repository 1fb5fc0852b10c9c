-- ===== src/Tracker/Bucket.antt =====
-- One bucket of torrents under the operations of src/opentracker/trackerlogic.c.
use tstracker.Base.{
  ℕ, ◌<◌, ◌≡◌, ◌∙◌, inl, inr, true, Option, some, List, [], ◌∷◌, length-set, set, remove_at, All,
  arith, Ordering, memcmp, memcmp→eq, Ordering-cases,
}
use tstracker.Peerlist.{IsCounted}
use tstracker.Vector.{Vector, size, vector_remove_torrent}
use tstracker.Vector.Search.{IsSorted, locate}
use tstracker.Vector.Ordered.{find, put, put-IsSorted, All-put, find-put, locate_hit-put}
use tstracker.Vector.Space.{Fits, vector_remove_torrent-Fits}
use tstracker.Tracker.{Torrent, sizeof_torrent, cmp_hash, write_torrent}

pub record TorrentsOk (v : Vector Torrent) : Type 0 where
  pub sorted : IsSorted Torrent.hash v.items
  pub fits : Fits sizeof_torrent v
  pub counted : All (λ t. IsCounted t.peer_list) v.items

abbrev pub find_torrent : List ℕ → Vector Torrent → Option Torrent
find_torrent hash v = find Torrent.hash hash v.items

pub find-All :
    (P : Torrent → Type 0) (hash : List ℕ) (ts : List Torrent) {t : Torrent}
    → All P ts
    → find Torrent.hash hash ts ≡ some t
    → P t × (t.hash ≡ hash)
unfolding find
find-All P hash [] a e = cc
find-All P hash (u ∷ us) {t} a e = elim (Ordering-cases (memcmp u.hash hash)) [
  | inl c ↦ find-All P hash us a.1 (rw (c, find) at e)
  | inr (inl c) ↦ let same : u ≡ t = ground arith in rw (← same) (a.0, memcmp→eq u.hash hash c)
  | inr (inr c) ↦ find-All P hash us a.1 (rw (c, find) at e)
]

-- `t` stands in the bucket, beside the others that stood there.
pub record Holds (v : Vector Torrent) (t : Torrent) (w : Vector Torrent) : Type 0 where
  pub ok : TorrentsOk w
  pub lookup :
      (h : List ℕ)
      → find_torrent h w ≡ elim (memcmp t.hash h) [ Ordering.eq ↦ some t | _ ↦ find_torrent h v ]

pub vector_remove_torrent-items :
    (w : Vector Torrent) (i : ℕ)
    → i < size w
    → (vector_remove_torrent w i).items ≡ remove_at i w.items
unfolding vector_remove_torrent
vector_remove_torrent-items w i b = ground arith

module _ (v : Vector Torrent) (ok : TorrentsOk v) where
  -- Taking the place away again that was opened for `t`.
  pub retracted-ok :
      (w : Vector Torrent) (i : ℕ)
      → i < size w
      → Fits sizeof_torrent w
      → remove_at i w.items ≡ v.items
      → TorrentsOk (vector_remove_torrent w i) × ((vector_remove_torrent w i).items ≡ v.items)
  retracted-ok w i b f e =
      let same = vector_remove_torrent-items w i b ∙ e in
      (
        record {
          sorted = rw same ok.sorted;
          fits = vector_remove_torrent-Fits w sizeof_torrent f i b;
          counted = rw same ok.counted;
        },
        same,
      )

  module _ (t : Torrent) (c : IsCounted t.peer_list) where
    pub write-Holds :
        (w : Vector Torrent) (i : ℕ)
        → Fits sizeof_torrent w
        → set w.items i t ≡ put Torrent.hash t v.items
        → Holds v t (write_torrent w i t)
    write-Holds w i f e = record {
      ok = record {
        sorted = rw e (put-IsSorted Torrent.hash t v.items ok.sorted);
        fits = record { within = rw (length-set w.items i t) f.within; small = f.small };
        counted = rw e (All-put Torrent.hash (λ t. IsCounted t.peer_list) t v.items c ok.counted);
      };
      lookup = λ h. rw e (find-put Torrent.hash h t v.items);
    }

    -- Writing `t` where the search for its hash hits.
    pub hit-Holds :
        (hash : List ℕ)
        → t.hash ≡ hash
        → (locate (cmp_hash hash) v.items).1 ≡ true
        → Holds v t (write_torrent v (locate (cmp_hash hash) v.items).0 t)
    hit-Holds hash e hit =
        write-Holds v (locate (cmp_hash hash) v.items).0 ok.fits
          (rw (← e) (locate_hit-put Torrent.hash t v.items (rw (← e) at hit)))
