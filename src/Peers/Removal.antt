-- ===== src/Peers/Removal.antt =====
-- `vector_remove_peer` of src/opentracker/ot_vector.c on both layouts.
use tstracker.Base.{
  ℕ, ◌+◌, ◌^◌, ◌<◌, ◌≡◌, refl, sym, ap, ◌∙◌, inl, inr, Bool, true, false, Option, none, some, List,
  Ordering, arith, length, length-set, length-remove_at, get_elem?, get_elem?-some, remove_at, set,
  memcmp, memcmp→eq, ◌==◌, if◌then◌else◌, ◌>>=◌, Bool-cases,
}
use tstracker.Peer.{Peer, sizeof_peer, is_seeding}
use tstracker.Vector.{Vector, size, vector_fixup_peers}
use tstracker.Vector.Search.{locate, binary_search-locate}
use tstracker.Vector.Ordered.{
  find, drop_key, drop_key-IsSorted, All-drop, find-drop_key, locate_hit-drop, locate_miss-drop,
  locate_hit-find, locate_miss-find,
}
use tstracker.Vector.Space.{Fits, nil_of_length, vector_fixup_peers_lem}
use tstracker.Vector.Weight.{sum_by, weight?, sum_by-drop}
use tstracker.Peers.{
  Peers, plain, buckets, cmp_addr, vector_hash_peer, remove_from, vector_remove_peer,
}
use tstracker.Peers.Spread.{
  VectorOk, InBucket, IsSpread, find_peer, total, one, vector_hash_peer-lt, get_elem?-BucketsOk,
  set-BucketsOk, bucket_total-set, sum_by-le-bucket_total, sum_by-one, find_peer-set,
  find_peer-home,
}

-- What the call returns: 0 for no peer, 1 for one that is not seeding, 2 for one that is.
abbrev pub removal_code : Option Peer → ℕ
removal_code none = 0
removal_code (some p) = if is_seeding p then 2 else 1

module _ (addr : List ℕ) where
  abbrev RemovedFrom : Vector Peer → Option (ℕ × Vector Peer) → Type 0
  RemovedFrom v none = ⊥
  RemovedFrom v (some (code, w)) =
      (w.items ≡ drop_key Peer.addr addr v.items)
      × VectorOk w
      × (code ≡ removal_code (find Peer.addr addr v.items))

  module _ (v : Vector Peer) (h : VectorOk v) (short : size v < 2 ^ 32) where
    abbrev place : ℕ × Bool
    place = locate (cmp_addr addr) v.items

    abbrev shrunk : Vector Peer
    shrunk = record v { items = remove_at place.0 v.items }

    shrunk-Fits : place.1 ≡ true → Fits sizeof_peer shrunk
    shrunk-Fits hit =
        let (lt, _, _) = locate_hit-find Peer.addr addr v.items hit in
        record {
          within = omega (arith, length-remove_at place.0 v.items lt, h.fits.within);
          small = h.fits.small;
        }

    shrunk-Ok : place.1 ≡ true → VectorOk (vector_fixup_peers shrunk)
    shrunk-Ok hit =
        let (same, fits, _) = vector_fixup_peers_lem shrunk sizeof_peer (shrunk-Fits hit) in
        record {
          sorted =
              rw (same, locate_hit-drop Peer.addr addr v.items hit)
                (drop_key-IsSorted Peer.addr addr v.items h.sorted);
          fits = fits;
        }

    remove_from-RemovedFrom : RemovedFrom v (remove_from addr v)
    unfolding remove_from
    remove_from-RemovedFrom =
        let (e, r, hit) = binary_search-locate Peer.addr addr v.items h.sorted short in
        rw (r, remove_from)
          (elim (Bool-cases place.1) [
            | inl yes_hit ↦
                let n : (e == 0) ≡ false = ground arith in
                let (lt, g, _) = locate_hit-find Peer.addr addr v.items yes_hit in
                let (p, gp) = get_elem?-some v.items place.0 lt in
                let same = vector_fixup_peers_lem shrunk sizeof_peer (shrunk-Fits yes_hit) in
                rw (n, gp)
                  (
                    same.0 ∙ locate_hit-drop Peer.addr addr v.items yes_hit,
                    shrunk-Ok yes_hit,
                    ap removal_code (sym gp ∙ g),
                  )
            | inr miss ↦
                let z : (e == 0) ≡ true = ground arith in
                rw z (
                  sym (locate_miss-drop Peer.addr addr v.items miss),
                  h,
                  ap removal_code (sym (locate_miss-find Peer.addr addr v.items h.sorted miss)),
                )
          ])

  pub record Removed (ps : Peers) (code : ℕ) (qs : Peers) : Type 0 where
    pub spread : IsSpread qs
    pub lookup :
        (j : List ℕ)
        → find_peer j qs ≡ elim (memcmp addr j) [ Ordering.eq ↦ none | _ ↦ find_peer j ps ]
    pub counted : (g : Peer → ℕ) → total g qs + weight? g (find_peer addr ps) ≡ total g ps
    pub returned : code ≡ removal_code (find_peer addr ps)

  abbrev pub RemovedOr : Peers → Option (ℕ × Peers) → Type 0
  RemovedOr ps none = ⊥
  RemovedOr ps (some (code, qs)) = Removed ps code qs

  module _ (v : Vector Peer) (h : VectorOk v) where
    plain-RemovedOr :
        (r : Option (ℕ × Vector Peer))
        → RemovedFrom v r
        → RemovedOr (plain v) (r >>= λ (code, w). some (code, plain w))
    unfolding find_peer total
    plain-RemovedOr none p = p
    plain-RemovedOr (some (code, w)) (e, ok, c) = record {
      spread = ok;
      lookup = λ j. rw e (find-drop_key Peer.addr addr j v.items h.sorted);
      counted = λ g. rw e (sum_by-drop g Peer.addr addr v.items h.sorted);
      returned = c;
    }

    module _ (vs : List (Vector Peer)) (ok : IsSpread (buckets vs))
        (here : get_elem? vs (vector_hash_peer addr (length vs)) ≡ some v) where
      abbrev home : ℕ
      home = vector_hash_peer addr (length vs)

      home-lt : home < length vs
      home-lt = vector_hash_peer-lt addr (length vs) (omega (arith, ok.0)) ok.1

      module _ (w : Vector Peer) (e : w.items ≡ drop_key Peer.addr addr v.items) where
        bucket-IsSpread : VectorOk w → IsSpread (buckets (set vs home w))
        bucket-IsSpread wok =
            let (g, a) = get_elem?-BucketsOk (length vs) vs 0 home ok.2 here in
            rw (length-set vs home w) (
              ok.0,
              ok.1,
              set-BucketsOk (length vs) vs 0 home w ok.2 wok
                  (rw e (All-drop Peer.addr addr (InBucket (length vs) (0 + home)) v.items a)),
            )

        lookup-bucket :
            (j : List ℕ)
            → find_peer j (buckets (set vs home w))
              ≡ elim (memcmp addr j) [ Ordering.eq ↦ none | _ ↦ find_peer j (buckets vs) ]
        lookup-bucket j = ground (
          arith,
          find_peer-set j vs home w home-lt,
          ap (find Peer.addr j) e,
          find-drop_key Peer.addr addr j v.items h.sorted,
          find_peer-home j vs v,
          memcmp→eq addr j,
        )

        count-bucket :
            (g : Peer → ℕ)
            → total g (buckets (set vs home w)) + weight? g (find_peer addr (buckets vs))
              ≡ total g (buckets vs)
        unfolding total
        count-bucket g = rw (find_peer-home addr vs v here) (
            omega (
              arith,
              bucket_total-set g vs home v w here,
              ap (sum_by g) e,
              sum_by-drop g Peer.addr addr v.items h.sorted,
            ))

      bucket-RemovedOr :
          (r : Option (ℕ × Vector Peer))
          → RemovedFrom v r
          → RemovedOr (buckets vs) (r >>= λ (code, w). some (code, buckets (set vs home w)))
      bucket-RemovedOr none p = p
      bucket-RemovedOr (some (code, w)) (e, wok, c) = record {
        spread = bucket-IsSpread w e wok;
        lookup = lookup-bucket w e;
        counted = count-bucket w e;
        returned = rw (find_peer-home addr vs v here) c;
      }

  empty-RemovedFrom : (v : Vector Peer) → VectorOk v → size v ≡ 0 → RemovedFrom v (some (0, v))
  unfolding drop_key find
  empty-RemovedFrom v h z = let e = nil_of_length v.items z in (rw e refl, h, rw e refl)

  -- Given peers that are spread and sorted and fewer than 2^32, the call does not fault, and the
  -- peers it leaves are spread and sorted. Nothing is found under the address any more, every other
  -- lookup is as it was, and any count has lost what the removed peer counted. The code returned
  -- is 0 if there was no such peer, 2 if there was one that is seeding, and 1 for any other.
  pub vector_remove_peer-Removed :
      (ps : Peers) → IsSpread ps → total one ps < 2 ^ 32 → RemovedOr ps (vector_remove_peer addr ps)
  unfolding vector_remove_peer total
  vector_remove_peer-Removed (plain v) ok short = elim (Bool-cases (size v == 0)) [
    | inl empty ↦
        rw empty (plain-RemovedOr v ok (some (0, v)) (empty-RemovedFrom v ok (ground arith)))
    | inr more ↦
        rw more (
          plain-RemovedOr v ok _ (remove_from-RemovedFrom v ok (omega (arith, sum_by-one v.items))))
  ]
  vector_remove_peer-Removed (buckets vs) ok short =
      let b : ℕ = vector_hash_peer addr (length vs) in
      let lt = vector_hash_peer-lt addr (length vs) (omega (arith, ok.0)) ok.1 in
      let (v, here) = get_elem?-some vs b lt in
      let h = (get_elem?-BucketsOk (length vs) vs 0 b ok.2 here).0 in
      let more : (length vs == 0) ≡ false = ground (arith, ok.0) in
      rw (more, here)
        (bucket-RemovedOr v h vs ok here _ (
          remove_from-RemovedFrom v h
            (omega (arith, sum_by-one v.items, sum_by-le-bucket_total one vs b v here))))
