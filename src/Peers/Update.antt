-- ===== src/Peers/Update.antt =====
-- `vector_find_or_insert_peer` and the write of the peer that follows it, on both layouts.
use tstracker.Base.{
  ℕ, zero, suc, ◌+◌, ◌^◌, ◌<◌, ◌≡◌, ◌≢◌, refl, sym, ap, ◌∙◌, Bool, Option, none, some, List,
  Ordering, arith, length, length-set, get_elem?, get_elem?-some, get_elem?-set_self, set, set-set,
  memcmp, memcmp→eq, ◌>>=◌,
}
use tstracker.Peer.{Peer, sizeof_peer}
use tstracker.Vector.{Vector, Found, null, found, size, vector_find_or_insert}
use tstracker.Vector.Ordered.{find, put, put-IsSorted, All-put, find-put}
use tstracker.Vector.Space.{Fits, IsBounded, Refuses}
use tstracker.Vector.Weight.{sum_by, weight?, sum_by-put}
use tstracker.Vector.Insert.{Outcome, vector_find_or_insert-Outcome}
use tstracker.Peers.{
  Peers, plain, buckets, cmp_addr, in_plain, in_bucket, vector_hash_peer,
  vector_find_or_insert_peer, read_peer, write_item, write_peer,
}
use tstracker.Peers.Spread.{
  VectorOk, InBucket, IsSpread, find_peer, total, one, vector_hash_peer-lt, get_elem?-BucketsOk,
  set-BucketsOk, bucket_total-set, sum_by-le-bucket_total, sum_by-one, find_peer-set,
  find_peer-home,
}

-- The peer that stood at the place before, if `*exactmatch` says that it matches.
abbrev pub prior : ℕ → Option Peer → Option Peer
prior zero o = none
prior (suc e) o = o

-- The allocation for a new peer of the address fails, in the vector that it belongs to.
abbrev pub RefusesPeer : (ℕ → Bool) → List ℕ → Peers → Type 0
RefusesPeer ok addr (plain v) = Refuses ok sizeof_peer v
RefusesPeer ok addr (buckets vs) =
    (v : Vector Peer) × (get_elem? vs (vector_hash_peer addr (length vs)) ≡ some v)
    × Refuses ok sizeof_peer v

module _ (x : Peer) where
  -- What the write of `x` to the place makes of one vector.
  record Placed (v : Vector Peer) (i e : ℕ) (w : Vector Peer) : Type 0 where
    ok : VectorOk (write_item w i x)
    is_put : set w.items i x ≡ put Peer.addr x v.items
    matched : prior e (get_elem? w.items i) ≡ find Peer.addr x.addr v.items
    present : e ≢ 0 → find Peer.addr x.addr v.items ≢ none

  abbrev PlacedOr : (ℕ → Bool) → Vector Peer → Option (Found ℕ (Vector Peer)) → Type 0
  PlacedOr ok v none = ⊥
  PlacedOr ok v (some null) = (find Peer.addr x.addr v.items ≡ none) × Refuses ok sizeof_peer v
  PlacedOr ok v (some (found i e w)) = Placed v i e w

  module _ (junk : Peer) (realloc_ok : ℕ → Bool) (bounded : IsBounded realloc_ok) where
    module _ (v : Vector Peer) (h : VectorOk v) where
      write-VectorOk :
          (i : ℕ) (w : Vector Peer)
          → Fits sizeof_peer w
          → set w.items i x ≡ put Peer.addr x v.items
          → VectorOk (write_item w i x)
      write-VectorOk i w f e = record {
        sorted = rw e (put-IsSorted Peer.addr x v.items h.sorted);
        fits = record { within = rw (length-set w.items i x) f.within; small = f.small };
      }

      Outcome-PlacedOr :
          (r : Option (Found ℕ (Vector Peer)))
          → Outcome Peer.addr x sizeof_peer realloc_ok v r
          → PlacedOr realloc_ok v r
      Outcome-PlacedOr none o = o
      Outcome-PlacedOr (some null) o = (o.2, (o.1, o.0))
      Outcome-PlacedOr (some (found i zero w)) (miss, b, e, n, f, _) = record {
        ok = write-VectorOk i w f e;
        is_put = e;
        matched = sym miss;
        present = λ n. absurd (n refl);
      }
      Outcome-PlacedOr (some (found i (suc n) w)) (same, b, f, g, e) = rw same (record {
        ok = write-VectorOk i v h.fits e;
        is_put = e;
        matched = g;
        present = λ n m. let (p, here) = get_elem?-some v.items i b in cc (here, g, m);
      })

      find_or_insert-PlacedOr :
          size v < 2 ^ 32
          → PlacedOr realloc_ok v
              (vector_find_or_insert sizeof_peer (cmp_addr x.addr) realloc_ok junk v)
      find_or_insert-PlacedOr short = Outcome-PlacedOr _ (
          vector_find_or_insert-Outcome Peer.addr x sizeof_peer realloc_ok v junk h.sorted
            (omega arith) (omega arith) bounded h.fits short)

  -- What the write of `x` to the place makes of the peers.
  pub record Written (ps : Peers) (at : ℕ × ℕ) (e : ℕ) (qs : Peers) : Type 0 where
    pub spread : IsSpread (write_peer qs at x)
    pub lookup :
        (j : List ℕ)
        → find_peer j (write_peer qs at x)
          ≡ elim (memcmp x.addr j) [ Ordering.eq ↦ some x | _ ↦ find_peer j ps ]
    pub counted :
        (g : Peer → ℕ)
        → total g (write_peer qs at x) + weight? g (find_peer x.addr ps) ≡ total g ps + g x
    pub matched : prior e (read_peer qs at) ≡ find_peer x.addr ps
    pub present : e ≢ 0 → find_peer x.addr ps ≢ none

  abbrev pub WrittenOr : (ℕ → Bool) → Peers → Option (Found (ℕ × ℕ) Peers) → Type 0
  WrittenOr ok ps none = ⊥
  WrittenOr ok ps (some null) = (find_peer x.addr ps ≡ none) × RefusesPeer ok x.addr ps
  WrittenOr ok ps (some (found at e qs)) = Written ps at e qs

  module _ (v : Vector Peer) (h : VectorOk v) (i e : ℕ) (w : Vector Peer) (p : Placed v i e w) where
    Written-plain : Written (plain v) (0, i) e (plain w)
    unfolding find_peer total read_peer write_peer
    Written-plain = record {
      spread = p.ok;
      lookup = λ j. rw p.is_put (find-put Peer.addr j x v.items);
      counted = λ g. rw p.is_put (sum_by-put g Peer.addr x v.items h.sorted);
      matched = p.matched;
      present = p.present;
    }

    module _ (vs : List (Vector Peer)) (ok : IsSpread (buckets vs)) where
      abbrev home : ℕ
      home = vector_hash_peer x.addr (length vs)

      home-lt : home < length vs
      home-lt = vector_hash_peer-lt x.addr (length vs) (omega (arith, ok.0)) ok.1

      write-bucket :
          write_peer (buckets (set vs home w)) (home, i) x
          ≡ buckets (set vs home (write_item w i x))
      unfolding write_peer
      write-bucket =
          ground (arith, get_elem?-set_self vs home w home-lt, set-set vs home w (write_item w i x))

      module _ (here : get_elem? vs home ≡ some v) where
        bucket-IsSpread : IsSpread (buckets (set vs home (write_item w i x)))
        bucket-IsSpread =
            let (g, a) = get_elem?-BucketsOk (length vs) vs 0 home ok.2 here in
            rw (length-set vs home (write_item w i x)) (
              ok.0,
              ok.1,
              set-BucketsOk (length vs) vs 0 home (write_item w i x) ok.2 p.ok (
                  rw p.is_put (
                    All-put Peer.addr (InBucket (length vs) (0 + home)) x v.items (omega arith) a)),
            )

        lookup-bucket :
            (j : List ℕ)
            → find_peer j (buckets (set vs home (write_item w i x)))
              ≡ elim (memcmp x.addr j) [ Ordering.eq ↦ some x | _ ↦ find_peer j (buckets vs) ]
        lookup-bucket j = ground (
          arith,
          find_peer-set j vs home (write_item w i x) home-lt,
          ap (find Peer.addr j) p.is_put,
          find-put Peer.addr j x v.items,
          find_peer-home j vs v,
          memcmp→eq x.addr j,
        )

        count-bucket :
            (g : Peer → ℕ)
            → total g (buckets (set vs home (write_item w i x)))
                + weight? g (find_peer x.addr (buckets vs))
              ≡ total g (buckets vs) + g x
        unfolding total
        count-bucket g = rw (find_peer-home x.addr vs v here) (
            omega (
              arith,
              bucket_total-set g vs home v (write_item w i x) here,
              ap (sum_by g) p.is_put,
              sum_by-put g Peer.addr x v.items h.sorted,
            ))

        match-bucket :
            prior e (read_peer (buckets (set vs home w)) (home, i)) ≡ find_peer x.addr (buckets vs)
        unfolding read_peer
        match-bucket =
            rw (find_peer-home x.addr vs v here)
              (ground (arith, get_elem?-set_self vs home w home-lt, p.matched))

        Written-bucket : Written (buckets vs) (home, i) e (buckets (set vs home w))
        Written-bucket = record {
          spread = rw write-bucket bucket-IsSpread;
          lookup = λ j. rw write-bucket (lookup-bucket j);
          counted = λ g. rw write-bucket (count-bucket g);
          matched = match-bucket;
          present = λ n m. p.present n (sym (find_peer-home x.addr vs v here) ∙ m);
        }

module _ (x : Peer) (realloc_ok : ℕ → Bool) (v : Vector Peer) (h : VectorOk v) where
  plain-WrittenOr :
      (r : Option (Found ℕ (Vector Peer)))
      → PlacedOr x realloc_ok v r
      → WrittenOr x realloc_ok (plain v) (r >>= λ f. some (in_plain f))
  unfolding find_peer
  plain-WrittenOr none p = p
  plain-WrittenOr (some null) p = p
  plain-WrittenOr (some (found i e w)) p = Written-plain x v h i e w p

  bucket-WrittenOr :
      (vs : List (Vector Peer)) (ok : IsSpread (buckets vs))
      → get_elem? vs (vector_hash_peer x.addr (length vs)) ≡ some v
      → (r : Option (Found ℕ (Vector Peer))) → PlacedOr x realloc_ok v r
      → WrittenOr x realloc_ok
          (buckets vs)
          (r >>= λ f. some (in_bucket vs (vector_hash_peer x.addr (length vs)) f))
  bucket-WrittenOr vs ok here none p = p
  bucket-WrittenOr vs ok here (some null) p =
      (find_peer-home x.addr vs v here ∙ p.0, (v, here, p.1))
  bucket-WrittenOr vs ok here (some (found i e w)) p = Written-bucket x v h i e w p vs ok here

module _ (x junk : Peer) (realloc_ok : ℕ → Bool) (bounded : IsBounded realloc_ok) where
  -- Given peers that are spread and sorted and fewer than 2^32, and an allocator as libc documents
  -- it, the call does not fault. If it hands out a place, writing the peer there keeps the peers
  -- spread and sorted, makes the peer what is found under its address, leaves every other lookup as
  -- it was, changes any count by that of the peer against the one it replaces, and `*exactmatch`
  -- tells if the place held a peer of that address, which is then the one to read there. Null comes
  -- only where there is no such peer and an allocation was refused.
  pub vector_find_or_insert_peer-Written :
      (ps : Peers)
      → IsSpread ps
      → total one ps < 2 ^ 32
      → WrittenOr x realloc_ok ps (vector_find_or_insert_peer realloc_ok junk x.addr ps)
  unfolding vector_find_or_insert_peer total
  vector_find_or_insert_peer-Written (plain v) ok short =
      plain-WrittenOr x realloc_ok v ok _
        (find_or_insert-PlacedOr x junk realloc_ok bounded v ok (omega (arith, sum_by-one v.items)))
  vector_find_or_insert_peer-Written (buckets vs) ok short =
      let b : ℕ = vector_hash_peer x.addr (length vs) in
      let lt = vector_hash_peer-lt x.addr (length vs) (omega (arith, ok.0)) ok.1 in
      let (v, here) = get_elem?-some vs b lt in
      let h = (get_elem?-BucketsOk (length vs) vs 0 b ok.2 here).0 in
      rw here (
        bucket-WrittenOr x realloc_ok v h vs ok here _ (
          find_or_insert-PlacedOr x junk realloc_ok bounded v h
            (omega (arith, sum_by-one v.items, sum_by-le-bucket_total one vs b v here))))
