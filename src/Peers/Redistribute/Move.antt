-- ===== src/Peers/Redistribute/Move.antt =====
-- The loop that copies every peer to its new bucket.
use mathlib.Core.List.{append-nil, append_assoc}
use tstracker.Base.{
  ℕ, zero, suc, ◌+◌, ◌*◌, ◌^◌, ◌≤◌, ◌<◌, ◌≡◌, ◌≢◌, ◌∙◌, refl, inl, inr, Bool, some, List, [], ◌∷◌,
  ◌++◌, arith, length, length-append, length-replicate, length-set, get_elem?, get_elem?-some,
  replicate, set, u64, ltb, Bool-cases,
}
use tstracker.Peer.{Peer, sizeof_peer}
use tstracker.Vector.{Vector, size, grow_ratio}
use tstracker.Vector.Space.{Fits, IsBounded}
use tstracker.Vector.Weight.{sum_by, sum_by-append}
use tstracker.Peers.Spread.{bucket_total, bucket_total-set, vector_hash_peer-lt}
use tstracker.Peers.Redistribute.{Moved, fault, no_memory, done, dest, move_peer, move_all}
use tstracker.Peers.Redistribute.Select.{select, select-append}

pub dest-lt : (n : ℕ) (addr : List ℕ) → 0 < n → n ≤ 64 → dest n addr < n
dest-lt n addr pos le = ground (arith, vector_hash_peer-lt addr n)

module _ (n : ℕ) where
  -- One bucket in the making, after the peers `qs`.
  pub record Fills (qs : List Peer) (b : ℕ) (v : Vector Peer) : Type 0 where
    pub holds : v.items ≡ select n b qs
    pub fits : Fits sizeof_peer v
    pub open_space : 0 < v.space

  abbrev pub FillsAll : List Peer → ℕ → List (Vector Peer) → Type 0
  FillsAll qs b [] = Unit
  FillsAll qs b (v ∷ vs) = Fills qs b v × FillsAll qs (suc b) vs

  module _ (qs : List Peer) (p : Peer) where
    keep-Fills :
        (b : ℕ) (v : Vector Peer) → dest n p.addr ≢ b → Fills qs b v → Fills (qs ++ p ∷ []) b v
    keep-Fills b v ne f = record {
      holds = ground (arith, f.holds, select-append n b qs p);
      fits = f.fits;
      open_space = f.open_space;
    }

    keep-FillsAll :
        (b : ℕ) (vs : List (Vector Peer))
        → dest n p.addr < b
        → FillsAll qs b vs
        → FillsAll (qs ++ p ∷ []) b vs
    keep-FillsAll b [] lt f = tt
    keep-FillsAll b (v ∷ vs) lt f =
        (keep-Fills b v (omega arith) f.0, keep-FillsAll (suc b) vs (omega arith) f.1)

    set-FillsAll :
        (b c : ℕ) (vs : List (Vector Peer)) (v w : Vector Peer)
        → get_elem? vs c ≡ some v
        → dest n p.addr ≡ b + c
        → (Fills qs (b + c) v → Fills (qs ++ p ∷ []) (b + c) w)
        → FillsAll qs b vs
        → FillsAll (qs ++ p ∷ []) b (set vs c w)
    set-FillsAll b c [] v w e d h f = tt
    set-FillsAll b zero (u ∷ vs) v w e d h f =
        let q : u ≡ v = ground arith in
        let z : b + 0 ≡ b = omega arith in
        (rw z at (h (rw (z, ← q) f.0)), keep-FillsAll (suc b) vs (omega arith) f.1)
    set-FillsAll b (suc c) (u ∷ vs) v w e d h f =
        let z : b + suc c ≡ suc b + c = omega arith in
        (
          keep-Fills b u (omega arith) f.0,
          set-FillsAll (suc b) c vs v w e (omega arith) (rw z at h) f.1,
        )

    append-Fills :
        (b space : ℕ) (v : Vector Peer)
        → dest n p.addr ≡ b
        → size v + 1 ≤ space
        → space * sizeof_peer < 2 ^ 63
        → Fills qs b v
        → Fills (qs ++ p ∷ []) b (record { items = v.items ++ p ∷ []; space = space })
    append-Fills b space v d room small f = record {
      holds = ground (arith, f.holds, select-append n b qs p);
      fits = record { within = omega (arith, length-append v.items (p ∷ [])); small = small };
      open_space = omega arith;
    }

  -- The buckets after the peers `qs`: `n` of them, each with its own, all the peers counted.
  pub record Buckets (qs : List Peer) (vs : List (Vector Peer)) : Type 0 where
    pub count : length vs ≡ n
    pub fill : FillsAll qs 0 vs
    pub counted : (g : Peer → ℕ) → bucket_total g vs ≡ sum_by g qs

  abbrev pub BucketsOr : List Peer → Moved → Type 0
  BucketsOr qs fault = ⊥
  BucketsOr qs no_memory = Unit
  BucketsOr qs (done vs) = Buckets qs vs

  module _ (pos : 0 < n) (le : n ≤ 64) where
    set-Buckets :
        (qs : List Peer) (p : Peer) (vs : List (Vector Peer)) (v : Vector Peer) (space : ℕ)
        → get_elem? vs (dest n p.addr) ≡ some v
        → (Fits sizeof_peer v → 0 < v.space → (size v + 1 ≤ space) × (space * sizeof_peer < 2 ^ 63))
        → Buckets qs vs
        → Buckets
            (qs ++ p ∷ [])
            (set vs (dest n p.addr) (record { items = v.items ++ p ∷ []; space = space }))
    set-Buckets qs p vs v space here room bs = record {
      count = length-set vs (dest n p.addr) _ ∙ bs.count;
      fill =
          set-FillsAll qs p 0 (dest n p.addr) vs v _ here (omega arith)
            (λ f.
              append-Fills qs p (0 + dest n p.addr) space v (omega arith)
                (room f.fits f.open_space).0 (room f.fits f.open_space).1 f)
            bs.fill;
      counted = λ g. omega (
        arith,
        bucket_total-set g vs (dest n p.addr) v
            (record { items = v.items ++ p ∷ []; space = space }) here,
        sum_by-append g v.items (p ∷ []),
        sum_by-append g qs (p ∷ []),
        bs.counted g,
      );
    }

    grown :
        (v : Vector Peer)
        → u64 (sizeof_peer * grow_ratio * v.space) < 2 ^ 63
        → Fits sizeof_peer v
        → 0 < v.space
        → v.space < size v + 1
        → (size v + 1 ≤ u64 (v.space * grow_ratio))
          × (u64 (v.space * grow_ratio) * sizeof_peer < 2 ^ 63)
    grown v b f o full = omega (arith, f.within, f.small)

    move_peer-Buckets :
        (qs : List Peer) (p : Peer) (grow_ok : ℕ → Bool) (vs : List (Vector Peer))
        → IsBounded grow_ok
        → Buckets qs vs
        → BucketsOr (qs ++ p ∷ []) (move_peer n grow_ok p vs)
    unfolding move_peer
    move_peer-Buckets qs p grow_ok vs bounded bs =
        let lt : dest n p.addr < length vs = omega (arith, bs.count, dest-lt n p.addr pos le) in
        let (v, here) = get_elem?-some vs (dest n p.addr) lt in
        rw (here, move_peer)
          (elim (Bool-cases (ltb v.space (size v + 1))) [
            | inr roomy ↦
                rw roomy (set-Buckets qs p vs v v.space here (λ f o. (ground arith, f.small)) bs)
            | inl full ↦
                rw full (elim (Bool-cases (grow_ok (u64 (sizeof_peer * grow_ratio * v.space)))) [
                  | inr refused ↦ rw refused tt
                  | inl granted ↦
                      let b = bounded (u64 (sizeof_peer * grow_ratio * v.space)) granted in
                      rw granted (
                        set-Buckets qs p vs v (u64 (v.space * grow_ratio)) here
                          (λ f o. grown v b f o (ground arith)) bs)
                ])
          ])

    and_then :
        (rs ss : List Peer) (f : List (Vector Peer) → Moved) (m : Moved)
        → BucketsOr rs m
        → ((ws : List (Vector Peer)) → Buckets rs ws → BucketsOr ss (f ws))
        → BucketsOr ss (elim m [ fault ↦ fault | no_memory ↦ no_memory | done ws ↦ f ws ])
    and_then rs ss f fault h k = h
    and_then rs ss f no_memory h k = tt
    and_then rs ss f (done ws) h k = k ws h

    -- Once every peer is moved each bucket holds its own, unless an allocation failed.
    pub move_all-Buckets :
        (qs ps : List Peer) (grow_ok : ℕ → ℕ → Bool) (k : ℕ) (vs : List (Vector Peer))
        → ((i : ℕ) → IsBounded (grow_ok i))
        → Buckets qs vs
        → BucketsOr (qs ++ ps) (move_all n grow_ok k ps vs)
    unfolding move_all
    move_all-Buckets qs [] grow_ok k vs bounded bs = rw (append-nil qs) bs
    move_all-Buckets qs (p ∷ ps) grow_ok k vs bounded bs =
        and_then (qs ++ p ∷ []) (qs ++ p ∷ ps) (move_all n grow_ok (suc k) ps)
          (move_peer n (grow_ok k) p vs) (move_peer-Buckets qs p (grow_ok k) vs (bounded k) bs)
          (λ ws h.
            rw (append_assoc qs (p ∷ []) ps) at
              (move_all-Buckets (qs ++ p ∷ []) ps grow_ok (suc k) ws bounded h))

pub start-FillsAll :
    (n b k space : ℕ)
    → 0 < space
    → space * sizeof_peer < 2 ^ 63
    → FillsAll n [] b (replicate k (record { items = []; space = space }))
unfolding select
start-FillsAll n b zero space pos small = tt
start-FillsAll n b (suc k) space pos small = (
  record { holds = refl; fits = record { within = omega arith; small = small }; open_space = pos },
  start-FillsAll n (suc b) k space pos small,
)

start-total :
    (g : Peer → ℕ) (k space : ℕ)
    → bucket_total g (replicate k (record { items = []; space = space })) ≡ 0
start-total g zero space = refl
start-total g (suc k) space = omega (arith, start-total g k space)

pub start-Buckets :
    (n space : ℕ)
    → 0 < space
    → space * sizeof_peer < 2 ^ 63
    → Buckets n [] (replicate n (record { items = []; space = space }))
start-Buckets n space pos small = record {
  count = length-replicate n _;
  fill = start-FillsAll n 0 n space pos small;
  counted = λ g. start-total g n space;
}
