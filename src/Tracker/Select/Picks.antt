-- ===== src/Tracker/Select/Picks.antt =====
-- What `return_peers_selection` hands out: as many peers of the torrent as are asked for.
use tstracker.Base.{
  ℕ, zero, suc, ◌+◌, ◌*◌, ◌/◌, ◌%◌, ◌^◌, ◌≤◌, ◌<◌, ◌≡◌, ◌∙◌, refl, false, Option, some, List, [],
  ◌∷◌, length, get_elem?, get_elem?-some, get_elem?-bound, All, arith, u32, u64, ltb, ◌==◌, ◌||◌,
  Bool-cases, inl, inr, ap,
}
use native.Mathlib.Nat.{
  suc-mul, div-mul-le_self, add-div_right, div-le_self, le-div_iff_mul-le, pow-le-pow_right,
  mul_comm, mul-le-mul_right,
}
use tstracker.Peer.{Peer, peer_compare_size}
use tstracker.Peerlist.{Peerlist, IsCounted}
use tstracker.Vector.{Vector, size}
use tstracker.Vector.Weight.{sum_by}
use tstracker.Peers.Spread.{one, bucket_total}
use tstracker.Peers.Redistribute.{vectors}
use tstracker.Clean.Sweep.{total-vectors}
use tstracker.Tracker.Reply.{Cursors, put_peer, peers_loop}
use tstracker.Tracker.Select.{
  shift_loop, diff_of, advance, pick, select_loop, return_peers_selection,
}
use tstracker.Tracker.Select.Skip.{shift_loop-ends, skip_loop-ends, distance-below}

-- A place of the peers and who stands there.
abbrev pub StandsAt : List (Vector Peer) → ℕ → ℕ → Peer → Type 0
StandsAt vs index place p =
    (v : Vector Peer) × (get_elem? vs index ≡ some v) × (get_elem? v.items place ≡ some p)

abbrev pub Stands : List (Vector Peer) → Peer → Type 0
Stands vs p = (index : ℕ) × (place : ℕ) × StandsAt vs index place p

pub sum_by-one : (ps : List Peer) → sum_by one ps ≡ length ps
sum_by-one [] = refl
sum_by-one (p ∷ ps) = omega (arith, sum_by-one ps)

some_bucket :
    (vs : List (Vector Peer))
    → 0 < bucket_total one vs
    → (k : ℕ) × (v : Vector Peer) × (get_elem? vs k ≡ some v) × (0 < size v)
some_bucket [] some_peers = absurd (omega arith)
some_bucket (v ∷ vs) some_peers = elim (Bool-cases (ltb 0 (size v))) [
  | inl here ↦ (0, v, refl, ground arith)
  | inr empty ↦
      let (k, w, e, h) = some_bucket vs (ground (arith, sum_by-one v.items)) in (suc k, w, e, h)
]

pub record Picked (vs : List (Vector Peer)) (r : Option (Peer × ℕ × ℕ)) : Type 0 where
  pub peer : Peer
  pub index : ℕ
  pub place : ℕ
  pub result : r ≡ some (peer, index, place)
  pub stands : StandsAt vs index place peer

module _ (vs : List (Vector Peer)) (some_peers : 0 < bucket_total one vs) where
  pick-ends :
      (drawn diff index offset : ℕ)
      → 0 < diff
      → index < length vs
      → Picked vs (pick drawn vs diff index offset)
  unfolding pick advance
  pick-ends drawn diff index offset more within =
      let (k, v, e, h) = some_bucket vs some_peers in
      let no_zero : (diff == 0) ≡ false = ground arith in
      let offset' = u32 (offset + (1 + drawn % diff)) in
      let bound = get_elem?-bound vs k e in
      let s = skip_loop-ends vs k v e h bound (suc offset' * length vs) index offset' within (
        omega
          (arith, suc-mul offset' (length vs), distance-below (length vs) k index bound within)) in
      let (p, here) = get_elem?-some s.vector.items s.place s.inside in
      record {
        peer = p;
        index = s.index;
        place = s.place;
        result = rw (no_zero, s.result, s.there, here) refl;
        stands = (s.vector, s.there, here);
      }

  -- With every distance positive, the loop finds `amount` peers.
  select_loop-ends :
      (draw : ℕ → ℕ) (step shift amount index offset : ℕ) (c : Cursors)
      → ((a : ℕ) → a < amount → 0 < diff_of step shift a)
      → index < length vs
      → (picks : List Peer) × (length picks ≡ amount)
        × All (Stands vs) picks
        × (select_loop draw vs step shift amount index offset c ≡ some (peers_loop picks c))
  unfolding select_loop peers_loop
  select_loop-ends draw step shift zero index offset c more within = ([], refl, tt, refl)
  select_loop-ends draw step shift (suc amount) index offset c more within =
      let s =
        pick-ends (draw (suc amount)) (diff_of step shift amount) index offset
          (more amount (omega arith)) within in
      let (picks, many, known, e) =
        select_loop-ends draw step shift amount s.index s.place (put_peer s.peer c)
          (λ a below. more a (omega arith)) (get_elem?-bound vs s.index s.stands.1) in
      (s.peer ∷ picks, ap suc many, ((s.index, s.place, s.stands), known), rw s.result e)

pow-pos : (shift : ℕ) → 0 < 2 ^ shift
pow-pos shift = pow-le-pow_right {n = 2} (omega arith) {i = 0} {j = shift} (omega arith)

div_mono : (k : ℕ) {a b : ℕ} → 0 < k → a ≤ b → a / k ≤ b / k
div_mono k {a} {b} some_k le = (le-div_iff_mul-le some_k).1 (omega (arith, div-mul-le_self a k))

-- The fixed-point distance is never 0 where the step is at least 1 after the shift.
diff_of-positive :
    (step shift amount a : ℕ)
    → amount * step < 2 ^ 30
    → 2 ^ shift ≤ step
    → a < amount
    → 0 < diff_of step shift a
unfolding diff_of
diff_of-positive step shift amount a low step_large below =
    let all : suc a * step ≤ amount * step = mul-le-mul_right step (omega arith) in
    let next = suc-mul a step in
    let one_more : (a * step + 2 ^ shift) / 2 ^ shift ≡ a * step / 2 ^ shift + 1 =
      add-div_right (a * step) (pow-pos shift) in
    let up : (a * step + 2 ^ shift) / 2 ^ shift ≤ suc a * step / 2 ^ shift =
      div_mono (2 ^ shift) (pow-pos shift) (omega arith) in
    let bound : suc a * step / 2 ^ shift ≤ suc a * step = div-le_self (suc a * step) (2 ^ shift) in
    let same : u64 (suc a * step) ≡ suc a * step = omega arith in
    let same' : u64 (a * step) ≡ a * step = omega arith in rw (same, same') (omega arith)

-- The call, put together from what its loops give.
return_peers_selection_lem :
    (draw : ℕ → ℕ) (l : Peerlist) (amount shifted shift step bytes : ℕ) (c : Cursors)
    → ((l.peer_count == 0) || (amount == 0)) ≡ false
    → shift_loop 30 (u32 l.peer_count) 0 ≡ some (shifted, shift)
    → u32 (shifted / amount) ≡ step
    → select_loop draw
        (vectors l.peers)
        step
        shift
        amount
        0
        (u32 (draw 0 % l.peer_count))
        (record { front = []; back = [] })
      ≡ some c
    → u64 (peer_compare_size * amount) ≡ bytes
    → return_peers_selection draw l amount ≡ some (bytes, c)
unfolding return_peers_selection
return_peers_selection_lem draw l amount shifted shift step bytes c no_zero s e found b =
    rw (no_zero, s, e, found, b) refl

-- The reply that was selected.
pub record Selected (l : Peerlist) (amount : ℕ) (r : Option (ℕ × Cursors)) : Type 0 where
  pub picks : List Peer
  pub many : length picks ≡ amount
  pub known : All (Stands (vectors l.peers)) picks
  pub result :
      r ≡ some (peer_compare_size * amount, peers_loop picks (record { front = []; back = [] }))

-- Given counters that are right, and asked for at least one peer and fewer than all of the less
-- than 2^30 there are, the call ends whatever `random()` gives: it divides by no zero, reads no
-- place outside a bucket and finds just `amount` times a peer of the torrent, whose addresses it
-- writes as the size that it returns says.
pub return_peers_selection-Selected :
    (draw : ℕ → ℕ) (l : Peerlist) (amount : ℕ)
    → IsCounted l
    → 0 < amount
    → amount < l.peer_count
    → l.peer_count < 2 ^ 30
    → Selected l amount (return_peers_selection draw l amount)
return_peers_selection-Selected draw l amount c some_asked fewer limit =
    let pc = l.peer_count in
    let s = shift_loop-ends 29 pc 0 limit (omega (some_asked, fewer, arith)) in
    let same : u32 pc ≡ pc = omega arith in
    let step = pc * 2 ^ s.by / amount in
    let low : step * amount ≤ pc * 2 ^ s.by = div-mul-le_self (pc * 2 ^ s.by) amount in
    let step_large : 2 ^ s.by ≤ step =
      (le-div_iff_mul-le some_asked).1
        (rw (mul_comm (2 ^ s.by) amount) (mul-le-mul_right (2 ^ s.by) (omega arith))) in
    let same' : u32 step ≡ step = omega (arith, div-le_self (pc * 2 ^ s.by) amount, s.small) in
    let product : amount * step < 2 ^ 30 = omega (arith, mul_comm amount step, low, s.small) in
    let shifted : shift_loop 30 pc 0 ≡ some (pc * 2 ^ s.by, s.by) =
      s.result ∙ ap (λ n. some (pc * 2 ^ s.by, n)) (omega arith) in
    let some_there : 0 < bucket_total one (vectors l.peers) =
      omega (arith, c.peers_right, total-vectors one l.peers) in
    let (k, v, e, h) = some_bucket (vectors l.peers) some_there in
    let (picks, many, known, found) =
      select_loop-ends (vectors l.peers) some_there draw step s.by amount 0
        (u32 (draw 0 % l.peer_count)) (record { front = []; back = [] })
        (λ a below. diff_of-positive step s.by amount a product step_large below)
        (omega (arith, get_elem?-bound (vectors l.peers) k e)) in
    let no_zero : ((pc == 0) || (amount == 0)) ≡ false = ground arith in
    let bytes : u64 (peer_compare_size * amount) ≡ peer_compare_size * amount = omega arith in
    record {
      picks = picks;
      many = many;
      known = known;
      result =
          return_peers_selection_lem draw l amount (pc * 2 ^ s.by) s.by step
            (peer_compare_size * amount) (peers_loop picks (record { front = []; back = [] }))
            no_zero (ap (λ n. shift_loop 30 n 0) same ∙ shifted) same' found bytes;
    }
