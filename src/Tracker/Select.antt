-- ===== src/Tracker/Select.antt =====
-- `return_peers_selection` of src/opentracker/trackerlogic.c: some of the peers, at random
-- distances. `draw n` is what `random()` gives where n peers are left to pick, and `draw 0` the first.
pub mod Skip
pub mod Picks
use tstracker.Base.{
  ℕ, zero, suc, ◌+◌, ◌-◌, ◌*◌, ◌/◌, ◌%◌, ◌^◌, Option, none, some, List, [], length, get_elem?, u32,
  u64, leb, ◌==◌, if◌then◌else◌, ◌>>=◌, ◌||◌,
}
use tstracker.Peer.{Peer, peer_compare_size}
use tstracker.Peerlist.{Peerlist}
use tstracker.Vector.{Vector, size}
use tstracker.Peers.{Peers}
use tstracker.Peers.Redistribute.{vectors}
use tstracker.Tracker.Reply.{Cursors, put_peer}

-- The loop that shifts until MAXPRECBIT is set: the shifted count, and by how much.
unfoldable pub shift_loop : ℕ → ℕ → ℕ → Option (ℕ × ℕ)
shift_loop zero pc shift = none
shift_loop (suc fuel) pc shift =
    let rest = shift_loop fuel (u32 (pc * 2)) (suc shift) in
    if pc / 2 ^ 29 % 2 == 1 then some (pc, shift) else rest

-- The loop that goes on to the bucket the offset lies in.
unfoldable pub skip_loop : ℕ → List (Vector Peer) → ℕ → ℕ → Option (ℕ × ℕ)
skip_loop zero vs index offset = none
skip_loop (suc fuel) vs index offset = get_elem? vs index >>= λ v.
    let rest = skip_loop fuel vs (suc index % length vs) (offset - size v) in
    if leb (size v) offset then rest else some (index, offset)

-- `none` is the division by zero.
unfoldable pub diff_of : ℕ → ℕ → ℕ → ℕ
diff_of step shift amount =
    u32 (u64 (suc amount * step) / 2 ^ shift + 2 ^ 64 - u64 (amount * step) / 2 ^ shift)

unfoldable pub advance : ℕ → ℕ → ℕ → Option ℕ
advance drawn diff offset = if diff == 0 then none else some (u32 (offset + (1 + drawn % diff)))

-- One round of the loop: the peer that is copied, and where it stands.
unfoldable pub pick : ℕ → List (Vector Peer) → ℕ → ℕ → ℕ → Option (Peer × ℕ × ℕ)
pick drawn vs diff index offset = do
  offset' ← advance drawn diff offset
  (i, o) ← skip_loop (suc offset' * length vs) vs index offset'
  v ← get_elem? vs i
  p ← get_elem? v.items o
  some (p, i, o)

unfoldable pub select_loop :
    (ℕ → ℕ) → List (Vector Peer) → ℕ → ℕ → ℕ → ℕ → ℕ → Cursors → Option Cursors
select_loop draw vs step shift zero index offset c = some c
select_loop draw vs step shift (suc amount) index offset c = do
  (p, i, o) ← pick (draw (suc amount)) vs (diff_of step shift amount) index offset
  select_loop draw vs step shift amount i o (put_peer p c)

-- Thirty rounds are enough for the first loop; no peers at all are a division by zero.
unfoldable pub return_peers_selection : (ℕ → ℕ) → Peerlist → ℕ → Option (ℕ × Cursors)
return_peers_selection draw l amount =
    let pc = u32 l.peer_count in
    let start = shift_loop 30 pc 0 >>= λ (shifted, shift).
    let step = u32 (shifted / amount) in
    select_loop draw (vectors l.peers) step shift amount 0 (u32 (draw 0 % l.peer_count))
      (record { front = []; back = [] })
    >>= λ c. some (u64 (peer_compare_size * amount), c) in
    if (l.peer_count == 0) || (amount == 0) then none else start
