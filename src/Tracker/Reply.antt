-- ===== src/Tracker/Reply.antt =====
-- `return_peers_all` of src/opentracker/trackerlogic.c: the peers of a reply, of which the seeding ones
-- fill the buffer from its end.
use tstracker.Base.{
  ℕ, ◌+◌, ◌*◌, ◌≡◌, ◌∙◌, refl, sym, ap, inl, inr, List, [], ◌∷◌, ◌++◌, length, length-append,
  append_assoc, append-nil, All, arith, u64, if◌then◌else◌, Bool-cases,
}
use tstracker.Peer.{Peer, is_seeding, peer_compare_size}
use tstracker.Peerlist.{Peerlist, IsCounted, seeds}
use tstracker.Vector.{Vector}
use tstracker.Vector.Weight.{sum_by, sum_by-append}
use tstracker.Peers.{Peers}
use tstracker.Peers.Spread.{one, bucket_total}
use tstracker.Peers.Redistribute.{vectors, members}
use tstracker.Clean.Sweep.{total-vectors}

-- What was written from `reply` up, and from `r_end` on.
pub record Cursors : Type 0 where
  pub front : List ℕ
  pub back : List ℕ

unfoldable pub put_peer : Peer → Cursors → Cursors
put_peer p c =
    if is_seeding p
    then record c { back = p.addr ++ c.back }
    else record c { front = c.front ++ p.addr }

unfoldable pub peers_loop : List Peer → Cursors → Cursors
peers_loop [] c = c
peers_loop (p ∷ ps) c = peers_loop ps (put_peer p c)

unfoldable pub buckets_loop : List (Vector Peer) → Cursors → Cursors
unfolding peers_loop
buckets_loop [] c = c
buckets_loop (v ∷ vs) c = buckets_loop vs (peers_loop v.items c)

-- The bytes written, and where.
unfoldable pub return_peers_all : Peerlist → ℕ × Cursors
return_peers_all l = (
  u64 (peer_compare_size * l.peer_count),
  buckets_loop (vectors l.peers) (record { front = []; back = [] }),
)

-- The addresses of the leeching peers in order, and of the seeding ones in the order of the buffer.
abbrev pub leeching_addrs : List Peer → List ℕ
leeching_addrs [] = []
leeching_addrs (p ∷ ps) = if is_seeding p then leeching_addrs ps else p.addr ++ leeching_addrs ps

abbrev pub seeding_addrs : List Peer → List ℕ
seeding_addrs [] = []
seeding_addrs (p ∷ ps) = if is_seeding p then seeding_addrs ps ++ p.addr else seeding_addrs ps

peers_loop-append :
    (ps qs : List Peer) (c : Cursors) → peers_loop (ps ++ qs) c ≡ peers_loop qs (peers_loop ps c)
unfolding peers_loop
peers_loop-append [] qs c = refl
peers_loop-append (p ∷ ps) qs c = peers_loop-append ps qs (put_peer p c)

buckets_loop-members :
    (vs : List (Vector Peer)) (c : Cursors) → buckets_loop vs c ≡ peers_loop (members vs) c
unfolding buckets_loop peers_loop
buckets_loop-members [] c = refl
buckets_loop-members (v ∷ vs) c =
    buckets_loop-members vs (peers_loop v.items c) ∙ sym (peers_loop-append v.items (members vs) c)

pub peers_loop-addrs :
    (ps : List Peer) (c : Cursors)
    → peers_loop ps c
      ≡ record { front = c.front ++ leeching_addrs ps; back = seeding_addrs ps ++ c.back }
unfolding peers_loop put_peer
peers_loop-addrs [] c = ap (λ xs. record c { front = xs }) (sym (append-nil c.front))
peers_loop-addrs (p ∷ ps) c = elim (Bool-cases (is_seeding p)) [
  | inl seeding ↦
      rw (seeding, peers_loop-addrs ps (record c { back = p.addr ++ c.back }))
        (ap (λ xs. record { front = c.front ++ leeching_addrs ps; back = xs })
          (sym (append_assoc (seeding_addrs ps) p.addr c.back)))
  | inr leeching ↦
      rw (leeching, peers_loop-addrs ps (record c { front = c.front ++ p.addr }))
        (ap (λ xs. record { front = xs; back = seeding_addrs ps ++ c.back })
          (append_assoc c.front p.addr (leeching_addrs ps)))
]

-- Every peer has an address of the one size.
abbrev pub AddrsOk : Peers → Type 0
AddrsOk ps = All (λ p. length p.addr ≡ peer_compare_size) (members (vectors ps))

pub length-addrs :
    (ps : List Peer)
    → All (λ p. length p.addr ≡ peer_compare_size) ps
    → (length (leeching_addrs ps) + length (seeding_addrs ps) ≡ peer_compare_size * sum_by one ps)
      × (length (seeding_addrs ps) ≡ peer_compare_size * sum_by seeds ps)
length-addrs [] a = omega arith
length-addrs (p ∷ ps) a = ground (
  arith,
  length-addrs ps a.1,
  a.0,
  length-append (seeding_addrs ps) p.addr,
  length-append p.addr (leeching_addrs ps),
)

pub total-members :
    (g : Peer → ℕ) (vs : List (Vector Peer)) → bucket_total g vs ≡ sum_by g (members vs)
total-members g [] = refl
total-members g (v ∷ vs) = omega (arith, total-members g vs, sum_by-append g v.items (members vs))

module _ (l : Peerlist) (c : IsCounted l) (sized : AddrsOk l.peers) where
  abbrev all_peers : List Peer
  all_peers = members (vectors l.peers)

  -- Given counters that are right and addresses of the one size, the call writes the addresses of
  -- the leeching peers in order from the start and those of the seeding ones to the end, last first,
  -- and together they fill the bytes that it returns as written: the two cursors meet and never
  -- cross. The part at the end is as long as the count of seeds says.
  pub return_peers_all-addrs :
      (return_peers_all l ≡ (
        peer_compare_size * l.peer_count,
        record { front = leeching_addrs all_peers; back = seeding_addrs all_peers },
      ))
      × (length (leeching_addrs all_peers) + length (seeding_addrs all_peers)
          ≡ peer_compare_size * l.peer_count)
      × (length (seeding_addrs all_peers) ≡ peer_compare_size * l.seed_count)
  unfolding return_peers_all
  return_peers_all-addrs =
      let small : u64 (peer_compare_size * l.peer_count) ≡ peer_compare_size * l.peer_count =
        omega (arith, c.few) in
      let (n, s) = length-addrs all_peers sized in
      let many : l.peer_count ≡ sum_by one all_peers =
        c.peers_right ∙ total-vectors one l.peers ∙ total-members one (vectors l.peers) in
      let some_seeds : l.seed_count ≡ sum_by seeds all_peers =
        c.seeds_right ∙ total-vectors seeds l.peers ∙ total-members seeds (vectors l.peers) in
      let empty : Cursors = record { front = []; back = [] } in
      let written =
        buckets_loop-members (vectors l.peers) empty
        ∙ peers_loop-addrs all_peers empty
        ∙ ap (λ xs. record { front = leeching_addrs all_peers; back = xs })
            (append-nil (seeding_addrs all_peers)) in
      (
        ap (λ n. (n, buckets_loop (vectors l.peers) empty)) small
            ∙ ap (λ w. (peer_compare_size * l.peer_count, w)) written,
        omega (arith, n, many),
        omega (arith, s, some_seeds),
      )
