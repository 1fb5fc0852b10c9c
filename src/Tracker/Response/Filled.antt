-- ===== src/Tracker/Response/Filled.antt =====
-- What `return_peers_for_torrent` fills the reply with, and that the reply fits its buffer.
use tstracker.Base.{
  ℕ, zero, suc, ◌+◌, ◌-◌, ◌*◌, ◌^◌, ◌≤◌, ◌<◌, ◌≡◌, ◌∙◌, refl, ap, true, Option, some, List, [], ◌∷◌,
  ◌++◌, length, length-append, get_elem?, All, All-append, All-intro, All-imp, All-at, All-drop,
  arith, ltb, sub64_exact, u64, ◌/◌, ◌==◌, ◌>>=◌, if◌then◌else◌, Bool-cases, inl, inr, length-dec,
  length-zd, append-nil, length-htonl,
}
use tstracker.Peer.{Peer, peer_compare_size}
use tstracker.Peerlist.{Peerlist, IsCounted}
use tstracker.Vector.{Vector}
use tstracker.Peers.Spread.{one}
use tstracker.Peers.Redistribute.{vectors, members}
use tstracker.Clean.Sweep.{total-vectors, total-seeds-le}
use tstracker.Tracker.Reply.{
  Cursors, return_peers_all, return_peers_all-addrs, leeching_addrs, seeding_addrs, AddrsOk,
  length-addrs, peers_loop-addrs, total-members,
}
use tstracker.Tracker.Select.{return_peers_selection}
use tstracker.Tracker.Select.Picks.{Stands, sum_by-one, return_peers_selection-Selected, Selected}
use tstracker.Tracker.Response.{
  Proto, Draws, reply_head, reply_tail, between, peers_body, return_peers_for_torrent,
  request_interval, leech_count,
}

Stands-next :
    (v : Vector Peer) (vs : List (Vector Peer)) (p : Peer) → Stands vs p → Stands (v ∷ vs) p
Stands-next v vs p (i, o, s) = (suc i, o, s)

members-Stand : (vs : List (Vector Peer)) → All (Stands vs) (members vs)
members-Stand [] = tt
members-Stand (v ∷ vs) =
    All-append (Stands (v ∷ vs)) v.items (members vs)
      (All-intro (Stands (v ∷ vs)) v.items (λ o p e. (0, o, (v, refl, e))))
      (All-imp (Stands vs) (Stands (v ∷ vs)) (members vs) (Stands-next v vs) (members-Stand vs))

Stands-All :
    (P : Peer → Type 0) (vs : List (Vector Peer)) (i o : ℕ) (v : Vector Peer) (p : Peer)
    → All P (members vs)
    → get_elem? vs i ≡ some v
    → get_elem? v.items o ≡ some p
    → P p
Stands-All P [] i o v p a there here = cc
Stands-All P (w ∷ ws) zero o v p a there here =
    let same : w ≡ v = ground arith in
    All-at P w.items o p (All-drop P w.items (members ws) a).0 (rw (← same) at here)
Stands-All P (w ∷ ws) (suc i) o v p a there here =
    Stands-All P ws i o v p (All-drop P w.items (members ws) a).1 there here

-- The peers that a reply tells of, and the bytes they take.
pub record Filled (l : Peerlist) (n : ℕ) (r : Option (List ℕ)) : Type 0 where
  pub picks : List Peer
  pub many : length picks ≡ n
  pub known : All (Stands (vectors l.peers)) picks
  pub result : r ≡ some (leeching_addrs picks ++ seeding_addrs picks)
  pub bytes : length (leeching_addrs picks ++ seeding_addrs picks) ≡ peer_compare_size * n

between_lem :
    (picks : List Peer) (n : ℕ)
    → All (λ p. length p.addr ≡ peer_compare_size) picks
    → length picks ≡ n
    → (length (leeching_addrs picks ++ seeding_addrs picks) ≡ peer_compare_size * n)
      × (between (
        peer_compare_size * n,
        record { front = leeching_addrs picks; back = seeding_addrs picks },
      )
          ≡ some (leeching_addrs picks ++ seeding_addrs picks))
unfolding between
between_lem picks n sized many =
    let b = (length-addrs picks sized).0 in
    let one_each = sum_by-one picks in
    let all : length (leeching_addrs picks) + length (seeding_addrs picks) ≡ peer_compare_size * n =
      omega (arith, b, one_each, many) in
    let test : (length (leeching_addrs picks) + length (seeding_addrs picks)
          == peer_compare_size * n)
        ≡ true =
      ground (arith, all) in
    (length-append (leeching_addrs picks) (seeding_addrs picks) ∙ all, rw test refl)

module _ (l : Peerlist) (c : IsCounted l) (sized : AddrsOk l.peers)
    (limit : l.peer_count < 2 ^ 30) where
  picks-sized :
      (picks : List Peer)
      → All (Stands (vectors l.peers)) picks
      → All (λ p. length p.addr ≡ peer_compare_size) picks
  picks-sized picks known =
      All-imp (Stands (vectors l.peers)) (λ p. length p.addr ≡ peer_compare_size) picks
        (λ p (i, o, (v, there, here)).
          Stands-All (λ p. length p.addr ≡ peer_compare_size) (vectors l.peers) i o v p sized there
            here)
        known

  all_Filled : (n : ℕ) → n ≡ l.peer_count → Filled l n (between (return_peers_all l))
  all_Filled n e =
      let all_peers = members (vectors l.peers) in
      let (same, meet, back) = return_peers_all-addrs l c sized in
      let many : length all_peers ≡ n = omega (
        arith,
        e,
        sum_by-one all_peers,
        c.peers_right,
        total-vectors one l.peers,
        total-members one (vectors l.peers),
      ) in
      let (bytes, result) = between_lem all_peers n sized many in
      record {
        picks = all_peers;
        many = many;
        known = members-Stand (vectors l.peers);
        result = rw (same, ← e) result;
        bytes = bytes;
      }

  Selected-Filled :
      (draw : ℕ → ℕ) (n : ℕ) (r : Option (ℕ × Cursors))
      → Selected l n r
      → Filled l n (r >>= between)
  Selected-Filled draw n r s =
      let (bytes, result) = between_lem s.picks n (picks-sized s.picks s.known) s.many in
      let written = peers_loop-addrs s.picks (record { front = []; back = [] }) in
      let ends : List ℕ → Cursors = λ xs. record { front = leeching_addrs s.picks; back = xs } in
      let trimmed = ap ends (append-nil (seeding_addrs s.picks)) in
      record {
        picks = s.picks;
        many = s.many;
        known = s.known;
        bytes = bytes;
        result = rw (s.result, written ∙ trimmed) result;
      }

  peers_body-Filled : (draw : ℕ → ℕ) (n : ℕ) → n ≤ l.peer_count → Filled l n (peers_body draw l n)
  unfolding peers_body
  peers_body-Filled draw n fits = elim (Bool-cases (n == 0)) [
    | inl none_asked ↦ record {
      picks = [];
      many = ground arith;
      known = tt;
      result = rw none_asked refl;
      bytes = ground arith;
    }
    | inr some_asked ↦ elim (Bool-cases (n == l.peer_count)) [
      | inl all ↦ rw (some_asked, all) (all_Filled n (ground arith))
      | inr part ↦
          rw (some_asked, part)
            (Selected-Filled draw n (return_peers_selection draw l n)
              (return_peers_selection-Selected draw l n c (ground arith) (ground arith) limit))
    ]
  ]

length-reply_head :
    (erval : ℕ) (l : Peerlist) (n : ℕ) (proto : Proto)
    → length (reply_head erval l n proto) + length (reply_tail proto) ≤ 205
unfolding reply_head
length-reply_head erval l n Proto.tcp = simp length-append (
    omega (
      arith,
      length-zd l.seed_count,
      length-zd l.down_count,
      length-zd (leech_count l),
      length-dec erval,
      length-dec (erval / 2),
      length-zd (u64 (peer_compare_size * n)),
    ))
length-reply_head erval l n Proto.udp = simp (length-append, length-htonl) (omega arith)
length-reply_head erval l n Proto.mca = simp (length-append, length-htonl) (omega arith)
length-reply_head erval l n Proto.selfpipe = simp (length-append, length-htonl) (omega arith)

length-reply :
    (head body tail : List ℕ) {m : ℕ}
    → length head + length tail ≤ 205
    → length body ≡ m
    → length (head ++ body ++ tail) ≤ 205 + m
length-reply head body tail few e =
    omega (arith, length-append (head ++ body) tail, length-append head body)

-- How many peers are handed out.
abbrev pub handed_out : ℕ → Peerlist → ℕ
handed_out amount l = if ltb l.peer_count amount then l.peer_count else amount

-- The reply: its head and its tail round the addresses of the peers.
pub record Replied (draws : Draws) (l : Peerlist) (amount : ℕ) (proto : Proto) (r : Option (List ℕ))
    : Type 0 where
  pub picks : List Peer
  pub many : length picks ≡ handed_out amount l
  pub known : All (Stands (vectors l.peers)) picks
  pub reply : List ℕ
  pub result : r ≡ some reply
  pub compiled :
      reply
      ≡ reply_head (request_interval draws.interval) l (handed_out amount l) proto
        ++ (leeching_addrs picks ++ seeding_addrs picks)
        ++ reply_tail proto
  pub leechers_right : leech_count l ≡ l.peer_count - l.seed_count
  pub fits : length reply ≤ 205 + peer_compare_size * handed_out amount l

-- Given counters that are right, addresses of the one size and less than 2^30 peers, the call ends
-- with a reply whatever `random()` gives. For the amount asked for, or all the peers where they are
-- fewer, the reply has that many peers of the torrent: their addresses stand between the head and the
-- tail of the protocol, the leeching peers first. The leechers told of are the peers less the seeds,
-- and the reply is at most 205 bytes longer than the addresses.
pub return_peers_for_torrent-Replied :
    (draws : Draws) (l : Peerlist) (amount : ℕ) (proto : Proto)
    → IsCounted l
    → AddrsOk l.peers
    → l.peer_count < 2 ^ 30
    → Replied draws l amount proto (return_peers_for_torrent draws l amount proto)
unfolding return_peers_for_torrent
return_peers_for_torrent-Replied draws l amount proto c sized limit =
    let f =
      peers_body-Filled l c sized limit draws.selection (handed_out amount l) (ground arith) in
    let body = leeching_addrs f.picks ++ seeding_addrs f.picks in
    let head = reply_head (request_interval draws.interval) l (handed_out amount l) proto in
    record {
      picks = f.picks;
      many = f.many;
      known = f.known;
      reply = head ++ body ++ reply_tail proto;
      result = rw f.result refl;
      compiled = refl;
      leechers_right =
          sub64_exact l.peer_count l.seed_count
            (omega (arith, c.peers_right, c.seeds_right, total-seeds-le l.peers))
            (omega (arith, c.few));
      fits =
          length-reply head body (reply_tail proto)
            (length-reply_head (request_interval draws.interval) l (handed_out amount l) proto)
            f.bytes;
    }
