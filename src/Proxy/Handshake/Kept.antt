-- ===== src/Proxy/Handshake/Kept.antt =====
-- Every step of a proxy keeps its connections distinct.
use tstracker.Base.{
  ℕ, zero, suc, ◌-◌, ◌≡◌, ◌∙◌, refl, sym, ap, inl, inr, Bool, true, false, ◌&&◌, Option, none, some,
  List, [], ◌∷◌, ◌++◌, length, get_elem?, map, replicate, Bool-cases, Option-cases, some_same,
  some-none,
}
use tstracker.Base.Int.{ℤ}
use tstracker.Proxy.Handshake.{
  ProxyPeer, max_peers, is_connected, is_disconnected, Proxy, reconnect, reconnect_loop,
  handle_reconnects, new_home, Accepted, accept_one, handle_accept, queue_packet, queued,
}
use tstracker.Proxy.Handshake.Steps.{
  idle_peer, no_ip, proxy_start, ProxyStep, reconnects, accepts, reads, sends, queues, ProxyReaches,
  here, then_to,
}
use tstracker.Proxy.Handshake.Distinct.{
  IsDistinct, true_or_false, kept, set-IsDistinct, unconnected_Admits,
}
use tstracker.Proxy.Handshake.Handlers.{handle_read-IsDistinct, handle_write-IsDistinct}

reconnect-IsDistinct :
    (me : List ℕ) (i : ℕ) (c : ProxyPeer) (a : Option (ℤ × Bool)) (s : Proxy)
    → IsDistinct me s.connections
    → IsDistinct me (reconnect i c a s).connections
unfolding reconnect
reconnect-IsDistinct me i c none s x = x
reconnect-IsDistinct me i c (some (fd, false)) s x = x
reconnect-IsDistinct me i c (some (fd, true)) s x =
    set-IsDistinct me s.connections i _ (unconnected_Admits me s.connections i _ refl) x

reconnect_loop-IsDistinct :
    (me : List ℕ) (attempts : ℕ → Option (ℤ × Bool)) (i more : ℕ) (s t : Proxy)
    → reconnect_loop attempts i more s ≡ some t
    → IsDistinct me s.connections
    → IsDistinct me t.connections
unfolding reconnect_loop
reconnect_loop-IsDistinct me attempts i zero s t r x = kept me x r
reconnect_loop-IsDistinct me attempts i (suc more) s t r x =
    elim (Option-cases (get_elem? s.connections i)) [
      | inl outside ↦ absurd (some-none (rw outside at r))
      | inr (c, there) ↦ elim (Bool-cases (c.outgoing && is_disconnected c)) [
        | inl needs ↦
            reconnect_loop-IsDistinct me attempts (suc i) more (reconnect i c (attempts i) s) t
              (rw (there, needs) at r) (reconnect-IsDistinct me i c (attempts i) s x)
        | inr other ↦
            reconnect_loop-IsDistinct me attempts (suc i) more s t (rw (there, other) at r) x
      ]
    ]

handle_reconnects-IsDistinct :
    (me : List ℕ) (attempts : ℕ → Option (ℤ × Bool)) (now : ℤ) (s t : Proxy)
    → handle_reconnects attempts now s ≡ some t
    → IsDistinct me s.connections
    → IsDistinct me t.connections
unfolding handle_reconnects
handle_reconnects-IsDistinct me attempts now s t r x =
    elim (Option-cases (reconnect_loop attempts 0 s.count s)) [
      | inl outside ↦ absurd (some-none (rw outside at r))
      | inr (u, done) ↦
          kept me (reconnect_loop-IsDistinct me attempts 0 s.count s u done x) (rw done at r)
    ]

accept_one-IsDistinct :
    (me : List ℕ) (a : Accepted) (s : Proxy)
    → IsDistinct me s.connections
    → IsDistinct me (accept_one a s).connections
unfolding accept_one
accept_one-IsDistinct me a s x = elim (Bool-cases a.registered) [
  | inr bad ↦ rw bad x
  | inl good ↦ elim (Option-cases (new_home 0 s.connections)) [
    | inl full ↦ rw (good, full) x
    | inr ((i, c), home) ↦
        rw (good, home)
          (set-IsDistinct me s.connections i _ (unconnected_Admits me s.connections i _ refl) x)
  ]
]

handle_accept-IsDistinct :
    (me : List ℕ) (xs : List Accepted) (s : Proxy)
    → IsDistinct me s.connections
    → IsDistinct me (handle_accept xs s).connections
unfolding handle_accept
handle_accept-IsDistinct me [] s x = x
handle_accept-IsDistinct me (a ∷ xs) s x =
    handle_accept-IsDistinct me xs (accept_one a s) (accept_one-IsDistinct me a s x)

-- Where a connection comes from that a packet may have been queued for.
record Origin (cs : List ProxyPeer) (i : ℕ) (d : ProxyPeer) : Type 0 where
  from : ProxyPeer
  place : get_elem? cs i ≡ some from
  as_connected : is_connected d ≡ is_connected from
  same_id : d.tracker_id ≡ from.tracker_id

queued_same :
    (packet : List ℕ) (room : Bool) (c : ProxyPeer)
    → (is_connected (queued packet room c) ≡ is_connected c)
      × ((queued packet room c).tracker_id ≡ c.tracker_id)
queued_same packet room c = elim (Bool-cases (is_connected c && room)) [
  | inl goes ↦ rw goes (refl, refl)
  | inr stays ↦ rw stays (refl, refl)
]

queue_packet-Origin :
    (packet : List ℕ) (room : ℕ → Bool) (k i : ℕ) (cs : List ProxyPeer) (d : ProxyPeer)
    → get_elem? (queue_packet packet room k cs) i ≡ some d
    → Origin cs i d
unfolding queue_packet
queue_packet-Origin packet room k i [] d e = absurd (some-none e)
queue_packet-Origin packet room k zero (c ∷ cs) d e =
    let same : d ≡ queued packet (room k) c = some_same {o = some d} refl (sym e) in
    let (p, q) = queued_same packet (room k) c in
    record {
      from = c;
      place = refl;
      as_connected = ap is_connected same ∙ p;
      same_id = ap ProxyPeer.tracker_id same ∙ q;
    }
queue_packet-Origin packet room k (suc j) (c ∷ cs) d e =
    let o = queue_packet-Origin packet room (suc k) j cs d e in
    record { from = o.from; place = o.place; as_connected = o.as_connected; same_id = o.same_id }

queue_packet-IsDistinct :
    (me packet : List ℕ) (room : ℕ → Bool) (cs : List ProxyPeer)
    → IsDistinct me cs
    → IsDistinct me (queue_packet packet room 0 cs)
queue_packet-IsDistinct me packet room cs x = record {
  apart = λ i j {c} {d} p q con don same.
      let a = queue_packet-Origin packet room 0 i cs c p in
      let b = queue_packet-Origin packet room 0 j cs d q in
      x.apart i j a.place b.place (sym a.as_connected ∙ con) (sym b.as_connected ∙ don)
        (sym a.same_id ∙ same ∙ b.same_id);
  not_self = λ i {c} p con m.
      let a = queue_packet-Origin packet room 0 i cs c p in
      x.not_self i a.place (sym a.as_connected ∙ con) (sym a.same_id ∙ m);
}

ProxyStep-IsDistinct :
    (me : List ℕ) (s t : Proxy)
    → ProxyStep me s t
    → IsDistinct me s.connections
    → IsDistinct me t.connections
ProxyStep-IsDistinct me _ _ (reconnects now attempts s t due r) x =
    handle_reconnects-IsDistinct me attempts now s t r x
ProxyStep-IsDistinct me _ _ (accepts xs s) x = handle_accept-IsDistinct me xs s x
ProxyStep-IsDistinct me _ _ (reads i input sent s t r) x =
    handle_read-IsDistinct me i input sent s t r x
ProxyStep-IsDistinct me _ _ (sends i o s t r) x = handle_write-IsDistinct me i o s t r x
ProxyStep-IsDistinct me _ _ (queues packet room s) x =
    queue_packet-IsDistinct me packet room s.connections x

proxy_start-off :
    (peers : List (List ℕ × ℕ)) (more i : ℕ) {c : ProxyPeer}
    → get_elem?
        (map (λ (ip, port). idle_peer true ip port) peers
          ++ replicate more (idle_peer false no_ip 0))
        i
      ≡ some c
    → is_connected c ≡ false
proxy_start-off [] zero i e = absurd (some-none e)
proxy_start-off [] (suc more) zero {c} e = ap is_connected (some_same {o = some c} refl (sym e))
proxy_start-off [] (suc more) (suc i) e = proxy_start-off [] more i e
proxy_start-off (p ∷ ps) more zero {c} e = ap is_connected (some_same {o = some c} refl (sym e))
proxy_start-off (p ∷ ps) more (suc i) e = proxy_start-off ps more i e

-- In every state that the handlers can reach from the start, in any order of their calls and whatever
-- the sockets answer, two connections that are connected never lead to the same tracker, and none
-- leads to the proxy itself.
pub ProxyReaches-IsDistinct :
    (me : List ℕ) (peers : List (List ℕ × ℕ)) (s : Proxy)
    → ProxyReaches me (proxy_start peers) s
    → IsDistinct me s.connections
unfolding proxy_start
ProxyReaches-IsDistinct me peers _ here = record {
  apart = λ i j {c} {d} p q con don same.
      absurd (true_or_false (sym con ∙ proxy_start-off peers (max_peers - length peers) i p));
  not_self = λ i {c} p con m.
      true_or_false (sym con ∙ proxy_start-off peers (max_peers - length peers) i p);
}
ProxyReaches-IsDistinct me peers _ (then_to t u r st) =
    ProxyStep-IsDistinct me t u st (ProxyReaches-IsDistinct me peers t r)
