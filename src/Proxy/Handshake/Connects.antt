-- ===== src/Proxy/Handshake/Connects.antt =====
-- A connection that `main` was told to make is made, from any state of its handshake.
use tstracker.Base.{
  ℕ, zero, suc, ◌+◌, ◌≡◌, ◌≢◌, refl, inl, inr, Bool, true, false, ◌&&◌, Option, none, some, List,
  [], ◌∷◌, length, get_elem?, set, ◌==◌, if◌then◌else◌, Ordering, memcmp, memcmp→eq, ◌≤◌, ◌<◌,
  get_elem?-set_self, get_elem?-bound, get_elem?-some, length-set, Bool-cases, arith,
}
use tstracker.Base.Int.{ℤ, pos, negsuc, ◌+ℤ◌, ltb_ℤ}
use tstracker.Access.{same_ip}
use tstracker.Proxy.Handshake.{
  Stage, disconnected, connecting, wait_tracker_id, connected, ProxyPeer, is_connected,
  is_disconnected, reset_info_block, writes, wants_read, wants_write, dont_want_write, Proxy,
  at_once, put_connection, reconnect, reconnect_loop, handle_reconnects, already_connected, bytes,
  handle_greeting, handle_read, all_sent, Output, handle_hello, handle_write,
}
use tstracker.Proxy.Handshake.Steps.{
  ProxyStep, reconnects, reads, sends, ProxyReaches, here, then_to,
}
use tstracker.Proxy.Handshake.Distinct.{true_or_false}

-- From `s` a state can be reached in which connection `i` leads to the tracker `id`.
abbrev pub Connects : List ℕ → Proxy → ℕ → List ℕ → Type 0
Connects me s i id =
    (t : Proxy) × (d : ProxyPeer) × ProxyReaches me s t
    × (get_elem? t.connections i ≡ some d)
    × (is_connected d ≡ true)
    × (d.tracker_id ≡ id)

Reaches_trans :
    (me : List ℕ) (s t u : Proxy) → ProxyReaches me s t → ProxyReaches me t u → ProxyReaches me s u
Reaches_trans me s t _ a here = a
Reaches_trans me s t _ a (then_to u v b st) = then_to u v (Reaches_trans me s t u a b) st

-- A step more in front.
Connects-ProxyStep :
    (me : List ℕ) (s t : Proxy) (i : ℕ) (id : List ℕ)
    → ProxyStep me s t
    → Connects me t i id
    → Connects me s i id
Connects-ProxyStep me s t i id st (u, d, r, at, on, same) =
    (u, d, Reaches_trans me s t u (then_to s t here st) r, at, on, same)

already_connected-set :
    (id : List ℕ) (cs : List ProxyPeer) (i : ℕ) (c : ProxyPeer)
    → already_connected id cs ≡ false
    → is_connected c ≡ false
    → already_connected id (set cs i c) ≡ false
unfolding already_connected
already_connected-set id [] i c e off = e
already_connected-set id (x ∷ xs) zero c e off =
    elim (Bool-cases (is_connected x && same_ip x.tracker_id id)) [
      | inl hit ↦ absurd (true_or_false (rw hit at e))
      | inr miss ↦ rw off (rw miss at e)
    ]
already_connected-set id (x ∷ xs) (suc i) c e off =
    elim (Bool-cases (is_connected x && same_ip x.tracker_id id)) [
      | inl hit ↦ absurd (true_or_false (rw hit at e))
      | inr miss ↦ rw miss (already_connected-set id xs i c (rw miss at e) off)
    ]

same_ip_not : (xs ys : List ℕ) → xs ≢ ys → same_ip xs ys ≡ false
same_ip_not xs ys h = go (memcmp xs ys) refl
  where
    go :
        (o : Ordering)
        → memcmp xs ys ≡ o
        → elim o as (λ _. Bool) [ Ordering.eq ↦ true | _ ↦ false ] ≡ false
    go Ordering.eq e = absurd (h (memcmp→eq xs ys e))
    go Ordering.lt e = refl
    go Ordering.gt e = refl

module _ (me : List ℕ) (i : ℕ) (id : List ℕ) (four : length id ≡ 4) (other : id ≢ me) where
  from_wait :
      (s : Proxy) (c : ProxyPeer)
      → get_elem? s.connections i ≡ some c
      → c.stage ≡ wait_tracker_id
      → c.outgoing ≡ true
      → already_connected id s.connections ≡ false
      → Connects me s i id
  unfolding handle_read handle_greeting
  from_wait s c at waits out new =
      let d : ProxyPeer = record c { tracker_id = id; stage = connected } in
      let t : Proxy = at_once [] (put_connection i d s) in
      let step : handle_read me i (bytes id) true s ≡ some t =
        rw (at, waits, four, new, same_ip_not id me other, out) refl in
      (
        t,
        d,
        then_to s t here (reads i (bytes id) true s t step),
        get_elem?-set_self s.connections i d (get_elem?-bound s.connections i at),
        refl,
        refl,
      )

  from_connecting :
      (s : Proxy) (c : ProxyPeer)
      → get_elem? s.connections i ≡ some c
      → c.stage ≡ connecting
      → c.outgoing ≡ true
      → already_connected id s.connections ≡ false
      → Connects me s i id
  unfolding handle_write handle_hello
  from_connecting s c at begun out new =
      let d : ProxyPeer = record c { stage = wait_tracker_id } in
      let t : Proxy =
        at_once (writes c.fd me ∷ dont_want_write c.fd ∷ wants_read c.fd ∷ [])
          (put_connection i d s) in
      let o : Output = record { established = true; whole = true; sent = all_sent } in
      let step : handle_write me i o s ≡ some t = rw (at, begun, out) refl in
      Connects-ProxyStep me s t i id (sends i o s t step) (
        from_wait t d (get_elem?-set_self s.connections i d (get_elem?-bound s.connections i at))
          refl out (already_connected-set id s.connections i d new refl))

abbrev only : ℕ → ℤ → ℕ → Option (ℤ × Bool)
only i fd j = if j == i then some (fd, true) else none

if_same : {A : Type 0} (b : Bool) (x : A) → (if b then x else x) ≡ x
if_same true x = refl
if_same false x = refl

-- Behind `i` nothing is tried.
reconnect_loop-rest :
    (i : ℕ) (fd : ℤ) (j more : ℕ) (s : Proxy)
    → i < j
    → j + more ≤ length s.connections
    → reconnect_loop (only i fd) j more s ≡ some s
unfolding reconnect_loop reconnect
reconnect_loop-rest i fd j zero s h fits = refl
reconnect_loop-rest i fd j (suc more) s h fits =
    let (c, at) = get_elem?-some s.connections j (omega (arith, fits)) in
    let differs : j == i ≡ false = ground (arith, h) in
    rw (at, differs, if_same (c.outgoing && is_disconnected c) s)
      (reconnect_loop-rest i fd (suc j) more s (omega (arith, h)) (omega (arith, fits)))

reconnect_loop-only :
    (i : ℕ) (fd : ℤ) (j more : ℕ) (s : Proxy) (c : ProxyPeer)
    → get_elem? s.connections i ≡ some c
    → (c.outgoing && is_disconnected c) ≡ true
    → j ≤ i
    → i < j + more
    → j + more ≤ length s.connections
    → reconnect_loop (only i fd) j more s ≡ some (reconnect i c (some (fd, true)) s)
unfolding reconnect_loop reconnect
reconnect_loop-only i fd j zero s c at needs low high fits = absurd (omega (arith, low, high))
reconnect_loop-only i fd j (suc more) s c at needs low high fits = elim (Bool-cases (j == i)) [
  | inl hit ↦
      let same : j ≡ i = ground (arith, hit) in
      let tried : only i fd i ≡ some (fd, true) = rw (rw same at hit) refl in
      let s' : Proxy = reconnect i c (some (fd, true)) s in
      let fits' : suc i + more ≤ length s'.connections = omega (
        arith,
        fits,
        same,
        length-set s.connections i (record (reset_info_block c) { fd = fd; stage = connecting }),
      ) in
      rw (same, at, needs, tried) (reconnect_loop-rest i fd (suc i) more s' (omega arith) fits')
  | inr miss ↦
      let (c', there) = get_elem?-some s.connections j (omega (arith, fits)) in
      let before : suc j ≤ i = ground (arith, miss, low) in
      rw (there, miss, if_same (c'.outgoing && is_disconnected c') s)
        (reconnect_loop-only i fd (suc j) more s c at needs before (omega (arith, high))
          (omega (arith, fits)))
]

-- What is due one second after `g_connection_reconn`.
due : (r : ℤ) → ltb_ℤ r (r +ℤ pos 1) ≡ true
unfolding ◌+ℤ◌
due (pos n) = ground arith
due (negsuc n) = ground arith

-- A connection that `main` was told to make, and that is not connected, can be connected to any other
-- tracker that none of the connections leads to, in whichever state of the handshake it is: it is no
-- dead end.
pub outgoing-Connects :
    (me : List ℕ) (i : ℕ) (id : List ℕ) (s : Proxy) (c : ProxyPeer)
    → length id ≡ 4
    → id ≢ me
    → already_connected id s.connections ≡ false
    → s.count ≤ length s.connections
    → i < s.count
    → get_elem? s.connections i ≡ some c
    → c.outgoing ≡ true
    → is_connected c ≡ false
    → Connects me s i id
unfolding handle_reconnects reconnect reset_info_block
outgoing-Connects me i id s c four other new fits inside at out off = go c.stage refl
  where
    go : (stage : Stage) → c.stage ≡ stage → Connects me s i id
    go connected e = absurd (true_or_false (rw e at off))
    go wait_tracker_id e = from_wait me i id four other s c at e out new
    go connecting e = from_connecting me i id four other s c at e out new
    go disconnected e =
        let d : ProxyPeer = record (reset_info_block c) { fd = pos 5; stage = connecting } in
        let now : ℤ = s.reconn +ℤ pos 1 in
        let t : Proxy = record (at_once (wants_write (pos 5) ∷ []) (put_connection i d s)) {
          reconn = now +ℤ pos 30;
        } in
        let needs : (c.outgoing && is_disconnected c) ≡ true = rw (out, e) refl in
        let step : handle_reconnects (only i (pos 5)) now s ≡ some t =
          rw
            (reconnect_loop-only i (pos 5) 0 s.count s c at needs (omega arith)
              (omega (arith, inside)) (omega (arith, fits)))
            refl in
        Connects-ProxyStep me s t i id (reconnects now (only i (pos 5)) s t (due s.reconn) step) (
          from_connecting me i id four other t d
            (get_elem?-set_self s.connections i d (get_elem?-bound s.connections i at)) refl out
            (already_connected-set id s.connections i d new refl))
