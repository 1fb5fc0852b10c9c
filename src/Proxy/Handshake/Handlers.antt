-- ===== src/Proxy/Handshake/Handlers.antt =====
-- What reading and writing a connection leave: distinct connections.
use tstracker.Base.{
  ℕ, ◌≡◌, refl, inl, inr, Bool, true, ◌&&◌, not, Option, some, List, [], ◌∷◌, ◌++◌, get_elem?, set,
  Bool-cases, Option-cases, some-none,
}
use tstracker.Proxy.Stream.{process_indata}
use tstracker.Proxy.Handshake.{
  Stage, disconnected, connecting, wait_tracker_id, connected, ProxyPeer, is_connected,
  reset_info_block, closes, Proxy, at_once, Input, closed, again, bytes, input_bytes, greets,
  handle_greeting, handle_data, handle_read, Sent, all_sent, failed, partly, Output, handle_hello,
  handle_outdata, handle_write,
}
use tstracker.Proxy.Handshake.Distinct.{
  IsDistinct, kept, set-IsDistinct, unconnected_Admits, renewed_Admits, greets-Admits,
}

reset-IsDistinct :
    (me : List ℕ) (cs : List ProxyPeer) (i : ℕ) (c : ProxyPeer)
    → IsDistinct me cs
    → IsDistinct me (set cs i (reset_info_block c))
unfolding reset_info_block
reset-IsDistinct me cs i c x =
    set-IsDistinct me cs i _ (unconnected_Admits me cs i (reset_info_block c) refl) x

handle_greeting-IsDistinct :
    (me : List ℕ) (i : ℕ) (c : ProxyPeer) (input : Input) (sent : Bool) (s : Proxy)
    → IsDistinct me s.connections
    → IsDistinct me (handle_greeting me i c input sent s).connections
unfolding handle_greeting reset_info_block
handle_greeting-IsDistinct me i c input sent s x =
    elim (Bool-cases (greets me c (input_bytes input) sent s.connections)) [
      | inl yes_ ↦ rw yes_ (
          set-IsDistinct me s.connections i _
            (greets-Admits me s.connections i c (input_bytes input) sent yes_) x)
      | inr no_ ↦ rw no_ (
          set-IsDistinct me s.connections i (reset_info_block c)
            (unconnected_Admits me s.connections i (reset_info_block c) refl) x)
    ]

handle_data-IsDistinct :
    (me : List ℕ) (i : ℕ) (c : ProxyPeer) (input : Input) (s t : Proxy)
    → get_elem? s.connections i ≡ some c
    → is_connected c ≡ true
    → handle_data i c input s ≡ some t
    → IsDistinct me s.connections
    → IsDistinct me t.connections
unfolding handle_data reset_info_block
handle_data-IsDistinct me i c closed s t e on r x =
    kept me
      (set-IsDistinct me s.connections i (reset_info_block c)
        (unconnected_Admits me s.connections i (reset_info_block c) refl) x)
      r
handle_data-IsDistinct me i c again s t e on r x = kept me x r
handle_data-IsDistinct me i c (bytes b) s t e on r x =
    elim (Option-cases (process_indata c.packet (c.indata ++ b))) [
      | inl bad ↦ absurd (some-none (rw bad at r))
      | inr (p, good) ↦
          let c' : ProxyPeer = record c { indata = p.indata; packet = p.packet } in
          kept me
            (set-IsDistinct me s.connections i c' (renewed_Admits me s.connections i c' x e on refl)
              x)
            (rw good at r)
    ]

pub handle_read-IsDistinct :
    (me : List ℕ) (i : ℕ) (input : Input) (sent : Bool) (s t : Proxy)
    → handle_read me i input sent s ≡ some t
    → IsDistinct me s.connections
    → IsDistinct me t.connections
unfolding handle_read
handle_read-IsDistinct me i input sent s t r x = elim (Option-cases (get_elem? s.connections i)) [
  | inl outside ↦ absurd (some-none (rw outside at r))
  | inr (c, there) ↦ go c c.stage there refl (rw there at r)
]
  where
    go :
        (c : ProxyPeer) (stage : Stage)
        → get_elem? s.connections i ≡ some c
        → c.stage ≡ stage
        → elim stage as (λ _. Option Proxy) [
          | disconnected ↦ some (at_once (closes c.fd ∷ []) s)
          | connecting ↦ some (handle_greeting me i c input sent s)
          | wait_tracker_id ↦ some (handle_greeting me i c input sent s)
          | connected ↦ handle_data i c input s
        ]
          ≡ some t
        → IsDistinct me t.connections
    go c disconnected there is r' = kept me x r'
    go c connecting there is r' = kept me (handle_greeting-IsDistinct me i c input sent s x) r'
    go c wait_tracker_id there is r' = kept me (handle_greeting-IsDistinct me i c input sent s x) r'
    go c connected there is r' = handle_data-IsDistinct me i c input s t there (rw is refl) r' x

handle_hello-IsDistinct :
    (me : List ℕ) (i : ℕ) (c : ProxyPeer) (o : Output) (s : Proxy)
    → IsDistinct me s.connections
    → IsDistinct me (handle_hello me i c o s).connections
unfolding handle_hello
handle_hello-IsDistinct me i c o s x = elim (Bool-cases (c.outgoing && not o.established)) [
  | inl bad ↦ rw bad (reset-IsDistinct me s.connections i c x)
  | inr good ↦ elim (Bool-cases o.whole) [
    | inl all ↦
        rw (good, all)
          (set-IsDistinct me s.connections i _ (unconnected_Admits me s.connections i _ refl) x)
    | inr less ↦ rw (good, less) (reset-IsDistinct me s.connections i c x)
  ]
]

handle_outdata-IsDistinct :
    (me : List ℕ) (i : ℕ) (c : ProxyPeer) (o : Sent) (s : Proxy)
    → get_elem? s.connections i ≡ some c
    → is_connected c ≡ true
    → IsDistinct me s.connections
    → IsDistinct me (handle_outdata i c o s).connections
unfolding handle_outdata
handle_outdata-IsDistinct me i c all_sent s e on x =
    set-IsDistinct me s.connections i _ (renewed_Admits me s.connections i _ x e on refl) x
handle_outdata-IsDistinct me i c failed s e on x = reset-IsDistinct me s.connections i c x
handle_outdata-IsDistinct me i c (partly n) s e on x =
    set-IsDistinct me s.connections i _ (renewed_Admits me s.connections i _ x e on refl) x

pub handle_write-IsDistinct :
    (me : List ℕ) (i : ℕ) (o : Output) (s t : Proxy)
    → handle_write me i o s ≡ some t
    → IsDistinct me s.connections
    → IsDistinct me t.connections
unfolding handle_write
handle_write-IsDistinct me i o s t r x = elim (Option-cases (get_elem? s.connections i)) [
  | inl outside ↦ absurd (some-none (rw outside at r))
  | inr (c, there) ↦ go c c.stage there refl (rw there at r)
]
  where
    go :
        (c : ProxyPeer) (stage : Stage)
        → get_elem? s.connections i ≡ some c
        → c.stage ≡ stage
        → elim stage as (λ _. Option Proxy) [
          | disconnected ↦ some (at_once (closes c.fd ∷ []) s)
          | wait_tracker_id ↦ some (at_once (closes c.fd ∷ []) s)
          | connecting ↦ some (handle_hello me i c o s)
          | connected ↦ some (handle_outdata i c o.sent s)
        ]
          ≡ some t
        → IsDistinct me t.connections
    go c disconnected there is r' = kept me x r'
    go c connecting there is r' = kept me (handle_hello-IsDistinct me i c o s x) r'
    go c wait_tracker_id there is r' = kept me x r'
    go c connected there is r' =
        kept me (handle_outdata-IsDistinct me i c o.sent s there (rw is refl) x) r'
