-- ===== src/Proxy/Handshake.antt =====
-- The connections between proxies, of src/opentracker/proxy.c: how they are made, greeted, read,
-- written and dropped. What the sockets answer is given to the handlers; a socket that is ready is the
-- `fd` of the connection that is its cookie.
pub mod Steps
pub mod Distinct
pub mod Handlers
pub mod Kept
pub mod Connects
use tstracker.Base.{
  ℕ, zero, suc, ◌+◌, ◌-◌, Bool, true, false, ◌&&◌, ◌||◌, not, Option, none, some, List, [], ◌∷◌,
  ◌++◌, length, take, drop, get_elem?, set, map, replicate, ltb, leb, ◌==◌, ◌>>=◌, if◌then◌else◌,
  Ordering, memcmp,
}
use tstracker.Base.{◌≡◌}
use tstracker.Base.Int.{ℤ, pos, negsuc, ◌+ℤ◌, ltb_ℤ}
use tstracker.Access.{same_ip}
use tstracker.Proxy.Stream.{PacketState, ToldPeer, process_indata}

-- `state & FLAG_MASK`.
pub data Stage : Type 0 where
  disconnected : Stage
  connecting : Stage
  wait_tracker_id : Stage
  connected : Stage

-- A `proxy_peer`; `outgoing` is the bit FLAG_OUTGOING of its state. Tracker ids are the four bytes.
pub record ProxyPeer : Type 0 where
  pub outgoing : Bool
  pub stage : Stage
  pub ip : List ℕ
  pub port : ℕ
  pub indata : List ℕ
  pub tracker_id : List ℕ
  pub fd : ℤ
  pub outdata : List ℕ
  pub packet : PacketState

abbrev pub max_peers : ℕ
max_peers = 20

abbrev pub is_connected : ProxyPeer → Bool
is_connected c = elim c.stage [ connected ↦ true | _ ↦ false ]

abbrev pub is_disconnected : ProxyPeer → Bool
is_disconnected c = elim c.stage [ disconnected ↦ true | _ ↦ false ]

abbrev pub is_connecting : ProxyPeer → Bool
is_connecting c = elim c.stage [ connecting ↦ true | _ ↦ false ]

unfoldable pub reset_info_block : ProxyPeer → ProxyPeer
reset_info_block c = record c {
  indata = [];
  tracker_id = 0 ∷ 0 ∷ 0 ∷ 0 ∷ [];
  fd = negsuc 0;
  packet = record c.packet { tcount = 0 };
  outdata = [];
  stage = disconnected;
}

-- `g_connections`, `g_connection_count`, `g_connection_reconn`, and what was done since: sockets
-- closed, bytes written, what is waited for, and the peers told to `livesync_proxytell`.
pub data Act : Type 0 where
  closes : ℤ → Act
  writes : ℤ → List ℕ → Act
  wants_read : ℤ → Act
  wants_write : ℤ → Act
  dont_want_write : ℤ → Act
  tells : ToldPeer → Act

pub record Proxy : Type 0 where
  pub connections : List ProxyPeer
  pub count : ℕ
  pub reconn : ℤ
  pub acts : List Act

abbrev pub at_once : List Act → Proxy → Proxy
at_once xs s = record s { acts = s.acts ++ xs }

abbrev pub put_connection : ℕ → ProxyPeer → Proxy → Proxy
put_connection i c s = record s { connections = set s.connections i c }

-- An attempt to connect: `none` where there is no socket, `some (fd, false)` where it cannot be bound
-- or the connection fails at once.
unfoldable pub reconnect : ℕ → ProxyPeer → Option (ℤ × Bool) → Proxy → Proxy
unfolding reset_info_block
reconnect i c none s = s
reconnect i c (some (newfd, false)) s = at_once (closes newfd ∷ []) s
reconnect i c (some (newfd, true)) s =
    at_once (wants_write newfd ∷ [])
      (put_connection i (record (reset_info_block c) { fd = newfd; stage = connecting }) s)

unfoldable pub reconnect_loop : (ℕ → Option (ℤ × Bool)) → ℕ → ℕ → Proxy → Option Proxy
unfolding reconnect
reconnect_loop attempts i zero s = some s
reconnect_loop attempts i (suc more) s = get_elem? s.connections i >>= λ c.
    reconnect_loop attempts (suc i) more
      (if c.outgoing && is_disconnected c then reconnect i c (attempts i) s else s)

unfoldable pub handle_reconnects : (ℕ → Option (ℤ × Bool)) → ℤ → Proxy → Option Proxy
unfolding reconnect_loop
handle_reconnects attempts now s =
    reconnect_loop attempts 0 s.count s >>= λ t. some (record t { reconn = now +ℤ pos 30 })

-- The first connection whose state is FLAG_DISCONNECTED, from the `i`-th on.
unfoldable pub new_home : ℕ → List ProxyPeer → Option (ℕ × ProxyPeer)
new_home i [] = none
new_home i (c ∷ cs) =
    let more = new_home (suc i) cs in
    if not c.outgoing && is_disconnected c then some (i, c) else more

-- A connection that comes in, and whether it could be registered.
pub record Accepted : Type 0 where
  pub newfd : ℤ
  pub port : ℕ
  pub registered : Bool

unfoldable pub accept_one : Accepted → Proxy → Proxy
unfolding new_home reset_info_block
accept_one a s =
    let refused = at_once (closes a.newfd ∷ []) s in
    let homed : Proxy = elim (new_home 0 s.connections) [
      | none ↦ refused
      | some (i, c) ↦ at_once (wants_read a.newfd ∷ []) (
          put_connection i
            (record (reset_info_block c) { stage = connecting; port = a.port; fd = a.newfd }) s)
    ] in
    if not a.registered then refused else homed

unfoldable pub handle_accept : List Accepted → Proxy → Proxy
unfolding accept_one
handle_accept [] s = s
handle_accept (a ∷ as_) s = handle_accept as_ (accept_one a s)

unfoldable pub already_connected : List ℕ → List ProxyPeer → Bool
already_connected tracker_id [] = false
already_connected tracker_id (c ∷ cs) =
    let rest = already_connected tracker_id cs in
    if is_connected c && same_ip c.tracker_id tracker_id then true else rest

-- What `io_tryread` gives: 0 or an error below -1, -1, or bytes.
pub data Input : Type 0 where
  closed : Input
  again : Input
  bytes : List ℕ → Input

abbrev pub input_bytes : Input → List ℕ
input_bytes (bytes b) = b
input_bytes _ = []

-- `sent` tells whether four bytes could be written.
abbrev pub greets : List ℕ → ProxyPeer → List ℕ → Bool → List ProxyPeer → Bool
greets me c tracker_id sent cs =
    (length tracker_id == 4)
    && (not (already_connected tracker_id cs)
        && (not (same_ip tracker_id me) && ((c.outgoing || not (is_connecting c)) || sent)))

unfoldable pub handle_greeting : List ℕ → ℕ → ProxyPeer → Input → Bool → Proxy → Proxy
unfolding already_connected reset_info_block
handle_greeting me i c input sent s =
    let tracker_id = input_bytes input in
    if greets me c tracker_id sent s.connections
    then at_once (if not c.outgoing && is_connecting c then writes c.fd me ∷ [] else [])
        (put_connection i (record c { tracker_id = tracker_id; stage = connected }) s)
    else at_once (closes c.fd ∷ []) (put_connection i (reset_info_block c) s)

unfoldable pub handle_data : ℕ → ProxyPeer → Input → Proxy → Option Proxy
unfolding reset_info_block
handle_data i c closed s =
    some (at_once (closes c.fd ∷ []) (put_connection i (reset_info_block c) s))
handle_data i c again s = some s
handle_data i c (bytes b) s = process_indata c.packet (c.indata ++ b) >>= λ p. some (
    at_once (map tells p.told)
      (put_connection i (record c { indata = p.indata; packet = p.packet }) s))

unfoldable pub handle_read : List ℕ → ℕ → Input → Bool → Proxy → Option Proxy
unfolding handle_greeting handle_data
handle_read me i input sent s = get_elem? s.connections i >>= λ c. elim c.stage [
  | disconnected ↦ some (at_once (closes c.fd ∷ []) s)
  | connecting ↦ some (handle_greeting me i c input sent s)
  | wait_tracker_id ↦ some (handle_greeting me i c input sent s)
  | connected ↦ handle_data i c input s
]

-- What `iob_send` gives: 0, -3, or the number of bytes that were sent of more.
pub data Sent : Type 0 where
  all_sent : Sent
  failed : Sent
  partly : ℕ → Sent

-- What the socket answers to a write: `established` is `socket_connected`, `whole` whether the
-- tracker id could be written.
pub record Output : Type 0 where
  pub established : Bool
  pub whole : Bool
  pub sent : Sent

unfoldable pub handle_hello : List ℕ → ℕ → ProxyPeer → Output → Proxy → Proxy
unfolding reset_info_block
handle_hello me i c o s =
    let drop_it = at_once (closes c.fd ∷ []) (put_connection i (reset_info_block c) s) in
    if c.outgoing && not o.established
    then drop_it
    else if o.whole
    then at_once (writes c.fd me ∷ dont_want_write c.fd ∷ wants_read c.fd ∷ [])
        (put_connection i (record c { stage = wait_tracker_id }) s)
    else drop_it

unfoldable pub handle_outdata : ℕ → ProxyPeer → Sent → Proxy → Proxy
unfolding reset_info_block
handle_outdata i c all_sent s =
    at_once (writes c.fd c.outdata ∷ dont_want_write c.fd ∷ [])
      (put_connection i (record c { outdata = [] }) s)
handle_outdata i c failed s = at_once (closes c.fd ∷ []) (put_connection i (reset_info_block c) s)
handle_outdata i c (partly n) s =
    at_once (writes c.fd (take n c.outdata) ∷ [])
      (put_connection i (record c { outdata = drop n c.outdata }) s)

unfoldable pub handle_write : List ℕ → ℕ → Output → Proxy → Option Proxy
unfolding handle_hello handle_outdata
handle_write me i o s = get_elem? s.connections i >>= λ c. elim c.stage [
  | disconnected ↦ some (at_once (closes c.fd ∷ []) s)
  | wait_tracker_id ↦ some (at_once (closes c.fd ∷ []) s)
  | connecting ↦ some (handle_hello me i c o s)
  | connected ↦ some (handle_outdata i c o.sent s)
]

-- The end of `streamsync_worker`: what was written of a bucket, for each proxy that is connected;
-- `room` tells for which there was memory.
abbrev pub queued : List ℕ → Bool → ProxyPeer → ProxyPeer
queued packet room c =
    if is_connected c && room then record c { outdata = c.outdata ++ packet } else c

unfoldable pub queue_packet : List ℕ → (ℕ → Bool) → ℕ → List ProxyPeer → List ProxyPeer
queue_packet packet room i [] = []
queue_packet packet room i (c ∷ cs) = queued packet (room i) c ∷ queue_packet packet room (suc i) cs
