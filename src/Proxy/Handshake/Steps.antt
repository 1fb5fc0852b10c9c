-- ===== src/Proxy/Handshake/Steps.antt =====
-- The states of a proxy: what `main` starts with, and the calls of the handlers.
use tstracker.Base.{
  ℕ, ◌-◌, Bool, true, false, Option, some, List, [], ◌∷◌, ◌++◌, length, map, replicate,
}
use tstracker.Base.{◌≡◌}
use tstracker.Base.Int.{ℤ, pos, ltb_ℤ}
use tstracker.Proxy.Handshake.{
  ProxyPeer, max_peers, Proxy, handle_reconnects, Accepted, handle_accept, Input, handle_read,
  Output, handle_write, queue_packet, disconnected,
}

-- What `main` makes of the `-c` options.
abbrev pub idle_peer : Bool → List ℕ → ℕ → ProxyPeer
idle_peer outgoing ip port = record {
  outgoing = outgoing;
  stage = disconnected;
  ip = ip;
  port = port;
  indata = [];
  tracker_id = 0 ∷ 0 ∷ 0 ∷ 0 ∷ [];
  fd = pos 0;
  outdata = [];
  packet = record { tcount = 0; tprefix = 0; type = 0 };
}

abbrev pub no_ip : List ℕ
no_ip = replicate 16 0

unfoldable pub proxy_start : List (List ℕ × ℕ) → Proxy
proxy_start peers = record {
  connections =
      map (λ (ip, port). idle_peer true ip port) peers
      ++ replicate (max_peers - length peers) (idle_peer false no_ip 0);
  count = length peers;
  reconn = pos 0;
  acts = [];
}

-- The main loop and `streamsync_worker`, one call of a handler at a time.
pub data ProxyStep (me : List ℕ) : Proxy → Proxy → Type 0 where
  reconnects :
      (now : ℤ) (attempts : ℕ → Option (ℤ × Bool)) (s t : Proxy)
      → ltb_ℤ s.reconn now ≡ true
      → handle_reconnects attempts now s ≡ some t
      → ProxyStep me s t
  accepts : (incoming : List Accepted) (s : Proxy) → ProxyStep me s (handle_accept incoming s)
  reads :
      (i : ℕ) (input : Input) (sent : Bool) (s t : Proxy)
      → handle_read me i input sent s ≡ some t
      → ProxyStep me s t
  sends : (i : ℕ) (o : Output) (s t : Proxy) → handle_write me i o s ≡ some t → ProxyStep me s t
  queues :
      (packet : List ℕ) (room : ℕ → Bool) (s : Proxy)
      → ProxyStep me s (record s { connections = queue_packet packet room 0 s.connections })

pub data ProxyReaches (me : List ℕ) (s : Proxy) : Proxy → Type 0 where
  here : ProxyReaches me s s
  then_to : (t u : Proxy) → ProxyReaches me s t → ProxyStep me t u → ProxyReaches me s u
