-- ===== src/Proxy/Relay/Packets.antt =====
-- The packets that a proxy sends to the trackers of its network.
use tstracker.Base.{
  ℕ, zero, suc, ◌+◌, ◌*◌, ◌≡◌, ◌∙◌, refl, sym, ap, Option, none, some, List, [], ◌∷◌, ◌++◌, map,
  append-nil, append_assoc, take, ◌≤◌, inl, inr, Bool-cases, ◌&&◌, ltb, some_same, All, length,
  length-append, length-take, length-htonl, replicate, drop, get_or, arith, htonl, length-replicate,
}
use tstracker.Base.Int.{ℤ, ltb_ℤ, ◌+ℤ◌}
use tstracker.Livesync.{
  Outgoing, header, livesync_init, livesync_issue_peersync, maxdelay, buffsize_peers,
}
use tstracker.Livesync.Entries.{Announced, IsWhole, take-at}
use tstracker.Livesync.Sent.{
  Waits, packet, concat, length-packet, Sends, quiet, packed, emptied, tell-Sends,
}
use tstracker.Proxy.Stream.{ToldPeer}
use tstracker.Proxy.Relay.{
  Peerbuffer, ProxyEvent, proxy_event, init, issue_peersync, ticker, livesync_proxytell, relay,
}
use tstracker.Proxy.Relay.Buffer.{fresh, IsTold, Same, overwrite-after, length-overwrite}
use tstracker.Proxy.Relay.Tells.{Alike, livesync_proxytell-Alike, issue-Same}

-- The announcement that what is told amounts to.
abbrev pub announced : ToldPeer → Announced
announced t = record { hash = t.prefix ∷ t.hash; peer = fresh t }

abbrev pub told : List ProxyEvent → List ToldPeer
told [] = []
told (ProxyEvent.tells now t ∷ es) = t ∷ told es
told (ProxyEvent.ticks now ∷ es) = told es

abbrev pub AllTold : List ProxyEvent → Type 0
AllTold es = All IsTold (told es)

get_or-replicate : (n i : ℕ) → get_or {A = ℕ} (replicate n 0) i 0 ≡ 0
get_or-replicate zero i = refl
get_or-replicate (suc n) zero = refl
get_or-replicate (suc n) (suc i) = get_or-replicate n i

addr_long : (t : ToldPeer) → IsTold t → length (announced t).peer.addr ≡ 6
addr_long t v =
    length-take 6 (t.peer ++ 0 ∷ []) (omega (arith, length-append t.peer (0 ∷ []), v.peer_long))

pub announced-IsWhole : (t : ToldPeer) → IsTold t → IsWhole (announced t)
announced-IsWhole t v = record { hash_long = ap suc v.hash_long; addr_long = addr_long t v }

-- How a run ends that began with `xs` in the buffer. A packet may be the header alone.
pub record Relays (id : List ℕ) (xs : List Announced) (es : List ProxyEvent) (b : Peerbuffer)
    : Type 0 where
  pub batches : List (List Announced)
  pub kept : List Announced
  pub left : Peerbuffer
  pub result : relay es b ≡ some (map (packet id) batches, left)
  pub split : xs ++ map announced (told es) ≡ concat batches ++ kept
  pub waiting : take left.pos left.start ≡ packet id kept
  pub fit : All (λ ys. length (packet id ys) ≤ buffsize_peers) batches

abbrev pub Tells : List ℕ → ℤ → List ProxyEvent → Type 0
Tells id now es = Relays id [] es (init now id)

module _ (id : List ℕ) (four : length id ≡ 4) where
  length-header : length (header id) ≡ 8
  length-header = omega (arith, length-append id (htonl 0), length-htonl 0, four)

  init-Same : (now : ℤ) → Same (init now id) (livesync_init now id)
  unfolding init livesync_init
  init-Same now =
      let mem : List ℕ = replicate buffsize_peers 0 in
      let size : length mem ≡ buffsize_peers = length-replicate {A = ℕ} buffsize_peers 0 in
      record {
        bytes_same = take-at 8 (header id) (drop (0 + length (header id)) mem) length-header;
        time_same = refl;
        whole = length-overwrite 0 (header id) mem (omega (arith, length-header, size)) ∙ size;
        places = 0;
        at = refl;
        inside = omega arith;
        ages = λ k h.
            overwrite-after 0 (35 + 28 * k) (header id) mem (omega (arith, length-header))
              (omega (arith, size, h))
            ∙ get_or-replicate buffsize_peers (35 + 28 * k);
      }

  -- The buffer of the proxy holds what that of a tracker would hold with `xs` in it.
  record Holds (xs : List Announced) (b : Peerbuffer) : Type 0 where
    outgoing : Outgoing
    same : Same b outgoing
    waits : Waits id xs outgoing

  -- How one event ends: quietly, or with a packet and an empty buffer.
  data Steps (ys : List Announced) (r : Option (Option (List ℕ) × Peerbuffer)) : Type 0 where
    still : (c : Peerbuffer) → r ≡ some (none, c) → Holds ys c → Steps ys r
    sends :
        (c : Peerbuffer)
        → r ≡ some (some (packet id ys), c)
        → length (packet id ys) ≤ buffsize_peers
        → Holds [] c
        → Steps ys r

  Alike-Steps :
      (ys : List Announced) (x : Option (Option (List ℕ) × Peerbuffer))
      (y : Option (Option (List ℕ) × Outgoing))
      → Alike x y
      → Sends id four ys y
      → Steps ys x
  Alike-Steps ys none none a (quiet u e h) = cc
  Alike-Steps ys none none a (packed u e h k) = cc
  Alike-Steps ys none (some y) a s = absurd a
  Alike-Steps ys (some x) none a s = absurd a
  Alike-Steps ys (some (p, c)) (some (q, o)) (e, same) (quiet u f h) =
      let g = some_same refl f in
      still c (ap (λ r. some (r, c)) (e ∙ ap (λ r. r.0) g))
        (record { outgoing = o; same = same; waits = rw (ap (λ r. r.1) g) h })
  Alike-Steps ys (some (p, c)) (some (q, o)) (e, same) (packed u f batch h) =
      let g = some_same refl f in
      sends c (ap (λ r. some (r, c)) (e ∙ ap (λ r. r.0) g)) batch.fits
        (record { outgoing = o; same = same; waits = rw (ap (λ r. r.1) g) h })

  tell-Steps :
      (now : ℤ) (t : ToldPeer) (xs : List Announced) (b : Peerbuffer)
      → IsTold t
      → Holds xs b
      → Steps (xs ++ announced t ∷ []) (livesync_proxytell now t b)
  tell-Steps now t xs b w h =
      Alike-Steps (xs ++ announced t ∷ []) _ _
        (livesync_proxytell-Alike now t b h.outgoing w h.same)
        (tell-Sends id four now (announced t) xs h.outgoing (announced-IsWhole t w) h.waits)

  tick-Steps :
      (now : ℤ) (xs : List Announced) (b : Peerbuffer) → Holds xs b → Steps xs (some (ticker now b))
  unfolding ticker issue_peersync livesync_issue_peersync
  tick-Steps now xs b h = elim (Bool-cases (ltb_ℤ b.next_packet_time now && ltb 4 b.pos)) [
    | inr early ↦ rw early (still b refl h)
    | inl due ↦
        let (bytes, next) = issue-Same now b h.outgoing h.same in
        rw due (
          sends (issue_peersync now b).1
            (ap (λ p. some (some p, (issue_peersync now b).1)) (bytes ∙ h.waits.buffer))
            (omega (arith, length-packet id four xs h.waits.whole, h.waits.room))
            (record {
              outgoing = (livesync_issue_peersync now h.outgoing).1;
              same = next;
              waits = rw h.waits.buffer (emptied id four xs (now +ℤ maxdelay));
            }))
  ]

  event-Relays :
      (e : ProxyEvent) (es : List ProxyEvent) (b : Peerbuffer) (xs ys : List Announced)
      → Steps ys (proxy_event e b)
      → xs ++ map announced (told (e ∷ es)) ≡ ys ++ map announced (told es)
      → ((zs : List Announced) (c : Peerbuffer) → Holds zs c → Relays id zs es c)
      → Relays id xs (e ∷ es) b
  unfolding relay
  event-Relays e es b xs ys (still c f h) same go =
      let r = go ys c h in
      record {
        batches = r.batches;
        kept = r.kept;
        left = r.left;
        result = rw (f, r.result) refl;
        split = same ∙ r.split;
        waiting = r.waiting;
        fit = r.fit;
      }
  event-Relays e es b xs ys (sends c f fits h) same go =
      let r = go [] c h in
      record {
        batches = ys ∷ r.batches;
        kept = r.kept;
        left = r.left;
        result = rw (f, r.result) refl;
        split = same ∙ ap (◌++◌ ys) r.split ∙ sym (append_assoc ys (concat r.batches) r.kept);
        waiting = r.waiting;
        fit = (fits, r.fit);
      }

  relay-Relays :
      (es : List ProxyEvent) (xs : List Announced) (b : Peerbuffer)
      → AllTold es
      → Holds xs b
      → Relays id xs es b
  unfolding relay
  relay-Relays [] xs b w h = record {
    batches = [];
    kept = xs;
    left = b;
    result = refl;
    split = append-nil xs;
    waiting = h.same.bytes_same ∙ h.waits.buffer;
    fit = tt;
  }
  relay-Relays (ProxyEvent.tells now t ∷ es) xs b (v, w) h =
      event-Relays (ProxyEvent.tells now t) es b xs (xs ++ announced t ∷ [])
        (tell-Steps now t xs b v h)
        (sym (append_assoc xs (announced t ∷ []) (map announced (told es))))
        (λ zs c k. relay-Relays es zs c w k)
  relay-Relays (ProxyEvent.ticks now ∷ es) xs b w h =
      event-Relays (ProxyEvent.ticks now) es b xs xs (tick-Steps now xs b h) refl
        (λ zs c k. relay-Relays es zs c w k)

  -- Given a tracker id of 4 bytes, hash tails of 19 bytes and peers of 7: whatever a proxy is told
  -- and whenever its main loop ticks, from its start on, nothing is written behind the buffer. Each
  -- packet sent is the header and entries like those of a tracker, of age 0, and has at most 1480
  -- bytes. The entries sent, in the order of the packets, and then those that the buffer holds, are
  -- just what the proxy was told, in order: none is lost or doubled. A packet may have no entry.
  pub relay-Tells : (now : ℤ) (es : List ProxyEvent) → AllTold es → Tells id now es
  unfolding livesync_init
  relay-Tells now es w = relay-Relays es [] (init now id) w (record {
    outgoing = livesync_init now id;
    same = init-Same now;
    waits = record { buffer = sym (append-nil (header id)); room = omega arith; whole = tt };
  })
