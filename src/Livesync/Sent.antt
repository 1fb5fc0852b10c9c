-- ===== src/Livesync/Sent.antt =====
-- The sender: what goes out in packets, and what waits in the buffer.
use tstracker.Base.{
  ℕ, suc, ◌+◌, ◌*◌, ◌≤◌, ◌<◌, ◌≡◌, ◌∙◌, refl, sym, ap, inl, inr, Bool, true, false, ◌&&◌, Option,
  none, some, List, [], ◌∷◌, ◌++◌, map, append_assoc, append-nil, length, length-append,
  length-htonl, take, All, arith, ltb, leb, ◌>>=◌, Bool-cases, htonl,
}
use tstracker.Base.Int.{ℤ, ltb_ℤ, ◌+ℤ◌}
use tstracker.Peer.{bytes}
use tstracker.Livesync.{
  Outgoing, header, header_size, maxdelay, buffsize_peers, livesync_ticker, livesync_tell,
}
use tstracker.Livesync.Entries.{
  Announced, IsWhole, entries, take-at, length-entries, entries-append,
}

-- What happens to the buffer.
pub data SyncEvent : Type 0 where
  tells : ℤ → Announced → SyncEvent
  ticks : ℤ → SyncEvent

abbrev pub told : List SyncEvent → List Announced
told [] = []
told (tells now a ∷ es) = a ∷ told es
told (ticks now ∷ es) = told es

abbrev pub AllWhole : List SyncEvent → Type 0
AllWhole es = All IsWhole (told es)

abbrev happen : SyncEvent → Outgoing → Option (Option (List ℕ) × Outgoing)
happen (tells now a) o = livesync_tell now a.hash a.peer o
happen (ticks now) o = some (livesync_ticker now o)

abbrev pub and_then : Option (List ℕ) → List (List ℕ) → List (List ℕ)
and_then none ps = ps
and_then (some p) ps = p ∷ ps

-- The packets that are sent, and the buffer in the end.
unfoldable pub run : List SyncEvent → Outgoing → Option (List (List ℕ) × Outgoing)
run [] o = some ([], o)
run (e ∷ es) o = happen e o >>= λ (p, u). run es u >>= λ (ps, v). some (and_then p ps, v)

-- The announcements that wait in the buffer.
pub record Waits (id : List ℕ) (xs : List Announced) (o : Outgoing) : Type 0 where
  pub buffer : o.outbuf ≡ header id ++ entries xs
  pub room : 8 + 28 * length xs < 1452
  pub whole : All IsWhole xs

pub record IsBatch (id : List ℕ) (xs : List Announced) : Type 0 where
  pub some_there : 0 < length xs
  pub whole : All IsWhole xs
  pub fits : length (header id ++ entries xs) ≤ buffsize_peers

abbrev pub packet : List ℕ → List Announced → List ℕ
packet id xs = header id ++ entries xs

and_second : (a b : Bool) → (a && b) ≡ true → b ≡ true
and_second true b e = e
and_second false b e = cc

All-snoc :
    (xs : List Announced) (a : Announced) → All IsWhole xs → IsWhole a → All IsWhole (xs ++ a ∷ [])
All-snoc [] a w v = (v, tt)
All-snoc (x ∷ xs) a (u, w) v = (u, All-snoc xs a w v)

module _ (id : List ℕ) (four : length id ≡ 4) where
  length-header : length (header id) ≡ 8
  length-header = omega (arith, length-append id (htonl 0), length-htonl 0, four)

  pub length-packet :
      (xs : List Announced) → All IsWhole xs → length (packet id xs) ≡ 8 + 28 * length xs
  length-packet xs w =
      omega (arith, length-append (header id) (entries xs), length-header, length-entries xs w)

  -- How one event ends: quietly, or with a packet and an empty buffer.
  pub data Sends (ys : List Announced) (r : Option (Option (List ℕ) × Outgoing)) : Type 0 where
    quiet : (u : Outgoing) → r ≡ some (none, u) → Waits id ys u → Sends ys r
    packed :
        (u : Outgoing)
        → r ≡ some (some (packet id ys), u)
        → IsBatch id ys
        → Waits id [] u
        → Sends ys r

  pub emptied :
      (xs : List Announced) (now : ℤ)
      → Waits id [] (record { outbuf = take header_size (packet id xs); next_packet_time = now })
  emptied xs now = record {
    buffer = take-at 8 (header id) (entries xs) length-header ∙ sym (append-nil (header id));
    room = omega arith;
    whole = tt;
  }

  ticker-Sends :
      (now : ℤ) (xs : List Announced) (o : Outgoing)
      → Waits id xs o
      → Sends xs (some (livesync_ticker now o))
  unfolding livesync_ticker
  ticker-Sends now xs o h =
      let size : length o.outbuf ≡ 8 + 28 * length xs = rw h.buffer (length-packet xs h.whole) in
      elim (Bool-cases (ltb_ℤ o.next_packet_time now && ltb header_size (length o.outbuf))) [
        | inl due ↦
            let more : ltb 8 (length o.outbuf) ≡ true =
              and_second (ltb_ℤ o.next_packet_time now) (ltb header_size (length o.outbuf)) due in
            rw (due, h.buffer)
              (packed _ refl
                (record {
                  some_there = ground (arith, more, size);
                  whole = h.whole;
                  fits = omega (arith, length-packet xs h.whole, h.room);
                })
                (emptied xs (now +ℤ maxdelay)))
        | inr early ↦ rw early (quiet o refl h)
      ]

  pub tell-Sends :
      (now : ℤ) (a : Announced) (xs : List Announced) (o : Outgoing)
      → IsWhole a
      → Waits id xs o
      → Sends (xs ++ a ∷ []) (livesync_tell now a.hash a.peer o)
  unfolding livesync_tell
  tell-Sends now a xs o v h =
      let ys : List Announced = xs ++ a ∷ [] in
      let whole : All IsWhole ys = All-snoc xs a h.whole v in
      let count : length ys ≡ suc (length xs) = omega (arith, length-append xs (a ∷ [])) in
      let filled : o.outbuf ++ (a.hash ++ bytes a.peer) ≡ packet id ys =
        rw (h.buffer, entries-append xs (a ∷ []), append-nil (bytes a.peer))
          (append_assoc (header id) (entries xs) (a.hash ++ bytes a.peer)) in
      let size : length (packet id ys) ≡ 8 + 28 * length ys = length-packet ys whole in
      let inside : ltb buffsize_peers (length (packet id ys)) ≡ false =
        ground (arith, size, count, h.room) in
      rw (filled, inside)
        (elim (Bool-cases (leb 1452 (length (packet id ys)))) [
          | inl full ↦ rw full (
              packed _ refl
                (record {
                  some_there = omega (arith, count);
                  whole = whole;
                  fits = omega (arith, size, count, h.room);
                })
                (emptied ys (now +ℤ maxdelay)))
          | inr free ↦ rw free (
              quiet _ refl
                (record { buffer = refl; room = ground (arith, free, size); whole = whole }))
        ])

abbrev pub concat : List (List Announced) → List Announced
concat [] = []
concat (b ∷ bs) = b ++ concat bs

-- How a run ends that began with `xs` in the buffer.
pub record Runs (id : List ℕ) (xs : List Announced) (es : List SyncEvent) (o : Outgoing)
    : Type 0 where
  pub batches : List (List Announced)
  pub kept : List Announced
  pub left : Outgoing
  pub result : run es o ≡ some (map (packet id) batches, left)
  pub split : xs ++ told es ≡ concat batches ++ kept
  pub waiting : Waits id kept left
  pub fit : All (IsBatch id) batches

module _ (id : List ℕ) (four : length id ≡ 4) where
  quiet-Runs :
      (e : SyncEvent) (es : List SyncEvent) (o u : Outgoing) (xs ys : List Announced)
      → happen e o ≡ some (none, u)
      → xs ++ told (e ∷ es) ≡ ys ++ told es
      → Runs id ys es u
      → Runs id xs (e ∷ es) o
  unfolding run
  quiet-Runs e es o u xs ys h same r = record {
    batches = r.batches;
    kept = r.kept;
    left = r.left;
    result = rw (h, r.result) refl;
    split = same ∙ r.split;
    waiting = r.waiting;
    fit = r.fit;
  }

  packed-Runs :
      (e : SyncEvent) (es : List SyncEvent) (o u : Outgoing) (xs ys : List Announced)
      → happen e o ≡ some (some (packet id ys), u)
      → xs ++ told (e ∷ es) ≡ ys ++ told es
      → IsBatch id ys
      → Runs id [] es u
      → Runs id xs (e ∷ es) o
  unfolding run
  packed-Runs e es o u xs ys h same b r = record {
    batches = ys ∷ r.batches;
    kept = r.kept;
    left = r.left;
    result = rw (h, r.result) refl;
    split = same ∙ ap (◌++◌ ys) r.split ∙ sym (append_assoc ys (concat r.batches) r.kept);
    waiting = r.waiting;
    fit = (b, r.fit);
  }

  pub run-Runs :
      (es : List SyncEvent) (xs : List Announced) (o : Outgoing)
      → AllWhole es
      → Waits id xs o
      → Runs id xs es o
  unfolding run
  run-Runs [] xs o w h = record {
    batches = [];
    kept = xs;
    left = o;
    result = refl;
    split = append-nil xs;
    waiting = h;
    fit = tt;
  }
  run-Runs (ticks now ∷ es) xs o w h = elim (ticker-Sends id four now xs o h) [
    | quiet u e k ↦ quiet-Runs (ticks now) es o u xs xs e refl (run-Runs es xs u w k)
    | packed u e b k ↦ packed-Runs (ticks now) es o u xs xs e refl b (run-Runs es [] u w k)
  ]
  run-Runs (tells now a ∷ es) xs o (v, w) h =
      let same : xs ++ a ∷ told es ≡ (xs ++ a ∷ []) ++ told es =
        sym (append_assoc xs (a ∷ []) (told es)) in
      elim (tell-Sends id four now a xs o v h) [
        | quiet u e k ↦
            quiet-Runs (tells now a) es o u xs (xs ++ a ∷ []) e same
              (run-Runs es (xs ++ a ∷ []) u w k)
        | packed u e b k ↦
            packed-Runs (tells now a) es o u xs (xs ++ a ∷ []) e same b (run-Runs es [] u w k)
      ]
