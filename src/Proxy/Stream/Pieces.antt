-- ===== src/Proxy/Stream/Pieces.antt =====
-- The bytes of a proxy come in pieces, which end anywhere.
use tstracker.Base.{
  ℕ, zero, suc, ◌+◌, ◌-◌, ◌*◌, ◌^◌, ◌≤◌, ◌<◌, ◌≡◌, ◌∙◌, refl, sym, ap, inl, inr, false, Option,
  none, some, List, [], ◌++◌, length, length-append, length-drop, take, drop, arith, u64, ltb,
  Bool-cases, Option-cases, some_same, some-none,
}
use tstracker.Proxy.Stream.{
  PacketState, ToldPeer, Progress, stop, tell_first, peers_of, tell_peers, read_header,
  process_loop, process_indata, peer_size, tail_size, torrent_size,
}
use tstracker.Proxy.Stream.RoundTrip.{told_as, told_as-append, read_header_within}
use tstracker.Proxy.Stream.Fuel.{
  process_loop-fuel, leaves, read_header-LeavesAtMost, peers_of-LeavesAtMost,
}
use tstracker.Proxy.Stream.More.{
  drop-more, take-more, tell_peers-more, with_more, peers_of-more, read_header-more,
  read_header_enough,
}

process_loop-header :
    (g : ℕ) (k h : PacketState) (s d : List ℕ)
    → read_header k s ≡ some (h, d)
    → read_header h d ≡ some (h, d)
    → process_loop (suc g) k s ≡ process_loop (suc g) h d
unfolding process_loop
process_loop-header g k h s d e f = rw (process_loop, e, f) refl

told_as-nil : (o : Option Progress) → told_as [] o ≡ o
unfolding told_as
told_as-nil none = refl
told_as-nil (some p) = refl

-- Where the loop stops with a header read, it goes on as if it had not stopped.
stopped :
    (g : ℕ) (k h : PacketState) (s d t : List ℕ) (p : Progress)
    → read_header k (s ++ t) ≡ some (h, d ++ t)
    → length (d ++ t) ≤ length (s ++ t)
    → length (s ++ t) ≤ g
    → some (stop h d) ≡ some p
    → 0 < p.packet.tcount
    → process_loop (suc g) k (s ++ t) ≡ told_as p.told (process_indata p.packet (p.indata ++ t))
unfolding process_indata
stopped g k h s d t p e less enough same left =
    let it : stop h d ≡ p = some_same {o = some p} (sym same) refl in
    let left' : 0 < h.tcount = omega (arith, left, ap (λ q. q.packet.tcount) it) in
    process_loop-header g k h (s ++ t) (d ++ t) e (read_header_within h (d ++ t) left')
    ∙ process_loop-fuel (suc g) (suc (length (d ++ t))) h (d ++ t) (omega (arith, less, enough))
        (omega arith)
    ∙ sym (told_as-nil (process_indata h (d ++ t)))
    ∙ ap (λ q. told_as q.told (process_indata q.packet (q.indata ++ t))) it

told_as-some :
    (ts : List ToldPeer) (o : Option Progress) (p : Progress)
    → told_as ts o ≡ some p
    → (q : Progress) × (o ≡ some q) × (tell_first ts q ≡ p)
unfolding told_as
told_as-some ts none p e = absurd (cc)
told_as-some ts (some q) p e = (q, refl, some_same {o = some p} (sym e) refl)

after : PacketState → PacketState
after h = record h { tcount = u64 (h.tcount + 2 ^ 64 - 1) }

-- A round that finds a whole torrent.
whole_torrent :
    (f : ℕ) (k h : PacketState) (s d r : List ℕ) (n : ℕ)
    → read_header k s ≡ some (h, d)
    → ltb (length d) torrent_size ≡ false
    → peers_of h.type (drop tail_size d) ≡ some (n, r)
    → ltb (length r) (peer_size * n) ≡ false
    → process_loop (suc f) k s
      ≡ told_as
          (tell_peers h.tprefix n (take tail_size d) r)
          (process_loop f (after h) (drop (peer_size * n) r))
unfolding process_loop told_as after
whole_torrent f k h s d r n e long e' whole = rw (process_loop, e, long, e', whole) refl

-- The same round where more bytes follow.
whole_torrent-more :
    (g : ℕ) (k h : PacketState) (s d r t : List ℕ) (n : ℕ)
    → read_header k (s ++ t) ≡ some (h, d ++ t)
    → ltb (length d) torrent_size ≡ false
    → peers_of h.type (drop tail_size d) ≡ some (n, r)
    → ltb (length r) (peer_size * n) ≡ false
    → process_loop (suc g) k (s ++ t)
      ≡ told_as
          (tell_peers h.tprefix n (take tail_size d) r)
          (process_loop g (after h) (drop (peer_size * n) r ++ t))
whole_torrent-more g k h s d r t n header long there whole =
    let size : 27 ≤ length d = ground (arith, long) in
    let enough : peer_size * n ≤ length r = ground (arith, whole) in
    let counts : peers_of h.type (drop tail_size (d ++ t)) ≡ some (n, r ++ t) =
      ap (peers_of h.type) (drop-more tail_size d t (omega (arith, size)))
      ∙ peers_of-more h.type (drop tail_size d) t (omega (arith, size, length-drop tail_size d))
      ∙ ap (with_more t) there in
    whole_torrent g k h (s ++ t) (d ++ t) (r ++ t) n header
      (ground (arith, size, length-append d t)) counts (ground (arith, enough, length-append r t))
    ∙ rw
        (
          take-more tail_size d t (omega (arith, size)),
          tell_peers-more h.tprefix n (take tail_size d) r t enough,
          drop-more (peer_size * n) r t enough,
        )
        refl

-- A round takes bytes away.
shrinks :
    (g : ℕ) (h : PacketState) (s d r t : List ℕ) (n : ℕ)
    → length (s ++ t) < suc g
    → length d ≤ length s
    → ltb (length d) torrent_size ≡ false
    → peers_of h.type (drop tail_size d) ≡ some (n, r)
    → length (drop (peer_size * n) r ++ t) < g
shrinks g h s d r t n enough less long there =
    let tail : List ℕ = drop tail_size d in
    let size : length r ≤ length tail =
      leaves (length tail) (peers_of h.type tail) n r (peers_of-LeavesAtMost h.type tail) there in
    ground (
      arith,
      enough,
      length-append (drop (peer_size * n) r) t,
      length-append s t,
      length-drop (peer_size * n) r,
      length-drop tail_size d,
      size,
      less,
      long,
    )

no_rounds : (k : PacketState) (s : List ℕ) → process_loop 0 k s ≡ none
unfolding process_loop
no_rounds k s = refl

process_loop-more :
    (f g : ℕ) (k : PacketState) (s t : List ℕ) (p : Progress)
    → process_loop f k s ≡ some p
    → 0 < p.packet.tcount
    → length (s ++ t) < g
    → process_loop g k (s ++ t) ≡ told_as p.told (process_indata p.packet (p.indata ++ t))
unfolding process_loop
process_loop-more zero g k s t p e left enough = absurd (some-none (sym (no_rounds k s) ∙ e))
process_loop-more (suc f) zero k s t p e left enough = absurd (omega (arith, enough))
process_loop-more (suc f) (suc g) k s t p e left enough = elim (Option-cases (read_header k s)) [
  | inl no_header ↦
      let it : stop k s ≡ p =
        some_same {o = some p} (sym (rw (process_loop, no_header) at e)) refl in
      absurd (
        some-none (
          sym no_header
          ∙ read_header_within k s (omega (arith, left, ap (λ q. q.packet.tcount) it))))
  | inr ((h, d), header) ↦
      let less : length d ≤ length s =
        leaves (length s) (read_header k s) h d (read_header-LeavesAtMost k s) header in
      let header' : read_header k (s ++ t) ≡ some (h, d ++ t) =
        read_header-more k s t (read_header_enough k s (λ z. some-none (sym z ∙ header)))
        ∙ ap (with_more t) header in
      let shorter : length (d ++ t) ≤ length (s ++ t) =
        omega (arith, length-append d t, length-append s t, less) in
      let stops : some (stop h d) ≡ some p
          → process_loop (suc g) k (s ++ t)
            ≡ told_as p.told (process_indata p.packet (p.indata ++ t)) =
        λ same. stopped g k h s d t p header' shorter (omega (arith, enough)) same left in
      elim (Bool-cases (ltb (length d) torrent_size)) [
        | inl short ↦ stops (rw (process_loop, header, short) at e)
        | inr long ↦ elim (Option-cases (peers_of h.type (drop tail_size d))) [
          | inl lost ↦ absurd (some-none (rw (process_loop, header, long, lost) at e))
          | inr ((n, r), there) ↦ elim (Bool-cases (ltb (length r) (peer_size * n))) [
            | inl short ↦ stops (rw (process_loop, header, long, there, short) at e)
            | inr whole ↦
                let rest : List ℕ = drop (peer_size * n) r in
                let ts : List ToldPeer = tell_peers h.tprefix n (take tail_size d) r in
                let (q, done, it) =
                  told_as-some ts (process_loop f (after h) rest) p
                    (sym (whole_torrent f k h s d r n header long there whole) ∙ e) in
                let left' : 0 < q.packet.tcount =
                  omega (arith, left, ap (λ x. x.packet.tcount) it) in
                whole_torrent-more g k h s d r t n header' long there whole
                ∙ rw
                    (process_loop-more f g (after h) rest t q done left'
                      (shrinks g h s d r t n enough less long there))
                    (told_as-append ts q.told (process_indata q.packet (q.indata ++ t)))
                ∙ ap (λ x. told_as x.told (process_indata x.packet (x.indata ++ t))) it
          ]
        ]
      ]
]

-- When a call of `process_indata` leaves a packet that has torrents left, then what has come later,
-- behind the bytes it left, makes the next call do what one call on all of the bytes would have done,
-- and leave the same.
pub process_indata-pieces :
    (k : PacketState) (s t : List ℕ) (p : Progress)
    → process_indata k s ≡ some p
    → 0 < p.packet.tcount
    → process_indata k (s ++ t) ≡ told_as p.told (process_indata p.packet (p.indata ++ t))
unfolding process_indata
process_indata-pieces k s t p e left =
    process_loop-more (suc (length s)) (suc (length (s ++ t))) k s t p e left (omega arith)
