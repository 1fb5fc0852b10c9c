-- ===== src/Proxy/Relay/Tells.antt =====
-- A proxy tells what a tracker would have told, had the peers announced themselves there just now.
use tstracker.Base.{
  ℕ, zero, suc, ◌+◌, ◌-◌, ◌*◌, ◌≤◌, ◌<◌, ◌≡◌, ◌∙◌, refl, sym, ap, inl, inr, Bool-cases, Option,
  none, some, List, [], ◌∷◌, ◌++◌, append_assoc, length, length-append, length-take, take, drop,
  get_or, ltb, leb, arith,
}
use tstracker.Base.Int.{ℤ}
use tstracker.Peer.{bytes}
use tstracker.Livesync.{
  Outgoing, livesync_issue_peersync, livesync_tell, buffsize_peers, watermark_peers,
}
use tstracker.Livesync.Entries.{take-at}
use tstracker.Proxy.Stream.{ToldPeer}
use tstracker.Proxy.Relay.{Peerbuffer, overwrite, issue_peersync, livesync_proxytell}
use tstracker.Proxy.Relay.Buffer.{
  fresh, IsTold, bytes-fresh, Same, drop-get_or, overwrite-before, overwrite-after,
  length-overwrite,
}

abbrev parts : ToldPeer → List ℕ
parts t = t.prefix ∷ (t.hash ++ t.peer)

abbrev told_buffer : ToldPeer → Peerbuffer → Peerbuffer
told_buffer t b = record b { start = overwrite b.pos (parts t) b.start; pos = b.pos + 28 }

abbrev told_outgoing : ToldPeer → Peerbuffer → Outgoing → Outgoing
told_outgoing t b o = record o { outbuf = o.outbuf ++ ((t.prefix ∷ t.hash) ++ bytes (fresh t)) }

module _ (t : ToldPeer) (w : IsTold t) (b : Peerbuffer) (o : Outgoing) (same : Same b o) where
  length-parts : length (parts t) ≡ 27
  length-parts = omega (arith, length-append t.hash t.peer, w.hash_long, w.peer_long)

  module _ (fits : b.pos + 28 ≤ buffsize_peers) where
    -- The age that was there ends the announcement.
    bytes_told :
        take (b.pos + 28) (overwrite b.pos (parts t) b.start)
        ≡ o.outbuf ++ ((t.prefix ∷ t.hash) ++ bytes (fresh t))
    bytes_told =
        let n : ℕ = b.pos + length (parts t) in
        let here : n ≡ 35 + 28 * same.places = omega (arith, length-parts, same.at) in
        let age : get_or b.start n 0 ≡ 0 =
          ap (λ m. get_or b.start m 0) here
          ∙ same.ages same.places (omega (arith, fits, same.at)) in
        let left : drop n b.start ≡ 0 ∷ drop (suc n) b.start =
          drop-get_or n b.start (omega (arith, length-parts, fits, same.whole))
          ∙ ap (λ a. a ∷ drop (suc n) b.start) age in
        let tail : (parts t) ++ (0 ∷ drop (suc n) b.start)
            ≡ ((t.prefix ∷ t.hash) ++ bytes (fresh t)) ++ drop (suc n) b.start =
          rw
            (
              bytes-fresh t w,
              append_assoc t.hash t.peer (0 ∷ drop (suc n) b.start),
              append_assoc t.hash (t.peer ++ 0 ∷ []) (drop (suc n) b.start),
              append_assoc t.peer (0 ∷ []) (drop (suc n) b.start),
            )
            refl in
        let front : List ℕ = take b.pos b.start in
        let told : List ℕ = (t.prefix ∷ t.hash) ++ bytes (fresh t) in
        let size : length (front ++ told) ≡ b.pos + 28 = omega (
          arith,
          length-append front told,
          length-take b.pos b.start (omega (arith, same.inside, same.whole)),
          length-append t.hash (bytes (fresh t)),
          length-append t.peer (0 ∷ []),
          ap length (bytes-fresh t w),
          w.hash_long,
          w.peer_long,
        ) in
        ap (λ r. take (b.pos + 28) (front ++ ((parts t) ++ r))) left
        ∙ ap (λ r. take (b.pos + 28) (front ++ r)) tail
        ∙ ap (take (b.pos + 28)) (sym (append_assoc front told (drop (suc n) b.start)))
        ∙ take-at (b.pos + 28) (front ++ told) (drop (suc n) b.start) size
        ∙ ap (λ r. r ++ told) same.bytes_same

    ages_told :
        (k : ℕ)
        → 35 + 28 * k < buffsize_peers
        → get_or (overwrite b.pos (parts t) b.start) (35 + 28 * k) 0 ≡ 0
    ages_told k h = elim (Bool-cases (ltb k same.places)) [
      | inl low ↦
          let less : k < same.places = ground (arith, low) in
          overwrite-before b.pos (35 + 28 * k) (parts t) b.start (omega (arith, less, same.at))
            (omega (arith, same.inside, same.whole))
          ∙ same.ages k h
      | inr high ↦
          let more : same.places ≤ k = ground (arith, high) in
          overwrite-after b.pos (35 + 28 * k) (parts t) b.start
            (omega (arith, length-parts, more, same.at)) (omega (arith, h, same.whole))
          ∙ same.ages k h
    ]

    told-Same : Same (told_buffer t b) (told_outgoing t b o)
    told-Same = record {
      bytes_same = bytes_told;
      time_same = same.time_same;
      whole =
          length-overwrite b.pos (parts t) b.start (omega (arith, length-parts, fits, same.whole))
          ∙ same.whole;
      places = suc same.places;
      at = omega (arith, same.at);
      inside = fits;
      ages = ages_told;
    }

take-take : (m n : ℕ) (xs : List ℕ) → m ≤ n → take m (take n xs) ≡ take m xs
take-take zero n xs h = refl
take-take (suc m) zero xs h = absurd (omega (arith, h))
take-take (suc m) (suc n) [] h = refl
take-take (suc m) (suc n) (x ∷ xs) h = ap (◌∷◌ x) (take-take m n xs (omega (arith, h)))

pub issue-Same :
    (now : ℤ) (b : Peerbuffer) (o : Outgoing)
    → Same b o
    → ((issue_peersync now b).0 ≡ (livesync_issue_peersync now o).0)
      × Same (issue_peersync now b).1 (livesync_issue_peersync now o).1
unfolding issue_peersync livesync_issue_peersync
issue-Same now b o same = (
  same.bytes_same,
  record {
    bytes_same =
        sym (take-take 8 b.pos b.start (omega (arith, same.at))) ∙ ap (take 8) same.bytes_same;
    time_same = refl;
    whole = same.whole;
    places = 0;
    at = refl;
    inside = omega arith;
    ages = same.ages;
  },
)

-- Both end in the same way, with the same packet and the same buffer.
abbrev pub Alike :
    Option (Option (List ℕ) × Peerbuffer) → Option (Option (List ℕ) × Outgoing) → Type 0
Alike none none = Unit
Alike none (some y) = ⊥
Alike (some x) none = ⊥
Alike (some (p, b)) (some (q, o)) = (p ≡ q) × Same b o

outgoing_length :
    (t : ToldPeer) (b : Peerbuffer) (o : Outgoing)
    → IsTold t
    → Same b o
    → length (told_outgoing t b o).outbuf ≡ b.pos + 28
outgoing_length t b o w same = omega (
  arith,
  length-append o.outbuf ((t.prefix ∷ t.hash) ++ bytes (fresh t)),
  length-append t.hash (bytes (fresh t)),
  length-append t.peer (0 ∷ []),
  ap length (bytes-fresh t w),
  ap length same.bytes_same,
  length-take b.pos b.start (omega (arith, same.inside, same.whole)),
  w.hash_long,
  w.peer_long,
)

pub livesync_proxytell-Alike :
    (now : ℤ) (t : ToldPeer) (b : Peerbuffer) (o : Outgoing)
    → IsTold t
    → Same b o
    → Alike (livesync_proxytell now t b) (livesync_tell now (t.prefix ∷ t.hash) (fresh t) o)
unfolding livesync_proxytell livesync_tell
livesync_proxytell-Alike now t b o w same =
    let size : length (told_outgoing t b o).outbuf ≡ b.pos + 28 = outgoing_length t b o w same in
    elim (Bool-cases (ltb buffsize_peers (b.pos + 28))) [
      | inl full ↦ rw (livesync_proxytell, livesync_tell, size, full) tt
      | inr free ↦
          let next : Same (told_buffer t b) (told_outgoing t b o) =
            told-Same t w b o same (ground (arith, free)) in
          elim (Bool-cases (leb (buffsize_peers - watermark_peers) (b.pos + 28))) [
            | inl high ↦
                let (packet, after) = issue-Same now (told_buffer t b) (told_outgoing t b o) next in
                rw (livesync_proxytell, livesync_tell, size, free, high) (ap some packet, after)
            | inr low ↦ rw (livesync_proxytell, livesync_tell, size, free, low) (refl, next)
          ]
    ]
