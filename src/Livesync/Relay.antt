-- ===== src/Livesync/Relay.antt =====
-- What one tracker tells and another applies: nothing is lost, doubled or put in another order.
use tstracker.Base.{
  ℕ, zero, suc, ◌+◌, ◌*◌, ◌≤◌, ◌<◌, ◌≡◌, ◌≢◌, ◌∙◌, refl, sym, ap, inl, inr, true, false, Option,
  some, List, [], ◌∷◌, ◌++◌, map, append_assoc, append-nil, length, length-append, length-htonl,
  take, drop, All, arith, leb, ◌>>=◌, Bool-cases, memcmp→eq, htonl, ntohl, ntohl-htonl,
}
use tstracker.Base.Int.{ℤ}
use tstracker.Peer.{bytes}
use tstracker.Access.{Blessing, accesslist_isblessed, same_ip}
use tstracker.Livesync.{
  Tracker, header, may_livesync, peer_of_bytes, sync_peer, peersync_loop, livesync_init,
  livesync_handle_peersync, livesync_worker,
}
use tstracker.Livesync.Entries.{
  Announced, IsWhole, entries, take-at, drop-at, peer_of_bytes-bytes, length-bytes, length-entries,
  bind_same, bind_assoc, forget,
}
use tstracker.Livesync.Sent.{SyncEvent, AllWhole, IsBatch, packet, concat, Runs, run-Runs}

module _ {S : Type 0} (tracker : Tracker S) where
  -- The announcements, one after the other.
  abbrev pub apply_all : List Announced → S → Option S
  apply_all [] s = some s
  apply_all (a ∷ xs) s = sync_peer tracker a.hash a.peer s >>= λ t. apply_all xs t

  peersync_loop-entries :
      (fuel : ℕ) (xs : List Announced) (s : S)
      → All IsWhole xs
      → length (entries xs) ≤ fuel
      → peersync_loop tracker fuel (entries xs) s ≡ apply_all xs s
  unfolding peersync_loop
  peersync_loop-entries zero [] s w h = refl
  peersync_loop-entries zero (a ∷ xs) s w h = absurd (omega (arith, h, length-entries (a ∷ xs) w))
  peersync_loop-entries (suc fuel) [] s w h = refl
  peersync_loop-entries (suc fuel) (a ∷ xs) s (v, w) h =
      let rest : List ℕ = entries xs in
      let size : length (bytes a.peer) ≡ 8 = length-bytes a.peer v.addr_long in
      let whole : length (entries (a ∷ xs)) ≡ 28 * length (a ∷ xs) =
        length-entries (a ∷ xs) (v, w) in
      let long : leb 28 (length (entries (a ∷ xs))) ≡ true = ground (arith, whole) in
      let hash : take 20 (entries (a ∷ xs)) ≡ a.hash =
        take-at 20 a.hash (bytes a.peer ++ rest) v.hash_long in
      let peer : peer_of_bytes (take 8 (drop 20 (entries (a ∷ xs)))) ≡ a.peer =
        ap peer_of_bytes (
          ap (take 8) (drop-at 20 a.hash (bytes a.peer ++ rest) v.hash_long)
          ∙ take-at 8 (bytes a.peer) rest size)
        ∙ peer_of_bytes-bytes a.peer.addr a.peer.flag a.peer.time v.addr_long in
      let left : drop 28 (entries (a ∷ xs)) ≡ rest =
        ap (drop 28) (sym (append_assoc a.hash (bytes a.peer) rest))
        ∙ drop-at 28 (a.hash ++ bytes a.peer) rest
            (omega (arith, length-append a.hash (bytes a.peer), v.hash_long, size)) in
      rw (long, hash, peer)
        (bind_same (sync_peer tracker a.hash a.peer s) _ _ (λ t.
          rw left
            (peersync_loop-entries fuel xs t w (omega (arith, h, whole, length-entries xs w)))))

  apply_all-append :
      (xs ys : List Announced) (s : S)
      → apply_all (xs ++ ys) s ≡ (apply_all xs s >>= λ t. apply_all ys t)
  apply_all-append [] ys s = refl
  apply_all-append (a ∷ xs) ys s =
      bind_assoc (sync_peer tracker a.hash a.peer s) (λ t. apply_all xs t) (λ t. apply_all ys t)
        (λ t. apply_all (xs ++ ys) t) (λ t. apply_all-append xs ys t)

  -- Another tracker, which lets the sender sync.
  module _ (admins : List Blessing) (me id ip : List ℕ) (four : length id ≡ 4) (other : id ≢ me)
      (blessed : accesslist_isblessed ip may_livesync admins ≡ true) where
    not_same : same_ip id me ≡ false
    not_same = elim (Bool-cases (same_ip id me)) [
      | inl e ↦ absurd (other (memcmp→eq id me (ground (arith, e))))
      | inr e ↦ e
    ]

    livesync_worker-entries :
        (xs : List Announced) (s : S)
        → All IsWhole xs
        → 0 < length xs
        → livesync_worker tracker admins me ip (header id ++ entries xs) s ≡ apply_all xs s
    unfolding livesync_worker
    livesync_worker-entries xs s w some_there =
        let r : List ℕ = entries xs in
        let eight : length (header id) ≡ 8 =
          omega (arith, length-append id (htonl 0), length-htonl 0, four) in
        let long : leb (length (header id ++ r)) 8 ≡ false =
          let size : length (header id ++ r) ≡ 8 + 28 * length xs =
            omega (arith, length-append (header id) r, eight, length-entries xs w) in
          ground (arith, size, some_there) in
        let from : take 4 (header id ++ r) ≡ id =
          ap (take 4) (append_assoc id (htonl 0) r) ∙ take-at 4 id (htonl 0 ++ r) four in
        let kind : ntohl (take 4 (drop 4 (header id ++ r))) ≡ 0 =
          ap (λ x. ntohl (take 4 (drop 4 x))) (append_assoc id (htonl 0) r)
          ∙ ap (λ x. ntohl (take 4 x)) (drop-at 4 id (htonl 0 ++ r) four)
          ∙ ap ntohl (take-at 4 (htonl 0) r (length-htonl 0))
          ∙ ntohl-htonl 0 (omega arith) in
        let rest : drop 8 (header id ++ r) ≡ r = drop-at 8 (header id) r eight in
        rw (long, blessed, from, not_same, kind) (handled (header id ++ r) rest)
      where
        handled :
            (request : List ℕ)
            → drop 8 request ≡ entries xs
            → (livesync_handle_peersync tracker request s >>= λ (t, issued). some t)
              ≡ apply_all xs s
        handled request e =
            forget (peersync_loop tracker (length (drop 8 request)) (drop 8 request) s) _
            ∙ rw e (peersync_loop-entries (length (entries xs)) xs s w (omega arith))

    -- The packets, one after the other.
    unfoldable pub receive_all : List (List ℕ) → S → Option S
    receive_all [] s = some s
    receive_all (p ∷ ps) s = livesync_worker tracker admins me ip p s >>= λ t. receive_all ps t

    receive_all-concat :
        (bs : List (List Announced)) (s : S)
        → All (IsBatch id) bs
        → receive_all (map (packet id) bs) s ≡ apply_all (concat bs) s
    unfolding receive_all
    receive_all-concat [] s f = refl
    receive_all-concat (b ∷ bs) s (f, fs) = rw (livesync_worker-entries b s f.whole f.some_there) (
        bind_same (apply_all b s) _ _ (λ t. receive_all-concat bs t fs)
        ∙ sym (apply_all-append b (concat bs) s))

    -- What the announcements and ticks `es` of one tracker come to for another, `r` being how they
    -- end: no write behind the buffer, packets of at most 1480 bytes, and the announcements in them
    -- followed by those that wait are the ones told, in order. The tracker that gets the packets
    -- applies just those announcements, in order.
    pub record Relays (es : List SyncEvent) (now : ℤ) (s : S) : Type 0 where
      pub runs : Runs id [] es (livesync_init now id)
      pub applied : receive_all (map (packet id) runs.batches) s ≡ apply_all (concat runs.batches) s

    -- Given announcements of the sizes that the types have, told by a tracker from its start on to
    -- one with another id that lets it sync: none is lost, doubled or out of order. Whatever the times,
    -- the buffer is never overrun, each packet has at most 1480 bytes, those in the packets and then
    -- those that wait in the buffer are the ones told, and the other tracker applies those in the
    -- packets, one after the other.
    pub livesync_tell-Relays :
        (es : List SyncEvent) (now : ℤ) (s : S) → AllWhole es → Relays es now s
    unfolding livesync_init
    livesync_tell-Relays es now s w =
        let r =
          run-Runs id four es [] (livesync_init now id) w
            (record { buffer = sym (append-nil (header id)); room = omega arith; whole = tt }) in
        record { runs = r; applied = receive_all-concat r.batches s r.fit }
