-- ===== src/Tracker/Announce.antt =====
-- `announce_peer` and `remove_peer_from_torrent` on the peer list of one torrent.
use tstracker.Base.{
  holds_below, holds_below-true, ℕ, zero, suc, ◌+◌, ◌^◌, ◌<◌, ◌≡◌, ◌⊎◌, ◌∙◌, refl, sym, ap, inl,
  inr, Bool, true, false, not, ◌&&◌, Option, none, some, List, [], Ordering, arith, memcmp, bit_and,
  bit_or, bit_xor, ltb, ◌==◌, ◌>>=◌, Option-cases,
}
use tstracker.Peer.{Peer, has_flag, flag_seeding, flag_completed}
use tstracker.Peerlist.{Peerlist, IsCounted, seeds}
use tstracker.Vector.{Found, null, found}
use tstracker.Vector.Space.{IsBounded}
use tstracker.Vector.Weight.{weight?}
use tstracker.Peers.{Peers, write_peer}
use tstracker.Peers.Spread.{find_peer, total, one}
use tstracker.Peers.Update.{RefusesPeer, Written, WrittenOr, vector_find_or_insert_peer-Written}
use tstracker.Clean.Sweep.{total-seeds-le}
use tstracker.Tracker.{
  sanitize, count_new, count_renewed, carry_completed, announce_peer, announce_at, Announced,
  announced_new, announced_renewed, bump,
}

-- The peer that ends up in the list.
abbrev pub stored_peer : Option Peer → Peer → Peer
stored_peer none p = sanitize p
stored_peer (some old) p = carry_completed old (sanitize p)

sanitize-addr : (p : Peer) → (sanitize p).addr ≡ p.addr
unfolding sanitize
sanitize-addr p = refl

pub stored_peer-addr : (o : Option Peer) (p : Peer) → (stored_peer o p).addr ≡ p.addr
unfolding sanitize carry_completed
stored_peer-addr none p = refl
stored_peer-addr (some old) p = ground arith

abbrev keeps_seeding : ℕ → Bool
keeps_seeding f =
    (bit_and (bit_or f flag_completed) flag_seeding == bit_and f flag_seeding)
    && (bit_and (bit_xor f flag_completed) flag_seeding == bit_and f flag_seeding)
    && ltb (bit_xor f flag_completed) 256

every_byte : holds_below keeps_seeding 256 ≡ true
unfolding holds_below
every_byte = refl

module _ (p : Peer) (byte : p.flag < 256) where
  sanitize-byte : (sanitize p).flag < 256
  unfolding sanitize
  sanitize-byte = ground (arith, holds_below-true keeps_seeding p.flag 256 byte every_byte)

  carry-seeds : (old : Peer) → seeds (carry_completed old p) ≡ seeds p
  unfolding carry_completed
  carry-seeds old = ground (arith, holds_below-true keeps_seeding p.flag 256 byte every_byte)

-- If the peer is the first of its address to have completed.
abbrev pub newly_completed : Option Peer → Peer → Bool
newly_completed none p = has_flag (sanitize p).flag flag_completed
newly_completed (some old) p =
    not (has_flag old.flag flag_completed) && has_flag (sanitize p).flag flag_completed

pub record Stores (l : Peerlist) (p : Peer) (a : Announced) : Type 0 where
  pub counted : IsCounted a.list
  pub lookup :
      (j : List ℕ)
      → find_peer j a.list.peers ≡ elim (memcmp p.addr j) [
        | Ordering.eq ↦ some (stored_peer (find_peer p.addr l.peers) p)
        | _ ↦ find_peer j l.peers
      ]
  pub downs : a.list.down_count ≡ bump (newly_completed (find_peer p.addr l.peers) p) l.down_count
  pub base_kept : a.list.base ≡ l.base
  pub was_stored : a.stored ≡ true

abbrev pub StoresOr : (ℕ → Bool) → Peerlist → Peer → Option Announced → Type 0
StoresOr realloc_ok l p none = ⊥
StoresOr realloc_ok l p (some a) =
    Stores l p a
    ⊎ ((a ≡ record { list = l; events = []; stored = false })
        × (find_peer p.addr l.peers ≡ none)
        × RefusesPeer realloc_ok p.addr l.peers)

module _ (l : Peerlist) (p : Peer) (c : IsCounted l) (room : l.peer_count + 1 < 2 ^ 31)
    (byte : p.flag < 256) where
  abbrev old : Option Peer
  old = find_peer p.addr l.peers

  total-seeds-room : l.seed_count + 1 < 2 ^ 31
  total-seeds-room = omega (arith, total-seeds-le l.peers, c.peers_right, c.seeds_right)

  module _ (x : Peer) (same : x.addr ≡ p.addr) (qs : Peers) (at : ℕ × ℕ) (e : ℕ)
      (w : Written x l.peers at e qs) where
    abbrev choose : List ℕ → List ℕ → Peer → Option Peer
    choose k j y = elim (memcmp k j) [ Ordering.eq ↦ some y | _ ↦ find_peer j l.peers ]

    lookup-written :
        x ≡ stored_peer old p
        → (j : List ℕ)
        → find_peer j (write_peer qs at x) ≡ elim (memcmp p.addr j) [
          | Ordering.eq ↦ some (stored_peer old p)
          | _ ↦ find_peer j l.peers
        ]
    lookup-written is_stored j =
        w.lookup j ∙ ap (λ k. choose k j x) same ∙ ap (choose p.addr j) is_stored

    count-written :
        (g : Peer → ℕ) → total g (write_peer qs at x) + weight? g old ≡ total g l.peers + g x
    count-written g = rw (← same) (w.counted g)

  module _ (qs : Peers) (at : ℕ × ℕ) (e : ℕ) where
    Stores-new :
        old ≡ none
        → Written (sanitize p) l.peers at e qs
        → Stores l p (announced_new l (sanitize p) qs at)
    unfolding count_new
    Stores-new fresh w = record {
      counted = record {
        spread = w.spread;
        peers_right = ground (
          arith,
          count-written (sanitize p) (sanitize-addr p) qs at e w one,
          c.peers_right,
          fresh,
        );
        seeds_right = ground (
          arith,
          count-written (sanitize p) (sanitize-addr p) qs at e w seeds,
          c.seeds_right,
          fresh,
          total-seeds-room,
        );
        few = omega (arith, room);
      };
      lookup =
          lookup-written (sanitize p) (sanitize-addr p) qs at e w
            (ap (λ o. stored_peer o p) (sym fresh));
      downs = ap (λ o. bump (newly_completed o p) l.down_count) (sym fresh);
      base_kept = refl;
      was_stored = refl;
    }

    Stores-renewed :
        (o : Peer)
        → old ≡ some o
        → Written (carry_completed o (sanitize p)) l.peers at e qs
        → Stores l p (announced_renewed l o (sanitize p) qs at)
    unfolding count_renewed
    Stores-renewed o there w =
        let same = stored_peer-addr (some o) p in
        let x = carry_completed o (sanitize p) in
        record {
          counted = record {
            spread = w.spread;
            peers_right = ground (arith, count-written x same qs at e w one, c.peers_right, there);
            seeds_right = ground (
              arith,
              count-written x same qs at e w seeds,
              c.seeds_right,
              there,
              total-seeds-room,
              carry-seeds (sanitize p) (sanitize-byte p byte) o,
            );
            few = c.few;
          };
          lookup = lookup-written x same qs at e w (ap (λ o. stored_peer o p) (sym there));
          downs = ap (λ o. bump (newly_completed o p) l.down_count) (sym there);
          base_kept = refl;
          was_stored = refl;
        }

  announce_at-StoresOr :
      (realloc_ok : ℕ → Bool) (r : Option (Found (ℕ × ℕ) Peers))
      → WrittenOr (stored_peer old p) realloc_ok l.peers r
      → StoresOr realloc_ok l p (r >>= announce_at l p)
  announce_at-StoresOr ok none w = w
  announce_at-StoresOr ok (some null) w = inr (
    refl,
    ap (λ k. find_peer k l.peers) (sym (stored_peer-addr old p)) ∙ w.0,
    rw (stored_peer-addr old p) at w.1,
  )
  announce_at-StoresOr ok (some (found at zero qs)) w =
      let fresh : old ≡ none =
        ap (λ k. find_peer k l.peers) (sym (stored_peer-addr old p)) ∙ sym w.matched in
      inl (Stores-new qs at 0 fresh (rw fresh at w))
  announce_at-StoresOr ok (some (found at (suc e) qs)) w =
      let there = w.matched ∙ ap (λ k. find_peer k l.peers) (stored_peer-addr old p) in
      elim (Option-cases old) [
        | inl lost ↦ absurd (
            w.present (ground arith)
              (ap (λ k. find_peer k l.peers) (stored_peer-addr old p) ∙ lost))
        | inr (o, held) ↦
            let more : (suc e == 0) ≡ false = ground arith in
            rw (more, there, held) (inl (Stores-renewed qs at (suc e) o held (rw held at w)))
      ]

  -- Given a torrent whose counters are right and below 2^31 - 1, and a peer whose flags are a byte,
  -- the call does not fault. It stores the peer, sanitized and completed if the old entry was: then
  -- the counters of peers and seeds are right again, the peer is what is found under its address
  -- and every other lookup is as it was, and the downloads have grown by one just if the peer is
  -- the first of its address to have completed. Or it is refused memory for a peer it does not know,
  -- and then the list is as it was.
  pub announce_peer-Stores :
      (realloc_ok : ℕ → Bool) (junk : Peer)
      → IsBounded realloc_ok
      → StoresOr realloc_ok l p (announce_peer realloc_ok junk p l)
  unfolding announce_peer
  announce_peer-Stores realloc_ok junk bounded = announce_at-StoresOr realloc_ok _ (
      rw (stored_peer-addr old p) at (
        vector_find_or_insert_peer-Written (stored_peer old p) junk realloc_ok bounded l.peers
          c.spread (omega (arith, c.peers_right, room))))
