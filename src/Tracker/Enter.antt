-- ===== src/Tracker/Enter.antt =====
-- An announcement from the bucket down: `add_peer_to_torrent_and_return_peers`.
use tstracker.Base.{
  ℕ, zero, suc, ◌+◌, ◌^◌, ◌≤◌, ◌<◌, ◌≡◌, ◌⊎◌, ◌∙◌, refl, sym, ap, inl, inr, Bool, true, false,
  Option, none, some, List, [], length, length-set, get_elem?-some, arith, memcmp_self, ◌==◌,
  if◌then◌else◌, ◌>>=◌, Bool-cases,
}
use tstracker.Base.Int.{pos}
use tstracker.Peer.{Peer}
use tstracker.Peerlist.{Peerlist, IsCounted, empty_peerlist}
use tstracker.Vector.{Vector, Found, null, found, size, vector_remove_torrent}
use tstracker.Vector.Space.{IsBounded, Refuses}
use tstracker.Vector.Insert.{Outcome, vector_find_or_insert-Outcome}
use tstracker.Peers.Spread.{find_peer}
use tstracker.Peers.Update.{RefusesPeer}
use tstracker.Clean.{clean_single_torrent}
use tstracker.Clean.Torrent.{clean_single_torrent-Outcome, untouched, forgotten, idle, aged_by}
use tstracker.Tracker.{
  Host, Torrent, Opened, Answer, Announced, refused, answer, sizeof_torrent, write_torrent, open_at,
  open_torrent, announce_in, announce_peer, add_peer_to_torrent,
}
use tstracker.Tracker.Announce.{StoresOr, stored_peer, announce_peer-Stores}
use tstracker.Tracker.Bucket.{TorrentsOk, Holds, find_torrent, find-All, write-Holds, retracted-ok}
use tstracker.Tracker.Saved.{saved-IsCounted}
use tstracker.Tracker.Seedbanks.{JoinedOr, add_seedbanks-Joined}

-- What the allocators of the host do, as libc documents it.
pub record HostOk (host : Host) : Type 0 where
  pub torrents_bounded : IsBounded host.torrents_ok
  pub seedbank_bounded : (k : ℕ) → IsBounded (host.seedbank_ok k)
  pub peers_bounded : IsBounded host.peers_ok
  pub memory_bounded : (i : ℕ) → IsBounded (host.memory.grow_ok i)

abbrev pub entry : List ℕ → Peerlist → Torrent
entry hash l = record { hash = hash; peer_list = l }

module _ (host : Host) (k : HostOk host) where
  -- What an announcement finds of a known torrent.
  abbrev CleanedList : Peerlist → Option (ℕ × Peerlist × Bool) → Type 0
  CleanedList l none = ⊥
  CleanedList l (some (code, m, u)) = IsCounted m × (m.peer_count ≤ l.peer_count)

  clean-CleanedList :
      (l : Peerlist)
      → IsCounted l
      → CleanedList l (clean_single_torrent host.memory host.now_minutes l)
  clean-CleanedList l c =
      elim (clean_single_torrent-Outcome host.memory k.memory_bounded l host.now_minutes c) [
        | untouched z e ↦ rw e (c, omega arith)
        | forgotten z e ↦ rw e (c, omega arith)
        | idle z y x w e ↦ rw e (c, omega arith)
        | aged_by d m u z y a e ↦ rw e (a.counted, a.fewer)
      ]

  module _ (hash : List ℕ) (v : Vector Torrent) (ok : TorrentsOk v) where
    -- The peers that the torrent had.
    abbrev pub known_peers : ℕ
    known_peers = elim (find_torrent hash v) [ none ↦ 0 | some t ↦ t.peer_list.peer_count ]

    -- A torrent that is new, and an allocation for it that was refused.
    abbrev pub NoRoom : Type 0
    NoRoom =
        (find_torrent hash v ≡ none)
        × ((host.peer_list_ok ≡ false) ⊎ Refuses host.torrents_ok sizeof_torrent v)

    record Opens (o : Opened) : Type 0 where
      counted : IsCounted o.list
      fewer : o.list.peer_count ≤ known_peers
      sized : size o.torrents ≡ size v + o.delta
      holds :
          (l : Peerlist)
          → IsCounted l
          → Holds v (entry hash l) (write_torrent o.torrents o.place (entry hash l))

    abbrev OpensOr : Option (Opened ⊎ Vector Torrent) → Type 0
    OpensOr none = ⊥
    OpensOr (some (inl o)) = Opens o
    OpensOr (some (inr w)) = TorrentsOk w × (w.items ≡ v.items) × NoRoom

    module _ (i : ℕ) (w : Vector Torrent) where
      new-OpensOr :
          ((l : Peerlist)
            → Outcome Torrent.hash
                (entry hash l)
                sizeof_torrent
                host.torrents_ok
                v
                (some (found i 0 w)))
          → (granted : Bool) → host.peer_list_ok ≡ granted
          → OpensOr (
              if granted
              then some (inl (record { place = i; torrents = w; list = empty_peerlist; delta = 1 }))
              else some (inr (vector_remove_torrent w i)))
      new-OpensOr o true is_ok =
          let (miss, b, e, n, f, g) = o empty_peerlist in
          record {
            counted = saved-IsCounted hash (pos 0) 0;
            fewer = omega arith;
            sized = n;
            holds =
                λ l c. let (_, _, e, _, f, _) = o l in write-Holds v ok (entry hash l) c w i f e;
          }
      new-OpensOr o false is_ok =
          let (miss, b, e, n, f, g) = o empty_peerlist in
          let (back, same) = retracted-ok v ok w i b f g in (back, same, (miss, inl is_ok))

      old-OpensOr :
          (t : Torrent)
          → find_torrent hash v ≡ some t
          → ((l : Peerlist)
              → IsCounted l
              → Holds v (entry hash l) (write_torrent w i (entry hash l)))
          → size w ≡ size v
          → (r : Option (ℕ × Peerlist × Bool)) → CleanedList t.peer_list r
          → OpensOr (
              r >>= λ (code, l, u).
              some (inl (record { place = i; torrents = w; list = l; delta = 0 })))
      old-OpensOr t there h n none c = c
      old-OpensOr t there h n (some (code, l, u)) (c, few) = record {
        counted = c;
        fewer = rw (there, known_peers) few;
        sized = omega (arith, n);
        holds = h;
      }

    open_at-OpensOr :
        (r : Option (Found ℕ (Vector Torrent)))
        → ((l : Peerlist) → Outcome Torrent.hash (entry hash l) sizeof_torrent host.torrents_ok v r)
        → OpensOr (r >>= open_at host hash v)
    open_at-OpensOr none o = o empty_peerlist
    open_at-OpensOr (some null) o =
        (ok, refl, ((o empty_peerlist).2, inr ((o empty_peerlist).1, (o empty_peerlist).0)))
    open_at-OpensOr (some (found i zero w)) o = new-OpensOr i w o host.peer_list_ok refl
    open_at-OpensOr (some (found i (suc e) w)) o =
        let (same, b, f, g, put_it) = o empty_peerlist in
        let more : (suc e == 0) ≡ false = ground arith in
        let (t, here) = get_elem?-some v.items i b in
        let c = find-All (λ t. IsCounted t.peer_list) hash v.items ok.counted (sym g ∙ here) in
        rw (more, same, here)
          (old-OpensOr i v t (sym g ∙ here)
            (λ l c. write-Holds v ok (entry hash l) c v i ok.fits ((o l).4)) refl _
            (clean-CleanedList t.peer_list c.0))

    -- How the call ends, where `valid` tells if the hash is in the torrent database.
    pub data Ends (p : Peer) (valid : Bool) : Answer → Type 0 where
      turned_away :
          (w : Vector Torrent)
          → TorrentsOk w
          → w.items ≡ v.items
          → (valid ≡ false) ⊎ NoRoom
          → Ends p valid (refused w)
      entered :
          (a : Answer) (l : Peerlist) (o : Option Peer)
          → valid ≡ true
          → Holds v (entry hash l) a.torrents
          → size a.torrents ≡ size v + a.delta
          → l.base ≡ host.now_minutes
          → ((a.reply_from ≡ some l) × (find_peer p.addr l.peers ≡ some (stored_peer o p)))
            ⊎ ((a.reply_from ≡ none)
                × (find_peer p.addr l.peers ≡ none)
                × RefusesPeer host.peers_ok p.addr l.peers)
          → Ends p valid a

    abbrev pub EndsOr : Peer → Bool → Option Answer → Type 0
    EndsOr p valid none = ⊥
    EndsOr p valid (some a) = Ends p valid a

    module _ (p : Peer) (byte : p.flag < 256)
        (room : known_peers + length (host.seedbanks hash) + 1 < 2 ^ 31) where
      stored-EndsOr :
          (o : Opened) (x : Opens o) (l : Peerlist)
          → l.base ≡ host.now_minutes
          → (r : Option Announced) → StoresOr host.peers_ok l p r
          → IsCounted l
          → EndsOr p true (r >>= λ a. some (answer hash o a))
      stored-EndsOr o x l e none s c = s
      stored-EndsOr o x l e (some a) (inl s) c =
          entered (answer hash o a) a.list (find_peer p.addr l.peers) refl
            (x.holds a.list s.counted)
            (omega (arith, length-set o.torrents.items o.place (entry hash a.list), x.sized))
            (s.base_kept ∙ e)
            (inl (
              ap (λ b. if b then some a.list else none) s.was_stored,
              ground (arith, s.lookup p.addr, memcmp_self p.addr),
            ))
      stored-EndsOr o x l e (some a) (inr (s, n, no_room)) c =
          let unstored : Announced = record { list = l; events = []; stored = false } in
          rw s (
            entered (answer hash o unstored) l none refl (x.holds l c)
              (omega (arith, length-set o.torrents.items o.place (entry hash l), x.sized)) e
              (inr (refl, n, no_room)))

      joined-EndsOr :
          (o : Opened) (x : Opens o) (l : Peerlist)
          → l.base ≡ host.now_minutes
          → l.peer_count ≤ known_peers
          → (r : Option Peerlist) → JoinedOr (length (host.seedbanks hash)) l r
          → EndsOr p true (
              r >>= λ m.
              announce_peer host.peers_ok host.junk_peer p m >>= λ a. some (answer hash o a))
      joined-EndsOr o x l e few none j = j
      joined-EndsOr o x l e few (some m) j =
          stored-EndsOr o x m (j.base_kept ∙ e) _
            (announce_peer-Stores m p j.counted (omega (arith, j.few_new, few, room)) byte
              host.peers_ok host.junk_peer k.peers_bounded)
            j.counted

      announce_in-EndsOr :
          (r : Option (Opened ⊎ Vector Torrent))
          → OpensOr r
          → EndsOr p true (r >>= announce_in host hash p)
      announce_in-EndsOr none x = x
      announce_in-EndsOr (some (inr w)) (back, same, miss) = turned_away w back same (inr miss)
      announce_in-EndsOr (some (inl o)) x =
          let c = x.counted in
          let l : Peerlist = record o.list { base = host.now_minutes } in
          joined-EndsOr o x l refl x.fewer _ (
            add_seedbanks-Joined host.seedbank_ok k.seedbank_bounded host.junk_peer 0
              (host.seedbanks hash) l
              (record {
                spread = c.spread;
                peers_right = c.peers_right;
                seeds_right = c.seeds_right;
                few = c.few;
              })
              (omega (arith, x.fewer, room)))

      -- Given a bucket of fewer than 2^32 torrents in order, a peer whose flags are a byte, and room
      -- for it and the seedbanks below 2^31 peers, the announcement does not fault. Either it is
      -- turned away, since the hash is not valid or the torrent is new and an allocation for it is refused,
      -- and the torrents are as they were; or the torrent is in the bucket, with counters that are
      -- right and its base set to now, every other torrent is as it was, and the reply is compiled
      -- from a list in which the peer is found as it was stored, or not compiled where an
      -- allocation for a peer that is new is refused. The bucket is in order, and the change of the torrent count
      -- that is reported is the change of the bucket's size.
      pub add_peer_to_torrent-Ends :
          size v < 2 ^ 32 → EndsOr p (host.hash_is_valid hash) (add_peer_to_torrent host hash p v)
      unfolding add_peer_to_torrent open_torrent
      add_peer_to_torrent-Ends short = elim (Bool-cases (host.hash_is_valid hash)) [
        | inl valid ↦ rw valid (
            announce_in-EndsOr _ (
              open_at-OpensOr _ (λ l.
                vector_find_or_insert-Outcome Torrent.hash (entry hash l) sizeof_torrent
                  host.torrents_ok v host.junk_torrent ok.sorted (omega arith) (omega arith)
                  k.torrents_bounded ok.fits short)))
        | inr invalid ↦ rw invalid (turned_away v ok refl (inl refl))
      ]
