-- ===== src/Tracker/Saved.antt =====
-- Loading a saved torrent into its bucket, and removing a peer from one of its torrents.
use tstracker.Base.{
  ℕ, zero, suc, ◌+◌, ◌^◌, ◌<◌, ◌≡◌, ◌≢◌, ◌⊎◌, ◌∙◌, refl, sym, ap, inl, inr, Bool, true, false,
  Option, none, some, List, length, length-set, get_elem?-some, arith, ◌==◌, ◌>>=◌, Bool-cases,
}
use tstracker.Base.Int.{ℤ}
use tstracker.Peer.{Peer}
use tstracker.Peerlist.{Peerlist, IsCounted, empty_peerlist}
use tstracker.Vector.{Vector, Found, null, found, size, vector_remove_torrent}
use tstracker.Vector.Search.{locate, binary_search-locate}
use tstracker.Vector.Ordered.{locate_hit-find, locate_miss-find}
use tstracker.Vector.Space.{IsBounded, Refuses}
use tstracker.Vector.Insert.{Outcome, vector_find_or_insert-Outcome}
use tstracker.Peers.Spread.{total}
use tstracker.Peers.{Peers}
use tstracker.Peers.Removal.{RemovedOr, vector_remove_peer-Removed}
use tstracker.Tracker.{
  Host, Torrent, sizeof_torrent, cmp_hash, write_torrent, saved_at, add_torrent_from_saved_state,
  count_removed, remove_peer_from_torrent,
}
use tstracker.Tracker.Bucket.{
  TorrentsOk, Holds, find_torrent, find-All, hit-Holds, write-Holds, retracted-ok,
}
use tstracker.Tracker.Removal.{Leaves, count_removed-Leaves}

-- The torrent that a saved state describes.
abbrev pub saved : List ℕ → ℤ → ℕ → Torrent
saved hash base down_count = record {
  hash = hash;
  peer_list = record empty_peerlist { base = base; down_count = down_count };
}

pub saved-IsCounted : (hash : List ℕ) (base : ℤ) (n : ℕ) → IsCounted (saved hash base n).peer_list
unfolding total
saved-IsCounted hash base n = record {
  spread = record { sorted = tt; fits = record { within = omega arith; small = omega arith } };
  peers_right = refl;
  seeds_right = refl;
  few = omega arith;
}

module _ (host : Host) (hash : List ℕ) (base : ℤ) (down_count : ℕ) (v : Vector Torrent) where
  -- Why a torrent is not added, where `valid` tells if the hash is in the torrent database.
  pub data Declines (valid : Bool) : Type 0 where
    invalid : valid ≡ false → Declines valid
    known : find_torrent hash v ≢ none → Declines valid
    no_memory :
        find_torrent hash v ≡ none
        → (host.peer_list_ok ≡ false) ⊎ Refuses host.torrents_ok sizeof_torrent v
        → Declines valid

  -- A torrent that is new is there, or else nothing of the bucket has changed.
  pub data Loaded (valid : Bool) : Vector Torrent → ℕ → Type 0 where
    added :
        (w : Vector Torrent)
        → valid ≡ true
        → find_torrent hash v ≡ none
        → host.peer_list_ok ≡ true
        → Holds v (saved hash base down_count) w
        → Loaded valid w 1
    unchanged :
        (w : Vector Torrent) → Declines valid → TorrentsOk w → w.items ≡ v.items → Loaded valid w 0

  abbrev pub LoadedOr : Bool → Option (Vector Torrent × ℕ) → Type 0
  LoadedOr valid none = ⊥
  LoadedOr valid (some (w, d)) = Loaded valid w d × (size w ≡ size v + d)

module _ (host : Host) (bounded : IsBounded host.torrents_ok) (hash : List ℕ) (base : ℤ)
    (down_count : ℕ) (v : Vector Torrent) (ok : TorrentsOk v) where
  saved_at-LoadedOr :
      (r : Option (Found ℕ (Vector Torrent)))
      → Outcome Torrent.hash (saved hash base down_count) sizeof_torrent host.torrents_ok v r
      → LoadedOr host hash base down_count v true
          (r >>= λ f. some (saved_at host hash base down_count v f))
  saved_at-LoadedOr none o = o
  saved_at-LoadedOr (some null) o =
      (unchanged v (no_memory o.2 (inr (o.1, o.0))) ok refl, omega arith)
  saved_at-LoadedOr (some (found i zero w)) (miss, b, e, n, f, g) =
      elim (Bool-cases host.peer_list_ok) [
        | inl granted ↦ rw granted (
          added (write_torrent w i (saved hash base down_count)) refl miss refl (
              write-Holds v ok (saved hash base down_count) (saved-IsCounted hash base down_count) w
                i f e),
          omega (arith, length-set w.items i (saved hash base down_count), n),
        )
        | inr refused ↦
            let (back, same) = retracted-ok v ok w i b f g in
            rw refused (
              unchanged (vector_remove_torrent w i) (no_memory miss (inl refl)) back same,
              omega (arith, ap length same),
            )
      ]
  saved_at-LoadedOr (some (found i (suc k) w)) (same, b, f, g, e) =
      let more : (suc k == 0) ≡ false = ground arith in
      let (t, here) = get_elem?-some v.items i b in
      rw (more, same)
        (unchanged v (known (λ none_there. cc (here, g, none_there))) ok refl, omega arith)

  -- Given a bucket of fewer than 2^32 torrents in order, the call does not fault. Either it adds
  -- the torrent, which was not there and whose hash is valid, with its base, its number of
  -- downloads and no peers, leaving all others as they were, and the count goes up by one; or the
  -- torrents and their count are as they were, since the hash is not valid, or the torrent is there
  -- already, or it is new and an allocation for it was refused. In both cases the bucket is in order again and the
  -- change of the count that is reported is the change of the size.
  pub add_torrent_from_saved_state-Loaded :
      size v < 2 ^ 32
      → LoadedOr host hash base down_count v
          (host.hash_is_valid hash)
          (add_torrent_from_saved_state host hash base down_count v)
  unfolding add_torrent_from_saved_state
  add_torrent_from_saved_state-Loaded short = elim (Bool-cases (host.hash_is_valid hash)) [
    | inl valid ↦ rw valid (
        saved_at-LoadedOr _ (
          vector_find_or_insert-Outcome Torrent.hash (saved hash base down_count) sizeof_torrent
            host.torrents_ok v host.junk_torrent ok.sorted (omega arith) (omega arith) bounded
            ok.fits short))
    | inr wrong ↦ rw wrong (unchanged v (invalid refl) ok refl, omega arith)
  ]

module _ (hash : List ℕ) (p : Peer) (v : Vector Torrent) (ok : TorrentsOk v) where
  -- The torrent has lost the peer, or there is no such torrent.
  pub data PeerGone : Vector Torrent → Peerlist → Type 0 where
    removed :
        (t : Torrent) (w : Vector Torrent) (m : Peerlist)
        → find_torrent hash v ≡ some t
        → Leaves t.peer_list p.addr m
        → Holds v (record t { peer_list = m }) w
        → PeerGone w m
    unknown : find_torrent hash v ≡ none → PeerGone v empty_peerlist

  abbrev pub PeerGoneOr : Option (Vector Torrent × Peerlist) → Type 0
  PeerGoneOr none = ⊥
  PeerGoneOr (some (w, m)) = PeerGone w m × (size w ≡ size v)

  abbrev place : ℕ × Bool
  place = locate (cmp_hash hash) v.items

  remove_hit :
      (t : Torrent)
      → place.1 ≡ true
      → find_torrent hash v ≡ some t
      → (r : Option (ℕ × Peers)) → RemovedOr p.addr t.peer_list.peers r
      → PeerGoneOr (
          r >>= λ (code, ps).
          let l = count_removed code ps t.peer_list in
          some (write_torrent v place.0 (record t { peer_list = l }), l))
  remove_hit t hit there none h = h
  remove_hit t hit there (some (code, ps)) h =
      let (c, e) = find-All (λ t. IsCounted t.peer_list) hash v.items ok.counted there in
      let gone = count_removed-Leaves t.peer_list c p.addr code ps h in
      let u : Torrent = record t { peer_list = count_removed code ps t.peer_list } in
      (
        removed t (write_torrent v place.0 u) u.peer_list there gone
            (hit-Holds v ok u gone.counted hash e hit),
        length-set v.items place.0 u,
      )

  -- Given a bucket of fewer than 2^32 torrents in order, the call does not fault. If the torrent is
  -- there the peer is not found in it any more, every other peer is as it was, the counters are
  -- right again, and the reply is given from them; every other torrent is as it was. If it is not,
  -- the bucket stays as it is and the reply is given from a list without peers.
  pub remove_peer_from_torrent-PeerGone :
      size v < 2 ^ 32 → PeerGoneOr (remove_peer_from_torrent hash p v)
  unfolding remove_peer_from_torrent
  remove_peer_from_torrent-PeerGone short =
      let (e, r, hit) = binary_search-locate Torrent.hash hash v.items ok.sorted short in
      rw (r, remove_peer_from_torrent)
        (elim (Bool-cases place.1) [
          | inl yes_hit ↦
              let more : (e == 0) ≡ false = ground arith in
              let (b, g, n) = locate_hit-find Torrent.hash hash v.items yes_hit in
              let (t, here) = get_elem?-some v.items place.0 b in
              let (c, same) =
                find-All (λ t. IsCounted t.peer_list) hash v.items ok.counted (sym g ∙ here) in
              rw (more, here)
                (remove_hit t yes_hit (sym g ∙ here) _ (
                  vector_remove_peer-Removed p.addr t.peer_list.peers c.spread
                    (omega (arith, c.peers_right, c.few))))
          | inr miss ↦
              let z : (e == 0) ≡ true = ground arith in
              rw z (unknown (locate_miss-find Torrent.hash hash v.items ok.sorted miss), refl)
        ])
