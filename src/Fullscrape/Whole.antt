-- ===== src/Fullscrape/Whole.antt =====
-- What the buffers of a full scrape hold.
use tstracker.Base.{
  ℕ, suc, ◌+◌, ◌-◌, ◌*◌, ◌≤◌, ◌≡◌, ◌∙◌, ◌⊎◌, refl, sym, ap, Bool, true, false, inl, inr, Bool-cases,
  Option, none, some, List, [], ◌∷◌, ◌++◌, append_assoc, append-nil, All, length, length-append,
  leb, ◌==◌, if◌then◌else◌, codes, arith, ◌>>=◌,
}
use tstracker.Tracker.{Torrent}
use tstracker.Fullscrape.{
  Chunk, Maps, iovec_increase, iovec_fixlast, iovec_fix_increase_or_free, iovec_length, iovec_free,
  scrape_entry, print, Made, made, out_of_memory, increase_loop, print_torrents, print_buckets,
  fullscrape_make, chunk_size, maxentrylen, fullscrape_task,
}
use tstracker.Fullscrape.Bounds.{scrape_entry_at_most}

-- The bytes of the buffers, from the first on.
abbrev pub text : List Chunk → List ℕ
text [] = []
text (c ∷ vs) = text vs ++ c.written

-- A buffer that is done: its length is that of what it holds.
pub record IsSealed (c : Chunk) : Type 0 where
  pub exact : c.iov_len ≡ length c.written
  pub small : length c.written ≤ chunk_size

-- The last buffer is still as long as it was allocated, with `n` bytes of it left at least.
abbrev Leaves : ℕ → List Chunk → Type 0
Leaves n [] = ⊥
Leaves n (c ∷ vs) =
    ((c.iov_len ≡ chunk_size) × (c.is_mapped ≡ true))
    × (length c.written + n ≤ chunk_size)
    × All IsSealed vs

iovec_length-text : (vs : List Chunk) → All IsSealed vs → iovec_length vs ≡ length (text vs)
unfolding iovec_length
iovec_length-text [] w = refl
iovec_length-text (c ∷ vs) (s, w) =
    omega (arith, iovec_length-text vs w, s.exact, length-append (text vs) c.written)

fixlast-IsSealed :
    (vs : List Chunk)
    → Leaves 0 vs
    → All IsSealed (iovec_fixlast vs) × (text (iovec_fixlast vs) ≡ text vs)
unfolding iovec_fixlast
fixlast-IsSealed (c ∷ vs) (whole, room, w) =
    ((record { exact = refl; small = omega (arith, room) }, w), refl)
fixlast-IsSealed [] x = absurd x

module _ (urlencoded : List ℕ → List ℕ) (maps : Maps)
    (mapped : (n : ℕ) → maps.mmap_ok n ≡ true) where
  -- A `realloc` that failed.
  abbrev pub Refused : Type 0
  Refused = (n : ℕ) × (maps.realloc_ok n ≡ false)

  print-text :
      (n : ℕ) (s : List ℕ) (vs : List Chunk)
      → length s ≤ n
      → Leaves n vs
      → (ws : List Chunk) × (print urlencoded maps s vs ≡ some ws)
        × (text ws ≡ text vs ++ s)
        × Leaves (n - length s) ws
  unfolding print
  print-text n s [] small x = absurd x
  print-text n s (c ∷ vs) small ((whole, there), room, w) =
      let fits : leb (length (c.written ++ s)) c.iov_len ≡ true =
        ground (arith, whole, room, small, length-append c.written s) in
      (
        record c { written = c.written ++ s } ∷ vs,
        rw (there, fits) refl,
        sym (append_assoc (text vs) c.written s),
        ((whole, there), omega (arith, room, small, length-append c.written s), w),
      )

  -- The loops go on with room for an entry, or have freed all.
  abbrev Goes : List ℕ → Option (Made urlencoded maps) → Type 0
  Goes t none = ⊥
  Goes t (some (made vs)) = (text vs ≡ t) × Leaves (suc maxentrylen) vs
  Goes t (some (out_of_memory vs)) = (vs ≡ []) × Refused

  refused_increase :
      (c : Chunk) (vs : List Chunk)
      → maps.realloc_ok (suc (length vs)) ≡ false
      → iovec_fix_increase_or_free maps chunk_size (c ∷ vs) ≡ (false, [])
  unfolding iovec_fix_increase_or_free iovec_increase iovec_fixlast iovec_free
  refused_increase c vs refused = rw (iovec_fix_increase_or_free, refused) refl

  increased :
      (c : Chunk) (vs : List Chunk)
      → maps.realloc_ok (suc (length vs)) ≡ true
      → iovec_fix_increase_or_free maps chunk_size (c ∷ vs) ≡ (
        true,
        record { written = []; iov_len = chunk_size; is_mapped = maps.mmap_ok (suc (length vs)) }
            ∷ record c { iov_len = length c.written }
            ∷ vs,
      )
  unfolding iovec_fix_increase_or_free iovec_increase iovec_fixlast
  increased c vs ok = rw (iovec_fix_increase_or_free, ok) refl

  increase_loop-Goes :
      (vs : List Chunk) → Leaves 0 vs → Goes (text vs) (increase_loop urlencoded maps 2 vs)
  unfolding increase_loop
  increase_loop-Goes [] x = absurd x
  increase_loop-Goes (c ∷ vs) (whole, room, w) =
      elim (Bool-cases (leb (chunk_size - maxentrylen) (length c.written))) [
        | inr free ↦ rw free (refl, (whole, ground (arith, free), w))
        | inl full ↦ elim (Bool-cases (maps.realloc_ok (suc (length vs)))) [
          | inr refused ↦
              rw (full, refused_increase c vs refused) (refl, (suc (length vs), refused))
          | inl ok ↦
              rw (full, increased c vs ok)
                (
                  append-nil (text (c ∷ vs)),
                  (
                    (refl, mapped (suc (length vs))),
                    omega arith,
                    (record { exact = refl; small = omega (arith, room) }, w),
                  ),
                )
        ]
      ]

  -- What comes of the loops, and then of what follows.
  then_Goes :
      (t u : List ℕ) (o : Option (Made urlencoded maps))
      (f : List Chunk → Option (Made urlencoded maps))
      → Goes t o
      → ((vs : List Chunk) → text vs ≡ t → Leaves (suc maxentrylen) vs → Goes u (f vs))
      → Goes u (o >>= λ m. elim m [ made us ↦ f us | out_of_memory us ↦ some (out_of_memory us) ])
  then_Goes t u none f g h = g
  then_Goes t u (some (made vs)) f (e, l) h = h vs e l
  then_Goes t u (some (out_of_memory vs)) f g h = g

  module _ (short : (s : List ℕ) → length (urlencoded s) ≤ 3 * length s) (task : ℕ) where
    abbrev pub HashLong : Torrent → Type 0
    HashLong t = length t.hash ≡ 20

    abbrev pub entries : List Torrent → List ℕ
    entries [] = []
    entries (t ∷ ts) = scrape_entry urlencoded task t ++ entries ts

    abbrev pub all_entries : List (List Torrent) → List ℕ
    all_entries [] = []
    all_entries (b ∷ bs) = entries b ++ all_entries bs

    less_room : (vs : List Chunk) (m n : ℕ) → n ≤ m → Leaves m vs → Leaves n vs
    less_room [] m n h x = x
    less_room (c ∷ vs) m n h (whole, room, w) = (whole, omega (arith, room, h), w)

    print_torrents-Goes :
        (ts : List Torrent) (vs : List Chunk)
        → All HashLong ts
        → Leaves (suc maxentrylen) vs
        → Goes (text vs ++ entries ts) (print_torrents urlencoded maps task ts vs)
    unfolding print_torrents
    print_torrents-Goes [] vs w l = (sym (append-nil (text vs)), l)
    print_torrents-Goes (t ∷ ts) vs (h, w) l =
        let s : List ℕ = scrape_entry urlencoded task t in
        let small : length s ≤ suc maxentrylen =
          omega (arith, scrape_entry_at_most urlencoded short task t h) in
        let (ws, e, same, l') = print-text (suc maxentrylen) s vs small l in
        rw e (
          then_Goes (text ws) (text vs ++ (s ++ entries ts)) (increase_loop urlencoded maps 2 ws)
            (print_torrents urlencoded maps task ts)
            (increase_loop-Goes ws (less_room ws _ 0 (omega arith) l'))
            (λ us e' l''.
              rw (← append_assoc (text vs) s (entries ts), ← same, ← e')
                (print_torrents-Goes ts us w l'')))

    print_buckets-Goes :
        (bs : List (List Torrent)) (vs : List Chunk)
        → All (All HashLong) bs
        → Leaves (suc maxentrylen) vs
        → Goes (text vs ++ all_entries bs) (print_buckets urlencoded maps task bs vs)
    unfolding print_buckets
    print_buckets-Goes [] vs w l = (sym (append-nil (text vs)), l)
    print_buckets-Goes (b ∷ bs) vs (h, w) l =
        then_Goes (text vs ++ entries b) (text vs ++ (entries b ++ all_entries bs))
          (print_torrents urlencoded maps task b vs) (print_buckets urlencoded maps task bs)
          (print_torrents-Goes b vs h l)
          (λ us e l'.
            rw (← append_assoc (text vs) (entries b) (all_entries bs), ← e)
              (print_buckets-Goes bs us w l'))

    -- The bencoded list begins and ends a dictionary.
    abbrev pub framed : List ℕ → List ℕ
    framed s =
        (if task == fullscrape_task then codes "d5:filesd" else [])
        ++ (s ++ (if task == fullscrape_task then codes "ee" else []))

    -- The whole text, in buffers that are as long as what they hold.
    pub record IsWhole (t : List ℕ) (vs : List Chunk) : Type 0 where
      pub same : text vs ≡ t
      pub sealed : All IsSealed vs
      pub long : iovec_length vs ≡ length t

    abbrev pub IsAnswer : List ℕ → Option (List Chunk) → Type 0
    IsAnswer t none = ⊥
    IsAnswer t (some vs) = IsWhole t vs ⊎ ((vs ≡ []) × Refused)

    print-if :
        (q : Bool) (n : ℕ) (s : List ℕ) (vs : List Chunk)
        → length s ≤ n
        → Leaves n vs
        → (ws : List Chunk) × ((if q then print urlencoded maps s vs else some vs) ≡ some ws)
          × (text ws ≡ text vs ++ (if q then s else []))
          × Leaves (n - length s) ws
    print-if true n s vs h l = print-text n s vs h l
    print-if false n s vs h l =
        (vs, refl, sym (append-nil (text vs)), less_room vs n (n - length s) (omega arith) l)

    finish :
        (t : List ℕ) (vs : List Chunk)
        → text vs ≡ t
        → Leaves (suc maxentrylen) vs
        → IsAnswer (t ++ (if task == fullscrape_task then codes "ee" else [])) (
            (if task == fullscrape_task then print urlencoded maps (codes "ee") vs else some vs)
            >>= λ xs. some (iovec_fixlast xs))
    finish t vs e l =
        let (ws, is, same, l') =
          print-if (task == fullscrape_task) (suc maxentrylen) (codes "ee") vs (omega arith) l in
        let (sealed, kept) = fixlast-IsSealed ws (less_room ws _ 0 (omega arith) l') in
        rw (is, ← e)
          (inl (record {
            same = kept ∙ same;
            sealed = sealed;
            long = iovec_length-text (iovec_fixlast ws) sealed ∙ ap length (kept ∙ same);
          }))

    after_Goes :
        (t u : List ℕ) (o : Option (Made urlencoded maps)) (f : List Chunk → Option (List Chunk))
        → Goes t o
        → ((vs : List Chunk) → text vs ≡ t → Leaves (suc maxentrylen) vs → IsAnswer u (f vs))
        → IsAnswer u (o >>= λ m. elim m [ made us ↦ f us | out_of_memory us ↦ some us ])
    after_Goes t u none f g h = absurd g
    after_Goes t u (some (made vs)) f (e, l) h = h vs e l
    after_Goes t u (some (out_of_memory vs)) f g h = inr g

    -- Given `fmt_urlencoded` that makes at most three bytes of one, calls of `mmap` that all succeed
    -- (the code takes a failed one for a buffer), and hashes of 20 bytes: for every
    -- kind of list, whatever the counters are and however many torrents there are, the full scrape
    -- writes behind no buffer and ends, either with the entries of all torrents in order, framed, in
    -- buffers of at most 512 KB each of which is as long as what it holds, or, where a `realloc`
    -- failed, with nothing.
    pub fullscrape_make-IsAnswer :
        (buckets : List (List Torrent))
        → All (All HashLong) buckets
        → IsAnswer (framed (all_entries buckets)) (fullscrape_make urlencoded maps task buckets)
    unfolding fullscrape_make iovec_increase
    fullscrape_make-IsAnswer buckets w = elim (Bool-cases (maps.realloc_ok 0)) [
      | inr refused ↦ rw (fullscrape_make, refused) (inr (refl, (0, refused)))
      | inl ok ↦
          let empty : List Chunk =
            record { written = []; iov_len = chunk_size; is_mapped = true } ∷ [] in
          let (ws, is, same, l) =
            print-if (task == fullscrape_task) chunk_size (codes "d5:filesd") empty (omega arith)
              ((refl, refl), omega arith, tt) in
          let start : List ℕ = if task == fullscrape_task then codes "d5:filesd" else [] in
          rw (fullscrape_make, ok, mapped 0, is)
            (after_Goes (text ws ++ all_entries buckets) (framed (all_entries buckets)) _ _
              (print_buckets-Goes buckets ws w (less_room ws _ (suc maxentrylen) (omega arith) l))
              (λ us e l'.
                rw
                  (← append_assoc start (all_entries buckets)
                    (if task == fullscrape_task then codes "ee" else []))
                  (finish (start ++ all_entries buckets) us
                    (e ∙ ap (λ x. x ++ all_entries buckets) same) l')))
    ]
