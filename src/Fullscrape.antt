-- ===== src/Fullscrape.antt =====
-- src/opentracker/ot_fullscrape.c, without compression, and src/opentracker/ot_iovec.c: all torrents
-- are printed into buffers of 512 KB. Which allocations succeed is given by the number of buffers.
pub mod Bounds
pub mod Whole
use tstracker.Base.{
  ℕ, zero, suc, ◌+◌, ◌-◌, ◌*◌, ◌/◌, ◌%◌, Bool, true, false, not, ◌&&◌, Option, none, some, List, [],
  ◌∷◌, ◌++◌, length, ltb, leb, ◌==◌, ◌>>=◌, if◌then◌else◌, codes, dec, zd, htonl, ◌≤◌, sub64,
}
use tstracker.Base.Int.{ℤ, pos, negsuc}
use tstracker.Peerlist.{Peerlist}
use tstracker.Vector.{Vector}
use tstracker.Tracker.{Torrent}

-- A buffer: the bytes written from `iov_base` on, `iov_len`, and if there is memory there. A call of
-- `mmap` that fails gives `MAP_FAILED`, which is not null: the buffer is entered all the same.
pub record Chunk : Type 0 where
  pub written : List ℕ
  pub iov_len : ℕ
  pub is_mapped : Bool

-- Which calls of `realloc` and of `mmap` succeed, by the number of buffers there are.
pub record Maps : Type 0 where
  pub realloc_ok : ℕ → Bool
  pub mmap_ok : ℕ → Bool

-- `iovector`, the last entry first.
unfoldable pub iovec_increase : Maps → ℕ → List Chunk → Option (List Chunk)
iovec_increase maps new_alloc vs =
    if maps.realloc_ok (length vs)
    then some
        (record { written = []; iov_len = new_alloc; is_mapped = maps.mmap_ok (length vs) } ∷ vs)
    else none

unfoldable pub iovec_free : List Chunk → List Chunk
iovec_free vs = []

-- `last_ptr` is behind the last byte written. The pages behind it are given back.
unfoldable pub iovec_fixlast : List Chunk → List Chunk
iovec_fixlast [] = []
iovec_fixlast (c ∷ vs) = record c { iov_len = length c.written } ∷ vs

unfoldable pub iovec_fix_increase_or_free : Maps → ℕ → List Chunk → Bool × List Chunk
unfolding iovec_increase iovec_free iovec_fixlast
iovec_fix_increase_or_free maps new_alloc vs =
    let fixed = iovec_fixlast vs in
    elim (iovec_increase maps new_alloc fixed) [
      | none ↦ (false, iovec_free fixed)
      | some ws ↦ (true, ws)
    ]

unfoldable pub iovec_length : List Chunk → ℕ
iovec_length [] = 0
iovec_length (c ∷ vs) = iovec_length vs + c.iov_len

abbrev pub chunk_size : ℕ
chunk_size = 512 * 1024

abbrev pub maxentrylen : ℕ
maxentrylen = 256

abbrev pub fullscrape_task : ℕ
fullscrape_task = 0x0200

-- `0123456789ABCDEF`.
abbrev pub hex_of : ℕ → ℕ
hex_of n = if ltb n 10 then 48 + n else 55 + n

unfoldable pub to_hex : List ℕ → List ℕ
to_hex [] = []
to_hex (b ∷ s) = hex_of (b / 16) ∷ hex_of (b % 16) ∷ to_hex s

-- `%zd` of a time.
abbrev pub zd_ℤ : ℤ → List ℕ
zd_ℤ (pos n) = dec n
zd_ℤ (negsuc n) = 45 ∷ dec (suc n)

abbrev pub two_counts : List ℕ → List ℕ → List ℕ
two_counts a b = 58 ∷ (a ++ (58 ∷ (b ++ (10 ∷ []))))

abbrev pub leechers : Peerlist → ℕ
leechers l = sub64 l.peer_count l.seed_count

abbrev pub bencoded : List ℕ → Peerlist → List ℕ
bencoded hash l =
    codes "20:"
    ++ (hash
        ++ (codes "d8:completei"
            ++ (zd l.seed_count
                ++ (codes "e10:downloadedi"
                    ++ (zd l.down_count
                        ++ (codes "e10:incompletei" ++ (zd (leechers l) ++ codes "ee")))))))

-- `urlencoded` is `fmt_urlencoded`, of libowfat.
module _ (urlencoded : List ℕ → List ℕ) where
  -- A torrent, by the kind of the task: as ASCII, as bytes, url-encoded, the state of the tracker, or,
  -- by default, bencoded.
  unfoldable pub scrape_entry : ℕ → Torrent → List ℕ
  unfolding to_hex
  scrape_entry task t =
      let l = t.peer_list in
      if task == 0x0202
      then to_hex t.hash ++ two_counts (zd l.seed_count) (zd (leechers l))
      else if task == 0x0201
      then t.hash ++ (htonl l.seed_count ++ htonl (leechers l))
      else if task == 0x0203
      then urlencoded t.hash ++ two_counts (zd l.seed_count) (zd (leechers l))
      else if task == 0x0204
      then to_hex t.hash ++ two_counts (zd_ℤ l.base) (zd l.down_count)
      else bencoded t.hash l

  module _ (maps : Maps) where
    -- `r += …`; `none` is a write behind the buffer, or where no memory was mapped.
    unfoldable pub print : List ℕ → List Chunk → Option (List Chunk)
    print s [] = none
    print s (c ∷ vs) =
        let all = c.written ++ s in
        if c.is_mapped && leb (length all) c.iov_len
        then some (record c { written = all } ∷ vs)
        else none

    -- What comes of a loop: the buffers, or no memory, when they have been freed.
    pub data Made : Type 0 where
      made : List Chunk → Made
      out_of_memory : List Chunk → Made

    -- `r >= re`, with `re` the length of the buffer less an entry.
    abbrev pub is_full : List Chunk → Bool
    is_full [] = true
    is_full (c ∷ vs) = leb (chunk_size - maxentrylen) (length c.written)

    -- `while( r >= re )`; after two rounds it has not ended.
    unfoldable pub increase_loop : ℕ → List Chunk → Option Made
    unfolding iovec_fix_increase_or_free
    increase_loop zero vs = none
    increase_loop (suc fuel) vs =
        let (ok, ws) = iovec_fix_increase_or_free maps chunk_size vs in
        let more = increase_loop fuel ws in
        if is_full vs then (if ok then more else some (out_of_memory ws)) else some (made vs)

    -- The torrents of a bucket.
    unfoldable pub print_torrents : ℕ → List Torrent → List Chunk → Option Made
    unfolding print increase_loop
    print_torrents task [] vs = some (made vs)
    print_torrents task (t ∷ ts) vs = print (scrape_entry task t) vs >>= λ ws.
        increase_loop 2 ws >>= λ m. elim m [
          | made us ↦ print_torrents task ts us
          | out_of_memory us ↦ some (out_of_memory us)
        ]

    unfoldable pub print_buckets : ℕ → List (List Torrent) → List Chunk → Option Made
    unfolding print_torrents
    print_buckets task [] vs = some (made vs)
    print_buckets task (b ∷ bs) vs = print_torrents task b vs >>= λ m. elim m [
      | made us ↦ print_buckets task bs us
      | out_of_memory us ↦ some (out_of_memory us)
    ]

    -- `task` is `mode & TASK_TASK_MASK`; the tracker runs throughout.
    unfoldable pub fullscrape_make : ℕ → List (List Torrent) → Option (List Chunk)
    unfolding print_buckets iovec_increase iovec_fixlast print
    fullscrape_make task buckets = elim (iovec_increase maps chunk_size []) [
      | none ↦ some []
      | some vs ↦
          (if task == fullscrape_task then print (codes "d5:filesd") vs else some vs) >>= λ ws.
          print_buckets task buckets ws >>= λ m. elim m [
            | out_of_memory us ↦ some us
            | made us ↦
                (if task == fullscrape_task then print (codes "ee") us else some us) >>= λ xs.
                some (iovec_fixlast xs)
          ]
    ]
