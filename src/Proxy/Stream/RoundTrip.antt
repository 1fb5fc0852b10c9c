-- ===== src/Proxy/Stream/RoundTrip.antt =====
-- What `streamsync_worker` writes, `process_indata` reads.
use tstracker.Base.{
  ℕ, suc, ◌+◌, ◌-◌, ◌*◌, ◌/◌, ◌%◌, ◌^◌, ◌≤◌, ◌<◌, ◌≡◌, ◌∙◌, refl, sym, ap, false, Option, none,
  some, List, [], ◌∷◌, ◌++◌, append_assoc, append-nil, length, length-append, drop, All, arith, u64,
  ltb, ◌>>=◌,
}
use tstracker.Livesync.Entries.{drop-at}
use tstracker.Proxy.Stream.{
  PacketState, ToldPeer, Block, Progress, tell_first, read_header, process_loop, process_indata,
  put_block, put_blocks, put_packet, join, peer_size, torrent_size,
}
use tstracker.Proxy.Stream.Blocks.{
  Fits, told_block, told_blocks, length-join, tell_peers-join, counted, peers_of-counted,
  put_block_long, put_block-parts,
}
use tstracker.Proxy.Stream.Fuel.{process_loop-fuel}

-- What is told before the rest is processed.
unfoldable pub told_as : List ToldPeer → Option Progress → Option Progress
told_as ts o = o >>= λ p. some (tell_first ts p)

pub told_as-append :
    (xs ys : List ToldPeer) (o : Option Progress) → told_as xs (told_as ys o) ≡ told_as (xs ++ ys) o
unfolding told_as
told_as-append xs ys none = refl
told_as-append xs ys (some p) =
    ap (λ t. some (record p { told = t })) (sym (append_assoc xs ys p.told))

-- One round of the loop.
process_loop-block :
    (fuel : ℕ) (k h : PacketState) (s : List ℕ) (b : Block) (rest : List ℕ)
    → read_header k s ≡ some (h, put_block h.type b ++ rest)
    → Fits h.type b
    → (h.type ≡ 1 → 0 < length rest)
    → process_loop (suc fuel) k s
      ≡ told_as
          (told_block h.tprefix b)
          (process_loop fuel (record h { tcount = u64 (h.tcount + 2 ^ 64 - 1) }) rest)
unfolding process_loop told_as
process_loop-block fuel k h s b rest e f more =
    let d : List ℕ = put_block h.type b ++ rest in
    let (tail, cut) = put_block-parts h.type b rest f.tail_long in
    let enough_bytes : ltb (length d) torrent_size ≡ false =
      ground (arith, put_block_long h.type b rest f more) in
    let size : length (join b.peers) ≡ 7 * length b.peers = length-join b.peers f.peers_long in
    let enough_peers : ltb (length (join b.peers ++ rest)) (peer_size * length b.peers) ≡ false =
      ground (arith, length-append (join b.peers) rest, size) in
    let left : drop (peer_size * length b.peers) (join b.peers ++ rest) ≡ rest =
      drop-at (peer_size * length b.peers) (join b.peers) rest size in
    rw
      (
        e,
        process_loop,
        enough_bytes,
        cut,
        peers_of-counted h.type b rest f,
        enough_peers,
        left,
        tail,
        tell_peers-join h.tprefix b.tail b.peers rest f.peers_long,
      )
      refl

pub read_header_within :
    (k : PacketState) (s : List ℕ) → 0 < k.tcount → read_header k s ≡ some (k, s)
unfolding read_header
read_header_within k s h = ground (arith, h)

blocks_there :
    (type : ℕ) (c : Block) (cs : List Block) (rest : List ℕ)
    → Fits type c
    → 0 < length (put_blocks type (c ∷ cs) ++ rest)
unfolding put_blocks put_block
blocks_there type c cs rest f = omega (
  arith,
  length-append (c.tail ++ counted type c ++ put_blocks type cs) rest,
  length-append (c.tail ++ counted type c) (put_blocks type cs),
  length-append c.tail (counted type c),
  f.tail_long,
)

-- The torrents of a packet, one round for each.
process_loop-blocks :
    (bs : List Block) (fuel : ℕ) (k h : PacketState) (s : List ℕ) (b : Block) (rest : List ℕ)
    → read_header k s ≡ some (h, put_blocks h.type (b ∷ bs) ++ rest)
    → h.tcount ≡ suc (length bs)
    → h.tcount < 2 ^ 64
    → All (Fits h.type) (b ∷ bs)
    → (h.type ≡ 1 → 0 < length rest)
    → process_loop (suc (length bs + fuel)) k s
      ≡ told_as (told_blocks h.tprefix (b ∷ bs)) (process_loop fuel (record h { tcount = 0 }) rest)
unfolding put_blocks
process_loop-blocks [] fuel k h s b rest e n small (f, fs) more =
    let first : read_header k s ≡ some (h, put_block h.type b ++ rest) =
      e ∙ ap (λ x. some (h, x ++ rest)) (append-nil (put_block h.type b)) in
    let last : u64 (h.tcount + 2 ^ 64 - 1) ≡ 0 = omega (arith, n) in
    let same : length {A = Block} [] + fuel ≡ fuel = omega arith in
    rw (same, append-nil (told_block h.tprefix b))
      (process_loop-block fuel k h s b rest first f more ∙ rw last refl)
process_loop-blocks (c ∷ cs) fuel k h s b rest e n small (f, (g, fs)) more =
    let rest' : List ℕ = put_blocks h.type (c ∷ cs) ++ rest in
    let first : read_header k s ≡ some (h, put_block h.type b ++ rest') =
      e
      ∙ ap (λ x. some (h, x))
          (append_assoc (put_block h.type b) (put_blocks h.type (c ∷ cs)) rest) in
    let left : u64 (h.tcount + 2 ^ 64 - 1) ≡ suc (length cs) = omega (arith, n, small) in
    let k' : PacketState = record h { tcount = u64 (h.tcount + 2 ^ 64 - 1) } in
    let goes_on : read_header k' rest' ≡ some (k', rest') =
      read_header_within k' rest' (omega (arith, left)) in
    let some_left : 0 < length rest' = blocks_there h.type c cs rest g in
    let same : length (c ∷ cs) + fuel ≡ suc (length cs + fuel) = omega arith in
    rw same (
      process_loop-block (suc (length cs + fuel)) k h s b rest' first f (λ _. some_left)
      ∙ ap (told_as (told_block h.tprefix b)) (
          process_loop-blocks cs fuel k' k' rest' c rest goes_on left
            (omega (arith, left, small, n)) (g, fs) more)
      ∙ told_as-append (told_block h.tprefix b) (told_blocks h.tprefix (c ∷ cs)) _)

put_blocks_long :
    (type : ℕ) (bs : List Block) → All (Fits type) bs → length bs ≤ length (put_blocks type bs)
unfolding put_blocks put_block
put_blocks_long type [] w = omega arith
put_blocks_long type (b ∷ bs) (f, fs) = omega (
  arith,
  length-append (b.tail ++ counted type b) (put_blocks type bs),
  length-append b.tail (counted type b),
  f.tail_long,
  put_blocks_long type bs fs,
)

-- A packet with at least one torrent and fewer than 65536, each of them with the peers that its type
-- asks for and fewer than 2^21, is told peer by peer, whatever follows it, and then what follows is
-- processed. After a packet of type 1 something has to follow.
pub process_indata-put_packet :
    (k : PacketState) (type prefix : ℕ) (b : Block) (bs : List Block) (rest : List ℕ)
    → k.tcount ≡ 0
    → length (b ∷ bs) < 2 ^ 16
    → All (Fits type) (b ∷ bs)
    → (type ≡ 1 → 0 < length rest)
    → process_indata k (put_packet type prefix (length (b ∷ bs)) (b ∷ bs) ++ rest)
      ≡ told_as
          (told_blocks prefix (b ∷ bs))
          (process_indata (record { tcount = 0; tprefix = prefix; type = type }) rest)
unfolding process_indata read_header
process_indata-put_packet k type prefix b bs rest idle_peer few fits more =
    let n : ℕ = length (b ∷ bs) in
    let s : List ℕ = put_packet type prefix n (b ∷ bs) ++ rest in
    let h : PacketState = record {
      tcount = n / 256 % 256 * 256 + n % 256;
      tprefix = prefix;
      type = type;
    } in
    let e : read_header k s ≡ some (h, put_blocks type (b ∷ bs) ++ rest) =
      ground (arith, idle_peer) in
    let count : h.tcount ≡ suc (length bs) = omega (arith, few) in
    let long : length bs + length rest < length s =
      omega (
        arith,
        put_blocks_long type (b ∷ bs) fits,
        length-append (put_blocks type (b ∷ bs)) rest,
      ) in
    let fuel : ℕ = length s - length bs in
    let split : suc (length s) ≡ suc (length bs + fuel) = omega (arith, long) in
    ap (λ f. process_loop f k s) split
    ∙ process_loop-blocks bs fuel k h s b rest e count (omega (arith, count, few)) fits more
    ∙ ap (told_as (told_blocks prefix (b ∷ bs))) (
        process_loop-fuel fuel (suc (length rest)) (record h { tcount = 0 }) rest
          (omega (arith, long)) (omega arith))
