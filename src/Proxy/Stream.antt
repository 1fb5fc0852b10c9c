-- ===== src/Proxy/Stream.antt =====
-- The stream between two proxies, of src/opentracker/proxy.c: `streamsync_worker` writes the torrents
-- of a bucket as packets, `process_indata` reads them, in whatever pieces they come.
pub mod Count
pub mod Blocks
pub mod RoundTrip
pub mod Fuel
pub mod More
pub mod Pieces
use tstracker.Base.{
  ℕ, zero, suc, ◌+◌, ◌-◌, ◌*◌, ◌/◌, ◌%◌, ◌^◌, Bool, true, false, ◌&&◌, ◌||◌, Option, none, some,
  List, [], ◌∷◌, ◌++◌, length, take, drop, get_or, ltb, leb, ◌==◌, ◌>>=◌, if◌then◌else◌, not, u64,
}
use tstracker.Peer.{Peer}
use tstracker.Vector.{Vector}
use tstracker.Peers.{plain, buckets}
use tstracker.Peerlist.{Peerlist}
use tstracker.Tracker.{Torrent}

-- The number of peers, 7 bits in a byte, the lowest first; the top bit says that more follow. `fuel`
-- is as many bytes as a `size_t` takes.
unfoldable pub put_count : ℕ → ℕ → List ℕ
put_count zero n = []
put_count (suc fuel) n =
    let rest = put_count fuel (n / 128) in
    if n == 0 then [] else if leb n 0x7f then n ∷ rest else (128 + n % 128) ∷ rest

-- `7 * shift` bits up, of an `int`: from bit 31 on, C does not say what it does.
abbrev pub shifted : ℕ → ℕ → Option ℕ
shifted group shift =
    if ltb (group * 2 ^ (7 * shift)) (2 ^ 31) && ltb shift 5
    then some (group * 2 ^ (7 * shift))
    else none

-- The loop reads at most 7 bytes, of the `rounds` that are left. The groups do not overlap, so that
-- `|=` adds them.
unfoldable pub get_count : ℕ → ℕ → ℕ → List ℕ → Option (ℕ × List ℕ)
get_count zero shift peers s = some (peers, s)
get_count (suc rounds) shift peers [] = none
get_count (suc rounds) shift peers (b ∷ s) = shifted (b % 128) shift >>= λ group.
    let more = get_count rounds (suc shift) (peers + group) s in
    if leb 128 b then more else some (peers + group, s)

-- What is known of the packet that is being received.
pub record PacketState : Type 0 where
  pub tcount : ℕ
  pub tprefix : ℕ
  pub type : ℕ

-- The arguments of one call of `livesync_proxytell`: 19 bytes of a hash, and 7 of a peer.
pub record ToldPeer : Type 0 where
  pub prefix : ℕ
  pub hash : List ℕ
  pub peer : List ℕ

abbrev pub peer_size : ℕ
peer_size = 7

abbrev pub tail_size : ℕ
tail_size = 19

-- The loop over the peers of a torrent.
unfoldable pub tell_peers : ℕ → ℕ → List ℕ → List ℕ → List ToldPeer
tell_peers prefix zero hash s = []
tell_peers prefix (suc n) hash s =
    record { prefix = prefix; hash = hash; peer = take peer_size s }
    ∷ tell_peers prefix n hash (drop peer_size s)

-- What a call leaves: the packet that is being received, the bytes not processed, and what was told.
pub record Progress : Type 0 where
  pub packet : PacketState
  pub indata : List ℕ
  pub told : List ToldPeer

abbrev pub stop : PacketState → List ℕ → Progress
stop k s = record { packet = k; indata = s; told = [] }

abbrev pub tell_first : List ToldPeer → Progress → Progress
tell_first ts r = record r { told = ts ++ r.told }

-- Another packet begins where the last one has no torrents left.
unfoldable pub read_header : PacketState → List ℕ → Option (PacketState × List ℕ)
read_header k s =
    if k.tcount == 0
    then (if ltb (length s) 4
        then none
        else some (
          record {
            type = get_or s 0 0;
            tprefix = get_or s 1 0;
            tcount = get_or s 2 0 * 256 + get_or s 3 0;
          },
          drop 4 s,
        ))
    else some (k, s)

-- The number of peers of a torrent, and what follows it.
unfoldable pub peers_of : ℕ → List ℕ → Option (ℕ × List ℕ)
unfolding get_count
peers_of type s = if type == 0 then get_count 7 0 0 s else some (type, s)

-- A torrent at the head of the bytes: `none` where C does not say what it does, `stop` where it is
-- not there as a whole.
abbrev pub torrent_size : ℕ
torrent_size = 20 + 4 + 3

unfoldable pub process_loop : ℕ → PacketState → List ℕ → Option Progress
process_loop zero k s = none
process_loop (suc fuel) k s = elim (read_header k s) [
  | none ↦ some (stop k s)
  | some (h, d) ↦
      let torrent = peers_of h.type (drop tail_size d) >>= λ (peers, r).
      let told = tell_peers h.tprefix peers (take tail_size d) r in
      let more =
        process_loop fuel (record h { tcount = u64 (h.tcount + 2 ^ 64 - 1) })
          (drop (peer_size * peers) r)
        >>= λ p. some (tell_first told p) in
      if ltb (length r) (peer_size * peers) then some (stop h d) else more in
      if ltb (length d) torrent_size then some (stop h d) else torrent
]

-- Each round but the last takes bytes away.
unfoldable pub process_indata : PacketState → List ℕ → Option Progress
unfolding process_loop
process_indata k s = process_loop (suc (length s)) k s

-- A torrent as it is sent: the tail of its hash, and its peers.
pub record Block : Type 0 where
  pub tail : List ℕ
  pub peers : List (List ℕ)

-- The first `n` peers that lie at `peers.data`, without their age. `none` is a read behind them, or of
-- the vectors that lie there in a torrent with buckets.
unfoldable pub copy_peers : ℕ → List Peer → Option (List (List ℕ))
copy_peers zero ps = some []
copy_peers (suc n) [] = none
copy_peers (suc n) (p ∷ ps) = copy_peers n ps >>= λ r. some ((p.addr ++ p.flag ∷ []) ∷ r)

unfoldable pub block_of : Torrent → Option Block
unfolding copy_peers
block_of t = elim t.peer_list.peers [
  | plain v ↦ copy_peers t.peer_list.peer_count v.items >>= λ ps.
      some (record { tail = drop 1 t.hash; peers = ps })
  | buckets vs ↦ none
]

abbrev pub join : List (List ℕ) → List ℕ
join [] = []
join (p ∷ ps) = p ++ join ps

-- In a packet of type 0 each torrent tells how many peers it has.
unfoldable pub put_block : ℕ → Block → List ℕ
unfolding put_count
put_block type b =
    b.tail ++ ((if type == 0 then put_count 10 (length b.peers) else []) ++ join b.peers)

unfoldable pub put_blocks : ℕ → List Block → List ℕ
unfolding put_block
put_blocks type [] = []
put_blocks type (b ∷ bs) = put_block type b ++ put_blocks type bs

abbrev pub put_packet : ℕ → ℕ → ℕ → List Block → List ℕ
put_packet type prefix count bs =
    type ∷ prefix ∷ (count / 256 % 256) ∷ (count % 256) ∷ put_blocks type bs

-- How many torrents have one peer, two peers, more.
abbrev pub count_if : (ℕ → Bool) → List Torrent → ℕ
count_if f [] = 0
count_if f (t ∷ ts) = let n = count_if f ts in if f t.peer_list.peer_count then suc n else n

-- Where a torrent with `n` peers goes, given which of the packets of types 1 and 2 there are.
abbrev pub goes_to : Bool → Bool → ℕ → ℕ → Bool
goes_to has_a has_b type n =
    if n == 0
    then false
    else if n == 1
    then type == (if has_a then 1 else 0)
    else if n == 2
    then type == (if has_b then 2 else 0)
    else type == 0

unfoldable pub blocks_where : (ℕ → Bool) → List Torrent → Option (List Block)
unfolding block_of
blocks_where f [] = some []
blocks_where f (t ∷ ts) =
    let rest = blocks_where f ts in
    let more = block_of t >>= λ b. rest >>= λ bs. some (b ∷ bs) in
    if f t.peer_list.peer_count then more else rest

-- What is sent of a bucket that is not empty, to each proxy that is connected; the bucket is emptied.
unfoldable pub streamsync : ℕ → List Torrent → Option (List ℕ)
unfolding put_blocks blocks_where
streamsync bucket ts =
    let prefix = bucket * 256 / 1024 % 256 in
    let one = count_if (λ n. n == 1) ts in
    let two = count_if (λ n. n == 2) ts in
    let def = count_if (λ n. ltb 2 n) ts in
    let has_a = ltb 4 one || (def == 0) in
    let def_a = if has_a then def else def + one in
    let has_b = ltb 4 two || (def_a == 0) in
    let def_b = if has_b then def_a else def_a + two in
    blocks_where (goes_to has_a has_b 1) ts >>= λ a.
    blocks_where (goes_to has_a has_b 2) ts >>= λ b.
    blocks_where (goes_to has_a has_b 0) ts >>= λ c. some (
      (if has_a then put_packet 1 prefix one a else [])
      ++ ((if has_b then put_packet 2 prefix two b else [])
          ++ (if def_b == 0 then [] else put_packet 0 prefix def_b c)))
