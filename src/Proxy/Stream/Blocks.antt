-- ===== src/Proxy/Stream/Blocks.antt =====
-- A torrent as `streamsync_worker` writes it, and what `process_indata` makes of its parts.
use tstracker.Base.{
  ℕ, ◌+◌, ◌*◌, ◌^◌, ◌≤◌, ◌<◌, ◌≡◌, ◌≢◌, ◌∙◌, refl, ap, inl, inr, some, List, [], ◌∷◌, ◌++◌, map,
  append_assoc, length, length-append, take, drop, All, arith, ◌==◌, if◌then◌else◌, Bool-cases,
}
use tstracker.Livesync.Entries.{take-at, drop-at}
use tstracker.Proxy.Stream.{ToldPeer, Block, put_count, peers_of, tell_peers, put_block, join}
use tstracker.Proxy.Stream.Count.{get_count-put_count}

-- A torrent that a packet of the type can hold.
pub record Fits (type : ℕ) (b : Block) : Type 0 where
  pub tail_long : length b.tail ≡ 19
  pub peers_long : All (λ p. length p ≡ 7) b.peers
  pub some_there : 0 < length b.peers
  pub few : length b.peers < 2 ^ 21
  pub exact : type ≢ 0 → length b.peers ≡ type

abbrev pub told_block : ℕ → Block → List ToldPeer
told_block prefix b = map (λ p. record { prefix = prefix; hash = b.tail; peer = p }) b.peers

abbrev pub told_blocks : ℕ → List Block → List ToldPeer
told_blocks prefix [] = []
told_blocks prefix (b ∷ bs) = told_block prefix b ++ told_blocks prefix bs

pub length-join :
    (ps : List (List ℕ)) → All (λ p. length p ≡ 7) ps → length (join ps) ≡ 7 * length ps
length-join [] w = refl
length-join (p ∷ ps) (v, w) = omega (arith, length-append p (join ps), v, length-join ps w)

pub tell_peers-join :
    (prefix : ℕ) (hash : List ℕ) (ps : List (List ℕ)) (rest : List ℕ)
    → All (λ p. length p ≡ 7) ps
    → tell_peers prefix (length ps) hash (join ps ++ rest)
      ≡ map (λ p. record { prefix = prefix; hash = hash; peer = p }) ps
unfolding tell_peers
tell_peers-join prefix hash [] rest w = refl
tell_peers-join prefix hash (p ∷ ps) rest (v, w) =
    rw
      (
        append_assoc p (join ps) rest,
        take-at 7 p (join ps ++ rest) v,
        drop-at 7 p (join ps ++ rest) v,
        tell_peers-join prefix hash ps rest w,
      )
      refl

-- What lies behind the tail of the hash.
abbrev pub counted : ℕ → Block → List ℕ
counted type b = (if type == 0 then put_count 10 (length b.peers) else []) ++ join b.peers

pub peers_of-counted :
    (type : ℕ) (b : Block) (rest : List ℕ)
    → Fits type b
    → peers_of type (counted type b ++ rest) ≡ some (length b.peers, join b.peers ++ rest)
unfolding peers_of
peers_of-counted type b rest f = elim (Bool-cases (type == 0)) [
  | inl zero_type ↦
      rw (zero_type, append_assoc (put_count 10 (length b.peers)) (join b.peers) rest)
        (get_count-put_count (length b.peers) (join b.peers ++ rest) f.some_there f.few)
  | inr other ↦
      let e : length b.peers ≡ type = f.exact (λ z. ground (arith, other, z)) in rw (other, e) refl
]

put_count_there : (n : ℕ) → 0 < n → 0 < length (put_count 10 n)
unfolding put_count
put_count_there n h = ground (arith, h)

-- All of them but one with one peer are as long as the test for a torrent asks.
pub put_block_long :
    (type : ℕ) (b : Block) (rest : List ℕ)
    → Fits type b
    → (type ≡ 1 → 0 < length rest)
    → 27 ≤ length (put_block type b ++ rest)
unfolding put_block
put_block_long type b rest f more =
    let n : ℕ = length b.peers in
    let count : List ℕ = if type == 0 then put_count 10 n else [] in
    let whole : length (b.tail ++ (count ++ join b.peers) ++ rest)
        ≡ 19 + (length count + 7 * n) + length rest =
      omega (
        arith,
        length-append (b.tail ++ (count ++ join b.peers)) rest,
        length-append b.tail (count ++ join b.peers),
        length-append count (join b.peers),
        length-join b.peers f.peers_long,
        f.tail_long,
      ) in
    elim (Bool-cases (type == 0)) [
      | inl zero_type ↦
          let some_count : 0 < length count = rw zero_type (put_count_there n f.some_there) in
          omega (arith, whole, some_count, f.some_there)
      | inr other ↦
          let e : n ≡ type = f.exact (λ z. ground (arith, other, z)) in
          elim (Bool-cases (type == 1)) [
            | inl one ↦
                let one' : type ≡ 1 = ground (arith, one) in
                let extra : 0 < length rest = more one' in omega (arith, whole, extra, e, one')
            | inr several ↦
                let two : 2 ≤ n = ground (arith, several, f.some_there, e) in
                omega (arith, whole, two)
          ]
    ]

pub put_block-parts :
    (type : ℕ) (b : Block) (rest : List ℕ)
    → length b.tail ≡ 19
    → (take 19 (put_block type b ++ rest) ≡ b.tail)
      × (drop 19 (put_block type b ++ rest) ≡ counted type b ++ rest)
unfolding put_block
put_block-parts type b rest e =
    let same : b.tail ++ counted type b ++ rest ≡ b.tail ++ (counted type b ++ rest) =
      append_assoc b.tail (counted type b) rest in
    (
      ap (take 19) same ∙ take-at 19 b.tail (counted type b ++ rest) e,
      ap (drop 19) same ∙ drop-at 19 b.tail (counted type b ++ rest) e,
    )
