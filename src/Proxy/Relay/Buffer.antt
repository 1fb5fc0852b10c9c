-- ===== src/Proxy/Relay/Buffer.antt =====
-- The buffer of a proxy beside that of a tracker, and writes into it.
use tstracker.Base.{
  ℕ, zero, suc, ◌+◌, ◌-◌, ◌*◌, ◌≤◌, ◌<◌, ◌≡◌, ◌∙◌, refl, sym, ap, List, [], ◌∷◌, ◌++◌, length,
  length-append, length-drop, length-take, take, drop, take-drop, get_or, arith,
}
use tstracker.Peer.{Peer, bytes}
use tstracker.Livesync.{Outgoing, peer_of_bytes, buffsize_peers}
use tstracker.Proxy.Stream.{ToldPeer}
use tstracker.Proxy.Relay.{Peerbuffer, overwrite}

-- The peer that is told, with age 0.
abbrev pub fresh : ToldPeer → Peer
fresh t = peer_of_bytes (t.peer ++ 0 ∷ [])

pub record IsTold (t : ToldPeer) : Type 0 where
  pub hash_long : length t.hash ≡ 19
  pub peer_long : length t.peer ≡ 7

pub bytes-fresh : (t : ToldPeer) → IsTold t → bytes (fresh t) ≡ t.peer ++ 0 ∷ []
bytes-fresh t w = go t.peer w.peer_long
  where
    go : (s : List ℕ) → length s ≡ 7 → bytes (peer_of_bytes (s ++ 0 ∷ [])) ≡ s ++ 0 ∷ []
    go (a ∷ b ∷ c ∷ d ∷ e ∷ f ∷ g ∷ []) h = refl
    go [] h = absurd (omega (arith, h))
    go (a ∷ []) h = absurd (omega (arith, h))
    go (a ∷ b ∷ []) h = absurd (omega (arith, h))
    go (a ∷ b ∷ c ∷ []) h = absurd (omega (arith, h))
    go (a ∷ b ∷ c ∷ d ∷ []) h = absurd (omega (arith, h))
    go (a ∷ b ∷ c ∷ d ∷ e ∷ []) h = absurd (omega (arith, h))
    go (a ∷ b ∷ c ∷ d ∷ e ∷ f ∷ []) h = absurd (omega (arith, h))
    go (a ∷ b ∷ c ∷ d ∷ e ∷ f ∷ g ∷ x ∷ s) h = absurd (omega (arith, h))

-- The buffer of the proxy holds that of the tracker, and the ages of all its places are 0.
pub record Same (b : Peerbuffer) (o : Outgoing) : Type 0 where
  pub bytes_same : take b.pos b.start ≡ o.outbuf
  pub time_same : b.next_packet_time ≡ o.next_packet_time
  pub whole : length b.start ≡ buffsize_peers
  pub places : ℕ
  pub at : b.pos ≡ 8 + 28 * places
  pub inside : b.pos ≤ buffsize_peers
  pub ages : (k : ℕ) → 35 + 28 * k < buffsize_peers → get_or b.start (35 + 28 * k) 0 ≡ 0

get_or-first : (i : ℕ) (xs ys : List ℕ) → i < length xs → get_or (xs ++ ys) i 0 ≡ get_or xs i 0
get_or-first i [] ys h = absurd (omega (arith, h))
get_or-first zero (x ∷ xs) ys h = refl
get_or-first (suc i) (x ∷ xs) ys h = get_or-first i xs ys (omega (arith, h))

get_or-second : (i : ℕ) (xs ys : List ℕ) → get_or (xs ++ ys) (length xs + i) 0 ≡ get_or ys i 0
get_or-second i [] ys = let e : 0 + i ≡ i = omega arith in ap (λ n. get_or ys n 0) e
get_or-second i (x ∷ xs) ys =
    let e : suc (length xs) + i ≡ suc (length xs + i) = omega arith in
    ap (λ n. get_or (x ∷ (xs ++ ys)) n 0) e ∙ get_or-second i xs ys

pub drop-get_or :
    (n : ℕ) (xs : List ℕ) → n < length xs → drop n xs ≡ get_or xs n 0 ∷ drop (suc n) xs
drop-get_or n [] h = absurd (omega (arith, h))
drop-get_or zero (x ∷ xs) h = refl
drop-get_or (suc n) (x ∷ xs) h = drop-get_or n xs (omega (arith, h))

-- A place outside what is written is as it was.
pub overwrite-before :
    (pos i : ℕ) (s mem : List ℕ)
    → i < pos
    → pos ≤ length mem
    → get_or (overwrite pos s mem) i 0 ≡ get_or mem i 0
overwrite-before pos i s mem h k =
    let size : length (take pos mem) ≡ pos = length-take pos mem k in
    get_or-first i (take pos mem) _ (omega (arith, size, h))
    ∙ sym (get_or-first i (take pos mem) (drop pos mem) (omega (arith, size, h)))
    ∙ ap (λ x. get_or x i 0) (take-drop pos mem)

pub overwrite-after :
    (pos i : ℕ) (s mem : List ℕ)
    → pos + length s ≤ i
    → i ≤ length mem
    → get_or (overwrite pos s mem) i 0 ≡ get_or mem i 0
overwrite-after pos i s mem h k =
    let n : ℕ = pos + length s in
    let j : ℕ = i - n in
    let size : length (take pos mem) ≡ pos = length-take pos mem (omega (arith, h, k)) in
    let size' : length (take n mem) ≡ n = length-take n mem (omega (arith, h, k)) in
    let from : i ≡ length (take pos mem) + (length s + j) = omega (arith, size, h) in
    let back : length (take n mem) + j ≡ i = omega (arith, size', h) in
    ap (λ m. get_or (overwrite pos s mem) m 0) from
    ∙ get_or-second (length s + j) (take pos mem) (s ++ drop n mem)
    ∙ get_or-second j s (drop n mem)
    ∙ sym (get_or-second j (take n mem) (drop n mem))
    ∙ ap (λ x. get_or x (length (take n mem) + j) 0) (take-drop n mem)
    ∙ ap (λ m. get_or mem m 0) back

pub length-overwrite :
    (pos : ℕ) (s mem : List ℕ)
    → pos + length s ≤ length mem
    → length (overwrite pos s mem) ≡ length mem
length-overwrite pos s mem h = omega (
  arith,
  h,
  length-append (take pos mem) (s ++ drop (pos + length s) mem),
  length-append s (drop (pos + length s) mem),
  length-take pos mem (omega (arith, h)),
  length-drop (pos + length s) mem,
)
