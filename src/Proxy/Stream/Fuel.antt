-- ===== src/Proxy/Stream/Fuel.antt =====
-- How many rounds of the loop over the bytes of a proxy are enough.
use tstracker.Base.{
  ℕ, zero, suc, ◌+◌, ◌-◌, ◌*◌, ◌%◌, ◌≤◌, ◌<◌, ◌≡◌, refl, ap, inl, inr, Bool, true, false, Option,
  none, some, List, [], ◌∷◌, length, length-drop, drop, arith, u64, ltb, leb, ◌==◌, if◌then◌else◌,
  Bool-cases, Option-cases, some_same, ◌^◌,
}
use tstracker.Proxy.Stream.{
  PacketState, get_count, shifted, peers_of, read_header, process_loop, peer_size, tail_size,
  torrent_size,
}

-- A reader leaves no more than it was given.
abbrev pub LeavesAtMost : {A : Type 0} → ℕ → Option (A × List ℕ) → Type 0
LeavesAtMost n none = Unit
LeavesAtMost n (some (a, r)) = length r ≤ n

LeavesAtMost-if :
    {A : Type 0} (b : Bool) (n : ℕ) (x y : Option (A × List ℕ))
    → LeavesAtMost n x
    → LeavesAtMost n y
    → LeavesAtMost n (if b then x else y)
LeavesAtMost-if true n x y hx hy = hx
LeavesAtMost-if false n x y hx hy = hy

LeavesAtMost-more :
    {A : Type 0} (o : Option (A × List ℕ)) (n : ℕ) → LeavesAtMost n o → LeavesAtMost (suc n) o
LeavesAtMost-more none n h = tt
LeavesAtMost-more (some (a, r)) n h = omega (arith, h)

get_count-LeavesAtMost :
    (rounds shift peers : ℕ) (s : List ℕ) → LeavesAtMost (length s) (get_count rounds shift peers s)
unfolding get_count
get_count-LeavesAtMost zero shift peers s = omega arith
get_count-LeavesAtMost (suc rounds) shift peers [] = tt
get_count-LeavesAtMost (suc rounds) shift peers (b ∷ s) =
    elim (Option-cases (shifted (b % 128) shift)) [
      | inl e ↦ rw e tt
      | inr (group, e) ↦ rw e (
          LeavesAtMost-if (leb 128 b) (suc (length s))
            (get_count rounds (suc shift) (peers + group) s) (some (peers + group, s))
            (LeavesAtMost-more (get_count rounds (suc shift) (peers + group) s) (length s)
              (get_count-LeavesAtMost rounds (suc shift) (peers + group) s))
            (omega arith))
    ]

pub peers_of-LeavesAtMost : (type : ℕ) (s : List ℕ) → LeavesAtMost (length s) (peers_of type s)
unfolding peers_of
peers_of-LeavesAtMost type s =
    LeavesAtMost-if (type == 0) (length s) (get_count 7 0 0 s) (some (type, s))
      (get_count-LeavesAtMost 7 0 0 s) (omega arith)

pub read_header-LeavesAtMost :
    (k : PacketState) (s : List ℕ) → LeavesAtMost (length s) (read_header k s)
unfolding read_header
read_header-LeavesAtMost k s =
    LeavesAtMost-if (k.tcount == 0) (length s) _ (some (k, s))
      (LeavesAtMost-if (ltb (length s) 4) (length s) none _ tt (omega (arith, length-drop 4 s)))
      (omega arith)

pub leaves :
    {A : Type 0} (n : ℕ) (o : Option (A × List ℕ)) (a : A) (r : List ℕ)
    → LeavesAtMost n o
    → o ≡ some (a, r)
    → length r ≤ n
leaves n none a r h e = absurd (cc)
leaves n (some (b, t)) a r h e =
    let same : length t ≡ length r = ap (λ p. length p.1) (some_same {o = some (b, t)} refl e) in
    omega (arith, h, same)

-- With more rounds than bytes, how many more does not matter.
pub process_loop-fuel :
    (f g : ℕ) (k : PacketState) (s : List ℕ)
    → length s < f
    → length s < g
    → process_loop f k s ≡ process_loop g k s
unfolding process_loop
process_loop-fuel zero g k s hf hg = absurd (omega (arith, hf))
process_loop-fuel (suc f) zero k s hf hg = absurd (omega (arith, hg))
process_loop-fuel (suc f) (suc g) k s hf hg = elim (Option-cases (read_header k s)) [
  | inl e ↦ rw (process_loop, e) refl
  | inr ((h, d), e) ↦
      rw (process_loop, e)
        (let shorter : length d ≤ length s =
            leaves (length s) (read_header k s) h d (read_header-LeavesAtMost k s) e in
          elim (Bool-cases (ltb (length d) torrent_size)) [
            | inl short ↦ rw short refl
            | inr long ↦ elim (Option-cases (peers_of h.type (drop tail_size d))) [
              | inl e' ↦ rw (long, e') refl
              | inr ((n, r), e') ↦
                  rw (long, e')
                    (let tail : List ℕ = drop tail_size d in
                      let less : length r ≤ length tail =
                        leaves (length tail) (peers_of h.type tail) n r
                          (peers_of-LeavesAtMost h.type tail) e' in
                      let left : List ℕ = drop (peer_size * n) r in
                      let size : length left < length s = ground (
                        arith,
                        long,
                        less,
                        shorter,
                        length-drop tail_size d,
                        length-drop (peer_size * n) r,
                      ) in
                      rw
                        (process_loop-fuel f g (record h { tcount = u64 (h.tcount + 2 ^ 64 - 1) })
                          left (omega (arith, size, hf)) (omega (arith, size, hg)))
                        refl)
            ]
          ])
]
