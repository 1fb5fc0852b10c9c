-- ===== src/Proxy/Stream/More.antt =====
-- What the readers make of bytes that more bytes follow.
use tstracker.Base.{
  ℕ, zero, suc, ◌+◌, ◌*◌, ◌%◌, ◌≤◌, ◌<◌, ◌≡◌, ◌≢◌, refl, ap, inl, inr, Bool, true, false, Option,
  none, some, List, [], ◌∷◌, ◌++◌, length, length-append, length-drop, take, drop, arith, ltb, leb,
  ◌==◌, if◌then◌else◌, Bool-cases, Option-cases, get_or,
}
use tstracker.Proxy.Stream.{PacketState, get_count, shifted, peers_of, tell_peers, read_header}

pub drop-more : (n : ℕ) (s t : List ℕ) → n ≤ length s → drop n (s ++ t) ≡ drop n s ++ t
drop-more zero s t h = refl
drop-more (suc n) [] t h = absurd (omega (arith, h))
drop-more (suc n) (x ∷ s) t h = drop-more n s t (omega (arith, h))

pub take-more : (n : ℕ) (s t : List ℕ) → n ≤ length s → take n (s ++ t) ≡ take n s
take-more zero s t h = refl
take-more (suc n) [] t h = absurd (omega (arith, h))
take-more (suc n) (x ∷ s) t h = ap (◌∷◌ x) (take-more n s t (omega (arith, h)))

pub tell_peers-more :
    (prefix n : ℕ) (hash s t : List ℕ)
    → 7 * n ≤ length s
    → tell_peers prefix n hash (s ++ t) ≡ tell_peers prefix n hash s
unfolding tell_peers
tell_peers-more prefix zero hash s t h = refl
tell_peers-more prefix (suc n) hash s t h =
    rw
      (
        take-more 7 s t (omega (arith, h)),
        drop-more 7 s t (omega (arith, h)),
        tell_peers-more prefix n hash (drop 7 s) t (omega (arith, h, length-drop 7 s)),
      )
      refl

-- What a reader that succeeds leaves is followed by the bytes that come later.
abbrev pub with_more : {A : Type 0} → List ℕ → Option (A × List ℕ) → Option (A × List ℕ)
with_more t none = none
with_more t (some (n, r)) = some (n, r ++ t)

with_more-if :
    {A : Type 0} (b : Bool) (t : List ℕ) (x y : Option (A × List ℕ))
    → with_more t (if b then x else y) ≡ (if b then with_more t x else with_more t y)
with_more-if true t x y = refl
with_more-if false t x y = refl

get_count-more :
    (rounds shift peers : ℕ) (s t : List ℕ)
    → rounds ≤ length s
    → get_count rounds shift peers (s ++ t) ≡ with_more t (get_count rounds shift peers s)
unfolding get_count
get_count-more zero shift peers s t h = refl
get_count-more (suc rounds) shift peers [] t h = absurd (omega (arith, h))
get_count-more (suc rounds) shift peers (b ∷ s) t h =
    elim (Option-cases (shifted (b % 128) shift)) [
      | inl e ↦ rw e refl
      | inr (group, e) ↦ rw e (
          rw
            (
              with_more-if (leb 128 b) t (get_count rounds (suc shift) (peers + group) s)
                  (some (peers + group, s)),
              get_count-more rounds (suc shift) (peers + group) s t (omega (arith, h)),
            )
            refl)
    ]

pub peers_of-more :
    (type : ℕ) (s t : List ℕ)
    → 7 ≤ length s
    → peers_of type (s ++ t) ≡ with_more t (peers_of type s)
unfolding peers_of
peers_of-more type s t h =
    rw (with_more-if (type == 0) t (get_count 7 0 0 s) (some (type, s)), get_count-more 7 0 0 s t h)
      refl

get_or-more : (i d : ℕ) (s t : List ℕ) → i < length s → get_or (s ++ t) i d ≡ get_or s i d
get_or-more i d [] t h = absurd (omega (arith, h))
get_or-more zero d (x ∷ s) t h = refl
get_or-more (suc i) d (x ∷ s) t h = get_or-more i d s t (omega (arith, h))

pub read_header-more :
    (k : PacketState) (s t : List ℕ)
    → (k.tcount ≡ 0 → 4 ≤ length s)
    → read_header k (s ++ t) ≡ with_more t (read_header k s)
unfolding read_header
read_header-more k s t h = elim (Bool-cases (k.tcount == 0)) [
  | inl between ↦
      let size : 4 ≤ length s = h (ground (arith, between)) in
      let long : ltb (length s) 4 ≡ false = ground (arith, size) in
      let long' : ltb (length (s ++ t)) 4 ≡ false = ground (arith, size, length-append s t) in
      rw
        (
          between,
          long,
          long',
          drop-more 4 s t size,
          get_or-more 0 0 s t (omega (arith, size)),
          get_or-more 1 0 s t (omega (arith, size)),
          get_or-more 2 0 s t (omega (arith, size)),
          get_or-more 3 0 s t (omega (arith, size)),
        )
        refl
  | inr within ↦ rw within refl
]

pub read_header_enough :
    (k : PacketState) (s : List ℕ) → read_header k s ≢ none → k.tcount ≡ 0 → 4 ≤ length s
unfolding read_header
read_header_enough k s n zero_left = elim (Bool-cases (ltb (length s) 4)) [
  | inl short ↦ absurd (n (rw (zero_left, short) refl))
  | inr long ↦ ground (arith, long)
]
