-- ===== src/Tracker/Select/Skip.antt =====
-- The two inner loops of `return_peers_selection` end.
use tstracker.Base.{
  ℕ, zero, suc, ◌+◌, ◌-◌, ◌*◌, ◌/◌, ◌%◌, ◌^◌, ◌≤◌, ◌<◌, ◌≡◌, ◌∙◌, refl, true, false, Option, some,
  List, length, get_elem?, get_elem?-some, arith, u32, leb, ◌==◌, Bool-cases, inl, inr, ◌≢◌, ap,
  if◌then◌else◌,
}
use native.Mathlib.Numerals.{unary_clauses}
use native.Mathlib.Nat.{mod_self, mod-eq_of_lt, suc-mul, mul-le-mul_right}
use tstracker.Peer.{Peer}
use tstracker.Vector.{Vector, size}
use tstracker.Tracker.Select.{shift_loop, skip_loop}

double_power : (x k : ℕ) → x * 2 * 2 ^ k ≡ x * 2 ^ suc k
double_power x k = simp unary_clauses (omega arith)

-- How the loop ends on the count `pc`, shifted `shift` times before.
pub record Shifted (pc shift : ℕ) (r : Option (ℕ × ℕ)) : Type 0 where
  pub by : ℕ
  pub result : r ≡ some (pc * 2 ^ by, shift + by)
  pub large : 2 ^ 29 ≤ pc * 2 ^ by
  pub small : pc * 2 ^ by < 2 ^ 30

-- On a count below 2^30 the loop ends within as many rounds as it takes to reach bit 29, and no bit
-- is lost.
pub shift_loop-ends :
    (fuel pc shift : ℕ)
    → pc < 2 ^ 30
    → 2 ^ 29 ≤ pc * 2 ^ fuel
    → Shifted pc shift (shift_loop (suc fuel) pc shift)
unfolding shift_loop
shift_loop-ends zero pc shift low high =
    let t : (pc / 2 ^ 29 % 2 == 1) ≡ true = ground arith in
    record { by = 0; result = rw t (ground arith); large = omega arith; small = omega arith }
shift_loop-ends (suc fuel) pc shift low high = elim (Bool-cases (leb (2 ^ 29) pc)) [
  | inl there ↦
      let t : (pc / 2 ^ 29 % 2 == 1) ≡ true = ground arith in
      record { by = 0; result = rw t (ground arith); large = ground arith; small = omega arith }
  | inr below ↦
      let t : (pc / 2 ^ 29 % 2 == 1) ≡ false = ground arith in
      let same : u32 (pc * 2) ≡ pc * 2 = ground arith in
      let r = shift_loop-ends fuel (pc * 2) (suc shift) (ground arith) (rw double_power high) in
      record {
        by = suc r.by;
        result = rw (t, same) (r.result ∙ ground (arith, double_power pc r.by));
        large = rw (← double_power) r.large;
        small = rw (← double_power) r.small;
      }
]

-- How far round it is from bucket `index` to bucket `k` of `n`.
abbrev pub distance : ℕ → ℕ → ℕ → ℕ
distance n k index = if leb index k then k - index else k + n - index

pub distance-below : (n k index : ℕ) → k < n → index < n → distance n k index < n
distance-below n k index bound within = ground arith

next_bucket : (n index : ℕ) → index < n → suc index % n ≡ (if suc index == n then 0 else suc index)
next_bucket n index within = elim (Bool-cases (suc index == n)) [
  | inl last ↦ let e : suc index ≡ n = ground arith in rw last (ap (λ m. m % n) e ∙ mod_self n)
  | inr inner ↦ rw inner (mod-eq_of_lt (ground arith))
]

-- What is left to do for the second loop: rounds it may still take.
nearer :
    (n k index offset taken : ℕ)
    → k < n
    → index < n
    → taken ≤ offset
    → (taken ≡ 0 → index ≢ k)
    → (offset - taken) * n + distance n k (suc index % n) < offset * n + distance n k index
nearer n k index offset zero bound within fits other =
    let apart = other refl in rw (next_bucket n index within) (ground arith)
nearer n k index offset (suc taken) bound within fits other =
    let less : suc (offset - suc taken) * n ≤ offset * n = mul-le-mul_right n (omega arith) in
    let less' = rw (suc-mul (offset - suc taken) n) at less in
    let near : distance n k (suc index % n) < n = rw (next_bucket n index within) (ground arith) in
    omega arith

-- Where the second loop ends: inside a bucket, and no further on than it began.
pub record Skipped (vs : List (Vector Peer)) (offset : ℕ) (r : Option (ℕ × ℕ)) : Type 0 where
  pub index : ℕ
  pub place : ℕ
  pub result : r ≡ some (index, place)
  pub vector : Vector Peer
  pub there : get_elem? vs index ≡ some vector
  pub inside : place < size vector
  pub back : place ≤ offset

-- With a bucket that is not empty, each round comes nearer to it or takes peers off the offset.
pub skip_loop-ends :
    (vs : List (Vector Peer)) (k : ℕ) (v : Vector Peer)
    → get_elem? vs k ≡ some v
    → 0 < size v
    → k < length vs
    → (fuel index offset : ℕ) → index < length vs
    → offset * length vs + distance (length vs) k index < fuel
    → Skipped vs offset (skip_loop fuel vs index offset)
unfolding skip_loop
skip_loop-ends vs k v e some_peers bound zero index offset within enough = absurd (omega arith)
skip_loop-ends vs k v e some_peers bound (suc fuel) index offset within enough =
    let (w, there) = get_elem?-some vs index within in
    let apart : size w ≡ 0 → index ≢ k =
      λ none_here same. ground (arith, there, ap (get_elem? vs) same) in
    elim (Bool-cases (leb (size w) offset)) [
      | inr inside ↦ record {
        index = index;
        place = offset;
        result = rw (there, inside) refl;
        vector = w;
        there = there;
        inside = ground arith;
        back = omega arith;
      }
      | inl past ↦
          let r =
            skip_loop-ends vs k v e some_peers bound fuel (suc index % length vs) (offset - size w)
              (omega arith)
              (omega (
                arith,
                nearer (length vs) k index offset (size w) bound within (ground arith) apart,
              )) in
          record {
            index = r.index;
            place = r.place;
            result = rw (there, past) r.result;
            vector = r.vector;
            there = r.there;
            inside = r.inside;
            back = omega (arith, r.back);
          }
    ]
