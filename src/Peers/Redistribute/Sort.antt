-- ===== src/Peers/Redistribute/Sort.antt =====
-- Peers with distinct addresses, and what sorting makes of them.
use tstracker.Base.{ℕ, ◌≡◌, ◌∙◌, refl, Option, none, some, List, [], ◌∷◌, ◌++◌, arith, All}
use tstracker.Peer.{Peer}
use tstracker.Vector.Search.{IsSorted}
use tstracker.Vector.Ordered.{find, put, put-IsSorted, All-put, find-put}
use tstracker.Vector.Weight.{sum_by, weight?, sum_by-put}
use tstracker.Peers.Redistribute.{sort_insert, qsort}

abbrev pub look : List ℕ → List Peer → Option Peer
look = find Peer.addr

abbrev pub Distinct : List Peer → Type 0
Distinct [] = Unit
Distinct (x ∷ xs) = (look x.addr xs ≡ none) × Distinct xs

sort_insert-put :
    (x : Peer) (xs : List Peer) → look x.addr xs ≡ none → sort_insert x xs ≡ put Peer.addr x xs
unfolding sort_insert put find
sort_insert-put x [] h = refl
sort_insert-put x (y ∷ ys) h = ground (arith, sort_insert-put x ys)

pub record Sorts (xs ys : List Peer) : Type 1 where
  pub sorted : IsSorted Peer.addr ys
  pub found : (j : List ℕ) → look j ys ≡ look j xs
  pub counted : (g : Peer → ℕ) → sum_by g ys ≡ sum_by g xs
  pub every : (P : Peer → Type 0) → All P xs → All P ys

found-put :
    (j : List ℕ) (x : Peer) (xs ys : List Peer)
    → look j ys ≡ look j xs
    → look j (put Peer.addr x ys) ≡ look j (x ∷ xs)
unfolding find
found-put j x xs ys h = ground (arith, find-put Peer.addr j x ys)

no_weight :
    (g : Peer → ℕ) (x : Peer) (ys : List Peer)
    → look x.addr ys ≡ none
    → weight? g (look x.addr ys) ≡ 0
no_weight g x ys h = rw h refl

-- Sorting peers with distinct addresses gives the same peers in strict order.
pub qsort-Sorts : (xs : List Peer) → Distinct xs → Sorts xs (qsort xs)
unfolding qsort
qsort-Sorts [] d = record { sorted = tt; found = λ j. refl; counted = λ g. refl; every = λ P a. tt }
qsort-Sorts (x ∷ xs) d =
    let s = qsort-Sorts xs d.1 in
    let miss : look x.addr (qsort xs) ≡ none = s.found x.addr ∙ d.0 in
    rw (sort_insert-put x (qsort xs) miss) (record {
      sorted = put-IsSorted Peer.addr x (qsort xs) s.sorted;
      found = λ j. found-put j x xs (qsort xs) (s.found j);
      counted = λ g. omega (
        arith,
        sum_by-put g Peer.addr x (qsort xs) s.sorted,
        s.counted g,
        no_weight g x (qsort xs) miss,
      );
      every = λ P a. All-put Peer.addr P x (qsort xs) a.0 (s.every P a.1);
    })

pub look-append :
    (j : List ℕ) (xs ys : List Peer)
    → look j (xs ++ ys) ≡ elim (look j xs) [ none ↦ look j ys | some x ↦ some x ]
unfolding find
look-append j [] ys = refl
look-append j (x ∷ xs) ys = ground (arith, look-append j xs ys)
