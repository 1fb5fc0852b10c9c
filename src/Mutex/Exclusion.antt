-- ===== src/Mutex/Exclusion.antt =====
-- The locked buckets under any interleaving of threads that unlock only what they have locked.
use tstracker.Base.{
  ℕ, zero, suc, ◌≤◌, ◌<◌, ◌≡◌, ◌≢◌, ◌⊎◌, ◌∙◌, refl, sym, ap, inl, inr, Bool, true, false, none,
  some, List, [], ◌∷◌, ◌++◌, map, length, length-append, length-map, get_elem?, arith, ◌==◌,
  if◌then◌else◌, Bool-cases,
}
use tstracker.Base.Int.{ℤ}
use tstracker.Mutex.{
  Locks, max_threads, is_locked, bucket_check, bucket_push, remove_loop, bucket_remove,
  mutex_bucket_lock, mutex_bucket_unlock,
}

-- A thread and the bucket it has locked.
pub record Hold : Type 0 where
  pub thread : ℕ
  pub bucket : ℕ

pub record System : Type 0 where
  pub locks : Locks
  pub holds : List Hold

unfoldable pub holds_it : ℕ → ℕ → List Hold → Bool
holds_it thread bucket [] = false
holds_it thread bucket (h ∷ hs) =
    let rest = holds_it thread bucket hs in if h.bucket == bucket then h.thread == thread else rest

unfoldable pub release : ℕ → List Hold → List Hold
release bucket [] = []
release bucket (h ∷ hs) =
    let rest = release bucket hs in if h.bucket == bucket then hs else h ∷ rest

pub data Step : System → System → Type 0 where
  locks_it :
      (s : System) (thread bucket : ℕ) (l : Locks)
      → mutex_bucket_lock bucket s.locks ≡ some l
      → Step s (record {
        locks = l;
        holds = s.holds ++ record { thread = thread; bucket = bucket } ∷ [];
      })
  unlocks_it :
      (s : System) (thread bucket : ℕ) (delta : ℤ)
      → holds_it thread bucket s.holds ≡ true
      → Step s (record {
        locks = mutex_bucket_unlock bucket delta s.locks;
        holds = release bucket s.holds;
      })

pub data Reaches (s : System) : System → Type 0 where
  here : Reaches s s
  then_to : (t u : System) → Reaches s t → Step t u → Reaches s u

abbrev pub start : System
start = record { locks = record { locklist = []; torrent_count = 0 }; holds = [] }

-- No bucket stands twice.
abbrev pub IsDistinct : List ℕ → Type 0
IsDistinct [] = Unit
IsDistinct (b ∷ bs) = (is_locked b bs ≡ false) × IsDistinct bs

pub record IsExclusive (s : System) : Type 0 where
  pub listed : s.locks.locklist ≡ map Hold.bucket s.holds
  pub distinct : IsDistinct s.locks.locklist
  pub few : length s.locks.locklist ≤ max_threads

is_locked-append :
    (b c : ℕ) (xs : List ℕ) → is_locked b xs ≡ false → c ≢ b → is_locked b (xs ++ c ∷ []) ≡ false
unfolding is_locked
is_locked-append b c [] e n = ground arith
is_locked-append b c (x ∷ xs) e n = ground (arith, is_locked-append b c xs)

append-IsDistinct :
    (b : ℕ) (xs : List ℕ) → is_locked b xs ≡ false → IsDistinct xs → IsDistinct (xs ++ b ∷ [])
unfolding is_locked
append-IsDistinct b [] e d = (refl, tt)
append-IsDistinct b (x ∷ xs) e d =
    (is_locked-append x b xs d.0 (ground arith), append-IsDistinct b xs (ground arith) d.1)

is_locked-remove :
    (b c : ℕ) (xs : List ℕ) → is_locked b xs ≡ false → is_locked b (remove_loop c xs) ≡ false
unfolding is_locked remove_loop
is_locked-remove b c [] e = refl
is_locked-remove b c (x ∷ xs) e = ground (arith, is_locked-remove b c xs)

remove_loop-IsDistinct :
    (b : ℕ) (xs : List ℕ)
    → IsDistinct xs
    → IsDistinct (remove_loop b xs)
      × (is_locked b (remove_loop b xs) ≡ false)
      × (length (remove_loop b xs) ≤ length xs)
unfolding remove_loop is_locked
remove_loop-IsDistinct b [] d = (tt, refl, omega arith)
remove_loop-IsDistinct b (x ∷ xs) d =
    let (i, n, l) = remove_loop-IsDistinct b xs d.1 in
    elim (Bool-cases (x == b)) [
      | inl hit ↦ let same : x ≡ b = ground arith in rw hit (d.1, rw same at d.0, omega arith)
      | inr miss ↦ rw miss ((is_locked-remove x b xs d.0, i), ground (arith, n), omega (arith, l))
    ]

map-release :
    (b : ℕ) (hs : List Hold) → remove_loop b (map Hold.bucket hs) ≡ map Hold.bucket (release b hs)
unfolding remove_loop release
map-release b [] = refl
map-release b (h ∷ hs) = ground (arith, map-release b hs)

map-append :
    (hs : List Hold) (h : Hold)
    → map Hold.bucket (hs ++ h ∷ []) ≡ map Hold.bucket hs ++ h.bucket ∷ []
map-append [] h = refl
map-append (k ∷ ks) h = ap (◌∷◌ k.bucket) (map-append ks h)

Step-IsExclusive : (s t : System) → Step s t → IsExclusive s → IsExclusive t
unfolding mutex_bucket_lock mutex_bucket_unlock bucket_check bucket_push bucket_remove
Step-IsExclusive _ _ (locks_it s thread bucket l e) x =
    elim (Bool-cases (bucket_check bucket s.locks)) [
      | inl free ↦
          let same : l ≡ bucket_push bucket s.locks = ground arith in
          rw same (record {
            listed =
                ap (λ xs. xs ++ bucket ∷ []) x.listed
                ∙ sym (map-append s.holds (record { thread = thread; bucket = bucket }));
            distinct = append-IsDistinct bucket s.locks.locklist (ground (arith, free)) x.distinct;
            few = ground (arith, length-append s.locks.locklist (bucket ∷ []), x.few, free);
          })
      | inr held ↦ absurd (ground arith)
    ]
Step-IsExclusive _ _ (unlocks_it s thread bucket delta e) x =
    let (d, _, n) = remove_loop-IsDistinct bucket s.locks.locklist x.distinct in
    record {
      listed = rw x.listed (map-release bucket s.holds);
      distinct = d;
      few = omega (arith, n, x.few);
    }

Reaches-IsExclusive : (s : System) → Reaches start s → IsExclusive s
Reaches-IsExclusive _ here = record { listed = refl; distinct = tt; few = omega arith }
Reaches-IsExclusive _ (then_to t u r st) = Step-IsExclusive t u st (Reaches-IsExclusive t r)

is_locked-held :
    (b : ℕ) (hs : List Hold) (i : ℕ) {h : Hold}
    → get_elem? hs i ≡ some h
    → is_locked b (map Hold.bucket hs) ≡ false
    → h.bucket ≢ b
unfolding is_locked
is_locked-held b [] i e f = cc
is_locked-held b (k ∷ ks) zero e f = ground arith
is_locked-held b (k ∷ ks) (suc i) e f = is_locked-held b ks i e (ground arith)

one_holder :
    (hs : List Hold) (i j : ℕ) {h k : Hold}
    → IsDistinct (map Hold.bucket hs)
    → get_elem? hs i ≡ some h
    → get_elem? hs j ≡ some k
    → h.bucket ≡ k.bucket
    → i ≡ j
one_holder [] i j d e f same = cc
one_holder (x ∷ xs) zero zero d e f same = refl
one_holder (x ∷ xs) zero (suc j) {h} {k} d e f same =
    let q : x ≡ h = ground arith in
    absurd (is_locked-held x.bucket xs j f d.0 (sym same ∙ ap Hold.bucket (sym q)))
one_holder (x ∷ xs) (suc i) zero {h} {k} d e f same =
    let q : x ≡ k = ground arith in
    absurd (is_locked-held x.bucket xs i e d.0 (same ∙ ap Hold.bucket (sym q)))
one_holder (x ∷ xs) (suc i) (suc j) d e f same = ap suc (one_holder xs i j d.1 e f same)

holder :
    (b : ℕ) (hs : List Hold)
    → is_locked b (map Hold.bucket hs) ≡ true
    → (i : ℕ) × (h : Hold) × (get_elem? hs i ≡ some h) × (h.bucket ≡ b)
unfolding is_locked
holder b [] e = cc
holder b (h ∷ hs) e = elim (Bool-cases (h.bucket == b)) [
  | inl hit ↦ (0, h, refl, ground arith)
  | inr miss ↦ let (i, k, a, c) = holder b hs (ground arith) in (suc i, k, a, c)
]

pub record Excludes (s : System) : Type 0 where
  pub exclusive :
      (i j : ℕ) {h k : Hold}
      → get_elem? s.holds i ≡ some h
      → get_elem? s.holds j ≡ some k
      → h.bucket ≡ k.bucket
      → i ≡ j
  pub few : length s.holds ≤ max_threads
  pub waits :
      (b : ℕ)
      → mutex_bucket_lock b s.locks ≡ none
      → (length s.holds ≡ max_threads)
        ⊎ ((i : ℕ) × (h : Hold) × (get_elem? s.holds i ≡ some h) × (h.bucket ≡ b))
  pub freed :
      (b : ℕ) (delta : ℤ)
      → length s.holds < max_threads
      → mutex_bucket_lock b (mutex_bucket_unlock b delta s.locks) ≢ none

-- In every state that the threads can reach from the start, whatever their interleaving, no bucket
-- is held twice, at most 16 are held, a thread waits for a bucket only while it is held or 16 are,
-- and while fewer are held a bucket that is unlocked can be locked at once.
pub Reaches-Excludes : (s : System) → Reaches start s → Excludes s
unfolding mutex_bucket_lock mutex_bucket_unlock bucket_check bucket_remove
Reaches-Excludes s r =
    let x = Reaches-IsExclusive s r in
    let n : length s.locks.locklist ≡ length s.holds =
      ap length x.listed ∙ length-map Hold.bucket s.holds in
    record {
      exclusive = λ i j e f. one_holder s.holds i j (rw x.listed at x.distinct) e f;
      few = omega (arith, n, x.few);
      waits = λ b e. elim (Bool-cases (length s.locks.locklist == max_threads)) [
        | inl full ↦ inl (ground arith)
        | inr room ↦
            let taken : is_locked b s.locks.locklist ≡ true = ground arith in
            inr (holder b s.holds (rw x.listed at taken))
      ];
      freed = λ b delta room e.
          let (_, gone, le) = remove_loop-IsDistinct b s.locks.locklist x.distinct in
          ground (arith, gone, le, n);
    }
