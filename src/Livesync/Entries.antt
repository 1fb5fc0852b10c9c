-- ===== src/Livesync/Entries.antt =====
-- Announcements as the bytes of a packet.
use tstracker.Base.{
  ℕ, ◌*◌, ◌≡◌, refl, Option, none, some, List, [], ◌∷◌, ◌++◌, append_assoc, length, length-append,
  take, drop, take-append, drop-append, All, arith, ◌>>=◌,
}
use tstracker.Peer.{Peer, bytes}
use tstracker.Livesync.{peer_of_bytes}

pub record Announced : Type 0 where
  pub hash : List ℕ
  pub peer : Peer

-- The sizes that the C types have.
pub record IsWhole (a : Announced) : Type 0 where
  pub hash_long : length a.hash ≡ 20
  pub addr_long : length a.peer.addr ≡ 6

abbrev pub entries : List Announced → List ℕ
entries [] = []
entries (a ∷ xs) = a.hash ++ (bytes a.peer ++ entries xs)

pub take-at : (n : ℕ) (xs ys : List ℕ) → length xs ≡ n → take n (xs ++ ys) ≡ xs
take-at n xs ys e = rw (← e) (take-append xs ys)

pub drop-at : (n : ℕ) (xs ys : List ℕ) → length xs ≡ n → drop n (xs ++ ys) ≡ ys
drop-at n xs ys e = rw (← e) (drop-append xs ys)

pub peer_of_bytes-bytes :
    (addr : List ℕ) (flag time : ℕ)
    → length addr ≡ 6
    → peer_of_bytes (addr ++ flag ∷ time ∷ []) ≡ record { addr = addr; flag = flag; time = time }
peer_of_bytes-bytes (a ∷ b ∷ c ∷ d ∷ e ∷ f ∷ []) flag time h = refl
peer_of_bytes-bytes [] flag time h = absurd (omega (arith, h))
peer_of_bytes-bytes (a ∷ []) flag time h = absurd (omega (arith, h))
peer_of_bytes-bytes (a ∷ b ∷ []) flag time h = absurd (omega (arith, h))
peer_of_bytes-bytes (a ∷ b ∷ c ∷ []) flag time h = absurd (omega (arith, h))
peer_of_bytes-bytes (a ∷ b ∷ c ∷ d ∷ []) flag time h = absurd (omega (arith, h))
peer_of_bytes-bytes (a ∷ b ∷ c ∷ d ∷ e ∷ []) flag time h = absurd (omega (arith, h))
peer_of_bytes-bytes (a ∷ b ∷ c ∷ d ∷ e ∷ f ∷ g ∷ s) flag time h = absurd (omega (arith, h))

pub length-bytes : (p : Peer) → length p.addr ≡ 6 → length (bytes p) ≡ 8
length-bytes p e = omega (arith, length-append p.addr (p.flag ∷ p.time ∷ []), e)

pub length-entries : (xs : List Announced) → All IsWhole xs → length (entries xs) ≡ 28 * length xs
length-entries [] w = refl
length-entries (a ∷ xs) (v, w) = omega (
  arith,
  length-append a.hash (bytes a.peer ++ entries xs),
  length-append (bytes a.peer) (entries xs),
  length-bytes a.peer v.addr_long,
  v.hash_long,
  length-entries xs w,
)

pub entries-append : (xs ys : List Announced) → entries (xs ++ ys) ≡ entries xs ++ entries ys
entries-append [] ys = refl
entries-append (a ∷ xs) ys = simp (entries-append xs ys, append_assoc) refl

pub bind_same :
    {A B : Type 0} (o : Option A) (f g : A → Option B)
    → ((t : A) → f t ≡ g t)
    → (o >>= f) ≡ (o >>= g)
bind_same none f g e = refl
bind_same (some t) f g e = e t

pub bind_assoc :
    {A B C : Type 0} (o : Option A) (f : A → Option B) (g : B → Option C) (h : A → Option C)
    → ((t : A) → h t ≡ (f t >>= g))
    → (o >>= h) ≡ ((o >>= f) >>= g)
bind_assoc none f g h e = refl
bind_assoc (some t) f g h e = e t

pub forget :
    {A B : Type 0} (o : Option A) (b : B) → ((o >>= λ t. some (t, b)) >>= λ (t, c). some t) ≡ o
forget none b = refl
forget (some t) b = refl
