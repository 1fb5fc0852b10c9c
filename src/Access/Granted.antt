-- ===== src/Access/Granted.antt =====
-- The permissions against the blessings that were asked for.
use tstracker.Base.{
  ℕ, zero, suc, ◌≤◌, ◌<◌, ◌≡◌, ◌≢◌, ◌∙◌, refl, ap, sym, inl, inr, Bool, true, not, ◌&&◌, some, List,
  [], ◌∷◌, ◌++◌, length, length-append, take, append_assoc, append-nil, get_elem?, bit_and,
  Ordering, memcmp, memcmp→eq, memcmp_self, leb, ◌==◌, Bool-cases, arith,
}
use tstracker.Access.{
  Blessing, adminip_max, accesslist_blessip, accesslist_isblessed, bless_all, same_ip,
}

-- One of the blessings there is room for lets the address do something of what is asked.
pub record Granted (bs : List Blessing) (ip : List ℕ) (permissions : ℕ) : Type 0 where
  pub index : ℕ
  pub blessing : Blessing
  pub early : index < adminip_max
  pub found : get_elem? bs index ≡ some blessing
  pub same : blessing.ip ≡ ip
  pub shared : bit_and blessing.permissions permissions ≢ 0

take_all : (n : ℕ) (s : List Blessing) → length s ≤ n → take n s ≡ s
take_all zero [] h = refl
take_all (suc n) [] h = refl
take_all zero (x ∷ xs) h = absurd (omega (arith, h))
take_all (suc n) (x ∷ xs) h = ap (◌∷◌ x) (take_all n xs (omega (arith, h)))

take-append_long : (n : ℕ) (s xs : List Blessing) → n ≤ length s → take n (s ++ xs) ≡ take n s
take-append_long zero s xs h = refl
take-append_long (suc n) [] xs h = absurd (omega (arith, h))
take-append_long (suc n) (x ∷ s) xs h = ap (◌∷◌ x) (take-append_long n s xs (omega (arith, h)))

-- Blessings are kept in order while there is room.
bless_all-take :
    (bs s : List Blessing) → length s ≤ adminip_max → bless_all bs s ≡ take adminip_max (s ++ bs)
unfolding bless_all accesslist_blessip
bless_all-take [] s room = rw (append-nil s) (sym (take_all adminip_max s room))
bless_all-take (b ∷ bs) s room = elim (Bool-cases (leb adminip_max (length s))) [
  | inl full ↦
      let long : adminip_max ≤ length s = ground (arith, full) in
      rw full (
        bless_all-take bs s room
        ∙ take-append_long adminip_max s bs long
        ∙ sym (take-append_long adminip_max s (b ∷ bs) long))
  | inr free ↦
      let short : length (s ++ b ∷ []) ≤ adminip_max =
        ground (arith, free, length-append s (b ∷ [])) in
      rw free
        (bless_all-take bs (s ++ b ∷ []) short ∙ ap (take adminip_max) (append_assoc s (b ∷ []) bs))
]

get_elem?-take :
    (n i : ℕ) (bs : List Blessing) (b : Blessing)
    → i < n
    → get_elem? bs i ≡ some b
    → get_elem? (take n bs) i ≡ some b
get_elem?-take zero i bs b h e = absurd (omega (arith, h))
get_elem?-take (suc n) i [] b h e = cc
get_elem?-take (suc n) zero (x ∷ bs) b h e = e
get_elem?-take (suc n) (suc i) (x ∷ bs) b h e = get_elem?-take n i bs b (omega (arith, h)) e

-- If a blessing is one that the test looks for.
abbrev grants : List ℕ → ℕ → Blessing → Bool
grants ip permissions b = same_ip b.ip ip && not (bit_and b.permissions permissions == 0)

accesslist_isblessed-get_elem? :
    (bs : List Blessing) (ip : List ℕ) (permissions i : ℕ) (b : Blessing)
    → get_elem? bs i ≡ some b
    → grants ip permissions b ≡ true
    → accesslist_isblessed ip permissions bs ≡ true
unfolding accesslist_isblessed
accesslist_isblessed-get_elem? [] ip permissions i b e g = cc
accesslist_isblessed-get_elem? (x ∷ bs) ip permissions zero b e g = ground (arith, e, g)
accesslist_isblessed-get_elem? (x ∷ bs) ip permissions (suc i) b e g =
    ground (arith, accesslist_isblessed-get_elem? bs ip permissions i b e g)

accesslist_isblessed-found :
    (n : ℕ) (bs : List Blessing) (ip : List ℕ) (permissions : ℕ)
    → accesslist_isblessed ip permissions (take n bs) ≡ true
    → (i : ℕ) × (b : Blessing) × (i < n)
      × (get_elem? bs i ≡ some b)
      × (grants ip permissions b ≡ true)
unfolding accesslist_isblessed
accesslist_isblessed-found zero bs ip permissions h = cc
accesslist_isblessed-found (suc n) [] ip permissions h = cc
accesslist_isblessed-found (suc n) (x ∷ bs) ip permissions h =
    elim (Bool-cases (grants ip permissions x)) [
      | inl g ↦ (0, x, omega arith, refl, g)
      | inr other ↦
          let (i, b, early, found, g) =
            accesslist_isblessed-found n bs ip permissions (rw other at h) in
          (suc i, b, omega (arith, early), found, g)
    ]

grants-Granted :
    (ip : List ℕ) (permissions : ℕ) (b : Blessing)
    → grants ip permissions b ≡ true
    → (b.ip ≡ ip) × (bit_and b.permissions permissions ≢ 0)
grants-Granted ip permissions b g =
    (memcmp→eq b.ip ip (ground (arith, g)), λ z. ground (arith, g, z))

Granted-grants :
    (ip : List ℕ) (permissions : ℕ) (b : Blessing)
    → b.ip ≡ ip
    → bit_and b.permissions permissions ≢ 0
    → grants ip permissions b ≡ true
Granted-grants ip permissions b same shared =
    let equal : memcmp b.ip ip ≡ Ordering.eq = rw same (memcmp_self ip) in
    ground (arith, equal, shared)

-- However many blessings a configuration asks for, an address may then do something of what is asked
-- just when one of the first 64 of them lets it: others have no effect, and none takes anything away.
pub accesslist_isblessed-Granted :
    (bs : List Blessing) (ip : List ℕ) (permissions : ℕ)
    → (accesslist_isblessed ip permissions (bless_all bs []) ≡ true → Granted bs ip permissions)
      × (Granted bs ip permissions → accesslist_isblessed ip permissions (bless_all bs []) ≡ true)
accesslist_isblessed-Granted bs ip permissions = (
  λ h.
      let (i, b, early, found, g) =
        accesslist_isblessed-found adminip_max bs ip permissions
          (rw (bless_all-take bs [] (omega arith)) at h) in
      let (same, shared) = grants-Granted ip permissions b g in
      record {
        index = i;
        blessing = b;
        early = early;
        found = found;
        same = same;
        shared = shared;
      },
  λ g. rw (bless_all-take bs [] (omega arith)) (
      accesslist_isblessed-get_elem? (take adminip_max bs) ip permissions g.index g.blessing
        (get_elem?-take adminip_max g.index bs g.blessing g.early g.found)
        (Granted-grants ip permissions g.blessing g.same g.shared)),
)
