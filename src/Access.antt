-- ===== src/Access.antt =====
-- src/opentracker/ot_accesslist.c: which addresses may do what. The networks and the list of hashes
-- are not part of the build.
pub mod Granted
use tstracker.Base.{
  ℕ, Bool, true, false, not, ◌&&◌, List, [], ◌∷◌, ◌++◌, length, bit_and, memcmp, Ordering, leb,
  ◌==◌, if◌then◌else◌,
}
use tstracker.Base.Int.{ℤ, pos, negsuc}

-- `g_adminip_addresses` and `g_adminip_permissions` at one index; the state is the list of them up to
-- `g_adminip_count`.
pub record Blessing : Type 0 where
  pub ip : List ℕ
  pub permissions : ℕ

abbrev pub adminip_max : ℕ
adminip_max = 64

abbrev pub may_stat : ℕ
may_stat = 2

unfoldable pub accesslist_blessip : List ℕ → ℕ → List Blessing → ℤ × List Blessing
accesslist_blessip ip permissions s =
    if leb adminip_max (length s)
    then (negsuc 0, s)
    else (pos 0, s ++ record { ip = ip; permissions = permissions } ∷ [])

abbrev pub same_ip : List ℕ → List ℕ → Bool
same_ip xs ys = elim (memcmp xs ys) [ Ordering.eq ↦ true | _ ↦ false ]

unfoldable pub accesslist_isblessed : List ℕ → ℕ → List Blessing → Bool
accesslist_isblessed ip permissions [] = false
accesslist_isblessed ip permissions (b ∷ bs) =
    let rest = accesslist_isblessed ip permissions bs in
    if same_ip b.ip ip && not (bit_and b.permissions permissions == 0) then true else rest

-- The blessings of a configuration file, in order, with the result of each left aside as the
-- callers do.
unfoldable pub bless_all : List Blessing → List Blessing → List Blessing
unfolding accesslist_blessip
bless_all [] s = s
bless_all (b ∷ bs) s = bless_all bs (accesslist_blessip b.ip b.permissions s).1
