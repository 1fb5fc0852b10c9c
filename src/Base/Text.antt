-- ===== src/Base/Text.antt =====
-- What C prints and stores: ASCII text, decimal numbers, and words in network byte order.
use Prim.Native.Char.{code}
use Prim.Native.String.{String}
use Prim.Native.Nat.{ℕ, zero, suc, ◌+◌, ◌-◌, ◌*◌, ◌/◌, ◌%◌, ◌^◌, ◌≤◌, ◌<◌}
use mathlib.Core.Path.{◌≡◌, refl}
use mathlib.Core.Bool.{Bool, ◌&&◌}
use mathlib.Core.List.{List, [], ◌∷◌, ◌++◌}
use native.Mathlib.Omega.{arith}
use tstracker.Base.Tests.{ltb, leb, if◌then◌else◌}
use tstracker.Base.Lists.{length, length-append}

-- The bytes of an ASCII text.
abbrev pub codes : String → List ℕ
codes String.[] = []
codes (String.◌∷◌ c s) = code c ∷ codes s

-- `%u`, of a number below 10 ^ fuel.
unfoldable pub dec_loop : ℕ → ℕ → List ℕ
dec_loop zero n = []
dec_loop (suc fuel) n =
    let rest = dec_loop fuel (n / 10) in
    if ltb n 10 then (48 + n) ∷ [] else rest ++ (48 + n % 10) ∷ []

-- Twenty digits are enough for 64 bits.
unfoldable pub dec : ℕ → List ℕ
dec n = dec_loop 20 n

-- `%zd` of a `size_t`: from 2^63 on it prints a negative number.
unfoldable pub zd : ℕ → List ℕ
unfolding dec
zd n = if ltb n (2 ^ 63) then dec n else 45 ∷ dec (2 ^ 64 - n)

-- `htonl` of the low 32 bits, as it lies in memory.
unfoldable pub htonl : ℕ → List ℕ
htonl n = n / 2 ^ 24 % 256 ∷ n / 2 ^ 16 % 256 ∷ n / 2 ^ 8 % 256 ∷ n % 256 ∷ []

-- `ntohl` of four bytes in memory.
unfoldable pub ntohl : List ℕ → ℕ
ntohl (a ∷ b ∷ c ∷ d ∷ _) = ((a * 256 + b) * 256 + c) * 256 + d
ntohl _ = 0

pub ntohl-htonl : (n : ℕ) → n < 2 ^ 32 → ntohl (htonl n) ≡ n
unfolding ntohl htonl
ntohl-htonl n h = omega arith

pub length-htonl : (n : ℕ) → length (htonl n) ≡ 4
unfolding htonl
length-htonl n = refl

abbrev pub is_digit : ℕ → Bool
is_digit c = leb 48 c && leb c 57

length-dec_loop : (fuel n : ℕ) → length (dec_loop fuel n) ≤ fuel
unfolding dec_loop
length-dec_loop zero n = omega arith
length-dec_loop (suc fuel) n = ground (
  arith,
  length-dec_loop fuel (n / 10),
  length-append (dec_loop fuel (n / 10)) ((48 + n % 10) ∷ []),
)

pub length-dec : (n : ℕ) → length (dec n) ≤ 20
unfolding dec
length-dec n = length-dec_loop 20 n

pub length-zd : (n : ℕ) → length (zd n) ≤ 21
unfolding zd
length-zd n = ground (arith, length-dec n, length-dec (2 ^ 64 - n))
