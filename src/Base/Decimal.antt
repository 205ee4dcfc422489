-- ===== src/Base/Decimal.antt =====
-- Decimal numbers in C strings: atoi, strtoul with base 10 and the %u of printf.
use Prim.Native.Nat.{ℕ, zero, suc, ◌+◌, ◌-◌, ◌*◌, ◌/◌, ◌%◌}
use mathlib.Core.Bool.{Bool, ◌&&◌, ◌||◌}
use mathlib.Core.List.{List, [], ◌∷◌, ◌++◌}
use spangap_core.Base.Tests.{ltb, leb, ◌==◌, if◌then◌else◌}
use spangap_core.Base.Chars.{is_digit}
use spangap_core.Base.Int.{ℤ, pos, negsuc}

-- The space test of atoi.
abbrev pub is_space : ℕ → Bool
is_space c = c == 32 || (leb 9 c && leb c 13)

unfoldable pub skip_space : List ℕ → List ℕ
skip_space [] = []
skip_space (x ∷ xs) = if is_space x then skip_space xs else x ∷ xs

-- The value of the leading digits, `n` being the value of those read so far.
unfoldable pub digits_value : ℕ → List ℕ → ℕ
digits_value n [] = n
digits_value n (x ∷ xs) = if is_digit x then digits_value (n * 10 + (x - 48)) xs else n

unfoldable pub negate : ℕ → ℤ
negate zero = pos 0
negate (suc n) = negsuc n

unfoldable pub signed_value : List ℕ → ℤ
signed_value [] = pos 0
signed_value (x ∷ xs) =
    if x == 45
    then negate (digits_value 0 xs)
    else if x == 43
    then pos (digits_value 0 xs)
    else pos (digits_value 0 (x ∷ xs))

unfoldable pub atoi : List ℕ → ℤ
atoi s = signed_value (skip_space s)

-- strtoul(s, nullptr, 10) with a long of 32 bits: it stops at the largest value, and a minus sign negates.
unfoldable pub saturate : ℕ → ℕ
saturate n = if ltb n 4294967296 then n else 4294967295

unfoldable pub negate_u32 : ℕ → ℕ
negate_u32 n = if ltb n 4294967296 then (4294967296 - n) % 4294967296 else 4294967295

unfoldable pub unsigned_value : List ℕ → ℕ
unsigned_value [] = 0
unsigned_value (x ∷ xs) =
    if x == 45
    then negate_u32 (digits_value 0 xs)
    else if x == 43
    then saturate (digits_value 0 xs)
    else saturate (digits_value 0 (x ∷ xs))

unfoldable pub strtoul : List ℕ → ℕ
strtoul s = unsigned_value (skip_space s)

-- The decimal digits of a number below 10 ^ (suc fuel).
unfoldable pub decimal_loop : ℕ → ℕ → List ℕ
decimal_loop zero n = (48 + n % 10) ∷ []
decimal_loop (suc fuel) n =
    let more = decimal_loop fuel (n / 10) ++ (48 + n % 10) ∷ [] in
    if ltb n 10 then (48 + n) ∷ [] else more

-- snprintf("%u") of a number of 32 bits, which has at most ten digits.
unfoldable pub decimal : ℕ → List ℕ
decimal n = decimal_loop 9 n
