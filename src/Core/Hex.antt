-- ===== src/Core/Hex.antt =====
-- Hexadecimal text: `core::to_hex` (libs/core/include/openmesh/core/hex.hpp), by which the program
-- keys its maps, and the command line's `from_hex` (cli/src/main.cpp).
use openmesh_messenger.Base.{
  ◌>>=◌, ℕ, zero, suc, ◌+◌, ◌-◌, ◌*◌, ◌/◌, ◌%◌, ◌<◌, ◌≤◌, ◌≡◌, refl, sym, ap, ◌∙◌, Bool, true,
  false, not, ◌&&◌, Option, none, some, [], ◌∷◌, arith, Bytes, IsBytes, All, length, get_or, leb,
  ◌==◌, if◌then◌else◌,
}

-- "0123456789abcdef".
abbrev hex_digits : Bytes
hex_digits = 48 ∷ 49 ∷ 50 ∷ 51 ∷ 52 ∷ 53 ∷ 54 ∷ 55 ∷ 56 ∷ 57 ∷ 97 ∷ 98 ∷ 99 ∷ 100 ∷ 101 ∷ 102 ∷ []

hex_digit : ℕ → ℕ
hex_digit n = get_or hex_digits n 0

unfoldable pub to_hex : Bytes → Bytes
unfolding hex_digit
to_hex [] = []
to_hex (b ∷ bytes) = hex_digit (b / 16) ∷ hex_digit (b % 16) ∷ to_hex bytes

-- The value of a digit of either case; `none` is the C++ -1.
unfoldable pub nibble : ℕ → Option ℕ
nibble c =
    if leb b'0' c && leb c b'9'
    then some (c - b'0')
    else if leb b'a' c && leb c b'f'
    then some (c - b'a' + 10)
    else if leb b'A' c && leb c b'F'
    then some (c - b'A' + 10)
    else none

-- The loop over the pairs of digits. The caller has refused texts of odd length.
from_pairs : Bytes → Option Bytes
from_pairs [] = some []
from_pairs (c ∷ []) = none
from_pairs (c ∷ d ∷ text) = do
  hi ← nibble c
  lo ← nibble d
  rest ← from_pairs text
  some ((hi * 16 + lo) ∷ rest)

unfoldable pub from_hex : Bytes → Option Bytes
unfolding from_pairs nibble
from_hex text = if not (length text % 2 == 0) then none else from_pairs text

-- Every digit below the bound passes the test.
digits_pass : (ℕ → Bool) → ℕ → Bool
digits_pass test zero = true
digits_pass test (suc d) = if test d then digits_pass test d else false

digit_passes :
    (test : ℕ → Bool) (bound d : ℕ) → d < bound → digits_pass test bound ≡ true → test d ≡ true
unfolding digits_pass
digit_passes test zero d below passed = absurd (omega arith)
digit_passes test (suc top) d below passed = ground (arith, digit_passes test top d)

is_value : Option ℕ → ℕ → Bool
is_value none n = false
is_value (some m) n = m == n

digit_table : digits_pass (λ n. is_value (nibble (hex_digit n)) n) 16 ≡ true
unfolding digits_pass is_value nibble hex_digit
digit_table = refl

value_eq : (o : Option ℕ) (n : ℕ) → is_value o n ≡ true → o ≡ some n
unfolding is_value
value_eq none n h = cc
value_eq (some m) n h = ground arith

nibble-hex_digit : (n : ℕ) → n < 16 → nibble (hex_digit n) ≡ some n
nibble-hex_digit n h = value_eq _ n (digit_passes _ 16 n h digit_table)

length-to_hex : (bytes : Bytes) → length (to_hex bytes) ≡ 2 * length bytes
unfolding to_hex
length-to_hex [] = omega arith
length-to_hex (b ∷ bytes) = omega (arith, length-to_hex bytes)

from_pairs-to_hex : (bytes : Bytes) → IsBytes bytes → from_pairs (to_hex bytes) ≡ some bytes
unfolding to_hex from_pairs
from_pairs-to_hex [] h = refl
from_pairs-to_hex (b ∷ bytes) h =
    let joined : b / 16 * 16 + b % 16 ≡ b = omega arith in
    rw (
      nibble-hex_digit (b / 16) (omega arith),
      nibble-hex_digit (b % 16) (omega arith),
      from_pairs-to_hex bytes h.1,
      joined,
    )

-- The command line reads back the hexadecimal text of any byte string.
pub from_hex-to_hex : (bytes : Bytes) → IsBytes bytes → from_hex (to_hex bytes) ≡ some bytes
unfolding from_hex
from_hex-to_hex bytes h = ground (arith, length-to_hex bytes, from_pairs-to_hex bytes h)

-- Distinct byte strings have distinct map keys.
pub to_hex_injective : (a b : Bytes) → IsBytes a → IsBytes b → to_hex a ≡ to_hex b → a ≡ b
to_hex_injective a b h k e =
    some_injective (sym (from_hex-to_hex a h) ∙ ap from_hex e ∙ from_hex-to_hex b k)
  where
    some_injective : some a ≡ some b → a ≡ b
    some_injective p = cc

hex_digit-printing : (d : ℕ) → d < 16 → 48 ≤ hex_digit d
unfolding digits_pass hex_digit
hex_digit-printing d below = ground (arith, digit_passes (λ n. leb 48 (hex_digit n)) 16 d below all)
  where
    all : digits_pass (λ n. leb 48 (hex_digit n)) 16 ≡ true
    all = refl

-- The digits are printing characters.
pub to_hex-printing : (bytes : Bytes) → IsBytes bytes → All (λ c. 48 ≤ c) (to_hex bytes)
unfolding to_hex
to_hex-printing [] h = tt
to_hex-printing (b ∷ bytes) h = (
  hex_digit-printing (b / 16) (omega (arith, h.0)),
  (hex_digit-printing (b % 16) (omega arith), to_hex-printing bytes h.1),
)
