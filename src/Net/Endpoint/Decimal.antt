-- ===== src/Net/Endpoint/Decimal.antt =====
-- The decimal text of a number by `std::to_string`, and its reading by `std::strtoul` in base 10.
use Prim.Native.Nat.{min}
use openmesh_messenger.Base.{
  ℕ, zero, suc, ◌+◌, ◌-◌, ◌*◌, ◌/◌, ◌%◌, ◌^◌, ◌<◌, ◌≡◌, refl, sym, ap, ◌∙◌, Bool, true, false, ◌&&◌,
  ◌||◌, inl, inr, [], ◌∷◌, ◌++◌, arith, Bytes, All, ltb, leb, ◌==◌, if◌then◌else◌, Bool-cases,
  ltb→le, All-append, length, length-append, subst,
}

abbrev pub is_digit : ℕ → Bool
is_digit c = leb b'0' c && leb c b'9'

-- One digit more than the fuel is never needed: each step divides by ten.
decimal_within : ℕ → ℕ → Bytes
decimal_within zero n = []
decimal_within (suc fuel) n =
    let front = decimal_within fuel (n / 10) in
    if ltb n 10 then (48 + n) ∷ [] else front ++ ((48 + n % 10) ∷ [])

unfoldable pub decimal : ℕ → Bytes
unfolding decimal_within
decimal n = decimal_within (suc n) n

-- `isspace` of the C locale.
unfoldable pub is_space : ℕ → Bool
is_space c = c == 32 || (leb 9 c && leb c 13)

unfoldable pub skip_spaces : Bytes → Bytes
skip_spaces [] = []
skip_spaces (c ∷ s) = if is_space c then skip_spaces s else c ∷ s

-- The number that the leading digits write.
read_digits : ℕ → Bytes → ℕ
read_digits acc [] = acc
read_digits acc (c ∷ s) =
    let more = read_digits (acc * 10 + (c - 48)) s in if is_digit c then more else acc

abbrev ulong_max : ℕ
ulong_max = 2 ^ 64 - 1

-- A minus sign negates in `unsigned long`; what is too large gives ULONG_MAX.
read_signed : Bytes → ℕ
read_signed [] = 0
read_signed (c ∷ s) =
    let value = read_digits 0 s in
    if c == b'-'
    then (if ltb ulong_max value then ulong_max else (2 ^ 64 - value) % 2 ^ 64)
    else if c == b'+'
    then min value ulong_max
    else min (read_digits 0 (c ∷ s)) ulong_max

unfoldable pub strtoul : Bytes → ℕ
unfolding is_space skip_spaces read_digits read_signed
strtoul s = read_signed (skip_spaces s)

abbrev pub IsDigits : Bytes → Type 0
IsDigits = All (λ c. is_digit c ≡ true)

decimal_within-IsDigits : (fuel n : ℕ) → IsDigits (decimal_within fuel n)
unfolding decimal_within
decimal_within-IsDigits zero n = tt
decimal_within-IsDigits (suc fuel) n = elim (Bool-cases (ltb n 10)) [
  | inl small ↦ rw small (ground arith, tt)
  | inr large ↦ rw large (
      All-append _ (decimal_within fuel (n / 10)) _ (decimal_within-IsDigits fuel (n / 10))
        (ground arith, tt))
]

pub decimal-IsDigits : (n : ℕ) → IsDigits (decimal n)
unfolding decimal
decimal-IsDigits n = decimal_within-IsDigits (suc n) n

read_digits-append :
    (acc : ℕ) (xs : Bytes) (d : ℕ)
    → IsDigits xs
    → d < 10
    → read_digits acc (xs ++ (48 + d) ∷ []) ≡ read_digits acc xs * 10 + d
unfolding read_digits
read_digits-append acc [] d h lt = ground arith
read_digits-append acc (x ∷ xs) d h lt =
    ground (arith, read_digits-append (acc * 10 + (x - 48)) xs d h.1 lt)

below : (n fuel : ℕ) → n < suc fuel → ltb n 10 ≡ false → n / 10 < fuel
below n fuel h large = omega (arith, ltb→le n 10 large)

read_digits-decimal : (fuel n : ℕ) → n < fuel → read_digits 0 (decimal_within fuel n) ≡ n
unfolding decimal_within
read_digits-decimal zero n h = absurd (omega arith)
read_digits-decimal (suc fuel) n h = elim (Bool-cases (ltb n 10)) [
  | inl small ↦ rw small (unfold read_digits in ground arith)
  | inr large ↦ rw large (
      omega (
        arith,
        read_digits-append 0 (decimal_within fuel (n / 10)) (n % 10)
            (decimal_within-IsDigits fuel (n / 10)) (omega arith),
        read_digits-decimal fuel (n / 10) (below n fuel h large),
      ))
]

-- A text of digits that is not empty has no space or sign in front.
strtoul-digits :
    (c : ℕ) (s : Bytes)
    → is_digit c ≡ true
    → strtoul (c ∷ s) ≡ min (read_digits 0 (c ∷ s)) ulong_max
unfolding strtoul
strtoul-digits c s h = ground (arith, h)

pub length-decimal_pos : (n : ℕ) → 0 < length (decimal n)
unfolding decimal decimal_within
length-decimal_pos n =
    let front = decimal_within n (n / 10) in
    ground (arith, length-append front ((48 + n % 10) ∷ []))

split_cons : (xs : Bytes) → 0 < length xs → (c : ℕ) × (s : Bytes) × (xs ≡ c ∷ s)
split_cons [] h = absurd (omega arith)
split_cons (c ∷ s) h = (c, s, refl)

-- The text of a 64-bit number reads back as the number.
pub strtoul-decimal : (n : ℕ) → n < 2 ^ 64 → strtoul (decimal n) ≡ n
strtoul-decimal n h =
    let (c, s, e) = split_cons (decimal n) (length-decimal_pos n) in
    let digits : IsDigits (c ∷ s) = subst IsDigits e (decimal-IsDigits n) in
    let value : read_digits 0 (c ∷ s) ≡ n =
      ap (read_digits 0) (sym e) ∙ unfold decimal in read_digits-decimal (suc n) n (omega arith) in
    ap strtoul e ∙ strtoul-digits c s digits.0 ∙ omega (arith, value)
