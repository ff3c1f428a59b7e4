-- ===== src/Endian.antt =====
-- Big-endian numbers in byte strings: the put and get helpers that
-- libs/protocol/src/packet.cpp and libs/storage/src/blob.hpp both write out.
use openmesh_messenger.Base.{
  ℕ, zero, suc, ◌+◌, ◌*◌, ◌/◌, ◌%◌, ◌^◌, ◌<◌, ◌≡◌, refl, sym, ap, ◌∙◌, [], ◌∷◌, ◌++◌, arith, Bytes,
  IsBytes, get_or, drop, get_or-drop, drop-add,
}

-- `for (shift = 8 * (n - 1); shift >= 0; shift -= 8) out.push_back((value >> shift) & 0xFF)`.
unfoldable pub put_be : ℕ → ℕ → Bytes
put_be zero value = []
put_be (suc n) value = ((value / 2 ^ (8 * n)) % 256) ∷ put_be n value

-- `for (i = 0; i < n; ++i) value = (value << 8) | in[offset + i]`, in a word of the given modulus.
-- The low eight bits of the shifted word are zero, so that `|` with a byte adds it.
unfoldable pub get_be : ℕ → ℕ → Bytes → ℕ → ℕ → ℕ
get_be modulus zero xs offset value = value
get_be modulus (suc n) xs offset value =
    get_be modulus n xs (offset + 1) ((value * 256) % modulus + get_or xs offset 0)

unfoldable pub put_u16 : ℕ → Bytes
put_u16 value = (value / 2 ^ 8) % 256 ∷ value % 256 ∷ []

unfoldable pub put_u32 : ℕ → Bytes
unfolding put_be
put_u32 value = put_be 4 value

unfoldable pub put_u64 : ℕ → Bytes
unfolding put_be
put_u64 value = put_be 8 value

unfoldable pub get_u16 : Bytes → ℕ → ℕ
get_u16 xs offset = (get_or xs offset 0 * 256 + get_or xs (offset + 1) 0) % 2 ^ 16

unfoldable pub get_u32 : Bytes → ℕ → ℕ
unfolding get_be
get_u32 xs offset = get_be (2 ^ 32) 4 xs offset 0

unfoldable pub get_u64 : Bytes → ℕ → ℕ
unfolding get_be
get_u64 xs offset = get_be (2 ^ 64) 8 xs offset 0

-- A reader at an offset reads the suffix that begins there.
get_be-drop :
    (modulus n : ℕ) (xs : Bytes) (offset value : ℕ)
    → get_be modulus n xs offset value ≡ get_be modulus n (drop offset xs) 0 value
unfolding get_be
get_be-drop modulus zero xs offset value = refl
get_be-drop modulus (suc n) xs offset value =
    let here : get_or xs offset 0 ≡ get_or (drop offset xs) 0 0 =
      ap (λ k. get_or xs k 0) (omega arith) ∙ get_or-drop offset 0 xs 0 in
    let rest = (value * 256) % modulus + get_or (drop offset xs) 0 0 in
    ap (λ b. get_be modulus n xs (offset + 1) ((value * 256) % modulus + b)) here
    ∙ get_be-drop modulus n xs (offset + 1) rest
    ∙ ap (λ (ys : Bytes). get_be modulus n ys 0 rest) (drop-add offset 1 xs)
    ∙ sym (get_be-drop modulus n (drop offset xs) 1 rest)

pub get_u16-drop : (xs : Bytes) (offset : ℕ) → get_u16 xs offset ≡ get_u16 (drop offset xs) 0
unfolding get_u16
get_u16-drop xs offset =
    let hi : get_or xs offset 0 ≡ get_or (drop offset xs) 0 0 =
      ap (λ k. get_or xs k 0) (omega arith) ∙ get_or-drop offset 0 xs 0 in
    rw (hi, get_or-drop offset 1 xs 0) refl

pub get_u32-drop : (xs : Bytes) (offset : ℕ) → get_u32 xs offset ≡ get_u32 (drop offset xs) 0
unfolding get_u32
get_u32-drop xs offset = get_be-drop (2 ^ 32) 4 xs offset 0

pub get_u64-drop : (xs : Bytes) (offset : ℕ) → get_u64 xs offset ≡ get_u64 (drop offset xs) 0
unfolding get_u64
get_u64-drop xs offset = get_be-drop (2 ^ 64) 8 xs offset 0

-- Reading back what was written.
pub get_u16-put_u16 : (v : ℕ) (rest : Bytes) → v < 2 ^ 16 → get_u16 (put_u16 v ++ rest) 0 ≡ v
unfolding get_u16 put_u16
get_u16-put_u16 v rest h = omega arith

pub get_u32-put_u32 : (v : ℕ) (rest : Bytes) → v < 2 ^ 32 → get_u32 (put_u32 v ++ rest) 0 ≡ v
unfolding get_u32 put_u32
get_u32-put_u32 v rest h = omega arith

pub get_u64-put_u64 : (v : ℕ) (rest : Bytes) → v < 2 ^ 64 → get_u64 (put_u64 v ++ rest) 0 ≡ v
unfolding get_u64 put_u64
get_u64-put_u64 v rest h = omega arith

pub put_u16-IsBytes : (v : ℕ) → IsBytes (put_u16 v)
unfolding put_u16
put_u16-IsBytes v = omega arith

pub put_u64-IsBytes : (v : ℕ) → IsBytes (put_u64 v)
unfolding put_u64
put_u64-IsBytes v = omega arith

-- Writing back what was read.
pub put_u16-get_u16 :
    (a b : ℕ) (rest : Bytes) → a < 256 → b < 256 → put_u16 (get_u16 (a ∷ b ∷ rest) 0) ≡ a ∷ b ∷ []
unfolding get_u16 put_u16
put_u16-get_u16 a b rest p q = ground arith

pub put_u64-get_u64 :
    (a b c d e f g h : ℕ) (rest : Bytes)
    → IsBytes (a ∷ b ∷ c ∷ d ∷ e ∷ f ∷ g ∷ h ∷ [])
    → put_u64 (get_u64 (a ∷ b ∷ c ∷ d ∷ e ∷ f ∷ g ∷ h ∷ rest) 0)
      ≡ a ∷ b ∷ c ∷ d ∷ e ∷ f ∷ g ∷ h ∷ []
unfolding get_u64 put_u64
put_u64-get_u64 a b c d e f g h rest p = ground arith

pub get_or-lt : (xs : Bytes) (i : ℕ) → IsBytes xs → get_or xs i 0 < 256
get_or-lt [] i h = omega arith
get_or-lt (x ∷ xs) zero h = h.0
get_or-lt (x ∷ xs) (suc i) h = get_or-lt xs i h.1

-- A byte added below a shifted word stays in the word.
get_be-lt :
    (n : ℕ) (xs : Bytes) (offset value : ℕ)
    → IsBytes xs
    → value < 2 ^ 64
    → get_be (2 ^ 64) n xs offset value < 2 ^ 64
unfolding get_be
get_be-lt zero xs offset value h v = v
get_be-lt (suc n) xs offset value h v =
    get_be-lt n xs (offset + 1) _ h (omega (arith, get_or-lt xs offset h))

pub get_u64-lt : (xs : Bytes) (offset : ℕ) → IsBytes xs → get_u64 xs offset < 2 ^ 64
unfolding get_u64
get_u64-lt xs offset h = get_be-lt 8 xs offset 0 h (omega arith)
