-- ===== src/Storage/Reader.antt =====
-- The `Reader` of libs/storage/src/blob.hpp with its cursor, and the writers beside it. The C++
-- reader leaves its arguments unspecified after a failed read; every caller stops there.
pub mod RoundTrip
use openmesh_messenger.Base.{
  ℕ, zero, suc, ◌+◌, ◌%◌, ◌^◌, Bool, Option, none, some, List, [], ◌∷◌, ◌++◌, Bytes, length, take,
  drop, get_or, ltb, ◌==◌, if◌then◌else◌,
}
use openmesh_messenger.Endian.{put_u16, put_u32, put_u64, get_u16, get_u32, get_u64}

-- A read of the buffer at a cursor: `none` where the C++ returns false, and otherwise the value and
-- the cursor afterwards.
abbrev pub Read {ℓ} : Type ℓ → Type ℓ
Read A = Bytes → ℕ → Option (A × ℕ)

abbrev pub ret {ℓ} : {A : Type ℓ} → A → Read A
ret a xs off = some (a, off)

abbrev pub after {ℓ κ} :
    {A : Type ℓ} {B : Type κ} → Option (A × ℕ) → (A → Read B) → Bytes → Option (B × ℕ)
after none k xs = none
after (some (a, off)) k xs = k a xs off

infixl 5 ◌>>=◌
unfoldable pub ◌>>=◌ {ℓ κ} : {A : Type ℓ} {B : Type κ} → Read A → (A → Read B) → Read B
(r >>= k) xs off = after (r xs off) k xs

-- `n` bytes at the cursor, read by `get`.
abbrev pub word : ℕ → (Bytes → ℕ → ℕ) → Read ℕ
word n get xs off = if ltb (length xs) (off + n) then none else some (get xs off, off + n)

unfoldable pub u8 : Read ℕ
u8 = word 1 (λ xs off. get_or xs off 0)

unfoldable pub u16 : Read ℕ
u16 = word 2 get_u16

unfoldable pub u32 : Read ℕ
u32 = word 4 get_u32

unfoldable pub u64 : Read ℕ
u64 = word 8 get_u64

-- The bytes behind a length prefix, `Reader::bytes` and `Reader::str`.
unfoldable pub rest_of_bytes : ℕ → Read Bytes
rest_of_bytes n xs off =
    if ltb (length xs) (off + n) then none else some (take n (drop off xs), off + n)

unfoldable pub bytes : Read Bytes
bytes = do n ← u16; rest_of_bytes n

-- The loops `for (i = 0; i < count; ++i)`, which push what each turn reads.
unfoldable pub repeat {ℓ} : {A : Type ℓ} → ℕ → Read A → Read (List A)
repeat zero read = ret []
repeat (suc n) read = do a ← read; items ← repeat n read; ret (a ∷ items)

-- `Reader::done`.
unfoldable pub done : Bytes → ℕ → Bool
done xs off = off == length xs

unfoldable pub put_u8 : ℕ → Bytes
put_u8 v = v ∷ []

-- `put_bytes` and `put_str`: the cast keeps the low sixteen bits of the size.
unfoldable pub put_bytes : Bytes → Bytes
put_bytes b = put_u16 (length b % 2 ^ 16) ++ b

-- A loop that writes each element.
unfoldable pub put_all {ℓ} : {A : Type ℓ} → (A → Bytes) → List A → Bytes
put_all put [] = []
put_all put (a ∷ items) = put a ++ put_all put items
