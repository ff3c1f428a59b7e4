-- ===== src/Protocol/Wire/Fields.antt =====
-- One length-prefixed field: what `read_field` reads, in terms of the suffix at the offset.
use openmesh_messenger.Base.{
  ℕ, ◌+◌, ◌%◌, ◌^◌, ◌≤◌, ◌<◌, ◌≡◌, sym, ap, ap₂, ◌∙◌, some, [], ◌∷◌, ◌++◌, arith, Bytes, IsBytes,
  length, take, drop, length-append, length-drop, length-take, take-append, drop-append,
  take-append-drop, drop-add, All-drop, All-take,
}
use openmesh_messenger.Endian.{put_u16, get_u16, get_u16-drop, get_u16-put_u16, put_u16-get_u16}
use openmesh_messenger.Protocol.Wire.{put_field, read_field}

pub length-put_field : (f : Bytes) → length (put_field f) ≡ 2 + length f
unfolding put_field
length-put_field f = omega arith

module _ (xs f rest : Bytes) (o : ℕ) (fits : length f < 2 ^ 16)
    (at : drop o xs ≡ put_field f ++ rest) where
  room : o + 2 + length f ≤ length xs
  room =
      omega (
        arith,
        length-drop o xs,
        ap length at,
        length-append (put_field f) rest,
        length-put_field f,
      )

  prefix : get_u16 xs o ≡ length f
  unfolding put_field put_u16
  prefix = omega (
    arith,
    get_u16-drop xs o,
    ap (λ (ys : Bytes). get_u16 ys 0) at,
    get_u16-put_u16 (length f % 2 ^ 16) (f ++ rest) (omega arith),
  )

  behind : drop (o + 2) xs ≡ f ++ rest
  unfolding put_field put_u16
  behind = drop-add o 2 xs ∙ ap (drop 2) at

  -- A field that stands at the offset is read.
  pub read_field-put_field : read_field xs o ≡ some (f, o + 2 + length f)
  unfolding read_field
  read_field-put_field =
      let taken : take (get_u16 xs o) (drop (o + 2) xs) ≡ f =
        rw (prefix, behind) (take-append f rest) in
      ground (arith, room, prefix, taken)

  pub drop-put_field : drop (o + 2 + length f) xs ≡ rest
  drop-put_field = drop-add (o + 2) (length f) xs ∙ ap (drop (length f)) behind ∙ drop-append f rest

get_u16-lt : (xs : Bytes) (o : ℕ) → get_u16 xs o < 2 ^ 16
unfolding get_u16
get_u16-lt xs o = omega arith

put_field_prefix :
    (f : Bytes) (a b : ℕ) → put_u16 (length f % 2 ^ 16) ≡ a ∷ b ∷ [] → put_field f ≡ a ∷ b ∷ f
unfolding put_field
put_field_prefix f a b e = ap (λ (p : Bytes). p ++ f) e

-- Conversely a suffix that is long enough for its prefix is a field and what follows it.
suffix_field :
    (ys : Bytes)
    → IsBytes ys
    → 2 + get_u16 ys 0 ≤ length ys
    → ys ≡ put_field (take (get_u16 ys 0) (drop 2 ys)) ++ drop (2 + get_u16 ys 0) ys
suffix_field [] h le = absurd (omega arith)
suffix_field (a ∷ []) h le = absurd (omega arith)
suffix_field (a ∷ b ∷ ys) h le =
    let n = get_u16 (a ∷ b ∷ ys) 0 in
    let size : length (take n ys) % 2 ^ 16 ≡ n =
      omega (arith, length-take n ys (omega arith), get_u16-lt (a ∷ b ∷ ys) 0) in
    let field : put_field (take n ys) ≡ a ∷ b ∷ take n ys =
      put_field_prefix (take n ys) a b (ap put_u16 size ∙ put_u16-get_u16 a b ys h.0 h.1.0) in
    rw (field, drop-add 2 n (a ∷ b ∷ ys))
      (ap (λ (zs : Bytes). a ∷ b ∷ zs) (sym (take-append-drop n ys)))

-- What `read_field` reads stands in the bytes at its place.
pub record Reads (xs : Bytes) (o : ℕ) (f : Bytes) (o' : ℕ) : Type 0 where
  pub at : drop o xs ≡ put_field f ++ drop o' xs
  pub ends : o' ≡ o + 2 + length f
  pub inside : o' ≤ length xs
  pub fits : length f < 2 ^ 16
  pub bytes : IsBytes f

read_field_inv :
    (xs : Bytes) (o : ℕ) (f : Bytes) (o' : ℕ)
    → read_field xs o ≡ some (f, o')
    → (o + 2 + get_u16 xs o ≤ length xs)
      × (f ≡ take (get_u16 xs o) (drop (o + 2) xs))
      × (o' ≡ o + 2 + get_u16 xs o)
unfolding read_field
read_field_inv xs o f o' e = ground arith

pub read_field-Reads :
    (xs : Bytes) (o : ℕ) (f : Bytes) (o' : ℕ)
    → IsBytes xs
    → read_field xs o ≡ some (f, o')
    → Reads xs o f o'
read_field-Reads xs o f o' h e =
    let (room, taken, moved) = read_field_inv xs o f o' e in
    let n = get_u16 xs o in
    let same : get_u16 (drop o xs) 0 ≡ n = sym (get_u16-drop xs o) in
    let size : length (take n (drop (o + 2) xs)) ≡ n =
      length-take n (drop (o + 2) xs) (omega (arith, length-drop (o + 2) xs)) in
    let split =
      suffix_field (drop o xs) (All-drop _ o xs h) (omega (arith, same, length-drop o xs)) in
    let k = get_u16 (drop o xs) 0 in
    let taken' : take k (drop 2 (drop o xs)) ≡ f = cc (same, taken, drop-add o 2 xs) in
    let behind' : drop (2 + k) (drop o xs) ≡ drop o' xs =
      sym (drop-add o (2 + k) xs) ∙ ap (λ i. drop i xs) (omega (arith, same, moved)) in
    record {
      at = split ∙ ap₂ (λ (g ys : Bytes). put_field g ++ ys) taken' behind';
      ends = omega (arith, ap length taken);
      inside = omega arith;
      fits = omega (arith, ap length taken, get_u16-lt xs o);
      bytes = rw taken (All-take _ n _ (All-drop _ (o + 2) xs h));
    }
