-- ===== src/Storage/Reader/RoundTrip.antt =====
-- What was written is read back: a rule for each read.
use openmesh_messenger.Base.{
  ℕ, ◌+◌, ◌%◌, ◌^◌, ◌<◌, ◌≤◌, ◌≡◌, refl, ap, ◌∙◌, some, List, [], ◌∷◌, ◌++◌, append_assoc, arith,
  Bytes, All, length, take, drop, get_or, get_or-drop, length-append, length-drop, drop-add,
  drop-append, take-append,
}
use openmesh_messenger.Endian.{
  put_u16, put_u32, put_u64, get_u16, get_u32, get_u64, get_u16-drop, get_u32-drop, get_u64-drop,
  get_u16-put_u16, get_u32-put_u32, get_u64-put_u64,
}
use openmesh_messenger.Storage.Reader.{
  Read, ret, ◌>>=◌, word, u8, u16, u32, u64, rest_of_bytes, bytes, repeat, put_u8, put_bytes,
  put_all,
}

-- Where the cursor stands before `enc` in the buffer, the read gives `a` and moves behind it.
abbrev pub Decodes {ℓ} : {A : Type ℓ} → Read A → A → Bytes → Type ℓ
Decodes read a enc =
    (xs : Bytes) (off : ℕ) (rest : Bytes)
    → off ≤ length xs
    → drop off xs ≡ enc ++ rest
    → read xs off ≡ some (a, off + length enc)

pub Decodes-ret {ℓ} : {A : Type ℓ} (a : A) → Decodes (ret a) a []
Decodes-ret a xs off rest in_buffer at = ap (λ k. some (a, k)) (omega arith)

pub Decodes-bind {ℓ κ} :
    {A : Type ℓ} {B : Type κ} (r : Read A) (k : A → Read B) (a : A) (b : B) (e f : Bytes)
    → Decodes r a e
    → Decodes (k a) b f
    → Decodes (r >>= k) b (e ++ f)
unfolding ◌>>=◌
Decodes-bind r k a b e f hr hk xs off rest in_buffer at =
    let here : drop off xs ≡ e ++ (f ++ rest) = at ∙ append_assoc e f rest in
    let next : drop (off + length e) xs ≡ f ++ rest =
      drop-add off (length e) xs ∙ ap (drop (length e)) here ∙ drop-append e (f ++ rest) in
    let size : off + length e + length f ≡ off + length (e ++ f) =
      omega (arith, length-append e f) in
    let room : off + length e ≤ length xs =
      omega (arith, in_buffer, length-drop off xs, ap length here, length-append e (f ++ rest)) in
    rw (hr xs off (f ++ rest) in_buffer here, hk xs (off + length e) rest room next, size) refl

-- A read whose value is only passed through a function.
pub Decodes-map {ℓ κ} :
    {A : Type ℓ} {B : Type κ} (r : Read A) (f : A → B) (a : A) (e : Bytes)
    → Decodes r a e
    → Decodes (r >>= (λ x. ret (f x))) (f a) e
unfolding ◌>>=◌
Decodes-map r f a e hr xs off rest in_buffer at = rw (hr xs off rest in_buffer at) refl

module _ (n : ℕ) (get : Bytes → ℕ → ℕ) (v : ℕ) (enc : Bytes) (size : length enc ≡ n)
    (moves : (xs : Bytes) (off : ℕ) → get xs off ≡ get (drop off xs) 0)
    (reads : (rest : Bytes) → get (enc ++ rest) 0 ≡ v) where
  word-Decodes : 0 < n → Decodes (word n get) v enc
  word-Decodes some_bytes xs off rest in_buffer at =
      let room : off + n ≤ length xs =
        omega (arith, length-drop off xs, ap length at, length-append enc rest, size) in
      let value : get xs off ≡ v = moves xs off ∙ ap (λ (ys : Bytes). get ys 0) at ∙ reads rest in
      ground (arith, room, value, size)

pub u8-Decodes : (v : ℕ) → Decodes u8 v (put_u8 v)
unfolding u8 put_u8
u8-Decodes v =
    word-Decodes 1 (λ xs off. get_or xs off 0) v (v ∷ []) refl
      (λ xs off. ap (λ k. get_or xs k 0) (omega arith) ∙ get_or-drop off 0 xs 0) (λ rest. refl)
      (omega arith)

pub u16-Decodes : (v : ℕ) → v < 2 ^ 16 → Decodes u16 v (put_u16 v)
unfolding u16
u16-Decodes v h =
    word-Decodes 2 get_u16 v (put_u16 v) (unfold put_u16 in refl) get_u16-drop
      (λ rest. get_u16-put_u16 v rest h) (omega arith)

pub u32-Decodes : (v : ℕ) → v < 2 ^ 32 → Decodes u32 v (put_u32 v)
unfolding u32
u32-Decodes v h =
    word-Decodes 4 get_u32 v (put_u32 v) (unfold put_u32 in refl) get_u32-drop
      (λ rest. get_u32-put_u32 v rest h) (omega arith)

pub u64-Decodes : (v : ℕ) → v < 2 ^ 64 → Decodes u64 v (put_u64 v)
unfolding u64
u64-Decodes v h =
    word-Decodes 8 get_u64 v (put_u64 v) (unfold put_u64 in refl) get_u64-drop
      (λ rest. get_u64-put_u64 v rest h) (omega arith)

rest_of_bytes-Decodes : (b : Bytes) → Decodes (rest_of_bytes (length b)) b b
unfolding rest_of_bytes
rest_of_bytes-Decodes b xs off rest in_buffer at =
    let room : off + length b ≤ length xs =
      omega (arith, in_buffer, length-drop off xs, ap length at, length-append b rest) in
    let taken : take (length b) (drop off xs) ≡ b = rw at (take-append b rest) in
    ground (arith, room, taken)

pub bytes-Decodes : (b : Bytes) → length b < 2 ^ 16 → Decodes bytes b (put_bytes b)
unfolding bytes put_bytes
bytes-Decodes b h =
    let size : length b % 2 ^ 16 ≡ length b = omega arith in
    rw size (
      Decodes-bind u16 rest_of_bytes (length b) b (put_u16 (length b)) b (u16-Decodes (length b) h)
        (rest_of_bytes-Decodes b))

-- A loop reads what a loop wrote.
pub repeat-Decodes {ℓ κ} :
    {A : Type ℓ} (P : A → Type κ) (read : Read A) (put : A → Bytes)
    → ((a : A) → P a → Decodes read a (put a))
    → (items : List A) → All P items
    → Decodes (repeat (length items) read) items (put_all put items)
unfolding repeat put_all
repeat-Decodes P read put each [] h = Decodes-ret []
repeat-Decodes P read put each (a ∷ items) h =
    Decodes-bind read _ a (a ∷ items) (put a) (put_all put items) (each a h.0) (
      Decodes-map (repeat (length items) read) (λ bs. a ∷ bs) items (put_all put items)
        (repeat-Decodes P read put each items h.1))
