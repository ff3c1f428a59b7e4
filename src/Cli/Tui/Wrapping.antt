-- ===== src/Cli/Tui/Wrapping.antt =====
-- The wrapping loop of `draw_conversation` ends, loses nothing and keeps to the width.
use openmesh_messenger.Base.{
  ℕ, zero, suc, ◌+◌, ◌-◌, ◌≤◌, ◌<◌, ◌≡◌, refl, ap, ◌∙◌, inl, inr, true, false, Option, some, List,
  [], ◌∷◌, ◌++◌, append-nil, arith, Bytes, All, length, take, drop, length-take, length-drop,
  take-append-drop, drop-add, leb, Bool-cases,
}
use openmesh_messenger.Cli.Tui.Layout.{chunks_within, starts, goes_on}

unfoldable pub joined : List Bytes → Bytes
joined [] = []
joined (c ∷ cs) = c ++ joined cs

-- What the loop gives for a text: rows of at most `w` characters that join to the text.
abbrev pub Wraps : ℕ → Bytes → Option (List Bytes) → Type 0
Wraps w text r =
    (cs : List Bytes) × (r ≡ some cs) × (joined cs ≡ text) × All (λ (c : Bytes). length c ≤ w) cs

take-short : {A : Type 0} (n : ℕ) (xs : List A) → length xs ≤ n → take n xs ≡ xs
take-short zero [] h = refl
take-short zero (x ∷ xs) h = absurd (omega arith)
take-short (suc n) [] h = refl
take-short (suc n) (x ∷ xs) h = ap (◌∷◌ x) (take-short n xs (omega (arith, h)))

length-take_le : {A : Type 0} (n : ℕ) (xs : List A) → length (take n xs) ≤ n
length-take_le zero xs = omega arith
length-take_le (suc n) [] = omega arith
length-take_le (suc n) (x ∷ xs) = omega (arith, length-take_le n xs)

module _ (w : ℕ) (full : Bytes) (wide : 0 < w) where
  ends :
      (p : ℕ) (chunk text : Bytes)
      → chunk ≡ take w text
      → length text ≡ length full - p
      → goes_on w p chunk full ≡ false
      → length text ≤ w
  ends p chunk text e size last = elim (Bool-cases (leb (length text) w)) [
    | inl short ↦ ground (arith, short)
    | inr long ↦
        let whole : length chunk ≡ w = ap length e ∙ length-take w text (ground (arith, long)) in
        absurd (ground (arith, size, last, long, whole))
  ]

  chunks-Wraps :
      (fuel p : ℕ)
      → length full < p + fuel
      → starts p full ≡ true
      → Wraps w (drop p full) (chunks_within fuel w full p)
  unfolding chunks_within joined
  chunks-Wraps zero p enough s = absurd (ground (arith, enough, s))
  chunks-Wraps (suc fuel) p enough s =
      let text = drop p full in
      let chunk = take w text in
      let size : length text ≡ length full - p = length-drop p full in
      elim (Bool-cases (goes_on w p chunk full)) [
        | inl more ↦
            let whole : length chunk ≡ w = ground (arith, more, length-take_le w text) in
            let (cs, e, j, a) =
              chunks-Wraps fuel (p + length chunk) (omega (arith, enough, whole, wide))
                (ground (arith, more)) in
            let rest : drop (p + length chunk) full ≡ drop w text =
              ap (λ n. drop (p + n) full) whole ∙ drop-add p w full in
            rw (s, more, e)
              (
                chunk ∷ cs,
                refl,
                ap (◌++◌ chunk) (j ∙ rest) ∙ take-append-drop w text,
                (length-take_le w text, a),
              )
        | inr last ↦
            let short : length text ≤ w = ends p chunk text refl size last in
            rw (s, last)
              (
                chunk ∷ [],
                refl,
                append-nil chunk ∙ take-short w text short,
                (length-take_le w text, tt),
              )
      ]

-- A text in a pane of some width is wrapped, within the turns that `chunks` gives the loop, into
-- rows no longer than the width that join to the text.
pub chunks_wrap :
    (w : ℕ) (full : Bytes) → 0 < w → Wraps w full (chunks_within (suc (length full)) w full 0)
chunks_wrap w full wide =
    chunks-Wraps w full wide (suc (length full)) 0 (omega arith) (ground arith)
