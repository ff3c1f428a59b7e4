-- ===== src/Cli/Tui/Layout.antt =====
-- What cli/src/tui.cpp draws: `clip`, `draw_item`, and the wrapping of `draw_conversation`.
use Prim.Native.Nat.{min}
use openmesh_messenger.Base.{
  ℕ, zero, suc, ◌+◌, ◌-◌, ◌/◌, Bool, ◌&&◌, ◌||◌, Option, none, some, List, [], ◌∷◌, ◌++◌, map,
  Bytes, codes, length, take, drop, is_empty, ltb, leb, ◌==◌, if◌then◌else◌,
}
use openmesh_messenger.Base.Int.{ℤ, pos, negsuc, sub_ℕ}
use openmesh_messenger.Cli.Tui.{Item, Line, ellipsis}

unfoldable pub clip : Bytes → ℤ → Bytes
clip s (negsuc n) = []
clip s (pos w) =
    if w == 0
    then []
    else if leb (length s) w
    then s
    else if leb w 1
    then take w s
    else take (w - 1) s ++ ellipsis

-- The width of the sidebar.
unfoldable pub sidebar_width : ℕ → ℕ
sidebar_width cols = let sw = min 30 (cols / 3) in if ltb sw 18 then min 18 cols else sw

-- A text and where it is put: the column, as the row is the item's.
abbrev pub Text : Type 0
Text = ℤ × Bytes

abbrev min_ℤ : ℤ → ℕ → ℤ
min_ℤ (pos a) b = pos (min a b)
min_ℤ (negsuc a) b = negsuc a

unfoldable pub draw_item : ℕ → Item → List Text
unfolding clip
draw_item sw it =
    let label : Text = (pos 0, clip (codes " " ++ it.name) (pos sw)) in
    let sub : Text = (
      min_ℤ (sub_ℕ sw 1) (1 + length it.name + 2),
      clip it.subtitle (sub_ℕ sw (length it.name + 3)),
    ) in
    if is_empty it.subtitle then label ∷ [] else label ∷ sub ∷ []

-- The text of a line of the conversation.
unfoldable pub full_text : Line → Bytes
full_text l =
    let head = if is_empty l.time then [] else l.time ++ codes "  " in
    head ++ (if is_empty l.who then [] else l.who ++ codes ": ") ++ l.text

-- `p < full.size() || p == 0`, and that the loop goes on behind a chunk.
abbrev pub starts : ℕ → Bytes → Bool
starts p full = ltb p (length full) || p == 0

abbrev pub goes_on : ℕ → ℕ → Bytes → Bytes → Bool
goes_on w p chunk full = leb w (length chunk) && ltb (p + length chunk) (length full)

abbrev pub prepend : Bytes → Option (List Bytes) → Option (List Bytes)
prepend chunk none = none
prepend chunk (some chunks) = some (chunk ∷ chunks)

-- The wrapping loop, from `p` on, in chunks of `w`; `none` where the fuel is used up.
unfoldable pub chunks_within : ℕ → ℕ → Bytes → ℕ → Option (List Bytes)
chunks_within zero w full p = none
chunks_within (suc fuel) w full p =
    let chunk = take w (drop p full) in
    let later = chunks_within fuel w full (p + length chunk) in
    if starts p full
    then if goes_on w p chunk full then prepend chunk later else some (chunk ∷ [])
    else some []

abbrev pub or_none : Option (List Bytes) → List Bytes
or_none none = []
or_none (some chunks) = chunks

-- A turn for each character, and one more.
unfoldable pub chunks : ℕ → Bytes → List Bytes
unfolding chunks_within
chunks w full = or_none (chunks_within (suc (length full)) w full 0)

-- A line of the conversation in a pane of `w` columns: its rows, with whether they are one's own.
unfoldable pub rows_of : ℕ → Line → List (Bytes × Bool)
unfolding chunks full_text
rows_of w l =
    let full = full_text l in
    let rows = map (λ (c : Bytes). (c, l.outgoing)) (chunks (w - 1) full) in
    if is_empty full then rows ++ (([], l.outgoing) ∷ []) else rows

unfoldable pub wrapped : ℕ → List Line → List (Bytes × Bool)
unfolding rows_of
wrapped w [] = []
wrapped w (l ∷ conv) = rows_of w l ++ wrapped w conv

-- The rows that `draw_conversation` draws in `avail` lines, scrolled back by `scroll`.
unfoldable pub visible : ℕ → ℕ → ℕ → List Line → List (Bytes × Bool)
unfolding wrapped
visible w avail scroll conv =
    let rows = wrapped w conv in
    if ltb w 4 then [] else take avail (drop (length rows - avail - scroll) rows)
