-- ===== src/Cli/Streams.antt =====
-- The `std::istringstream` of a command line: `>>` of a word, and `std::getline`.
use openmesh_messenger.Base.{ℕ, ◌≡◌, refl, false, [], ◌∷◌, ◌++◌, Bytes, All, ◌==◌, if◌then◌else◌}
use openmesh_messenger.Net.Endpoint.Decimal.{is_space, skip_spaces}

-- Up to the next space, and the rest of the stream.
unfoldable pub take_word : Bytes → Bytes × Bytes
take_word [] = ([], [])
take_word (c ∷ s) =
    let (word, rest) = take_word s in if is_space c then ([], c ∷ s) else (c ∷ word, rest)

-- `in >> word`: the word, empty at the end of the stream, and the rest.
unfoldable pub read_word : Bytes → Bytes × Bytes
unfolding take_word
read_word s = take_word (skip_spaces s)

-- `std::getline(in, text)`.
unfoldable pub get_line : Bytes → Bytes
get_line [] = []
get_line (c ∷ s) = let rest = get_line s in if c == 10 then [] else c ∷ rest

-- One space in front of the text is dropped.
unfoldable pub without_space : Bytes → Bytes
without_space [] = []
without_space (c ∷ s) = if c == b' ' then s else c ∷ s

abbrev pub IsWord : Bytes → Type 0
IsWord = All (λ c. is_space c ≡ false)

abbrev pub IsLine : Bytes → Type 0
IsLine = All (λ c. (c == 10) ≡ false)

-- A word stands up to the space behind it.
take_word-append : (w s : Bytes) → IsWord w → take_word (w ++ (b' ' ∷ s)) ≡ (w, b' ' ∷ s)
unfolding take_word is_space
take_word-append [] s h = refl
take_word-append (c ∷ w) s h = rw (h.0, take_word-append w s h.1) refl

take_word-all : (w : Bytes) → IsWord w → take_word w ≡ (w, [])
unfolding take_word
take_word-all [] h = refl
take_word-all (c ∷ w) h = rw (h.0, take_word-all w h.1) refl

skip-word : (c : ℕ) (s : Bytes) → is_space c ≡ false → skip_spaces (c ∷ s) ≡ c ∷ s
unfolding skip_spaces
skip-word c s h = rw h refl

pub read_word-append :
    (c : ℕ) (w s : Bytes) → IsWord (c ∷ w) → read_word (c ∷ w ++ (b' ' ∷ s)) ≡ (c ∷ w, b' ' ∷ s)
unfolding read_word
read_word-append c w s h = rw (skip-word c (w ++ (b' ' ∷ s)) h.0) (take_word-append (c ∷ w) s h)

pub read_word-all : (c : ℕ) (w : Bytes) → IsWord (c ∷ w) → read_word (c ∷ w) ≡ (c ∷ w, [])
unfolding read_word
read_word-all c w h = rw (skip-word c w h.0) (take_word-all (c ∷ w) h)

-- Behind a space.
pub read_word-space : (s : Bytes) → read_word (b' ' ∷ s) ≡ read_word s
unfolding read_word skip_spaces is_space
read_word-space s = refl

pub get_line-all : (s : Bytes) → IsLine s → get_line s ≡ s
unfolding get_line
get_line-all [] h = refl
get_line-all (c ∷ s) h = rw (h.0, get_line-all s h.1) refl
