-- ===== src/Cli/Tui/Written.antt =====
-- The commands that cli/src/tui.cpp writes for its network thread, as that thread reads them.
use openmesh_messenger.Base.{
  ◌≤◌, ◌≡◌, refl, ◌∙◌, Bool, true, false, [], ◌∷◌, ◌++◌, append_assoc, arith, Bytes, IsBytes, All,
  codes, is_empty, if◌then◌else◌,
}
use openmesh_messenger.Cli.Streams.{
  IsWord, read_word, read_word-append, read_word-all, read_word-space,
}
use openmesh_messenger.Core.Hex.{to_hex, to_hex-printing}
use openmesh_messenger.Net.Endpoint.Decimal.{is_space}

printing-IsWord : (s : Bytes) → All (λ c. 48 ≤ c) s → IsWord s
unfolding is_space
printing-IsWord [] h = tt
printing-IsWord (c ∷ s) h = (ground (arith, h.0), printing-IsWord s h.1)

hex-IsWord : (k : Bytes) → IsBytes k → IsWord (to_hex k)
hex-IsWord k h = printing-IsWord (to_hex k) (to_hex-printing k h)

-- The key as the second word of a command, with or without a text behind it.
pub read_key :
    (k s : Bytes)
    → IsBytes k
    → is_empty k ≡ false
    → read_word (b' ' ∷ to_hex k ++ (b' ' ∷ s)) ≡ (to_hex k, b' ' ∷ s)
unfolding to_hex is_empty
read_key [] s h full = cc
read_key (b ∷ k) s h full =
    read_word-space (to_hex (b ∷ k) ++ (b' ' ∷ s)) ∙ read_word-append _ _ s (hex-IsWord (b ∷ k) h)

pub read_last_key :
    (k : Bytes) → IsBytes k → is_empty k ≡ false → read_word (b' ' ∷ to_hex k) ≡ (to_hex k, [])
unfolding to_hex is_empty
read_last_key [] h full = cc
read_last_key (b ∷ k) h full =
    read_word-space (to_hex (b ∷ k)) ∙ read_word-all _ _ (hex-IsWord (b ∷ k) h)

pub read_send : (s : Bytes) → read_word (codes "/send" ++ (b' ' ∷ s)) ≡ (codes "/send", b' ' ∷ s)
unfolding is_space
read_send s = read_word-append b'/' (codes "send") s (refl, (refl, (refl, (refl, (refl, tt)))))

pub send_text :
    (hex line : Bytes)
    → codes "/send " ++ hex ++ codes " " ++ line ≡ codes "/send" ++ (b' ' ∷ (hex ++ (b' ' ∷ line)))
send_text hex line =
    append_assoc (codes "/send " ++ hex) (codes " ") line
    ∙ append_assoc (codes "/send ") hex (b' ' ∷ line)

-- The command of a quick decision.
abbrev pub verb : Bool → Bytes
verb yes_please = if yes_please then codes "/accept" else codes "/reject"

pub read_verb : (b : Bool) (s : Bytes) → read_word (verb b ++ (b' ' ∷ s)) ≡ (verb b, b' ' ∷ s)
unfolding is_space
read_verb true s =
    read_word-append b'/' (codes "accept") s
      (refl, (refl, (refl, (refl, (refl, (refl, (refl, tt)))))))
read_verb false s =
    read_word-append b'/' (codes "reject") s
      (refl, (refl, (refl, (refl, (refl, (refl, (refl, tt)))))))
