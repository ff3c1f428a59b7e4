-- ===== src/Base/Assoc.antt =====
-- `std::unordered_map<std::string, V>`: an association list with one entry for each key.
use mathlib.Core.Path.{◌≡◌, refl}
use mathlib.Core.Bool.{Bool}
use mathlib.Core.Option.{Option, none, some}
use mathlib.Core.List.{List, [], ◌∷◌}
use native.Mathlib.Omega.{arith}
use openmesh_messenger.Base.Tests.{if◌then◌else◌}
use openmesh_messenger.Base.Strings.{Bytes, bytes_eq, bytes_eq_iff}

abbrev pub Assoc {ℓ} : Type ℓ → Type ℓ
Assoc V = List (Bytes × V)

module _ {ℓ} {V : Type ℓ} where
  unfoldable pub find : Bytes → Assoc V → Option V
  find k [] = none
  find k ((j, v) ∷ m) = if bytes_eq j k then some v else find k m

  unfoldable pub insert_or_assign : Bytes → V → Assoc V → Assoc V
  insert_or_assign k v [] = (k, v) ∷ []
  insert_or_assign k v ((j, w) ∷ m) =
      if bytes_eq j k then (k, v) ∷ m else (j, w) ∷ insert_or_assign k v m

  unfoldable pub erase : Bytes → Assoc V → Assoc V
  erase k [] = []
  erase k ((j, w) ∷ m) = if bytes_eq j k then m else (j, w) ∷ erase k m

  -- The loop that walks the map and erases each entry that the test takes.
  unfoldable pub erase_if : (V → Bool) → Assoc V → Assoc V
  erase_if p [] = []
  erase_if p ((j, w) ∷ m) = let rest = erase_if p m in if p w then rest else (j, w) ∷ rest

  -- No key stands twice.
  abbrev pub IsUnique : Assoc V → Type ℓ
  IsUnique [] = Unit
  IsUnique ((k, v) ∷ m) = (find k m ≡ none) × IsUnique m

  -- What is left of a found value that may have been erased.
  abbrev pub unless : (V → Bool) → Option V → Option V
  unless p none = none
  unless p (some v) = if p v then none else some v

  pub find-insert :
      (k j : Bytes) (v : V) (m : Assoc V)
      → find j (insert_or_assign k v m) ≡ (if bytes_eq k j then some v else find j m)
  unfolding find insert_or_assign
  find-insert k j v [] = refl
  find-insert k j v ((i, w) ∷ m) =
      ground (arith, bytes_eq_iff k j, bytes_eq_iff i k, bytes_eq_iff i j, find-insert k j v m)

  pub find-erase :
      (k j : Bytes) (m : Assoc V)
      → IsUnique m
      → find j (erase k m) ≡ (if bytes_eq k j then none else find j m)
  unfolding find erase
  find-erase k j [] u = ground arith
  find-erase k j ((i, w) ∷ m) u =
      ground (arith, bytes_eq_iff k j, bytes_eq_iff i k, bytes_eq_iff i j, find-erase k j m u.1)

  pub find-erase_if :
      (p : V → Bool) (k : Bytes) (m : Assoc V)
      → IsUnique m
      → find k (erase_if p m) ≡ unless p (find k m)
  unfolding find erase_if
  find-erase_if p k [] u = refl
  find-erase_if p k ((i, w) ∷ m) u = ground (arith, bytes_eq_iff i k, find-erase_if p k m u.1)

  pub insert-IsUnique :
      (k : Bytes) (v : V) (m : Assoc V) → IsUnique m → IsUnique (insert_or_assign k v m)
  unfolding find insert_or_assign
  insert-IsUnique k v [] u = (refl, tt)
  insert-IsUnique k v ((i, w) ∷ m) u =
      ground
        (arith, bytes_eq_iff i k, bytes_eq_iff k i, find-insert k i v m, insert-IsUnique k v m u.1)

  pub erase-IsUnique : (k : Bytes) (m : Assoc V) → IsUnique m → IsUnique (erase k m)
  unfolding find erase
  erase-IsUnique k [] u = tt
  erase-IsUnique k ((i, w) ∷ m) u = ground (arith, find-erase k i m u.1, erase-IsUnique k m u.1)

  pub erase_if-IsUnique : (p : V → Bool) (m : Assoc V) → IsUnique m → IsUnique (erase_if p m)
  unfolding find erase_if
  erase_if-IsUnique p [] u = tt
  erase_if-IsUnique p ((i, w) ∷ m) u =
      ground (arith, find-erase_if p i m u.1, erase_if-IsUnique p m u.1)
