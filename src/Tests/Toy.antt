-- ===== src/Tests/Toy.antt =====
-- A stand-in for libsodium with which the hypotheses hold: sums in place of cryptography.
use native.Mathlib.Nat.{add_comm}
use openmesh_messenger.Base.{
  ℕ, zero, suc, ◌+◌, ◌-◌, ◌%◌, ◌≡◌, refl, ap, Bool, true, Option, none, some, [], ◌∷◌, ◌++◌, arith,
  Bytes, IsBytes, length, take, drop, take-append, drop-append, length-append, All-append, bytes_eq,
  bytes_eq_refl, if◌then◌else◌,
}
use openmesh_messenger.Crypto.Sodium.{Sodium, IsSodium}

-- The first `n` values as bytes, filled up with zeros.
unfoldable pub block : ℕ → Bytes → Bytes
block zero xs = []
block (suc n) [] = 0 ∷ block n []
block (suc n) (x ∷ xs) = x % 256 ∷ block n xs

length-block : (n : ℕ) (xs : Bytes) → length (block n xs) ≡ n
unfolding block
length-block zero xs = refl
length-block (suc n) [] = ap suc (length-block n [])
length-block (suc n) (x ∷ xs) = ap suc (length-block n xs)

pub block-IsBytes : (n : ℕ) (xs : Bytes) → IsBytes (block n xs)
unfolding block
block-IsBytes zero xs = tt
block-IsBytes (suc n) [] = (omega arith, block-IsBytes n [])
block-IsBytes (suc n) (x ∷ xs) = (omega arith, block-IsBytes n xs)

unfoldable pub total : Bytes → ℕ
total [] = 0
total (x ∷ xs) = x + total xs

unfoldable pub public_part : Bytes → Bytes
unfolding block
public_part sk = block 32 (drop 32 sk)

unfoldable pub tag : Bytes → Bytes → Bytes → Bytes → Bytes
unfolding block total
tag k n m ad = block 16 (total k ∷ total n ∷ total m ∷ total ad ∷ [])

unfoldable pub checked : Bytes → Bytes → Bytes → Bytes → Bytes → Option Bytes
unfolding tag
checked k n ad m t = if bytes_eq t (tag k n m ad) then some m else none

unfoldable pub toy_keypair : Bytes → Bytes
unfolding block
toy_keypair seed = block 32 seed ++ block 32 seed

unfoldable pub toy_sign : Bytes → Bytes → Bytes
unfolding public_part total
toy_sign m sk = block 64 (total m ∷ public_part sk)

unfoldable pub toy_verify : Bytes → Bytes → Bytes → Bool
unfolding block total
toy_verify s m pk = bytes_eq s (block 64 (total m ∷ pk))

unfoldable pub toy_encrypt : Bytes → Bytes → Bytes → Bytes → Bytes
unfolding tag
toy_encrypt k n m ad = m ++ tag k n m ad

unfoldable pub toy_decrypt : Bytes → Bytes → Bytes → Bytes → Option Bytes
unfolding checked
toy_decrypt k n c ad = checked k n ad (take (length c - 16) c) (drop (length c - 16) c)

unfoldable pub toy_hash : Bytes → Bytes
unfolding block total
toy_hash m = block 32 (total m ∷ [])

unfoldable pub toy_pwhash : Bytes → Bytes → Option Bytes
unfolding block total
toy_pwhash p s = some (block 32 (total p ∷ total s ∷ []))

unfoldable pub toy_mult : Bytes → Bytes → Option Bytes
unfolding block total
toy_mult a b = some (block 32 ((total a + total b) ∷ []))

abbrev pub toy : Sodium
toy = record {
  keypair = toy_keypair;
  sk_to_pk = public_part;
  sign = toy_sign;
  verify = toy_verify;
  aead_encrypt = toy_encrypt;
  aead_decrypt = toy_decrypt;
  pwhash = toy_pwhash;
  generichash = toy_hash;
  sk_to_curve = λ sk. some (public_part sk);
  pk_to_curve = λ pk. some pk;
  scalarmult = toy_mult;
  scalarmult_base = λ c. c;
}

length-tag : (k n m ad : Bytes) → length (tag k n m ad) ≡ 16
unfolding tag
length-tag k n m ad = length-block 16 (total k ∷ total n ∷ total m ∷ total ad ∷ [])

toy_decrypts : (k n m ad : Bytes) → toy_decrypt k n (toy_encrypt k n m ad) ad ≡ some m
unfolding toy_decrypt toy_encrypt
toy_decrypts k n m ad =
    let t = tag k n m ad in
    let size : length (m ++ t) - 16 ≡ length m =
      omega (arith, length-append m t, length-tag k n m ad) in
    rw (size, take-append m t, drop-append m t, bytes_eq_refl t) refl

toy_verifies :
    (m seed : Bytes)
    → toy_verify (toy_sign m (toy_keypair seed)) m (public_part (toy_keypair seed)) ≡ true
unfolding toy_verify toy_sign
toy_verifies m seed = bytes_eq_refl _

toy_mult_comm : (a b : Bytes) → toy_mult a b ≡ toy_mult b a
unfolding toy_mult
toy_mult_comm a b = ap (λ k. some (block 32 (k ∷ []))) (add_comm (total a) (total b))

toy_keypair-length : (seed : Bytes) → length (toy_keypair seed) ≡ 64
unfolding toy_keypair
toy_keypair-length seed =
    omega (arith, length-append (block 32 seed) (block 32 seed), length-block 32 seed)

public_part-length : (sk : Bytes) → length (public_part sk) ≡ 32
unfolding public_part
public_part-length sk = length-block 32 (drop 32 sk)

pub public_part-IsBytes : (sk : Bytes) → IsBytes (public_part sk)
unfolding public_part
public_part-IsBytes sk = block-IsBytes 32 (drop 32 sk)

toy_sign-length : (m sk : Bytes) → length (toy_sign m sk) ≡ 64
unfolding toy_sign
toy_sign-length m sk = length-block 64 (total m ∷ public_part sk)

toy_encrypt-length : (k n m ad : Bytes) → length (toy_encrypt k n m ad) ≡ length m + 16
unfolding toy_encrypt
toy_encrypt-length k n m ad = omega (arith, length-append m (tag k n m ad), length-tag k n m ad)

toy_encrypt-IsBytes : (k n m ad : Bytes) → IsBytes m → IsBytes (toy_encrypt k n m ad)
unfolding toy_encrypt
toy_encrypt-IsBytes k n m ad h =
    All-append _ m (tag k n m ad) h (block-IsBytes 16 (total k ∷ total n ∷ total m ∷ total ad ∷ []))

toy_hash-length : (m : Bytes) → length (toy_hash m) ≡ 32
unfolding toy_hash
toy_hash-length m = length-block 32 (total m ∷ [])

pub toy-IsSodium : IsSodium toy
toy-IsSodium = record {
  length-keypair = toy_keypair-length;
  length-sk_to_pk = λ seed. public_part-length (toy_keypair seed);
  sk_to_pk-IsBytes = λ seed. public_part-IsBytes (toy_keypair seed);
  length-sign = toy_sign-length;
  verify-sign = toy_verifies;
  length-encrypt = toy_encrypt-length;
  encrypt-IsBytes = toy_encrypt-IsBytes;
  decrypt-encrypt = toy_decrypts;
  curve = λ seed. (public_part (toy_keypair seed), refl, refl);
  scalarmult_comm = toy_mult_comm;
  length-generichash = toy_hash-length;
}
