-- ===== src/Crypto/Sizes.antt =====
-- libs/crypto/include/openmesh/crypto/common.hpp and kdf.hpp: the byte sizes.
use openmesh_messenger.Base.{ℕ}

abbrev pub public_key_bytes : ℕ
public_key_bytes = 32

abbrev pub secret_key_bytes : ℕ
secret_key_bytes = 64

abbrev pub signature_bytes : ℕ
signature_bytes = 64

abbrev pub session_key_bytes : ℕ
session_key_bytes = 32

abbrev pub aead_nonce_bytes : ℕ
aead_nonce_bytes = 24

abbrev pub aead_tag_bytes : ℕ
aead_tag_bytes = 16

abbrev pub kdf_salt_bytes : ℕ
kdf_salt_bytes = 16
