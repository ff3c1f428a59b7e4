-- ===== src/Storage/Blob.antt =====
-- libs/storage/src/blob.cpp: an encrypted file. The file system stands outside the repository and is
-- a parameter; the random nonce of `crypto::seal` is an argument.
pub mod File
use openmesh_messenger.Base.{
  ℕ, ◌+◌, Bool, true, false, not, ◌&&◌, ◌||◌, Option, none, some, List, [], ◌∷◌, ◌++◌, ◌>>=◌, Bytes,
  bytes_eq, is_empty, length, take, drop, get_or, ltb, leb, ◌==◌, if◌then◌else◌,
}
use openmesh_messenger.Crypto.Aead.{seal, open_sealed}
use openmesh_messenger.Crypto.Sizes.{session_key_bytes}
use openmesh_messenger.Crypto.Sodium.{Sodium}
use openmesh_messenger.Storage.Disk.{Disk}

abbrev pub file_version : ℕ
file_version = 1

abbrev pub salt_bytes : ℕ
salt_bytes = 16

-- Magic, version and salt.
abbrev pub header_size : ℕ
header_size = 4 + 1 + salt_bytes

-- `std::equal(magic.begin(), magic.end(), file.begin())`: the four bytes of the magic.
unfoldable pub valid_header : Bytes → Bytes → Bool
valid_header file magic =
    leb header_size (length file)
    && (bytes_eq magic (take 4 file) && (get_or file 4 0 == file_version))

-- ".tmp" behind the path.
unfoldable pub tmp_of : Bytes → Bytes
tmp_of path = path ++ (46 ∷ 116 ∷ 109 ∷ 112 ∷ [])

-- The salt in a file that was read.
unfoldable pub salt_in : Bytes → Bytes → Option Bytes
unfolding valid_header
salt_in magic file =
    if not (valid_header file magic) then none else some (take salt_bytes (drop 5 file))

module _ (disk : Disk) where
  unfoldable pub read_salt : disk.State → Bytes → Bytes → Option Bytes
  unfolding salt_in
  read_salt fs path magic = do file ← disk.read_file fs path; salt_in magic file

  -- Rename the written file over the target; when that fails, remove it.
  unfoldable pub commit : Bytes → Bytes → Bool × disk.State → Bool × disk.State
  commit tmp path (false, fs) = (false, disk.remove fs tmp)
  commit tmp path (true, fs) = (true, fs)

  -- The written file, or the failure of the stream.
  unfoldable pub replace : Bytes → Bytes → Bool × disk.State → Bool × disk.State
  unfolding commit
  replace tmp path (false, fs) = (false, fs)
  replace tmp path (true, fs) = commit tmp path (disk.rename fs tmp path)

module _ (na : Sodium) where
  -- The plaintext in a file that was read.
  unfoldable pub open_file : Bytes → Bytes → Bytes → Option Bytes
  unfolding valid_header
  open_file magic key file =
      if not (valid_header file magic)
      then none
      else open_sealed na key (drop header_size file) (take header_size file)

module _ (na : Sodium) (disk : Disk) where
  unfoldable pub write_blob :
      Bytes → disk.State → Bytes → Bytes → Bytes → Bytes → Bytes → Bool × disk.State
  unfolding replace tmp_of
  write_blob nonce fs path magic salt key plaintext =
      let header = magic ++ (file_version ∷ salt) in
      let sealed = seal na nonce key plaintext header in
      if not (length salt == salt_bytes) || not (length key == session_key_bytes)
      then (false, fs)
      else if is_empty sealed
      then (false, fs)
      else replace disk (tmp_of path) path (disk.write_file fs (tmp_of path) (header ++ sealed))

  unfoldable pub read_blob : disk.State → Bytes → Bytes → Bytes → Option Bytes
  unfolding open_file
  read_blob fs path magic key = do file ← disk.read_file fs path; open_file na magic key file
