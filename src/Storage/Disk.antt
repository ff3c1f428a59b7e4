-- ===== src/Storage/Disk.antt =====
-- The file system, as far as libs/storage/src calls it: std::ifstream, std::ofstream and
-- std::filesystem. It is a parameter, and what the code relies on is a record of hypotheses.
use openmesh_messenger.Base.{◌≡◌, ◌≢◌, Bool, true, false, Option, some, Bytes}

pub record Disk : Type 1 where
  pub State : Type 0
  -- std::filesystem::exists
  pub exists : State → Bytes → Bool
  -- the whole file, through std::ifstream
  pub read_file : State → Bytes → Option Bytes
  -- a truncating std::ofstream: what the stream answers to the write, and the state once it is
  -- closed
  pub write_file : State → Bytes → Bytes → Bool × State
  -- whether closing that stream got all of the bytes to the file, which the code does not ask
  pub flushes : State → Bytes → Bytes → Bool
  -- std::filesystem::rename, of a source and a target: whether it gave no error
  pub rename : State → Bytes → Bytes → Bool × State
  -- std::filesystem::remove
  pub remove : State → Bytes → State

pub record IsDisk (disk : Disk) : Type 0 where
  -- A file that can be read exists.
  pub exists-read :
      (fs : disk.State) (path content : Bytes)
      → disk.read_file fs path ≡ some content
      → disk.exists fs path ≡ true
  -- A write that the stream took stores its bytes if closing the stream flushed them, and no write
  -- touches another path.
  pub read-write :
      (fs : disk.State) (path content : Bytes)
      → (disk.write_file fs path content).0 ≡ true
      → disk.flushes fs path content ≡ true
      → disk.read_file (disk.write_file fs path content).1 path ≡ some content
  pub read-write_other :
      (fs : disk.State) (path content other : Bytes)
      → path ≢ other
      → disk.read_file (disk.write_file fs path content).1 other ≡ disk.read_file fs other
  -- A rename puts the source in the target's place, or fails and leaves the target, and touches no
  -- other path.
  pub read-rename :
      (fs : disk.State) (from to : Bytes)
      → (disk.rename fs from to).0 ≡ true
      → disk.read_file (disk.rename fs from to).1 to ≡ disk.read_file fs from
  pub read-rename_failed :
      (fs : disk.State) (from to : Bytes)
      → (disk.rename fs from to).0 ≡ false
      → disk.read_file (disk.rename fs from to).1 to ≡ disk.read_file fs to
  pub read-rename_other :
      (fs : disk.State) (from to other : Bytes)
      → from ≢ other
      → to ≢ other
      → disk.read_file (disk.rename fs from to).1 other ≡ disk.read_file fs other
  pub read-remove :
      (fs : disk.State) (path other : Bytes)
      → path ≢ other
      → disk.read_file (disk.remove fs path) other ≡ disk.read_file fs other
