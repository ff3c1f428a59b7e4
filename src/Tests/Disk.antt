-- ===== src/Tests/Disk.antt =====
-- A file system on which every operation succeeds.
use openmesh_messenger.Base.{
  ◌≡◌, ◌≢◌, refl, ◌∙◌, true, false, Option, none, some, [], arith, Bytes, bytes_eq, bytes_eq_refl,
  bytes_eq_iff, is_some, if◌then◌else◌,
}
use openmesh_messenger.Storage.Disk.{Disk, IsDisk}

abbrev pub Files : Type 0
Files = Bytes → Option Bytes

unfoldable pub set : Files → Bytes → Option Bytes → Files
set fs path content other = if bytes_eq path other then content else fs other

abbrev pub toy_disk : Disk
toy_disk = record {
  State = Files;
  exists = λ fs path. is_some (fs path);
  read_file = λ fs path. fs path;
  write_file = λ fs path content. (true, set fs path (some content));
  flushes = λ fs path content. true;
  rename = λ fs from to. (true, set (set fs from none) to (fs from));
  remove = λ fs path. set fs path none;
}

set-here : (fs : Files) (path : Bytes) (content : Option Bytes) → set fs path content path ≡ content
unfolding set
set-here fs path content = ground (arith, bytes_eq_refl path)

set-elsewhere :
    (fs : Files) (path : Bytes) (content : Option Bytes) (other : Bytes)
    → path ≢ other
    → set fs path content other ≡ fs other
unfolding set
set-elsewhere fs path content other h = ground (arith, h, bytes_eq_iff path other)

pub toy_disk-IsDisk : IsDisk toy_disk
toy_disk-IsDisk = record {
  exists-read = λ fs path content h. rw h refl;
  read-write = λ fs path content h flushed. set-here fs path (some content);
  read-write_other = λ fs path content other h. set-elsewhere fs path (some content) other h;
  read-rename = λ fs from to h. set-here (set fs from none) to (fs from);
  read-rename_failed = λ fs from to h. absurd (cc h);
  read-rename_other = λ fs from to other f t.
      set-elsewhere (set fs from none) to (fs from) other t ∙ set-elsewhere fs from none other f;
  read-remove = λ fs path other h. set-elsewhere fs path none other h;
}

-- The same, but no file can be renamed.
abbrev pub jammed_disk : Disk
jammed_disk = record toy_disk { rename = λ fs from to. (false, fs) }

pub jammed_disk-IsDisk : IsDisk jammed_disk
jammed_disk-IsDisk = record {
  exists-read = λ fs path content h. rw h refl;
  read-write = λ fs path content h flushed. set-here fs path (some content);
  read-write_other = λ fs path content other h. set-elsewhere fs path (some content) other h;
  read-rename = λ fs from to h. absurd (cc h);
  read-rename_failed = λ fs from to h. refl;
  read-rename_other = λ fs from to other f t. refl;
  read-remove = λ fs path other h. set-elsewhere fs path none other h;
}

-- The same, but the disk is full: closing a file leaves it empty, though the stream took the bytes.
abbrev pub full_disk : Disk
full_disk = record toy_disk {
  write_file = λ fs path content. (true, set fs path (some []));
  flushes = λ fs path content. false;
}

pub full_disk-IsDisk : IsDisk full_disk
full_disk-IsDisk = record {
  exists-read = λ fs path content h. rw h refl;
  read-write = λ fs path content h flushed. absurd (cc flushed);
  read-write_other = λ fs path content other h. set-elsewhere fs path (some []) other h;
  read-rename = λ fs from to h. set-here (set fs from none) to (fs from);
  read-rename_failed = λ fs from to h. absurd (cc h);
  read-rename_other = λ fs from to other f t.
      set-elsewhere (set fs from none) to (fs from) other t ∙ set-elsewhere fs from none other f;
  read-remove = λ fs path other h. set-elsewhere fs path none other h;
}

-- What closing a file leaves on the full disk.
pub left_empty :
    (fs : Files) (path content : Bytes)
    → full_disk.read_file (full_disk.write_file fs path content).1 path ≡ some []
left_empty fs path content = set-here fs path (some [])
