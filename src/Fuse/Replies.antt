-- ===== src/Fuse/Replies.antt =====
-- The structures of src/fuse.rs that replies hold, and the values of src/filesystem.rs that become
-- them.
use virtiofsd.Common.{ℕ, ◌-◌, ◌%◌, ◌^◌, List, [], ◌∷◌, ◌++◌}
use virtiofsd.Fuse.Bytes.{le_bytes}

-- A structure: its integers with their widths in bytes.
abbrev pub Fields : Type 0
Fields = List (ℕ × ℕ)

-- `as_slice`
unfoldable pub as_slice : Fields → List ℕ
as_slice [] = []
as_slice ((width, value) ∷ fields) = le_bytes width value ++ as_slice fields

-- `Duration`, by `as_secs` and `subsec_nanos`
pub record Duration : Type 0 where
  pub secs : ℕ
  pub nanos : ℕ

pub record Attr : Type 0 where
  pub ino : ℕ
  pub size : ℕ
  pub blocks : ℕ
  pub atime : ℕ
  pub mtime : ℕ
  pub ctime : ℕ
  pub atimensec : ℕ
  pub mtimensec : ℕ
  pub ctimensec : ℕ
  pub mode : ℕ
  pub nlink : ℕ
  pub uid : ℕ
  pub gid : ℕ
  pub rdev : ℕ
  pub blksize : ℕ
  pub flags : ℕ

unfoldable pub attr_fields : Attr → Fields
attr_fields a =
    (8, a.ino)
    ∷ (8, a.size)
    ∷ (8, a.blocks)
    ∷ (8, a.atime)
    ∷ (8, a.mtime)
    ∷ (8, a.ctime)
    ∷ (4, a.atimensec)
    ∷ (4, a.mtimensec)
    ∷ (4, a.ctimensec)
    ∷ (4, a.mode)
    ∷ (4, a.nlink)
    ∷ (4, a.uid)
    ∷ (4, a.gid)
    ∷ (4, a.rdev)
    ∷ (4, a.blksize)
    ∷ (4, a.flags)
    ∷ []

pub record Entry : Type 0 where
  pub inode : ℕ
  pub generation : ℕ
  pub attr : Attr
  pub attr_timeout : Duration
  pub entry_timeout : Duration

-- `EntryOut::from`
unfoldable pub entry_out : Entry → Fields
entry_out e =
    (8, e.inode)
    ∷ (8, e.generation)
    ∷ (8, e.entry_timeout.secs)
    ∷ (8, e.attr_timeout.secs)
    ∷ (4, e.entry_timeout.nanos)
    ∷ (4, e.attr_timeout.nanos)
    ∷ attr_fields e.attr

unfoldable pub attr_out : Attr × Duration → Fields
attr_out (attr, timeout) = (8, timeout.secs) ∷ (4, timeout.nanos) ∷ (4, 0) ∷ attr_fields attr

unfoldable pub open_out : ℕ → ℕ → Fields
open_out fh open_flags = (8, fh) ∷ (4, open_flags) ∷ (4, 0) ∷ []

unfoldable pub write_out : ℕ → Fields
write_out count = (4, count % 2 ^ 32) ∷ (4, 0) ∷ []

unfoldable pub getxattr_out : ℕ → Fields
getxattr_out size = (4, size) ∷ (4, 0) ∷ []

unfoldable pub lseek_out : ℕ → Fields
lseek_out offset = (8, offset) ∷ []

-- The fields of `statvfs64` that `Kstatfs::from` reads, as unsigned numbers.
pub record Statvfs : Type 0 where
  pub blocks : ℕ
  pub bfree : ℕ
  pub bavail : ℕ
  pub files : ℕ
  pub ffree : ℕ
  pub bsize : ℕ
  pub namemax : ℕ
  pub frsize : ℕ

unfoldable pub kstatfs : Statvfs → Fields
kstatfs st =
    (8, st.blocks)
    ∷ (8, st.bfree)
    ∷ (8, st.bavail)
    ∷ (8, st.files)
    ∷ (8, st.ffree)
    ∷ (4, st.bsize % 2 ^ 32)
    ∷ (4, st.namemax % 2 ^ 32)
    ∷ (4, st.frsize % 2 ^ 32)
    ∷ (4, 0)
    ∷ (24, 0)
    ∷ []

-- `OutHeader`: the error is an i32, in two's complement.
unfoldable pub out_header : ℕ → ℕ → ℕ → Fields
out_header len error unique = (4, len % 2 ^ 32) ∷ (4, error) ∷ (8, unique) ∷ []

-- `-errno` of an `i32`
abbrev pub negated : ℕ → ℕ
negated errno = (2 ^ 32 - errno % 2 ^ 32) % 2 ^ 32

unfoldable pub dirent : ℕ → ℕ → ℕ → ℕ → Fields
dirent ino off namelen type = (8, ino) ∷ (8, off) ∷ (4, namelen % 2 ^ 32) ∷ (4, type) ∷ []

-- `InitOut`: what a reply sets, the rest is zero.
pub record InitOut : Type 0 where
  pub max_readahead : ℕ
  pub flags : ℕ
  pub max_background : ℕ
  pub congestion_threshold : ℕ
  pub max_write : ℕ
  pub time_gran : ℕ
  pub max_pages : ℕ
  pub flags2 : ℕ

unfoldable pub init_out : ℕ → ℕ → InitOut → Fields
init_out major minor o =
    (4, major)
    ∷ (4, minor)
    ∷ (4, o.max_readahead)
    ∷ (4, o.flags)
    ∷ (2, o.max_background)
    ∷ (2, o.congestion_threshold)
    ∷ (4, o.max_write)
    ∷ (4, o.time_gran)
    ∷ (2, o.max_pages)
    ∷ (2, 0)
    ∷ (4, o.flags2)
    ∷ (28, 0)
    ∷ []
