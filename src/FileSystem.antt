-- ===== src/FileSystem.antt =====
-- src/filesystem.rs: the trait of a file system that the server drives. An implementation is its
-- state and the step of each method. Inodes and handles are their numbers, a `CStr` is its bytes
-- without the NUL. Methods with no argument that the server passes on have a state only.
use virtiofsd.Common.{ℕ, Option, List, Bool}
use virtiofsd.Common.Io.{IoResult}
use virtiofsd.Fuse.Requests.{InHeader, SetattrIn}
use virtiofsd.Fuse.Replies.{Attr, Duration, Entry, Statvfs}

pub record Context : Type 0 where
  pub uid : ℕ
  pub gid : ℕ
  pub pid : ℕ

-- `Context::from`
abbrev pub context : InHeader → Context
context h = record { uid = h.uid; gid = h.gid; pid = h.pid }

pub record SecContext : Type 0 where
  pub name : List ℕ
  pub secctx : List ℕ

pub record Extensions : Type 0 where
  pub secctx : Option SecContext
  pub sup_gids : List ℕ

pub record DirEntry : Type 0 where
  pub ino : ℕ
  pub offset : ℕ
  pub type_ : ℕ
  pub name : List ℕ

pub data GetxattrReply : Type 0 where
  value : List ℕ → GetxattrReply
  count : ℕ → GetxattrReply

pub data ListxattrReply : Type 0 where
  names : List ℕ → ListxattrReply
  count : ℕ → ListxattrReply

-- The handle, if there is one, and the bits of the options.
abbrev pub Opened : Type 0
Opened = Option ℕ × ℕ

pub record FileSystem : Type 1 where
  pub State : Type 0
  pub init : ℕ → State → IoResult ℕ × State
  pub destroy : State → State
  pub lookup : Context → ℕ → List ℕ → State → IoResult Entry × State
  pub forget : Context → ℕ → ℕ → State → State
  pub batch_forget : Context → List (ℕ × ℕ) → State → State
  pub getattr : Context → ℕ → Option ℕ → State → IoResult (Attr × Duration) × State
  pub setattr : Context → ℕ → SetattrIn → Option ℕ → ℕ → State → IoResult (Attr × Duration) × State
  pub readlink : Context → ℕ → State → IoResult (List ℕ) × State
  pub symlink : Context → List ℕ → ℕ → List ℕ → Extensions → State → IoResult Entry × State
  pub mknod : Context → ℕ → List ℕ → ℕ → ℕ → ℕ → Extensions → State → IoResult Entry × State
  pub mkdir : Context → ℕ → List ℕ → ℕ → ℕ → Extensions → State → IoResult Entry × State
  pub unlink : Context → ℕ → List ℕ → State → IoResult (Unit {0}) × State
  pub rmdir : Context → ℕ → List ℕ → State → IoResult (Unit {0}) × State
  pub rename : Context → ℕ → List ℕ → ℕ → List ℕ → ℕ → State → IoResult (Unit {0}) × State
  pub link : Context → ℕ → ℕ → List ℕ → State → IoResult Entry × State
  pub open_inode : Context → ℕ → Bool → ℕ → State → IoResult Opened × State
  pub create :
      Context
      → ℕ
      → List ℕ
      → ℕ
      → Bool
      → ℕ
      → ℕ
      → Extensions
      → State
      → IoResult (Entry × Opened) × State
  -- With the room of the data writer; beside the count, the bytes that it wrote there.
  pub read : Context → ℕ → ℕ → ℕ → ℕ → ℕ → Option ℕ → ℕ → State → (IoResult ℕ × List ℕ) × State
  -- With the bytes of the data reader.
  pub write :
      Context → ℕ → ℕ → List ℕ → ℕ → ℕ → Option ℕ → Bool → Bool → ℕ → State → IoResult ℕ × State
  pub flush : Context → ℕ → ℕ → ℕ → State → IoResult (Unit {0}) × State
  pub fsync : Context → ℕ → Bool → ℕ → State → IoResult (Unit {0}) × State
  pub fallocate : Context → ℕ → ℕ → ℕ → ℕ → ℕ → State → IoResult (Unit {0}) × State
  pub release : Context → ℕ → ℕ → ℕ → Bool → Bool → Option ℕ → State → IoResult (Unit {0}) × State
  pub statfs : Context → ℕ → State → IoResult Statvfs × State
  pub setxattr : Context → ℕ → List ℕ → List ℕ → ℕ → ℕ → State → IoResult (Unit {0}) × State
  pub getxattr : Context → ℕ → List ℕ → ℕ → State → IoResult GetxattrReply × State
  pub listxattr : Context → ℕ → ℕ → State → IoResult ListxattrReply × State
  pub removexattr : Context → ℕ → List ℕ → State → IoResult (Unit {0}) × State
  pub opendir : Context → ℕ → ℕ → State → IoResult Opened × State
  -- The entries that the iterator gives.
  pub readdir : Context → ℕ → ℕ → ℕ → ℕ → State → IoResult (List DirEntry) × State
  pub fsyncdir : Context → ℕ → Bool → ℕ → State → IoResult (Unit {0}) × State
  pub releasedir : Context → ℕ → ℕ → ℕ → State → IoResult (Unit {0}) × State
  pub access : Context → ℕ → ℕ → State → IoResult (Unit {0}) × State
  pub lseek : Context → ℕ → ℕ → ℕ → ℕ → State → IoResult ℕ × State
  pub copyfilerange : Context → ℕ → ℕ → ℕ → ℕ → ℕ → ℕ → ℕ → ℕ → State → IoResult ℕ × State
  pub syncfs : Context → ℕ → State → IoResult (Unit {0}) × State
  pub getlk : State → IoResult (Unit {0}) × State
  pub setlk : State → IoResult (Unit {0}) × State
  pub setlkw : State → IoResult (Unit {0}) × State
  pub ioctl : State → IoResult (Unit {0}) × State
  pub bmap : State → IoResult (Unit {0}) × State
  pub poll : State → IoResult (Unit {0}) × State
  pub notify_reply : State → IoResult (Unit {0}) × State
  pub tmpfile : State → IoResult (Unit {0}) × State
