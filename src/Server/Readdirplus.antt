-- ===== src/Server/Readdirplus.antt =====
-- src/server.rs: the entries of a directory with their attributes, which counts as a lookup of each.
use virtiofsd.Common.{
  ℕ, zero, suc, ◌+◌, ◌-◌, ◌*◌, ◌%◌, ◌^◌, some, List, [], ◌∷◌, Bool, false, ◌&&◌, if◌then◌else◌,
  ◌==◌,
}
use virtiofsd.Common.Io.{IoError, IoResult}
use virtiofsd.Fuse.Replies.{Entry}
use virtiofsd.Fuse.Requests.{InHeader, read_read_in}
use virtiofsd.FileSystem.{FileSystem, context, DirEntry}
use virtiofsd.Server.Result.{read_obj}
use virtiofsd.Server.Reply.{Handler, Host, ◌>>=◌}
use virtiofsd.Fuse.Replies.{Duration}
use virtiofsd.Server.Writer.{Writer}
use virtiofsd.Server.Dirents.{add_dirent}
use virtiofsd.Server.Directories.{with_cursor}

-- `.` and `..`
unfoldable pub is_current_or_parent : List ℕ → Bool
is_current_or_parent [] = false
is_current_or_parent (a ∷ []) = a == 46
is_current_or_parent (a ∷ b ∷ []) = (a == 46) && (b == 46)
is_current_or_parent (a ∷ b ∷ c ∷ name) = false

abbrev no_duration : Duration
no_duration = record { secs = 0; nanos = 0 }

-- The entry of `.` and `..`, whose inode 0 says that nothing was looked up.
unfoldable pub negative_entry : DirEntry → Entry
negative_entry d = record {
  inode = 0;
  generation = 0;
  attr = record {
    ino = d.ino;
    size = 0;
    blocks = 0;
    atime = 0;
    mtime = 0;
    ctime = 0;
    atimensec = 0;
    mtimensec = 0;
    ctimensec = 0;
    mode = d.type_ * 4096 % 2 ^ 32;
    nlink = 0;
    uid = 0;
    gid = 0;
    rdev = 0;
    blksize = 0;
    flags = 0;
  };
  attr_timeout = no_duration;
  entry_timeout = no_duration;
}

-- A round of the loop ends it, or goes on with the number of bytes written.
pub data Round (S : Type 0) : Type 0 where
  stop : IoResult ℕ → Writer → S → Round S
  next : ℕ → Writer → S → Round S

-- An error after the first entry is dropped.
unfoldable pub propagated : ℕ → IoError → IoResult ℕ
propagated zero e = IoResult.err e
propagated (suc n) e = IoResult.ok (suc n)

module _ (fs : FileSystem) where
  unfoldable pub handle_dirent : InHeader → DirEntry → fs.State → IoResult Entry × fs.State
  handle_dirent h d st =
      if is_current_or_parent d.name
      then (IoResult.ok (negative_entry d), st)
      else fs.lookup (context h) h.nodeid d.name st

  -- What the loop does with the result of `add_dirent` for an entry that was looked up.
  unfoldable pub plus_added : InHeader → ℕ → Entry → IoResult ℕ × Writer → fs.State → Round fs.State
  plus_added h total e (IoResult.ok zero, cursor) st =
      stop (IoResult.ok total) cursor (fs.forget (context h) e.inode 1 st)
  plus_added h total e (IoResult.ok (suc n), cursor) st = next (total + suc n) cursor st
  plus_added h total e (IoResult.err error, cursor) st =
      stop (propagated total error) cursor (fs.forget (context h) e.inode 1 st)

  unfoldable pub plus_found :
      InHeader → ℕ → ℕ → DirEntry → Writer → IoResult Entry × fs.State → Round fs.State
  plus_found h size total d cursor (IoResult.err error, st) =
      stop (propagated total error) cursor st
  plus_found h size total d cursor (IoResult.ok e, st) =
      plus_added h total e (add_dirent cursor (size - total) d (some e)) st

  unfoldable pub fill_plus :
      InHeader → ℕ → ℕ → List DirEntry → Writer → fs.State → (IoResult ℕ × Writer) × fs.State
  fill_plus h size total [] cursor st = ((IoResult.ok total, cursor), st)
  fill_plus h size total (d ∷ entries) cursor st =
      elim (plus_found h size total d cursor (handle_dirent h d st)) [
        | stop result cursor st ↦ ((result, cursor), st)
        | next total cursor st ↦ fill_plus h size total entries cursor st
      ]

  unfoldable pub entries_plus :
      InHeader
      → (IoResult (List DirEntry) × fs.State)
      → ℕ
      → Writer
      → (IoResult ℕ × Writer) × fs.State
  entries_plus h (IoResult.err e, st) size cursor = ((IoResult.err e, cursor), st)
  entries_plus h (IoResult.ok entries, st) size cursor = fill_plus h size 0 entries cursor st

  unfoldable pub handle_readdirplus : Host → InHeader → List ℕ → Handler fs.State
  handle_readdirplus host h r = do
    (m, r) ← read_obj read_read_in r
    with_cursor fs host h.unique m.size (λ size cursor st.
        entries_plus h (fs.readdir (context h) h.nodeid m.fh size m.offset st) size cursor)
