-- ===== src/Server/Handles.antt =====
-- src/server.rs: the requests about a handle, and about the whole file system.
use virtiofsd.Common.{ℕ, none, some, List, ◌||◌}
use virtiofsd.Fuse.Replies.{lseek_out, kstatfs}
use virtiofsd.Fuse.Requests.{
  InHeader, read_release_in, read_flush_in, read_fsync_in, read_access_in, read_fallocate_in,
  read_lseek_in,
}
use virtiofsd.FileSystem.{FileSystem, context}
use virtiofsd.Server.Result.{read_obj}
use virtiofsd.Server.Reply.{Handler, Host, ◌>>=◌, answer, reply_ok, empty_reply}
use virtiofsd.Server.Options.{has}
use virtiofsd.Server.Files.{only_if, release_flush, release_flock_unlock}

module _ (fs : FileSystem) (host : Host) where
  unfoldable pub handle_statfs : InHeader → Handler fs.State
  handle_statfs h =
      answer host h.unique (fs.statfs (context h) h.nodeid)
        (λ st. reply_ok (some (kstatfs st)) none h.unique)

  unfoldable pub handle_syncfs : InHeader → Handler fs.State
  handle_syncfs h = answer host h.unique (fs.syncfs (context h) h.nodeid) (empty_reply h.unique)

  unfoldable pub handle_release : InHeader → List ℕ → Handler fs.State
  handle_release h r = do
    (m, r) ← read_obj read_release_in r
    answer host h.unique
        (let flush = has m.release_flags release_flush in
          let flock_release = has m.release_flags release_flock_unlock in
          fs.release (context h) h.nodeid m.flags m.fh flush flock_release
            (only_if (flush || flock_release) m.lock_owner))
        (empty_reply h.unique)

  unfoldable pub handle_releasedir : InHeader → List ℕ → Handler fs.State
  handle_releasedir h r = do
    (m, r) ← read_obj read_release_in r
    answer host h.unique (fs.releasedir (context h) h.nodeid m.flags m.fh) (empty_reply h.unique)

  unfoldable pub handle_fsync : InHeader → List ℕ → Handler fs.State
  handle_fsync h r = do
    (m, r) ← read_obj read_fsync_in r
    answer host h.unique (fs.fsync (context h) h.nodeid (has m.fsync_flags 1) m.fh)
        (empty_reply h.unique)

  unfoldable pub handle_fsyncdir : InHeader → List ℕ → Handler fs.State
  handle_fsyncdir h r = do
    (m, r) ← read_obj read_fsync_in r
    answer host h.unique (fs.fsyncdir (context h) h.nodeid (has m.fsync_flags 1) m.fh)
        (empty_reply h.unique)

  unfoldable pub handle_flush : InHeader → List ℕ → Handler fs.State
  handle_flush h r = do
    (m, r) ← read_obj read_flush_in r
    answer host h.unique (fs.flush (context h) h.nodeid m.fh m.lock_owner) (empty_reply h.unique)

  unfoldable pub handle_access : InHeader → List ℕ → Handler fs.State
  handle_access h r = do
    (m, r) ← read_obj read_access_in r
    answer host h.unique (fs.access (context h) h.nodeid m.mask) (empty_reply h.unique)

  unfoldable pub handle_fallocate : InHeader → List ℕ → Handler fs.State
  handle_fallocate h r = do
    (m, r) ← read_obj read_fallocate_in r
    answer host h.unique (fs.fallocate (context h) h.nodeid m.fh m.mode m.offset m.length)
        (empty_reply h.unique)

  unfoldable pub handle_lseek : InHeader → List ℕ → Handler fs.State
  handle_lseek h r = do
    (m, r) ← read_obj read_lseek_in r
    answer host h.unique (fs.lseek (context h) h.nodeid m.fh m.offset m.whence)
        (λ offset. reply_ok (some (lseek_out offset)) none h.unique)
