-- ===== src/Server/Files.antt =====
-- src/server.rs: the requests about an open file or an inode, with their flags.
use virtiofsd.Common.{ℕ, Option, none, some, List, Bool, true, false}
use virtiofsd.Fuse.Replies.{attr_out, open_out, write_out}
use virtiofsd.Fuse.Requests.{
  InHeader, ForgetIn, read_forget_in, read_getattr_in, read_setattr_in, read_open_in, read_write_in,
  read_copyfilerange_in,
}
use virtiofsd.FileSystem.{FileSystem, context, Opened}
use virtiofsd.Server.Result.{read_obj}
use virtiofsd.Server.Reply.{Handler, Host, ◌>>=◌, silent, answer, reply_ok}
use virtiofsd.Server.Options.{has, from_bits_truncate, setattr_valid}
use virtiofsd.Fuse.Replies.{Attr, Duration}

abbrev pub getattr_fh : ℕ
getattr_fh = 1

abbrev pub fattr_fh : ℕ
fattr_fh = 64

abbrev pub open_kill_suidgid : ℕ
open_kill_suidgid = 1

abbrev pub write_cache : ℕ
write_cache = 1

abbrev pub write_lockowner : ℕ
write_lockowner = 2

abbrev pub write_kill_priv : ℕ
write_kill_priv = 4

abbrev pub release_flush : ℕ
release_flush = 1

abbrev pub release_flock_unlock : ℕ
release_flock_unlock = 2

unfoldable pub only_if : Bool → ℕ → Option ℕ
only_if true n = some n
only_if false n = none

-- `unwrap_or`
unfoldable pub get_or : Option ℕ → ℕ → ℕ
get_or none n = n
get_or (some m) n = m

module _ (fs : FileSystem) (host : Host) where
  unfoldable pub forgotten : InHeader → ForgetIn → Handler fs.State
  forgotten h m s =
      silent 0 (record { fs = fs.forget (context h) h.nodeid m.nlookup s.fs; options = s.options })

  unfoldable pub handle_forget : InHeader → List ℕ → Handler fs.State
  handle_forget h r = do (m, r) ← read_obj read_forget_in r; forgotten h m

  unfoldable pub reply_attr : ℕ → Attr × Duration → Handler fs.State
  reply_attr unique attr = reply_ok (some (attr_out attr)) none unique

  unfoldable pub handle_getattr : InHeader → List ℕ → Handler fs.State
  handle_getattr h r = do
    (m, r) ← read_obj read_getattr_in r
    answer host h.unique (fs.getattr (context h) h.nodeid (only_if (has m.flags getattr_fh) m.fh))
        (reply_attr h.unique)

  unfoldable pub handle_setattr : InHeader → List ℕ → Handler fs.State
  handle_setattr h r = do
    (m, r) ← read_obj read_setattr_in r
    answer host h.unique
        (fs.setattr (context h) h.nodeid m (only_if (has m.valid fattr_fh) m.fh)
          (from_bits_truncate setattr_valid m.valid))
        (reply_attr h.unique)

  unfoldable pub reply_open : ℕ → Opened → Handler fs.State
  reply_open unique (handle, opts) = reply_ok (some (open_out (get_or handle 0) opts)) none unique

  unfoldable pub handle_open : InHeader → List ℕ → Handler fs.State
  handle_open h r = do
    (m, r) ← read_obj read_open_in r
    answer host h.unique
        (fs.open_inode (context h) h.nodeid (has m.open_flags open_kill_suidgid) m.flags)
        (reply_open h.unique)

  unfoldable pub handle_opendir : InHeader → List ℕ → Handler fs.State
  handle_opendir h r = do
    (m, r) ← read_obj read_open_in r
    answer host h.unique (fs.opendir (context h) h.nodeid m.flags) (reply_open h.unique)

  unfoldable pub reply_count : ℕ → ℕ → Handler fs.State
  reply_count unique count = reply_ok (some (write_out count)) none unique

  unfoldable pub handle_write : InHeader → List ℕ → Handler fs.State
  handle_write h r = do
    (m, r) ← read_obj read_write_in r
    answer host h.unique
        (fs.write (context h) h.nodeid m.fh r m.size m.offset
          (only_if (has m.write_flags write_lockowner) m.lock_owner) (has m.write_flags write_cache)
          (has m.write_flags write_kill_priv) m.flags)
        (reply_count h.unique)

  unfoldable pub handle_copyfilerange : InHeader → List ℕ → Handler fs.State
  handle_copyfilerange h r = do
    (m, r) ← read_obj read_copyfilerange_in r
    answer host h.unique
        (fs.copyfilerange (context h) h.nodeid m.fh_in m.off_in m.nodeid_out m.fh_out m.off_out
          m.len m.flags)
        (reply_count h.unique)
