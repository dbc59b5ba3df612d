-- ===== src/Server/Messages.antt =====
-- src/server.rs: `handle_message`, and the requests that it answers without the guest's data.
use virtiofsd.Common.{ℕ, zero, suc, ◌+◌, ◌*◌, Option, none, some, List, [], ◌∷◌, if◌then◌else◌, ltb}
use virtiofsd.Common.Io.{IoResult, panic}
use virtiofsd.Fuse.Bytes.{Decode}
use virtiofsd.Fuse.Opcode.{Opcode, try_from}
use virtiofsd.Fuse.Requests.{InHeader, read_in_header, read_forget_one, read_batch_forget_in}
use virtiofsd.FileSystem.{FileSystem, context}
use virtiofsd.Server.Result.{read_obj}
use virtiofsd.Server.Limits.{max_buffer_size, fuse_buffer_header_size, enomem, enosys}
use virtiofsd.Server.Reply.{Handler, Host, ◌>>=◌, silent, reply_error}
use virtiofsd.Server.Names.{
  handle_lookup, handle_readlink, handle_unlink, handle_rmdir, handle_rename, handle_link,
  handle_rename2,
}
use virtiofsd.Server.Files.{
  handle_forget, handle_getattr, handle_setattr, handle_open, handle_write, handle_opendir,
  handle_copyfilerange,
}
use virtiofsd.Server.Create.{handle_symlink, handle_mknod, handle_mkdir, handle_create}
use virtiofsd.Server.Directories.{handle_read, handle_readdir}
use virtiofsd.Server.Handles.{
  handle_statfs, handle_release, handle_fsync, handle_flush, handle_releasedir, handle_fsyncdir,
  handle_access, handle_fallocate, handle_lseek, handle_syncfs,
}
use virtiofsd.Server.Xattrs.{handle_setxattr, handle_getxattr, handle_listxattr, handle_removexattr}
use virtiofsd.Server.Init.{handle_init}
use virtiofsd.Server.Readdirplus.{handle_readdirplus}

-- The pairs of an inode and a count.
unfoldable pub read_forgets : ℕ → Decode (List (ℕ × ℕ))
read_forgets zero bytes = some ([], bytes)
read_forgets (suc n) bytes = elim (read_forget_one bytes) [
  | none ↦ none
  | some (one, bytes) ↦ elim (read_forgets n bytes) [
    | none ↦ none
    | some (forgets, bytes) ↦ some ((one.nodeid, one.nlookup) ∷ forgets, bytes)
  ]
]

module _ (fs : FileSystem) (host : Host) where
  unfoldable pub forgotten : InHeader → List (ℕ × ℕ) → Handler fs.State
  forgotten h requests s =
      silent 0 (record { fs = fs.batch_forget (context h) requests s.fs; options = s.options })

  -- An `usize` holds the product of a `u32` and 16.
  unfoldable pub handle_batch_forget : InHeader → List ℕ → Handler fs.State
  handle_batch_forget h r = do
    (m, r) ← read_obj read_batch_forget_in r
    (if ltb max_buffer_size (m.count * 16)
        then reply_error host enomem h.unique
        else (do (requests, r) ← read_obj (read_forgets m.count) r; forgotten h requests))

  unfoldable pub handle_destroy : Handler fs.State
  handle_destroy s = silent 0 (record { fs = fs.destroy s.fs; options = 0 })

  unfoldable pub error_only : ℕ → IoResult (Unit {0}) → Handler fs.State
  error_only unique (IoResult.ok _) = silent 0
  error_only unique (IoResult.err e) = reply_error host e unique

  -- The methods whose success is not answered: `getlk`, `setlk`, `setlkw`, `bmap`, `ioctl`, `poll`
  -- and `notify_reply`.
  unfoldable pub unanswered :
      InHeader → (fs.State → IoResult (Unit {0}) × fs.State) → Handler fs.State
  unanswered h method s =
      let (r, st) = method s.fs in error_only h.unique r (record { fs = st; options = s.options })

  unfoldable pub error_or_panic : ℕ → IoResult (Unit {0}) → Handler fs.State
  error_or_panic unique (IoResult.ok _) s w = panic
  error_or_panic unique (IoResult.err e) s w = reply_error host e unique s w

  unfoldable pub handle_tmpfile : InHeader → Handler fs.State
  handle_tmpfile h s =
      let (r, st) = fs.tmpfile s.fs in
      error_or_panic h.unique r (record { fs = st; options = s.options })

  -- The arms of the `match` on the opcode.
  unfoldable pub serve : Opcode → InHeader → List ℕ → Handler fs.State
  serve Opcode.lookup h r = handle_lookup fs host h r
  serve Opcode.forget h r = handle_forget fs host h r
  serve Opcode.getattr h r = handle_getattr fs host h r
  serve Opcode.setattr h r = handle_setattr fs host h r
  serve Opcode.readlink h r = handle_readlink fs host h
  serve Opcode.symlink h r = handle_symlink fs host h r
  serve Opcode.mknod h r = handle_mknod fs host h r
  serve Opcode.mkdir h r = handle_mkdir fs host h r
  serve Opcode.unlink h r = handle_unlink fs host h r
  serve Opcode.rmdir h r = handle_rmdir fs host h r
  serve Opcode.rename h r = handle_rename fs host h r
  serve Opcode.link h r = handle_link fs host h r
  serve Opcode.open_inode h r = handle_open fs host h r
  serve Opcode.read h r = handle_read fs host h r
  serve Opcode.write h r = handle_write fs host h r
  serve Opcode.statfs h r = handle_statfs fs host h
  serve Opcode.release h r = handle_release fs host h r
  serve Opcode.fsync h r = handle_fsync fs host h r
  serve Opcode.setxattr h r = handle_setxattr fs host h r
  serve Opcode.getxattr h r = handle_getxattr fs host h r
  serve Opcode.listxattr h r = handle_listxattr fs host h r
  serve Opcode.removexattr h r = handle_removexattr fs host h r
  serve Opcode.flush h r = handle_flush fs host h r
  serve Opcode.init h r = handle_init fs host h r
  serve Opcode.opendir h r = handle_opendir fs host h r
  serve Opcode.readdir h r = handle_readdir fs host h r
  serve Opcode.releasedir h r = handle_releasedir fs host h r
  serve Opcode.fsyncdir h r = handle_fsyncdir fs host h r
  serve Opcode.access h r = handle_access fs host h r
  serve Opcode.create h r = handle_create fs host h r
  serve Opcode.fallocate h r = handle_fallocate fs host h r
  serve Opcode.readdirplus h r = handle_readdirplus fs host h r
  serve Opcode.rename2 h r = handle_rename2 fs host h r
  serve Opcode.lseek h r = handle_lseek fs host h r
  serve Opcode.copy_file_range h r = handle_copyfilerange fs host h r
  serve Opcode.syncfs h r = handle_syncfs fs host h
  serve Opcode.getlk h r = unanswered h fs.getlk
  serve Opcode.setlk h r = unanswered h fs.setlk
  serve Opcode.setlkw h r = unanswered h fs.setlkw
  serve Opcode.ioctl h r = unanswered h fs.ioctl
  serve Opcode.bmap h r = unanswered h fs.bmap
  serve Opcode.poll h r = unanswered h fs.poll
  serve Opcode.notify_reply h r = unanswered h fs.notify_reply
  serve Opcode.interrupt h r = silent 0
  serve Opcode.destroy h r = handle_destroy
  serve Opcode.batch_forget h r = handle_batch_forget h r
  serve Opcode.setup_mapping h r = reply_error host (enosys host.platform) h.unique
  serve Opcode.remove_mapping h r = reply_error host (enosys host.platform) h.unique
  serve Opcode.tmp_file h r = handle_tmpfile h

  unfoldable pub dispatch : Option Opcode → InHeader → List ℕ → Handler fs.State
  dispatch none h r = reply_error host (enosys host.platform) h.unique
  dispatch (some opcode) h r = serve opcode h r

  unfoldable pub handle_message : List ℕ → Handler fs.State
  handle_message r = do
    (h, r) ← read_obj read_in_header r
    (if ltb (max_buffer_size + fuse_buffer_header_size) h.len
        then reply_error host enomem h.unique
        else dispatch (try_from h.opcode) h r)
