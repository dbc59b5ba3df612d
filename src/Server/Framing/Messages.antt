-- ===== src/Server/Framing/Messages.antt =====
-- Every request that src/server.rs handles leaves a frame.
use virtiofsd.Common.{◌≡◌, refl, ℕ, ◌≤◌, ◌<◌, ◌^◌, Option, none, some, Bool, true, false, List, []}
use virtiofsd.Common.Io.{IoError, IoResult, err}
use virtiofsd.FileSystem.{FileSystem}
use virtiofsd.Fuse.Opcode.{Opcode, try_from}
use virtiofsd.Fuse.Requests.{InHeader, read_in_header}
use virtiofsd.Server.Result.{read_obj, ok_or}
use virtiofsd.Server.Reply.{Server, Host, ◌>>=◌}
use virtiofsd.Server.Files.{forgotten as forgotten_one, handle_forget}
use virtiofsd.Server.Messages.{
  forgotten, handle_batch_forget, handle_destroy, error_only, unanswered, error_or_panic,
  handle_tmpfile, serve, dispatch, handle_message,
}
use virtiofsd.Server.Framing.{
  Ends, Framed, Framed-silent, Framed-bind, Framed-if, Framed-reply_error,
}
use virtiofsd.Server.Framing.Names
use virtiofsd.Server.Framing.Files
use virtiofsd.Server.Framing.Creations
use virtiofsd.Server.Framing.Handles
use virtiofsd.Server.Framing.Xattrs
use virtiofsd.Server.Framing.Init
use virtiofsd.Server.Framing.Entries.{CountsReads, Framed-read, Framed-readdir, Framed-readdirplus}

-- A method that fails.
pub record Fails {S : Type 0} (method : S → IoResult (Unit {0}) × S) : Type 0 where
  pub at : (st : S) → (e : IoError) × ((method st).0 ≡ err e)

-- The methods whose default in src/filesystem.rs fails with ENOSYS, and that no file system of the
-- repository overrides.
pub record Unsupported (fs : FileSystem) : Type 0 where
  pub getlk : Fails fs.getlk
  pub setlk : Fails fs.setlk
  pub setlkw : Fails fs.setlkw
  pub ioctl : Fails fs.ioctl
  pub bmap : Fails fs.bmap
  pub poll : Fails fs.poll
  pub notify_reply : Fails fs.notify_reply
  pub tmpfile : Fails fs.tmpfile

-- The requests that FUSE does not answer.
abbrev pub no_reply : Opcode → Bool
no_reply Opcode.forget = true
no_reply Opcode.batch_forget = true
no_reply Opcode.interrupt = true
no_reply Opcode.destroy = true
no_reply _ = false

abbrev pub may_be_quiet : Option Opcode → Bool
may_be_quiet none = false
may_be_quiet (some opcode) = no_reply opcode

module _ (fs : FileSystem) (host : Host) (h : InHeader) where
  Framed-forget : (r : List ℕ) → Framed true h.unique (handle_forget fs host h r)
  unfolding handle_forget forgotten_one
  Framed-forget r = Framed-bind _ _ (λ m. record { at = λ s. (Framed-silent refl).at _ })

  Framed-batch_forget : (r : List ℕ) → Framed true h.unique (handle_batch_forget fs host h r)
  unfolding handle_batch_forget forgotten
  Framed-batch_forget r = Framed-bind _ _ (λ m.
      Framed-if _ _ _ (Framed-reply_error [] host _)
        (Framed-bind _ _ (λ m. record { at = λ s. (Framed-silent refl).at _ })))

  Framed-destroy : Framed true h.unique (handle_destroy fs host)
  unfolding handle_destroy
  Framed-destroy = record { at = λ s. (Framed-silent refl).at _ }

  Framed-unanswered :
      (method : fs.State → IoResult (Unit {0}) × fs.State)
      → Fails method
      → Framed false h.unique (unanswered fs host h method)
  unfolding unanswered error_only
  Framed-unanswered method fails = record {
    at = λ s room small.
        let (e, p) = fails.at s.fs in rw p ((Framed-reply_error [] host e).at _ room small);
  }

  Framed-tmpfile : Fails fs.tmpfile → Framed false h.unique (handle_tmpfile fs host h)
  unfolding handle_tmpfile error_or_panic
  Framed-tmpfile fails = record {
    at = λ s room small.
        let (e, p) = fails.at s.fs in rw p ((Framed-reply_error [] host e).at _ room small);
  }

module _ (fs : FileSystem) (host : Host) (h : InHeader) (counts : CountsReads fs)
    (unsupported : Unsupported fs) (pages : 17 ≤ host.page_size) where
  Framed-serve :
      (opcode : Opcode) (r : List ℕ) → Framed (no_reply opcode) h.unique (serve fs host opcode h r)
  unfolding serve
  Framed-serve Opcode.lookup r = Names.Framed-lookup fs host h r
  Framed-serve Opcode.getattr r = Files.Framed-getattr fs host h r
  Framed-serve Opcode.setattr r = Files.Framed-setattr fs host h r
  Framed-serve Opcode.readlink r = Names.Framed-readlink fs host h
  Framed-serve Opcode.symlink r = Creations.Framed-symlink fs host h r
  Framed-serve Opcode.mknod r = Creations.Framed-mknod fs host h r
  Framed-serve Opcode.mkdir r = Creations.Framed-mkdir fs host h r
  Framed-serve Opcode.unlink r = Names.Framed-unlink fs host h r
  Framed-serve Opcode.rmdir r = Names.Framed-rmdir fs host h r
  Framed-serve Opcode.rename r = Names.Framed-rename fs host h r
  Framed-serve Opcode.link r = Names.Framed-link fs host h r
  Framed-serve Opcode.open_inode r = Files.Framed-open fs host h r
  Framed-serve Opcode.write r = Files.Framed-write fs host h r
  Framed-serve Opcode.statfs r = Handles.Framed-statfs fs host h
  Framed-serve Opcode.release r = Handles.Framed-release fs host h r
  Framed-serve Opcode.fsync r = Handles.Framed-fsync fs host h r
  Framed-serve Opcode.setxattr r = Xattrs.Framed-setxattr fs host h r
  Framed-serve Opcode.getxattr r = Xattrs.Framed-getxattr fs host h r
  Framed-serve Opcode.listxattr r = Xattrs.Framed-listxattr fs host h r
  Framed-serve Opcode.removexattr r = Xattrs.Framed-removexattr fs host h r
  Framed-serve Opcode.flush r = Handles.Framed-flush fs host h r
  Framed-serve Opcode.opendir r = Files.Framed-opendir fs host h r
  Framed-serve Opcode.releasedir r = Handles.Framed-releasedir fs host h r
  Framed-serve Opcode.fsyncdir r = Handles.Framed-fsyncdir fs host h r
  Framed-serve Opcode.access r = Handles.Framed-access fs host h r
  Framed-serve Opcode.create r = Creations.Framed-create fs host h r
  Framed-serve Opcode.fallocate r = Handles.Framed-fallocate fs host h r
  Framed-serve Opcode.rename2 r = Names.Framed-rename2 fs host h r
  Framed-serve Opcode.lseek r = Handles.Framed-lseek fs host h r
  Framed-serve Opcode.copy_file_range r = Files.Framed-copyfilerange fs host h r
  Framed-serve Opcode.syncfs r = Handles.Framed-syncfs fs host h
  Framed-serve Opcode.init r = Init.Framed-init fs host h r pages
  Framed-serve Opcode.read r = Framed-read fs host h r counts
  Framed-serve Opcode.readdir r = Framed-readdir fs host h r
  Framed-serve Opcode.readdirplus r = Framed-readdirplus fs host h r
  Framed-serve Opcode.getlk r = Framed-unanswered fs host h fs.getlk unsupported.getlk
  Framed-serve Opcode.setlk r = Framed-unanswered fs host h fs.setlk unsupported.setlk
  Framed-serve Opcode.setlkw r = Framed-unanswered fs host h fs.setlkw unsupported.setlkw
  Framed-serve Opcode.ioctl r = Framed-unanswered fs host h fs.ioctl unsupported.ioctl
  Framed-serve Opcode.bmap r = Framed-unanswered fs host h fs.bmap unsupported.bmap
  Framed-serve Opcode.poll r = Framed-unanswered fs host h fs.poll unsupported.poll
  Framed-serve Opcode.notify_reply r =
      Framed-unanswered fs host h fs.notify_reply unsupported.notify_reply
  Framed-serve Opcode.forget r = Framed-forget fs host h r
  Framed-serve Opcode.batch_forget r = Framed-batch_forget fs host h r
  Framed-serve Opcode.interrupt r = Framed-silent refl
  Framed-serve Opcode.destroy r = Framed-destroy fs host h
  Framed-serve Opcode.setup_mapping r = Framed-reply_error [] host _
  Framed-serve Opcode.remove_mapping r = Framed-reply_error [] host _
  Framed-serve Opcode.tmp_file r = Framed-tmpfile fs host h unsupported.tmpfile

  Framed-dispatch :
      (opcode : Option Opcode) (r : List ℕ)
      → Framed (may_be_quiet opcode) h.unique (dispatch fs host opcode h r)
  unfolding dispatch
  Framed-dispatch none r = Framed-reply_error [] host _
  Framed-dispatch (some opcode) r = Framed-serve opcode r

  -- After the header, every request ends with a frame of its `unique`, without a reply only where
  -- FUSE has none, or with an error of the server and a reply that is empty or cut off; it panics
  -- only on buffers of less than 16 bytes. The buffers have less than 2 ^ 32 bytes, a page has at
  -- least 17 bytes, and the file system counts what it reads and fails each call of getlk, setlk,
  -- setlkw, ioctl, bmap, poll, notify_reply and tmpfile.
  pub handle_message-Ends :
      (r rest : List ℕ) (s : Server fs.State) (room : ℕ)
      → read_in_header r ≡ some (h, rest)
      → room < 2 ^ 32
      → Ends
          (may_be_quiet (try_from h.opcode))
          h.unique
          room
          (handle_message fs host r s (record { room = room; out = [] }))
  unfolding handle_message read_obj ok_or ◌>>=◌
  handle_message-Ends r rest s room e small = rw e (
      (Framed-if _ _ _ (Framed-reply_error [] host _) (Framed-dispatch (try_from h.opcode) rest)).at
        s room small)
