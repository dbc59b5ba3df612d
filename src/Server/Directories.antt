-- ===== src/Server/Directories.antt =====
-- src/server.rs: the requests that read, of a file's data and of a directory's entries.
use virtiofsd.Common.{ℕ, none, some, List, if◌then◌else◌, ltb}
use virtiofsd.Common.Io.{IoResult, panic}
use virtiofsd.Fuse.Requests.{InHeader, read_read_in}
use virtiofsd.FileSystem.{FileSystem, context, DirEntry}
use virtiofsd.Server.Result.{read_obj}
use virtiofsd.Server.Reply.{Handler, Host, ◌>>=◌, reply_error, reply_error_over, reply_readdir}
use virtiofsd.Server.Options.{has}
use virtiofsd.Server.Limits.{max_buffer_size, enomem}
use Prim.Native.Nat.{min}
use virtiofsd.Fuse.Requests.{ReadIn}
use virtiofsd.Server.Files.{only_if}
use virtiofsd.Server.Writer.{Writer, split_at}
use virtiofsd.Server.Dirents.{fill}

unfoldable pub entries_of :
    {S : Type 0} → (IoResult (List DirEntry) × S) → ℕ → Writer → (IoResult ℕ × Writer) × S
entries_of (IoResult.err e, st) size cursor = ((IoResult.err e, cursor), st)
entries_of (IoResult.ok entries, st) size cursor = (fill size 0 entries cursor, st)

module _ (fs : FileSystem) (host : Host) where
  unfoldable pub read_reply : List ℕ → ℕ → IoResult ℕ → Handler fs.State
  read_reply bytes unique (IoResult.ok count) = reply_readdir bytes count unique
  read_reply bytes unique (IoResult.err e) = reply_error_over bytes host e unique

  -- The buffers are split behind the place of the header. Without that much room `unwrap` panics.
  unfoldable pub read_data : InHeader → ReadIn → Handler fs.State
  read_data h m s w = elim (split_at 16 w) [
    | none ↦ panic
    | some (w, cursor) ↦
        let ((result, bytes), st) =
          fs.read (context h) h.nodeid m.fh cursor.room m.size m.offset
            (only_if (has m.read_flags 2) m.lock_owner) m.flags s.fs in
        read_reply bytes h.unique result (record { fs = st; options = s.options }) w
  ]

  unfoldable pub handle_read : InHeader → List ℕ → Handler fs.State
  handle_read h r = do (m, r) ← read_obj read_read_in r; read_data h m

  -- A `size` that the buffers cannot hold is refused, then they are split.
  unfoldable pub with_cursor :
      ℕ → ℕ → (ℕ → Writer → fs.State → (IoResult ℕ × Writer) × fs.State) → Handler fs.State
  with_cursor unique size read_entries s w =
      let size = min size max_buffer_size in
      if ltb w.room size then reply_error host enomem unique s w else elim (split_at 16 w) [
        | none ↦ panic
        | some (w, cursor) ↦
            let ((result, cursor), st) = read_entries size cursor s.fs in
            read_reply cursor.out unique result (record { fs = st; options = s.options }) w
      ]

  unfoldable pub handle_readdir : InHeader → List ℕ → Handler fs.State
  handle_readdir h r = do
    (m, r) ← read_obj read_read_in r
    with_cursor h.unique m.size (λ size cursor st.
        entries_of (fs.readdir (context h) h.nodeid m.fh size m.offset st) size cursor)
