-- ===== src/Server/Create.antt =====
-- src/server.rs: the requests that create a file, with the extensions behind its name.
use virtiofsd.Common.{ℕ, ◌+◌, some, List, length}
use virtiofsd.Fuse.Replies.{Entry, entry_out, open_out, as_slice}
use virtiofsd.Fuse.Requests.{InHeader, read_mknod_in, read_mkdir_in, read_create_in}
use virtiofsd.FileSystem.{FileSystem, context, Opened}
use virtiofsd.Server.Result.{
  read_obj, read_exact, remaining_len, bytes_to_cstr, ok_or, next_component, missing_parameter,
}
use virtiofsd.Server.Reply.{with_options, Handler, Host, ◌>>=◌, answer, reply_ok}
use virtiofsd.Server.Options.{has, from_bits_truncate, fs_options}
use virtiofsd.Server.Names.{reply_entry}
use virtiofsd.Server.Extensions.{get_extensions}
use virtiofsd.Server.Files.{get_or, open_kill_suidgid}

module _ (fs : FileSystem) (host : Host) where
  unfoldable pub handle_symlink : InHeader → List ℕ → Handler fs.State
  handle_symlink h r = with_options (λ options. do
    len ← remaining_len h 0
    (buf, r) ← read_exact len r
    (name, components) ← ok_or missing_parameter (next_component buf)
    (linkname, components) ← ok_or missing_parameter (next_component components)
    extensions ←
        get_extensions (from_bits_truncate fs_options options) (length name + length linkname) buf
    linkname ← bytes_to_cstr linkname
    name ← bytes_to_cstr name
    answer host h.unique (fs.symlink (context h) linkname h.nodeid name extensions)
        (reply_entry fs host h.unique))

  unfoldable pub handle_mknod : InHeader → List ℕ → Handler fs.State
  handle_mknod h r = with_options (λ options. do
    (m, r) ← read_obj read_mknod_in r
    len ← remaining_len h 16
    (buf, r) ← read_exact len r
    (name, components) ← ok_or missing_parameter (next_component buf)
    extensions ← get_extensions (from_bits_truncate fs_options options) (length name) buf
    name ← bytes_to_cstr name
    answer host h.unique (fs.mknod (context h) h.nodeid name m.mode m.rdev m.umask extensions)
        (reply_entry fs host h.unique))

  unfoldable pub handle_mkdir : InHeader → List ℕ → Handler fs.State
  handle_mkdir h r = with_options (λ options. do
    (m, r) ← read_obj read_mkdir_in r
    len ← remaining_len h 8
    (buf, r) ← read_exact len r
    (name, components) ← ok_or missing_parameter (next_component buf)
    extensions ← get_extensions (from_bits_truncate fs_options options) (length name) buf
    name ← bytes_to_cstr name
    answer host h.unique (fs.mkdir (context h) h.nodeid name m.mode m.umask extensions)
        (reply_entry fs host h.unique))

  unfoldable pub reply_created : ℕ → Entry × Opened → Handler fs.State
  reply_created unique (entry, (handle, opts)) =
      reply_ok (some (entry_out entry)) (some (as_slice (open_out (get_or handle 0) opts))) unique

  unfoldable pub handle_create : InHeader → List ℕ → Handler fs.State
  handle_create h r = with_options (λ options. do
    (m, r) ← read_obj read_create_in r
    len ← remaining_len h 16
    (buf, r) ← read_exact len r
    (name, components) ← ok_or missing_parameter (next_component buf)
    extensions ← get_extensions (from_bits_truncate fs_options options) (length name) buf
    name ← bytes_to_cstr name
    answer host h.unique
        (fs.create (context h) h.nodeid name m.mode (has m.open_flags open_kill_suidgid) m.flags
          m.umask extensions)
        (reply_created h.unique))
