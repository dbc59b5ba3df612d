-- ===== src/Server/Xattrs.antt =====
-- src/server.rs: the requests about extended attributes.
use virtiofsd.Common.{ℕ, ◌%◌, ◌^◌, none, some, List, if◌then◌else◌, ltb, ◌==◌, length}
use virtiofsd.Fuse.Replies.{getxattr_out}
use virtiofsd.Fuse.Requests.{InHeader, read_setxattr_in, read_setxattr_in_compat, read_getxattr_in}
use virtiofsd.FileSystem.{FileSystem, context, GetxattrReply, ListxattrReply}
use virtiofsd.Server.Result.{
  Result, read_obj, read_exact, remaining_len, bytes_to_cstr, ok_or, split_after_nul,
  missing_parameter, invalid_xattr_size,
}
use virtiofsd.Server.Reply.{
  with_options, Handler, Host, ◌>>=◌, answer, reply_ok, reply_error, empty_reply,
}
use virtiofsd.Server.Options.{
  from_bits_truncate, fs_options, setxattr_ext, setxattr_flags, contains,
}
use virtiofsd.Server.Limits.{max_buffer_size, enomem}
use virtiofsd.Fuse.Requests.{SetxattrIn}

-- The message, and its size.
unfoldable pub read_setxattr : ℕ → List ℕ → Result (SetxattrIn × ℕ × List ℕ)
read_setxattr options r =
    if contains options setxattr_ext
    then elim (read_obj read_setxattr_in r) [
      | Result.ok (m, r) ↦ Result.ok (m, 16, r)
      | Result.err e ↦ Result.err e
    ]
    else elim (read_obj read_setxattr_in_compat r) [
      | Result.ok (m, r) ↦
          Result.ok
            (record { size = m.size; flags = m.flags; setxattr_flags = 0; padding = 0 }, 8, r)
      | Result.err e ↦ Result.err e
    ]

unfoldable pub check_xattr_size : ℕ → ℕ → Result (Unit {0})
check_xattr_size size len =
    if size == len % 2 ^ 32 then Result.ok tt else Result.err (invalid_xattr_size size len)

module _ (fs : FileSystem) (host : Host) where
  unfoldable pub handle_setxattr : InHeader → List ℕ → Handler fs.State
  handle_setxattr h r = with_options (λ options. do
    (m, size, r) ← read_setxattr (from_bits_truncate fs_options options) r
    len ← remaining_len h size
    (buf, r) ← read_exact len r
    (name, value) ← ok_or missing_parameter (split_after_nul buf)
    _ ← check_xattr_size m.size (length value)
    name ← bytes_to_cstr name
    answer host h.unique
        (fs.setxattr (context h) h.nodeid name value m.flags
          (from_bits_truncate setxattr_flags m.setxattr_flags))
        (empty_reply h.unique))

  unfoldable pub reply_getxattr : ℕ → GetxattrReply → Handler fs.State
  reply_getxattr unique (GetxattrReply.value val) = reply_ok none (some val) unique
  reply_getxattr unique (GetxattrReply.count n) = reply_ok (some (getxattr_out n)) none unique

  unfoldable pub reply_listxattr : ℕ → ListxattrReply → Handler fs.State
  reply_listxattr unique (ListxattrReply.names val) = reply_ok none (some val) unique
  reply_listxattr unique (ListxattrReply.count n) = reply_ok (some (getxattr_out n)) none unique

  unfoldable pub handle_getxattr : InHeader → List ℕ → Handler fs.State
  handle_getxattr h r = do
    (m, r) ← read_obj read_getxattr_in r
    namelen ← remaining_len h 8
    (buf, r) ← read_exact namelen r
    (if ltb max_buffer_size m.size then reply_error host enomem h.unique else (do
      name ← bytes_to_cstr buf
      answer host h.unique (fs.getxattr (context h) h.nodeid name m.size)
          (reply_getxattr h.unique)))

  unfoldable pub handle_listxattr : InHeader → List ℕ → Handler fs.State
  handle_listxattr h r = do
    (m, r) ← read_obj read_getxattr_in r
    (if ltb max_buffer_size m.size
        then reply_error host enomem h.unique
        else answer host h.unique (fs.listxattr (context h) h.nodeid m.size)
            (reply_listxattr h.unique))

  unfoldable pub handle_removexattr : InHeader → List ℕ → Handler fs.State
  handle_removexattr h r = do
    namelen ← remaining_len h 0
    (buf, r) ← read_exact namelen r
    name ← bytes_to_cstr buf
    answer host h.unique (fs.removexattr (context h) h.nodeid name) (empty_reply h.unique)
