-- ===== src/Server/Names.antt =====
-- src/server.rs: the requests that name a file in a directory.
use virtiofsd.Common.{ℕ, none, some, List}
use virtiofsd.Fuse.Replies.{Entry, entry_out}
use virtiofsd.Fuse.Requests.{InHeader, read_rename_in, read_rename2_in, read_link_in}
use virtiofsd.FileSystem.{FileSystem, context}
use virtiofsd.Server.Result.{
  read_obj, read_exact, remaining_len, bytes_to_cstr, ok_or, split_after_nul, missing_parameter,
}
use virtiofsd.Server.Reply.{Handler, Host, ◌>>=◌, answer, reply_ok, empty_reply}
use virtiofsd.Server.Options.{from_bits_truncate}

module _ (fs : FileSystem) (host : Host) where
  unfoldable pub reply_entry : ℕ → Entry → Handler fs.State
  reply_entry unique entry = reply_ok (some (entry_out entry)) none unique

  unfoldable pub handle_lookup : InHeader → List ℕ → Handler fs.State
  handle_lookup h r = do
    namelen ← remaining_len h 0
    (buf, r) ← read_exact namelen r
    name ← bytes_to_cstr buf
    answer host h.unique (fs.lookup (context h) h.nodeid name) (reply_entry h.unique)

  unfoldable pub handle_unlink : InHeader → List ℕ → Handler fs.State
  handle_unlink h r = do
    namelen ← remaining_len h 0
    (buf, r) ← read_exact namelen r
    name ← bytes_to_cstr buf
    answer host h.unique (fs.unlink (context h) h.nodeid name) (empty_reply h.unique)

  unfoldable pub handle_rmdir : InHeader → List ℕ → Handler fs.State
  handle_rmdir h r = do
    namelen ← remaining_len h 0
    (buf, r) ← read_exact namelen r
    name ← bytes_to_cstr buf
    answer host h.unique (fs.rmdir (context h) h.nodeid name) (empty_reply h.unique)

  -- The evaluation order of the source: the old name is checked first.
  unfoldable pub do_rename : InHeader → ℕ → ℕ → ℕ → List ℕ → Handler fs.State
  do_rename h msg_size newdir flags r = do
    buflen ← remaining_len h msg_size
    (buf, r) ← read_exact buflen r
    (oldname, newname) ← ok_or missing_parameter (split_after_nul buf)
    oldname ← bytes_to_cstr oldname
    newname ← bytes_to_cstr newname
    answer host h.unique (fs.rename (context h) h.nodeid oldname newdir newname flags)
        (empty_reply h.unique)

  unfoldable pub handle_rename : InHeader → List ℕ → Handler fs.State
  handle_rename h r = do (m, r) ← read_obj read_rename_in r; do_rename h 8 m.newdir 0 r

  -- `RENAME_NOREPLACE`, `RENAME_EXCHANGE` and `RENAME_WHITEOUT` pass.
  unfoldable pub handle_rename2 : InHeader → List ℕ → Handler fs.State
  handle_rename2 h r = do
    (m, r) ← read_obj read_rename2_in r
    do_rename h 16 m.newdir (from_bits_truncate 7 m.flags) r

  unfoldable pub handle_link : InHeader → List ℕ → Handler fs.State
  handle_link h r = do
    (m, r) ← read_obj read_link_in r
    namelen ← remaining_len h 8
    (buf, r) ← read_exact namelen r
    name ← bytes_to_cstr buf
    answer host h.unique (fs.link (context h) m.oldnodeid h.nodeid name) (reply_entry h.unique)

  unfoldable pub handle_readlink : InHeader → Handler fs.State
  handle_readlink h =
      answer host h.unique (fs.readlink (context h) h.nodeid)
        (λ linkname. reply_ok none (some linkname) h.unique)
