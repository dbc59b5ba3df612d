-- ===== src/Server/Tests.antt =====
-- The server on a small file system: one file, the inode 7, which every name finds. The state is the
-- number of its lookups.
use virtiofsd.Common.{
  ◌≡◌, refl, sym, ap, ℕ, zero, suc, ◌+◌, ◌^◌, ◌-◌, ◌≤◌, ◌<◌, none, some, List, [], ◌∷◌, ◌++◌,
  length, take, true, if◌then◌else◌, ◌==◌, arith,
}
use mathlib.Core.Path.{subst}
use mathlib.Core.List.{append-nil}
use virtiofsd.Common.Io.{os, IoResult, ok, err, Outcome, done, panic}
use virtiofsd.Fuse.Bytes.{le_bytes, uint}
use virtiofsd.Fuse.Replies.{
  out_header, entry_out, attr_fields, dirent, Attr, Duration, Entry, as_slice,
}
use virtiofsd.Fuse.Requests.{InHeader, read_in_header, read_read_in}
use virtiofsd.Fuse.Opcode.{try_from, number_in}
use virtiofsd.FileSystem.{FileSystem, SecContext, Extensions, DirEntry}
use virtiofsd.Server.Errno.{linux, errno_to_linux}
use virtiofsd.Server.Writer.{write_all, write_parts, split_at}
use virtiofsd.Server.Result.{Result, decode_message, read_obj, ok_or}
use virtiofsd.Server.Reply.{
  Server, Host, Served, ◌>>=◌, fail, sent, reply_readdir, total, reply_error_over, native_errno,
}
use virtiofsd.Server.Delivered.{delivered}
use virtiofsd.Server.Lookups.{CountsLookups, Listed, entries_plus-Listed}
use virtiofsd.Server.Readdirplus.{
  entries_plus, fill_plus, plus_found, plus_added, handle_dirent, is_current_or_parent,
  negative_entry,
}
use virtiofsd.Server.Dirents.{
  add_dirent, total_len, written, dirent_parts, entry_parts, padding_parts, zeros,
}
use virtiofsd.Server.Messages.{handle_message, dispatch, serve}
use virtiofsd.Server.Directories.{handle_read, read_data, read_reply}
use virtiofsd.Server.Files.{only_if}
use virtiofsd.Server.Options.{has}
use virtiofsd.Server.Framing.{Ends}
use virtiofsd.Server.Framing.Entries.{CountsReads}
use virtiofsd.Server.Framing.Messages.{Fails, Unsupported, may_be_quiet, handle_message-Ends}
use virtiofsd.Server.Options.{contains, security_ctx, create_supp_group}
use virtiofsd.Server.Extensions.{get_extensions}
use virtiofsd.Server.ExtensionBytes.{extension_bytes, context_payload}
use virtiofsd.Server.ExtensionPayloads.{IsContext}
use virtiofsd.Server.ExtensionTrip.{IsSendable, get_extensions-sent}

abbrev no_time : Duration
no_time = record { secs = 0; nanos = 0 }

abbrev file_attr : Attr
file_attr = record {
  ino = 7;
  size = 2;
  blocks = 1;
  atime = 0;
  mtime = 0;
  ctime = 0;
  atimensec = 0;
  mtimensec = 0;
  ctimensec = 0;
  mode = 33188;
  nlink = 1;
  uid = 0;
  gid = 0;
  rdev = 0;
  blksize = 4096;
  flags = 0;
}

abbrev file : Entry
file = record {
  inode = 7;
  generation = 0;
  attr = file_attr;
  attr_timeout = no_time;
  entry_timeout = no_time;
}

abbrev content : List ℕ
content = 104 ∷ 105 ∷ []

abbrev refuse : {A : Type 0} → ℕ → IoResult A × ℕ
refuse st = (err (os 38), st)

abbrev small_fs : FileSystem
small_fs = record {
  State = ℕ;
  init = λ _ st. (ok 0, st);
  destroy = λ st. 0;
  lookup = λ _ _ _ st. (ok file, suc st);
  forget = λ _ inode n st. if inode == 7 then st - n else st;
  batch_forget = λ _ _ st. st;
  getattr = λ _ _ _ st. (ok (file_attr, no_time), st);
  setattr = λ _ _ _ _ _ st. refuse st;
  readlink = λ _ _ st. refuse st;
  symlink = λ _ _ _ _ _ st. refuse st;
  mknod = λ _ _ _ _ _ _ _ st. refuse st;
  mkdir = λ _ _ _ _ _ _ st. refuse st;
  unlink = λ _ _ _ st. refuse st;
  rmdir = λ _ _ _ st. refuse st;
  rename = λ _ _ _ _ _ _ st. refuse st;
  link = λ _ _ _ _ st. refuse st;
  open_inode = λ _ _ _ _ st. refuse st;
  create = λ _ _ _ _ _ _ _ _ st. refuse st;
  read = λ _ _ _ room _ _ _ _ st. ((ok (length (take room content)), take room content), st);
  write = λ _ _ _ _ _ _ _ _ _ _ st. refuse st;
  flush = λ _ _ _ _ st. refuse st;
  fsync = λ _ _ _ _ st. refuse st;
  fallocate = λ _ _ _ _ _ _ st. refuse st;
  release = λ _ _ _ _ _ _ _ st. refuse st;
  statfs = λ _ _ st. refuse st;
  setxattr = λ _ _ _ _ _ _ st. refuse st;
  getxattr = λ _ _ _ _ st. refuse st;
  listxattr = λ _ _ _ st. refuse st;
  removexattr = λ _ _ _ st. refuse st;
  opendir = λ _ _ _ st. refuse st;
  readdir = λ _ _ _ _ _ st. refuse st;
  fsyncdir = λ _ _ _ _ st. refuse st;
  releasedir = λ _ _ _ _ st. refuse st;
  access = λ _ _ _ st. refuse st;
  lseek = λ _ _ _ _ _ st. refuse st;
  copyfilerange = λ _ _ _ _ _ _ _ _ _ st. refuse st;
  syncfs = λ _ _ st. refuse st;
  getlk = refuse;
  setlk = refuse;
  setlkw = refuse;
  ioctl = refuse;
  bmap = refuse;
  poll = refuse;
  notify_reply = refuse;
  tmpfile = refuse;
}

length-take : (n : ℕ) (xs : List ℕ) → length (take n xs) ≤ n
length-take zero xs = omega arith
length-take (suc n) [] = omega arith
length-take (suc n) (x ∷ xs) = omega (arith, length-take n xs)

small_fs-CountsReads : CountsReads small_fs
small_fs-CountsReads = record {
  at = λ _ _ _ room _ _ _ _ _.
      delivered _ (take room content) (take room content) [] (sym (append-nil (take room content)))
        refl (length-take room content);
}

refuse-Fails : Fails {S = ℕ} refuse
refuse-Fails = record { at = λ st. (os 38, refl) }

small_fs-Unsupported : Unsupported small_fs
small_fs-Unsupported = record {
  getlk = refuse-Fails;
  setlk = refuse-Fails;
  setlkw = refuse-Fails;
  ioctl = refuse-Fails;
  bmap = refuse-Fails;
  poll = refuse-Fails;
  notify_reply = refuse-Fails;
  tmpfile = refuse-Fails;
}

abbrev host : Host
host = record { platform = linux; page_size = 4096 }

-- A READ of 64 bytes at 0 of the inode 7.
abbrev header : InHeader
header = record {
  len = 80;
  opcode = 15;
  unique = 9;
  nodeid = 7;
  uid = 0;
  gid = 0;
  pid = 1;
  total_extlen = 0;
  padding = 0;
}

abbrev message : List ℕ
message = as_slice ((8, 3) ∷ (8, 0) ∷ (4, 64) ∷ (4, 0) ∷ (8, 0) ∷ (4, 0) ∷ (4, 0) ∷ [])

abbrev request : List ℕ
request =
    as_slice ((4, 80) ∷ (4, 15) ∷ (8, 9) ∷ (8, 7) ∷ (4, 0) ∷ (4, 0) ∷ (4, 1) ∷ (2, 0) ∷ (2, 0) ∷ [])
    ++ message

abbrev server : Server ℕ
server = record { fs = 2; options = 0 }

request-header : read_in_header request ≡ some (header, message)
unfolding read_in_header as_slice le_bytes uint
request-header = refl

handle_message-Ends_example :
    Ends
      (may_be_quiet (try_from 15))
      9
      100
      (handle_message small_fs host request server (record { room = 100; out = [] }))
handle_message-Ends_example =
    handle_message-Ends small_fs host header small_fs-CountsReads small_fs-Unsupported (omega arith)
      request message server 100 request-header (omega arith)

run : List ℕ → ℕ → Outcome (Served ℕ)
unfolding handle_message dispatch serve handle_read read_data read_reply reply_readdir
    reply_error_over native_errno errno_to_linux sent total fail ◌>>=◌ read_obj ok_or read_in_header
    read_read_in le_bytes uint as_slice out_header try_from number_in write_all write_parts split_at
    only_if has
run bytes room = handle_message small_fs host bytes server (record { room = room; out = [] })

reads_data :
    run request 100
    ≡ done (record {
      server = server;
      reply = 18 ∷ 0 ∷ 0 ∷ 0 ∷ 0 ∷ 0 ∷ 0 ∷ 0 ∷ 9 ∷ 0 ∷ 0 ∷ 0 ∷ 0 ∷ 0 ∷ 0 ∷ 0 ∷ [];
      payload = content;
      result = Result.ok 18;
    })
unfolding run
reads_data = refl

-- A guest whose buffers are too short for a header stops the daemon.
panics_without_room : run request 15 ≡ panic
unfolding run
panics_without_room = refl

drops_short_request :
    run (take 60 request) 100
    ≡ done
        (record { server = server; reply = []; payload = []; result = Result.err decode_message })
unfolding run
drops_short_request = refl

abbrev found_inode : IoResult Entry → ℕ
found_inode (ok e) = e.inode
found_inode (err _) = 0

small_fs-CountsLookups : CountsLookups small_fs
small_fs-CountsLookups = record {
  lookups = λ st i. if 7 == i then st else 0;
  found = λ _ _ _ st e i same. let seven : 7 ≡ e.inode = ap found_inode same in ground arith;
  not_found = λ _ _ _ st e i same. let never : 7 ≡ 0 = ap found_inode same in absurd (omega arith);
  forgot = λ _ inode st i. ground arith;
}

abbrev a_dirent : List ℕ → DirEntry
a_dirent name = record { ino = 7; offset = 1; type_ = 8; name = name }

-- `.` and two files, with room for two entries.
abbrev directory : List DirEntry
directory = a_dirent (46 ∷ []) ∷ a_dirent (97 ∷ []) ∷ a_dirent (98 ∷ []) ∷ []

entries_plus-Listed_example :
    Listed small_fs small_fs-CountsLookups header 400 directory 2
      (entries_plus small_fs header (ok directory, 2) 400 (record { room = 500; out = [] }))
entries_plus-Listed_example =
    entries_plus-Listed small_fs small_fs-CountsLookups header 400 (record { room = 500; out = [] })
      (ok directory) 2 refl

-- The third entry does not fit: its lookup is undone.
undoes_lookup :
    (entries_plus small_fs header (ok directory, 2) 400 (record { room = 500; out = [] })).1 ≡ 3
unfolding entries_plus fill_plus plus_found plus_added handle_dirent is_current_or_parent add_dirent
    total_len written write_parts write_all dirent_parts entry_parts padding_parts zeros as_slice
    le_bytes entry_out attr_fields dirent negative_entry
undoes_lookup = refl

abbrev a_context : SecContext
a_context = record { name = 115 ∷ 101 ∷ []; secctx = 120 ∷ 0 ∷ [] }

abbrev sent_extensions : Extensions
sent_extensions = record { secctx = some a_context; sup_gids = 1000 ∷ [] }

context_is : (c : SecContext) → some a_context ≡ some c → a_context ≡ c
context_is c e = ap (λ o. elim o [ none ↦ a_context | some c ↦ c ]) e

a_context-IsContext : IsContext a_context
a_context-IsContext = record {
  no_nul = (ground arith, (ground arith, tt));
  some_bytes = omega arith;
  small = omega arith;
}

sent_extensions-IsSendable : IsSendable sent_extensions (0 ∷ 0 ∷ [])
unfolding context_payload le_bytes
sent_extensions-IsSendable = record {
  context = λ c e. subst IsContext (context_is c e) a_context-IsContext;
  context_small = λ c e.
      subst (λ c. length (context_payload c (0 ∷ 0 ∷ [])) < 2 ^ 31) (context_is c e) (omega arith);
  gids_small = (omega arith, tt);
  few = omega arith;
}

both_flags :
    (contains (2 ^ 32 + 2 ^ 34) security_ctx ≡ true)
    × (contains (2 ^ 32 + 2 ^ 34) create_supp_group ≡ true)
unfolding contains
both_flags = (refl, refl)

get_extensions-sent_example :
    get_extensions
      (2 ^ 32 + 2 ^ 34)
      2
      ((102 ∷ 0 ∷ []) ++ extension_bytes sent_extensions (0 ∷ 0 ∷ []))
    ≡ Result.ok sent_extensions
get_extensions-sent_example =
    get_extensions-sent (2 ^ 32 + 2 ^ 34) both_flags.0 both_flags.1 (102 ∷ 0 ∷ []) (0 ∷ 0 ∷ [])
      sent_extensions sent_extensions-IsSendable
