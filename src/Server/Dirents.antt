-- ===== src/Server/Dirents.antt =====
-- src/server.rs: the entries of a directory, written behind the place of the header.
use virtiofsd.Common.{
  ℕ, zero, suc, ◌+◌, ◌-◌, ◌*◌, ◌/◌, ◌^◌, Option, none, some, List, [], ◌∷◌, ◌++◌, if◌then◌else◌,
  ltb, length,
}
use virtiofsd.Common.Io.{IoResult, ok, err}
use virtiofsd.Fuse.Replies.{Entry, entry_out, as_slice, dirent}
use virtiofsd.FileSystem.{DirEntry}
use virtiofsd.Server.Limits.{eoverflow}
use virtiofsd.Server.Writer.{Writer, write_parts}

abbrev pub dirent_len : DirEntry → ℕ
dirent_len d = 24 + length d.name

abbrev pub padded_dirent_len : DirEntry → ℕ
padded_dirent_len d = (dirent_len d + 7) / 8 * 8

unfoldable pub total_len : DirEntry → Option Entry → ℕ
total_len d none = padded_dirent_len d
total_len d (some _) = padded_dirent_len d + 128

unfoldable pub zeros : ℕ → List ℕ
zeros zero = []
zeros (suc n) = 0 ∷ zeros n

unfoldable pub entry_parts : Option Entry → List (List ℕ)
entry_parts none = []
entry_parts (some e) = as_slice (entry_out e) ∷ []

unfoldable pub padding_parts : ℕ → List (List ℕ)
padding_parts zero = []
padding_parts (suc n) = zeros (suc n) ∷ []

-- What is written for an entry, in the order of the writes.
unfoldable pub dirent_parts : DirEntry → Option Entry → List (List ℕ)
dirent_parts d entry =
    entry_parts entry
    ++ (as_slice (dirent d.ino d.offset (length d.name) d.type_)
        ∷ d.name
        ∷ padding_parts (padded_dirent_len d - dirent_len d))

unfoldable pub written : ℕ → IoResult (Unit {0}) × Writer → IoResult ℕ × Writer
written n (ok _, cursor) = (ok n, cursor)
written n (err e, cursor) = (err e, cursor)

-- With a name of at most 2 ^ 32 - 1 bytes the sums fit an `usize`.
unfoldable pub add_dirent : Writer → ℕ → DirEntry → Option Entry → IoResult ℕ × Writer
add_dirent cursor max d entry =
    if ltb (2 ^ 32 - 1) (length d.name)
    then (err eoverflow, cursor)
    else if ltb max (total_len d entry)
    then (ok 0, cursor)
    else written (total_len d entry) (write_parts (dirent_parts d entry) cursor)

-- The loop of `readdir`, with the bytes written so far.
unfoldable pub fill : ℕ → ℕ → List DirEntry → Writer → IoResult ℕ × Writer
fill size total [] cursor = (ok total, cursor)
fill size total (d ∷ entries) cursor =
    let (result, cursor) = add_dirent cursor (size - total) d none in
    elim result [
      | ok n ↦ elim n [
        | zero ↦ (ok total, cursor)
        | suc m ↦ fill size (total + suc m) entries cursor
      ]
      | err e ↦ (err e, cursor)
    ]
