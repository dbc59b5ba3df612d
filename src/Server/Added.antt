-- ===== src/Server/Added.antt =====
-- What `add_dirent` of src/server.rs does to the bytes behind the place of the header.
use virtiofsd.Common.{
  ◌≡◌, refl, sym, ap, ◌∙◌, ℕ, zero, suc, ◌-◌, ◌≤◌, ◌<◌, ◌^◌, Option, none, some, List, ◌++◌, length,
  ltb, ltb→lt, Bool-cases, inl, inr, arith,
}
use mathlib.Core.Path.{subst}
use virtiofsd.Common.Io.{IoResult, ok, err, write_zero}
use virtiofsd.Fuse.Replies.{Entry, entry_out, attr_fields, as_slice, dirent}
use virtiofsd.FileSystem.{DirEntry}
use virtiofsd.Server.Limits.{eoverflow}
use virtiofsd.Server.Reply.{total}
use virtiofsd.Server.Writer.{Writer, write_parts}
use virtiofsd.Server.Parts.{
  size_of, length-as_slice, joined, length-joined, Wrote, fits, overflows, write_parts-Wrote,
}
use virtiofsd.Server.Dirents.{
  dirent_len, padded_dirent_len, total_len, zeros, entry_parts, padding_parts, dirent_parts,
  written, add_dirent,
}

pub length-zeros : (n : ℕ) → length (zeros n) ≡ n
unfolding zeros
length-zeros zero = refl
length-zeros (suc n) = ap suc (length-zeros n)

total-padding_parts : (n : ℕ) → total (padding_parts n) ≡ n
unfolding total padding_parts
total-padding_parts zero = refl
total-padding_parts (suc n) = omega (arith, length-zeros (suc n))

length-entry_out : (e : Entry) → length (as_slice (entry_out e)) ≡ 128
unfolding entry_out attr_fields size_of
length-entry_out e = length-as_slice (entry_out e)

length-dirent : (ino off namelen type : ℕ) → length (as_slice (dirent ino off namelen type)) ≡ 24
unfolding dirent size_of
length-dirent ino off namelen type = length-as_slice (dirent ino off namelen type)

pub total-dirent_parts :
    (d : DirEntry) (entry : Option Entry) → total (dirent_parts d entry) ≡ total_len d entry
unfolding total dirent_parts entry_parts total_len
total-dirent_parts d none = omega (
  arith,
  total-padding_parts (padded_dirent_len d - dirent_len d),
  length-dirent d.ino d.offset (length d.name) d.type_,
)
total-dirent_parts d (some e) = omega (
  arith,
  length-entry_out e,
  total-padding_parts (padded_dirent_len d - dirent_len d),
  length-dirent d.ino d.offset (length d.name) d.type_,
)

-- The bytes of an entry.
abbrev pub encoded : DirEntry → Option Entry → List ℕ
encoded d entry = joined (dirent_parts d entry)

pub length-encoded :
    (d : DirEntry) (entry : Option Entry) → length (encoded d entry) ≡ total_len d entry
length-encoded d entry = length-joined (dirent_parts d entry) ∙ total-dirent_parts d entry

-- An entry has at least the bytes of its structure.
pub total_len-pos : (d : DirEntry) (entry : Option Entry) → 24 ≤ total_len d entry
unfolding total_len
total_len-pos d none = omega arith
total_len-pos d (some e) = omega arith

pub data Added (cursor : Writer) (max : ℕ) (d : DirEntry) (entry : Option Entry)
    : IoResult ℕ × Writer → Type 0 where
  added :
      (cursor' : Writer) (n : ℕ)
      → suc n ≡ length (encoded d entry)
      → suc n ≤ max
      → suc n ≤ cursor.room
      → cursor'.room ≡ cursor.room - suc n
      → cursor'.out ≡ cursor.out ++ encoded d entry
      → Added cursor max d entry (ok (suc n), cursor')
  full : max < total_len d entry → Added cursor max d entry (ok 0, cursor)
  too_long : Added cursor max d entry (err eoverflow, cursor)
  no_space :
      (cursor' : Writer) (tail : List ℕ)
      → cursor.room < total_len d entry
      → cursor'.out ≡ cursor.out ++ tail
      → Added cursor max d entry (err write_zero, cursor')

Added-written :
    (cursor : Writer) (max : ℕ) (d : DirEntry) (entry : Option Entry)
    {r : IoResult (Unit {0}) × Writer} (n : ℕ)
    → suc n ≡ total_len d entry
    → total_len d entry ≤ max
    → Wrote (dirent_parts d entry) cursor r
    → Added cursor max d entry (written (suc n) r)
unfolding written
Added-written cursor max d entry n e h (fits w' f room out) =
    let sum = total-dirent_parts d entry in
    added w' n (e ∙ sym (length-encoded d entry)) (omega arith) (omega arith) (omega arith) out
Added-written cursor max d entry n e h (overflows w' f out) =
    let sum = total-dirent_parts d entry in no_space w' _ (omega arith) out

pub add_dirent-Added :
    (cursor : Writer) (max : ℕ) (d : DirEntry) (entry : Option Entry)
    → Added cursor max d entry (add_dirent cursor max d entry)
unfolding add_dirent
add_dirent-Added cursor max d entry = elim (Bool-cases (ltb (2 ^ 32 - 1) (length d.name))) [
  | inl long ↦ rw long too_long
  | inr short ↦ elim (Bool-cases (ltb max (total_len d entry))) [
    | inl e ↦ rw (short, e) (full (ltb→lt _ _ e))
    | inr e ↦
        let pos = total_len-pos d entry in
        let whole : suc (total_len d entry - 1) ≡ total_len d entry = omega arith in
        rw (short, e)
          (subst
            (λ n. Added cursor max d entry (written n (write_parts (dirent_parts d entry) cursor)))
            whole
            (Added-written cursor max d entry _ whole (ground arith) (write_parts-Wrote _ cursor)))
  ]
]
