-- ===== src/ReadDir.antt =====
-- `ReadDir` of src/read_dir.rs on Linux: the entries of a directory in the buffer that getdents64 fills.
pub mod Records
pub mod Walk
pub mod Seek
pub mod Resume
mod Tests
use virtiofsd.Common.{
  ℕ, zero, suc, ◌+◌, ◌-◌, Option, none, some, List, [], ◌∷◌, Bool, true, false, length, take, drop,
  if◌then◌else◌, ltb, leb, ◌==◌,
}
use virtiofsd.Common.Io.{Outcome, done, panic}
use virtiofsd.Fuse.Bytes.{Decode, ◌>>=◌, pure, uint, u16, u64}
use virtiofsd.FileSystem.{DirEntry}

pub record LinuxDirent64 : Type 0 where
  pub d_ino : ℕ
  pub d_off : ℕ
  pub d_reclen : ℕ
  pub d_ty : ℕ

-- A packed structure: 19 bytes.
unfoldable pub read_linux_dirent64 : Decode LinuxDirent64
read_linux_dirent64 = do
  d_ino ← u64
  d_off ← u64
  d_reclen ← u16
  d_ty ← uint 1
  pure (record { d_ino = d_ino; d_off = d_off; d_reclen = d_reclen; d_ty = d_ty })

pub record ReadDir : Type 0 where
  pub buf : List ℕ
  pub current : ℕ
  pub end : ℕ

unfoldable pub remaining : ReadDir → ℕ
remaining rd = rd.end - rd.current

-- The bytes that are not consumed yet.
unfoldable pub rem : ReadDir → List ℕ
rem rd = take (rd.end - rd.current) (drop rd.current rd.buf)

-- The bytes before the first NUL, which the source expects to be there.
unfoldable pub strip_padding : List ℕ → Outcome (List ℕ)
strip_padding [] = panic
strip_padding (b ∷ l) =
    let rest = strip_padding l in
    if b == 0 then done [] else elim rest [ panic ↦ panic | done name ↦ done (b ∷ name) ]

-- `current` moves behind the record.
unfoldable pub named :
    ReadDir → LinuxDirent64 → Outcome (List ℕ) → Outcome (Option (DirEntry × ReadDir))
named rd d panic = panic
named rd d (done name) = done (
    some (
      record { ino = d.d_ino; offset = d.d_off; type_ = d.d_ty; name = name },
      record { buf = rd.buf; current = rd.current + d.d_reclen; end = rd.end },
    ))

-- The lengths are those of the kernel, which the source trusts: it panics where they do not fit.
unfoldable pub decoded :
    ReadDir → Option (LinuxDirent64 × List ℕ) → Outcome (Option (DirEntry × ReadDir))
decoded rd none = panic
decoded rd (some (d, back)) =
    if ltb d.d_reclen 19
    then panic
    else if ltb (length back) (d.d_reclen - 19)
    then panic
    else named rd d (strip_padding (take (d.d_reclen - 19) back))

unfoldable pub next_in : ReadDir → List ℕ → Outcome (Option (DirEntry × ReadDir))
next_in rd [] = done none
next_in rd (b ∷ l) = decoded rd (read_linux_dirent64 (b ∷ l))

-- `next`
unfoldable pub next : ReadDir → Outcome (Option (DirEntry × ReadDir))
next rd = next_in rd (rem rd)

-- The loop of `move_past`; each round consumes a record: the fuel is the number of bytes that remain.
unfoldable pub move_past_on : ℕ → ℕ → ReadDir → Outcome (Bool × ReadDir)
move_past_on zero target_offset rd = done (false, rd)
move_past_on (suc fuel) target_offset rd = elim (next rd) [
  | panic ↦ panic
  | done found ↦ elim found [
    | none ↦ done (false, rd)
    | some (entry, rd') ↦
        let rest = move_past_on fuel target_offset rd' in
        if entry.offset == target_offset then done (true, rd') else rest
  ]
]

unfoldable pub move_past : ℕ → ReadDir → Outcome (Bool × ReadDir)
move_past target_offset rd = move_past_on (remaining rd) target_offset rd
