-- ===== src/ReadDir/Tests.antt =====
-- A directory of three files, which two calls of getdents64 give.
use virtiofsd.Common.{◌≡◌, refl, ℕ, zero, suc, ◌+◌, ◌^◌, List, [], ◌∷◌, length, arith}
use virtiofsd.Common.Io.{os, ok, err}
use virtiofsd.Fuse.Bytes.{le_bytes}
use virtiofsd.ReadDir.Records.{Padded, reclen, IsWritten, record_bytes, records}
use virtiofsd.ReadDir.Seek.{Directory, new_walk_to}
use virtiofsd.ReadDir.Resume.{Streams, ends, fills, Resumes, all_records, new_walk_to-Resumes}

abbrev a_file : ℕ → ℕ → Padded
a_file cookie letter =
    (record { ino = 5; offset = cookie; type_ = 8; name = letter ∷ [] }, 0 ∷ 0 ∷ 0 ∷ [])

abbrev first : List Padded
first = a_file 100 97 ∷ a_file (2 ^ 63 + 1) 98 ∷ []

abbrev second : List Padded
second = a_file 300 99 ∷ []

abbrev files : Directory
files = record {
  State = ℕ;
  lseek64 = λ offset st. elim offset [ zero ↦ (ok tt, 0) | suc n ↦ (err (os 22), st) ];
  getdents64 = λ size st. elim st [
    | zero ↦ (ok (records first), 1)
    | suc n ↦ elim n [ zero ↦ (ok (records second), 2) | suc m ↦ (ok [], suc (suc m)) ]
  ];
}

abbrev buffer : List ℕ
buffer = records first

a-IsWritten : IsWritten (a_file 100 97)
unfolding reclen
a-IsWritten = record {
  ino_small = omega arith;
  offset_small = omega arith;
  type_small = omega arith;
  reclen_small = omega arith;
  no_nul = (ground arith, tt);
}

b-IsWritten : IsWritten (a_file (2 ^ 63 + 1) 98)
unfolding reclen
b-IsWritten = record {
  ino_small = omega arith;
  offset_small = omega arith;
  type_small = omega arith;
  reclen_small = omega arith;
  no_nul = (ground arith, tt);
}

c-IsWritten : IsWritten (a_file 300 99)
unfolding reclen
c-IsWritten = record {
  ino_small = omega arith;
  offset_small = omega arith;
  type_small = omega arith;
  reclen_small = omega arith;
  no_nul = (ground arith, tt);
}

files-Streams : Streams files 48 (first ∷ second ∷ []) 0
unfolding records record_bytes le_bytes
files-Streams =
    fills (a_file 100 97) (a_file (2 ^ 63 + 1) 98 ∷ []) (second ∷ []) 0 1
      (a-IsWritten, (b-IsWritten, tt)) (omega arith) refl
      (fills (a_file 300 99) [] [] 1 2 (c-IsWritten, tt) (omega arith) refl (ends 2 refl))

buffer-size : length buffer ≡ 48
unfolding records record_bytes le_bytes
buffer-size = refl

new_walk_to-Resumes_example :
    Resumes files 48
      (2 ^ 63 + 1)
      (all_records (first ∷ second ∷ []))
      (new_walk_to files 3 (2 ^ 63 + 1) buffer 7)
new_walk_to-Resumes_example =
    new_walk_to-Resumes files 48 (2 ^ 63 + 1) (first ∷ second ∷ []) buffer 7 0 buffer-size refl
      files-Streams
