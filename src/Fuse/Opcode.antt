-- ===== src/Fuse/Opcode.antt =====
-- `Opcode` of src/fuse.rs.
use virtiofsd.Common.{ℕ, Option, none, some, List, [], ◌∷◌, if◌then◌else◌, ◌==◌}

pub data Opcode : Type 0 where
  lookup forget getattr setattr readlink symlink mknod mkdir : Opcode
  unlink rmdir rename link open_inode read write statfs : Opcode
  release fsync setxattr getxattr listxattr removexattr flush init : Opcode
  opendir readdir releasedir fsyncdir getlk setlk setlkw access : Opcode
  create interrupt bmap destroy ioctl poll notify_reply batch_forget : Opcode
  fallocate readdirplus rename2 lseek copy_file_range setup_mapping remove_mapping syncfs : Opcode
  tmp_file : Opcode

-- The numbers, in the order of the source.
abbrev opcodes : List (ℕ × Opcode)
opcodes =
    (1, lookup)
    ∷ (2, forget)
    ∷ (3, getattr)
    ∷ (4, setattr)
    ∷ (5, readlink)
    ∷ (6, symlink)
    ∷ (8, mknod)
    ∷ (9, mkdir)
    ∷ (10, unlink)
    ∷ (11, rmdir)
    ∷ (12, rename)
    ∷ (13, link)
    ∷ (14, open_inode)
    ∷ (15, read)
    ∷ (16, write)
    ∷ (17, statfs)
    ∷ (18, release)
    ∷ (20, fsync)
    ∷ (21, setxattr)
    ∷ (22, getxattr)
    ∷ (23, listxattr)
    ∷ (24, removexattr)
    ∷ (25, flush)
    ∷ (26, init)
    ∷ (27, opendir)
    ∷ (28, readdir)
    ∷ (29, releasedir)
    ∷ (30, fsyncdir)
    ∷ (31, getlk)
    ∷ (32, setlk)
    ∷ (33, setlkw)
    ∷ (34, access)
    ∷ (35, create)
    ∷ (36, interrupt)
    ∷ (37, bmap)
    ∷ (38, destroy)
    ∷ (39, ioctl)
    ∷ (40, poll)
    ∷ (41, notify_reply)
    ∷ (42, batch_forget)
    ∷ (43, fallocate)
    ∷ (44, readdirplus)
    ∷ (45, rename2)
    ∷ (46, lseek)
    ∷ (47, copy_file_range)
    ∷ (48, setup_mapping)
    ∷ (49, remove_mapping)
    ∷ (50, syncfs)
    ∷ (51, tmp_file)
    ∷ []

unfoldable pub number_in : List (ℕ × Opcode) → ℕ → Option Opcode
number_in [] n = none
number_in ((k, opcode) ∷ l) n = if k == n then some opcode else number_in l n

-- `Opcode::try_from`
unfoldable pub try_from : ℕ → Option Opcode
try_from n = number_in opcodes n
