-- ===== src/Server/Errno.antt =====
-- src/server.rs: the error numbers of the host, translated to those of Linux that FUSE replies hold.
use virtiofsd.Common.{ℕ, List, [], ◌∷◌, if◌then◌else◌, ◌==◌}

-- `target_os`
pub data Platform : Type 0 where
  linux macos : Platform

-- The arms of the `match` on macOS.
abbrev pub macos_errnos : List (ℕ × ℕ)
macos_errnos =
    (35, 11)
    ∷ (36, 115)
    ∷ (37, 114)
    ∷ (38, 88)
    ∷ (39, 89)
    ∷ (40, 90)
    ∷ (41, 91)
    ∷ (42, 92)
    ∷ (43, 93)
    ∷ (44, 94)
    ∷ (45, 95)
    ∷ (46, 96)
    ∷ (47, 97)
    ∷ (48, 98)
    ∷ (49, 99)
    ∷ (50, 100)
    ∷ (51, 101)
    ∷ (52, 102)
    ∷ (53, 103)
    ∷ (54, 104)
    ∷ (55, 105)
    ∷ (56, 106)
    ∷ (57, 107)
    ∷ (58, 108)
    ∷ (59, 109)
    ∷ (60, 110)
    ∷ (61, 111)
    ∷ (62, 40)
    ∷ (63, 36)
    ∷ (64, 112)
    ∷ (65, 113)
    ∷ (66, 39)
    ∷ (69, 122)
    ∷ (70, 116)
    ∷ (77, 37)
    ∷ (78, 38)
    ∷ (84, 75)
    ∷ (89, 125)
    ∷ (90, 43)
    ∷ (91, 42)
    ∷ (92, 84)
    ∷ (93, 61)
    ∷ (94, 74)
    ∷ (95, 72)
    ∷ (96, 61)
    ∷ (97, 67)
    ∷ (98, 63)
    ∷ (99, 60)
    ∷ (100, 71)
    ∷ (101, 62)
    ∷ (102, 95)
    ∷ (104, 131)
    ∷ (105, 130)
    ∷ []

unfoldable pub translated : List (ℕ × ℕ) → ℕ → ℕ
translated [] errno = errno
translated ((native, peer) ∷ arms) errno =
    let rest = translated arms errno in if native == errno then peer else rest

unfoldable pub errno_to_linux : Platform → ℕ → ℕ
errno_to_linux linux errno = errno
errno_to_linux macos errno = translated macos_errnos errno
