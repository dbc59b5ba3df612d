-- ===== src/Server/Options.antt =====
-- The flags of src/fuse.rs that src/server.rs tests. A set of flags is its bits.
use virtiofsd.Common.{ℕ, ◌^◌, Bool, not, ◌==◌}
use Prim.Native.Nat.{bit_and}

-- Whether one of the bits of `flag` is set.
unfoldable pub has : ℕ → ℕ → Bool
has flags flag = not (bit_and flags flag == 0)

-- `contains`
unfoldable pub contains : ℕ → ℕ → Bool
contains flags flag = bit_and flags flag == flag

abbrev pub setxattr_ext : ℕ
setxattr_ext = 2 ^ 29

abbrev pub init_ext : ℕ
init_ext = 2 ^ 30

abbrev pub security_ctx : ℕ
security_ctx = 2 ^ 32

abbrev pub create_supp_group : ℕ
create_supp_group = 2 ^ 34

-- The flags of `FsOptions`, all of them.
abbrev pub fs_options : ℕ
fs_options = 1202523734015

-- Those that the server supports by itself.
abbrev pub supported : ℕ
supported = 1117903951913

-- The flags of `SetattrValid`, all of them.
abbrev pub setattr_valid : ℕ
setattr_valid = 3519

abbrev pub setxattr_flags : ℕ
setxattr_flags = 1

-- `from_bits_truncate`
unfoldable pub from_bits_truncate : ℕ → ℕ → ℕ
from_bits_truncate flags bits = bit_and bits flags
