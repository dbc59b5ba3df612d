-- ===== src/Server/Limits.antt =====
-- The constants of src/server.rs and the error numbers that it gives by itself, which are those of the
-- host. ENOMEM is 12 on both.
use virtiofsd.Common.{ℕ, ◌^◌}
use virtiofsd.Common.Io.{IoError, os}
use virtiofsd.Server.Errno.{Platform, linux, macos}

abbrev pub max_buffer_size : ℕ
max_buffer_size = 2 ^ 20

abbrev pub fuse_buffer_header_size : ℕ
fuse_buffer_header_size = 0x1000

abbrev pub enomem : IoError
enomem = os 12

unfoldable pub enosys : Platform → IoError
enosys linux = os 38
enosys macos = os 78

unfoldable pub eproto : Platform → IoError
eproto linux = os 71
eproto macos = os 100

-- The number of Linux. The one of macOS, 84, is replied as 75 too, which is not translated itself.
abbrev pub eoverflow : IoError
eoverflow = os 75
