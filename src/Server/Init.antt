-- ===== src/Server/Init.antt =====
-- src/server.rs: the negotiation of the protocol.
use virtiofsd.Common.{
  ℕ, zero, suc, ◌+◌, ◌-◌, ◌*◌, ◌/◌, ◌%◌, ◌^◌, none, some, List, if◌then◌else◌, ltb,
}
use virtiofsd.Common.Io.{Outcome, done, panic}
use virtiofsd.Fuse.Replies.{InitOut, init_out}
use virtiofsd.Fuse.Requests.{InHeader, read_init_in_compat, read_init_in_ext}
use virtiofsd.FileSystem.{FileSystem}
use virtiofsd.Server.Result.{Result, read_obj}
use virtiofsd.Server.Reply.{Handler, Host, ◌>>=◌, answer, reply_ok, reply_error}
use virtiofsd.Server.Options.{from_bits_truncate, fs_options, contains, init_ext, supported}
use virtiofsd.Server.Limits.{max_buffer_size, eproto}
use Prim.Native.Nat.{bit_and, bit_or}
use virtiofsd.Fuse.Requests.{InitInCompat}

unfoldable pub read_flags2 : ℕ → List ℕ → Result ℕ
read_flags2 options r =
    if contains options init_ext
    then elim (read_obj read_init_in_ext r) [
      | Result.ok (m, _) ↦ Result.ok m.flags2
      | Result.err e ↦ Result.err e
    ]
    else Result.ok 0

-- The division and the conversion to 16 bits may panic.
unfoldable pub max_pages : ℕ → Outcome ℕ
max_pages zero = panic
max_pages (suc n) =
    let pages = (max_buffer_size - 1) / suc n + 1 in if ltb 65535 pages then panic else done pages

abbrev pub default_reply : InitOut
default_reply = record {
  max_readahead = 0;
  flags = 0;
  max_background = 0;
  congestion_threshold = 0;
  max_write = 0;
  time_gran = 0;
  max_pages = 0;
  flags2 = 0;
}

module _ (fs : FileSystem) (host : Host) where
  -- What a `want` of the file system enables.
  unfoldable pub enabled : ℕ → ℕ → ℕ
  enabled capable want = bit_and capable (bit_or want supported)

  unfoldable pub init_reply : ℕ → ℕ → ℕ → InitOut
  init_reply max_readahead pages options = record {
    max_readahead = max_readahead;
    flags = options % 2 ^ 32;
    max_background = 65535;
    congestion_threshold = 49149;
    max_write = max_buffer_size;
    time_gran = 1;
    max_pages = pages;
    flags2 = options / 2 ^ 32;
  }

  -- The enabled options are stored before the reply.
  unfoldable pub accept : ℕ → ℕ → ℕ → ℕ → ℕ → Handler fs.State
  accept unique max_readahead pages capable want s =
      let options = enabled capable want in
      reply_ok (some (init_out 7 38 (init_reply max_readahead pages options))) none unique
        (record { fs = s.fs; options = options })

  unfoldable pub unwrapped : Outcome ℕ → (ℕ → Handler fs.State) → Handler fs.State
  unwrapped (done n) k = k n
  unwrapped panic k = λ s w. panic

  unfoldable pub negotiate : ℕ → InitInCompat → ℕ → Handler fs.State
  negotiate unique m flags2 =
      let capable = from_bits_truncate fs_options (bit_or (flags2 * 2 ^ 32) m.flags) in
      unwrapped (max_pages host.page_size) (λ pages.
        answer host unique (fs.init capable) (accept unique m.max_readahead pages capable))

  unfoldable pub check_version : ℕ → InitInCompat → ℕ → Handler fs.State
  check_version unique m flags2 =
      if ltb m.major 7
      then reply_error host (eproto host.platform) unique
      else if ltb 7 m.major
      then reply_ok (some (init_out 7 38 default_reply)) none unique
      else if ltb m.minor 27
      then reply_error host (eproto host.platform) unique
      else negotiate unique m flags2

  unfoldable pub handle_init : InHeader → List ℕ → Handler fs.State
  handle_init h r = do
    (m, r) ← read_obj read_init_in_compat r
    flags2 ← read_flags2 (from_bits_truncate fs_options m.flags) r
    check_version h.unique m flags2
