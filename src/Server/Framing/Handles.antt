-- ===== src/Server/Framing/Handles.antt =====
-- The handlers of src/server.rs about handles leave a frame.
use virtiofsd.Common.{Bool, ℕ, List}
use virtiofsd.FileSystem.{FileSystem}
use virtiofsd.Fuse.Requests.{InHeader}
use virtiofsd.Server.Reply.{Host}
use virtiofsd.Server.Handles.{
  handle_statfs, handle_syncfs, handle_release, handle_releasedir, handle_fsync, handle_fsyncdir,
  handle_flush, handle_access, handle_fallocate, handle_lseek,
}
use virtiofsd.Server.Framing.{Framed, framing_rules}

module _ (fs : FileSystem) (host : Host) {quiet : Bool} (h : InHeader) where
  pub Framed-statfs : Framed quiet h.unique (handle_statfs fs host h)
  unfolding handle_statfs
  Framed-statfs = search framing_rules depth 12

  pub Framed-syncfs : Framed quiet h.unique (handle_syncfs fs host h)
  unfolding handle_syncfs
  Framed-syncfs = search framing_rules depth 12

  pub Framed-release : (r : List ℕ) → Framed quiet h.unique (handle_release fs host h r)
  unfolding handle_release
  Framed-release r = search framing_rules depth 12

  pub Framed-releasedir : (r : List ℕ) → Framed quiet h.unique (handle_releasedir fs host h r)
  unfolding handle_releasedir
  Framed-releasedir r = search framing_rules depth 12

  pub Framed-fsync : (r : List ℕ) → Framed quiet h.unique (handle_fsync fs host h r)
  unfolding handle_fsync
  Framed-fsync r = search framing_rules depth 12

  pub Framed-fsyncdir : (r : List ℕ) → Framed quiet h.unique (handle_fsyncdir fs host h r)
  unfolding handle_fsyncdir
  Framed-fsyncdir r = search framing_rules depth 12

  pub Framed-flush : (r : List ℕ) → Framed quiet h.unique (handle_flush fs host h r)
  unfolding handle_flush
  Framed-flush r = search framing_rules depth 12

  pub Framed-access : (r : List ℕ) → Framed quiet h.unique (handle_access fs host h r)
  unfolding handle_access
  Framed-access r = search framing_rules depth 12

  pub Framed-fallocate : (r : List ℕ) → Framed quiet h.unique (handle_fallocate fs host h r)
  unfolding handle_fallocate
  Framed-fallocate r = search framing_rules depth 12

  pub Framed-lseek : (r : List ℕ) → Framed quiet h.unique (handle_lseek fs host h r)
  unfolding handle_lseek
  Framed-lseek r = search framing_rules depth 12
