-- ===== src/Server/Framing/Creations.antt =====
-- The handlers of src/server.rs about created files and extended attributes leave a frame.
use virtiofsd.Common.{Bool, ℕ, List}
use virtiofsd.FileSystem.{FileSystem}
use virtiofsd.Fuse.Requests.{InHeader}
use virtiofsd.Server.Reply.{Host}
use virtiofsd.Server.Create.{
  reply_created, handle_symlink, handle_mknod, handle_mkdir, handle_create,
}
use virtiofsd.Server.Names.{reply_entry}
use virtiofsd.Server.Framing.{Framed, framing_rules}

module _ (fs : FileSystem) (host : Host) {quiet : Bool} (h : InHeader) where
  pub Framed-symlink : (r : List ℕ) → Framed quiet h.unique (handle_symlink fs host h r)
  unfolding handle_symlink reply_entry
  Framed-symlink r = search framing_rules depth 12

  pub Framed-mknod : (r : List ℕ) → Framed quiet h.unique (handle_mknod fs host h r)
  unfolding handle_mknod reply_entry
  Framed-mknod r = search framing_rules depth 12

  pub Framed-mkdir : (r : List ℕ) → Framed quiet h.unique (handle_mkdir fs host h r)
  unfolding handle_mkdir reply_entry
  Framed-mkdir r = search framing_rules depth 12

  pub Framed-create : (r : List ℕ) → Framed quiet h.unique (handle_create fs host h r)
  unfolding handle_create reply_created
  Framed-create r = search framing_rules depth 12
