-- ===== src/Server/Framing/Files.antt =====
-- The handlers of src/server.rs about files and attributes leave a frame.
use virtiofsd.Common.{Bool, ℕ, List}
use virtiofsd.FileSystem.{FileSystem}
use virtiofsd.Fuse.Requests.{InHeader}
use virtiofsd.Server.Reply.{Host}
use virtiofsd.Server.Files.{
  reply_attr, reply_open, reply_count, handle_getattr, handle_setattr, handle_open, handle_opendir,
  handle_write, handle_copyfilerange,
}
use virtiofsd.Server.Framing.{Framed, framing_rules}

module _ (fs : FileSystem) (host : Host) {quiet : Bool} (h : InHeader) where
  pub Framed-getattr : (r : List ℕ) → Framed quiet h.unique (handle_getattr fs host h r)
  unfolding handle_getattr reply_attr
  Framed-getattr r = search framing_rules depth 12

  pub Framed-setattr : (r : List ℕ) → Framed quiet h.unique (handle_setattr fs host h r)
  unfolding handle_setattr reply_attr
  Framed-setattr r = search framing_rules depth 12

  pub Framed-open : (r : List ℕ) → Framed quiet h.unique (handle_open fs host h r)
  unfolding handle_open reply_open
  Framed-open r = search framing_rules depth 12

  pub Framed-opendir : (r : List ℕ) → Framed quiet h.unique (handle_opendir fs host h r)
  unfolding handle_opendir reply_open
  Framed-opendir r = search framing_rules depth 12

  pub Framed-write : (r : List ℕ) → Framed quiet h.unique (handle_write fs host h r)
  unfolding handle_write reply_count
  Framed-write r = search framing_rules depth 12

  pub Framed-copyfilerange : (r : List ℕ) → Framed quiet h.unique (handle_copyfilerange fs host h r)
  unfolding handle_copyfilerange reply_count
  Framed-copyfilerange r = search framing_rules depth 12
