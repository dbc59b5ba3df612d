-- ===== src/Server/Framing/Names.antt =====
-- The handlers of src/server.rs about names leave a frame.
use virtiofsd.Common.{Bool, ℕ, List}
use virtiofsd.FileSystem.{FileSystem}
use virtiofsd.Fuse.Requests.{InHeader}
use virtiofsd.Server.Reply.{Host}
use virtiofsd.Server.Names.{
  reply_entry, handle_lookup, handle_unlink, handle_rmdir, do_rename, handle_rename, handle_rename2,
  handle_link, handle_readlink,
}
use virtiofsd.Server.Framing.{Framed, framing_rules}

module _ (fs : FileSystem) (host : Host) {quiet : Bool} (h : InHeader) where
  pub Framed-lookup : (r : List ℕ) → Framed quiet h.unique (handle_lookup fs host h r)
  unfolding handle_lookup reply_entry
  Framed-lookup r = search framing_rules depth 12

  pub Framed-unlink : (r : List ℕ) → Framed quiet h.unique (handle_unlink fs host h r)
  unfolding handle_unlink
  Framed-unlink r = search framing_rules depth 12

  pub Framed-rmdir : (r : List ℕ) → Framed quiet h.unique (handle_rmdir fs host h r)
  unfolding handle_rmdir
  Framed-rmdir r = search framing_rules depth 12

  Framed-do_rename :
      (msg_size newdir flags : ℕ) (r : List ℕ)
      → Framed quiet h.unique (do_rename fs host h msg_size newdir flags r)
  unfolding do_rename
  Framed-do_rename msg_size newdir flags r = search framing_rules depth 12

  pub Framed-rename : (r : List ℕ) → Framed quiet h.unique (handle_rename fs host h r)
  unfolding handle_rename do_rename
  Framed-rename r = search framing_rules depth 12

  pub Framed-rename2 : (r : List ℕ) → Framed quiet h.unique (handle_rename2 fs host h r)
  unfolding handle_rename2 do_rename
  Framed-rename2 r = search framing_rules depth 12

  pub Framed-link : (r : List ℕ) → Framed quiet h.unique (handle_link fs host h r)
  unfolding handle_link reply_entry
  Framed-link r = search framing_rules depth 12

  pub Framed-readlink : Framed quiet h.unique (handle_readlink fs host h)
  unfolding handle_readlink
  Framed-readlink = search framing_rules depth 12
