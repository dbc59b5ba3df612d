-- ===== src/Server/Framing/Xattrs.antt =====
-- The handlers of src/server.rs about extended attributes leave a frame.
use virtiofsd.Common.{ℕ, none, some, Bool, List}
use virtiofsd.FileSystem.{FileSystem, GetxattrReply, ListxattrReply}
use virtiofsd.Fuse.Requests.{InHeader}
use virtiofsd.Server.Reply.{Host}
use virtiofsd.Server.Xattrs.{
  reply_getxattr, reply_listxattr, handle_setxattr, handle_getxattr, handle_listxattr,
  handle_removexattr,
}
use virtiofsd.Server.Framing.{Framed, Framed-reply_ok, framing_rules}

module _ (fs : FileSystem) (host : Host) {quiet : Bool} (h : InHeader) where
  pub Framed-setxattr : (r : List ℕ) → Framed quiet h.unique (handle_setxattr fs host h r)
  unfolding handle_setxattr
  Framed-setxattr r = search framing_rules depth 12

  pub Framed-removexattr : (r : List ℕ) → Framed quiet h.unique (handle_removexattr fs host h r)
  unfolding handle_removexattr
  Framed-removexattr r = search framing_rules depth 12

  Framed-reply_getxattr :
      (reply : GetxattrReply) → Framed quiet h.unique (reply_getxattr fs host h.unique reply)
  unfolding reply_getxattr
  Framed-reply_getxattr (GetxattrReply.value val) = Framed-reply_ok none (some val)
  Framed-reply_getxattr (GetxattrReply.count n) = Framed-reply_ok _ none

  Framed-reply_listxattr :
      (reply : ListxattrReply) → Framed quiet h.unique (reply_listxattr fs host h.unique reply)
  unfolding reply_listxattr
  Framed-reply_listxattr (ListxattrReply.names val) = Framed-reply_ok none (some val)
  Framed-reply_listxattr (ListxattrReply.count n) = Framed-reply_ok _ none

  pub Framed-getxattr : (r : List ℕ) → Framed quiet h.unique (handle_getxattr fs host h r)
  unfolding handle_getxattr
  Framed-getxattr r = search (Framed-reply_getxattr, framing_rules) depth 12

  pub Framed-listxattr : (r : List ℕ) → Framed quiet h.unique (handle_listxattr fs host h r)
  unfolding handle_listxattr
  Framed-listxattr r = search (Framed-reply_listxattr, framing_rules) depth 12
