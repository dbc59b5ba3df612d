-- ===== src/NotifyInvalidate/Translate/Tells.antt =====
-- What each event tells the guest, in terms of the paths and of what the guest has cached.
pub mod Follows
pub mod Total
use std.Path.{fun_ext}
use mathlib.Core.Path.{subst}
use virtiofsd.Common.{
  ◌≡◌, ◌≢◌, refl, sym, ap, ◌∙◌, Option, none, some, List, [], ◌∷◌, ◌++◌, arith, if◌then◌else◌, inl,
  inr, Option-cases, Bool-cases, ◌==◌, ◌⊎◌,
}
use virtiofsd.DentryIndex.{Inode, Name, FilePath, segments, resolve_path}
use virtiofsd.DentryIndex.History.{view}
use virtiofsd.DentryIndex.Resolve.{
  Walk, here, step, IsCached, resolve_path-cases, resolve_path_full,
}
use virtiofsd.NotifyInvalidate.Notifier.{
  Notification, inval_inode, inval_entry, Sent, ok, err, Notifier,
}
use virtiofsd.NotifyInvalidate.Translate.{
  Translator, HostEvent, modify, create, removed, renamed, overflow, strip_prefix, file_name,
  parent_or_default, relativize, handle, handle_modify, handle_parent_change, handle_remove,
  handle_rename, cached_leaf, renamed_inode, change_of, send_inode, and_then, return,
}
use virtiofsd.NotifyInvalidate.Translate.Laws.{strip_prefix-append, strip_prefix-some}

-- A path that is not below the shared directory.
abbrev pub IsOutside : Translator → FilePath → Type 0
IsOutside t p = (rel : FilePath) → p ≢ t.shared_dir ++ rel

-- What a change of the entries of a directory tells: the name, if the directory is cached.
pub data Change (t : Translator) (p : FilePath) : List Notification → Type 0 where
  outside : IsOutside t p → Change t p []
  -- The last component is not a name.
  unnamed : (rel : FilePath) → p ≡ t.shared_dir ++ rel → file_name rel ≡ none → Change t p []
  unknown :
      (rel : FilePath) (name : Name)
      → p ≡ t.shared_dir ++ rel
      → file_name rel ≡ some name
      → ¬ IsCached t.index t.root_inode (segments (parent_or_default rel))
      → Change t p []
  known :
      (rel : FilePath) (name : Name) (parent : Inode)
      → p ≡ t.shared_dir ++ rel
      → file_name rel ≡ some name
      → Walk (view t.index) t.root_inode (segments (parent_or_default rel)) parent
      → Change t p (inval_entry parent name ∷ [])

-- The inode that a path leads to, if it is cached.
pub data Leads (t : Translator) (p : FilePath) : Option Inode → Type 0 where
  outside : IsOutside t p → Leads t p none
  unknown :
      (rel : FilePath)
      → p ≡ t.shared_dir ++ rel
      → ¬ IsCached t.index t.root_inode (segments rel)
      → Leads t p none
  known :
      (rel : FilePath) (inode : Inode)
      → p ≡ t.shared_dir ++ rel
      → Walk (view t.index) t.root_inode (segments rel) inode
      → Leads t p (some inode)

-- What is told of the inode that a path led to: nothing of the root.
pub data Leaf (t : Translator) (p : FilePath) : List Notification → Type 0 where
  uncached : Leads t p none → Leaf t p []
  root : Leads t p (some t.root_inode) → Leaf t p []
  below_root :
      (inode : Inode)
      → Leads t p (some inode)
      → inode ≢ t.root_inode
      → Leaf t p (inval_inode inode ∷ [])

-- The side of a rename that the watcher saw, if it did.
pub data Seen (F : FilePath → List Notification → Type 0)
    : Option FilePath → List Notification → Type 0 where
  unseen : Seen F none []
  seen : (p : FilePath) (l : List Notification) → F p l → Seen F (some p) l

-- What each event but an overflow tells, in order.
pub data Tells (t : Translator) : HostEvent → List Notification → Type 0 where
  modified_unknown : (p : FilePath) → Leads t p none → Tells t (modify p) []
  modified :
      (p : FilePath) (inode : Inode)
      → Leads t p (some inode)
      → Tells t (modify p) (inval_inode inode ∷ [])
  created : (p : FilePath) (l : List Notification) → Change t p l → Tells t (create p) l
  -- The name first, then the inode that it led to.
  removed_entry :
      (p : FilePath) (l m : List Notification)
      → Change t p l
      → Leaf t p m
      → Tells t (removed p) (l ++ m)
  -- The old name, the new one, then the inode that the old one led to.
  moved :
      (from to : Option FilePath) (l m k : List Notification)
      → Seen (Change t) from l
      → Seen (Change t) to m
      → Seen (Leaf t) from k
      → Tells t (renamed from to) (l ++ (m ++ k))
