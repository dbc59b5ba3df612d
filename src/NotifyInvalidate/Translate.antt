-- ===== src/NotifyInvalidate/Translate.antt =====
-- src/notify_invalidate/translate.rs: the notifications that each host event causes. Log lines are
-- not modelled. The index is read under its lock, and the translator changes only the sink.
pub mod Laws
pub mod Overflow
pub mod Tells
use virtiofsd.Common.{
  Bool, true, false, ◌≡◌, refl, Option, none, some, List, [], ◌∷◌, if◌then◌else◌, ◌==◌,
}
use virtiofsd.Common.Key.{same, bytes_key}
use virtiofsd.DentryIndex.{
  Inode, Name, DentryIndex, FilePath, Component, root_dir, cur_dir, parent_dir, normal,
  resolve_path, all_inodes,
}
use virtiofsd.NotifyInvalidate.Notifier.{
  Notification, inval_inode, inval_entry, NotifierError, Sent, ok, err, Notifier,
}

-- src/notify_invalidate/watcher.rs: `HostEventKind`
pub data HostEvent : Type 0 where
  modify create removed : FilePath → HostEvent
  renamed : Option FilePath → Option FilePath → HostEvent
  overflow : HostEvent

pub record Translator : Type 0 where
  pub root_inode : Inode
  pub shared_dir : FilePath
  pub index : DentryIndex

unfoldable pub same_component : Component → Component → Bool
same_component root_dir root_dir = true
same_component cur_dir cur_dir = true
same_component parent_dir parent_dir = true
same_component (normal a) (normal b) = same a b
same_component _ _ = false

-- `Path::strip_prefix`, by components.
unfoldable pub strip_prefix : FilePath → FilePath → Option FilePath
strip_prefix p [] = some p
strip_prefix [] (c ∷ base) = none
strip_prefix (d ∷ p) (c ∷ base) = if same_component d c then strip_prefix p base else none

-- `Path::file_name`: the last component, if it is a normal one.
unfoldable pub file_name : FilePath → Option Name
file_name [] = none
file_name (normal n ∷ []) = some n
file_name (_ ∷ []) = none
file_name (_ ∷ d ∷ p) = file_name (d ∷ p)

-- `rel.parent().map(Path::to_path_buf).unwrap_or_default()`: all components but the last, where
-- the last is not the root; else, and where there is none, the empty path.
unfoldable pub parent_or_default : FilePath → FilePath
parent_or_default [] = []
parent_or_default (c ∷ []) = []
parent_or_default (c ∷ d ∷ p) = c ∷ parent_or_default (d ∷ p)

unfoldable pub relativize : Translator → FilePath → Option FilePath
relativize t host_path = strip_prefix host_path t.shared_dir

-- The leaf of a path below the root, if it is cached.
unfoldable pub cached_leaf : Translator → FilePath → Option Inode
cached_leaf t host_path = elim (relativize t host_path) [
  | none ↦ none
  | some rel ↦
      let (inode, remaining) = resolve_path t.index t.root_inode rel in
      elim remaining [ [] ↦ if inode == t.root_inode then none else some inode | _ ∷ _ ↦ none ]
]

unfoldable pub renamed_inode : Translator → Option FilePath → Option Inode
renamed_inode t none = none
renamed_inode t (some p) = cached_leaf t p

module _ (n : Notifier) where
  abbrev M : Type 0
  M = n.Sink → n.Sink × Sent

  abbrev pub return : n.Sink → n.Sink × Sent
  return s = (s, ok)

  -- `self.notifier.send(...)?; rest`
  abbrev pub and_then : n.Sink × Sent → (n.Sink → n.Sink × Sent) → n.Sink × Sent
  and_then (s, ok) rest = rest s
  and_then (s, err e) rest = (s, err e)

  unfoldable pub handle_modify : Translator → FilePath → M
  handle_modify t host_path s = elim (relativize t host_path) [
    | none ↦ return s
    | some rel ↦
        let (inode, remaining) = resolve_path t.index t.root_inode rel in
        elim remaining [ [] ↦ n.send s (inval_inode inode) | _ ∷ _ ↦ return s ]
  ]

  unfoldable pub handle_parent_change : Translator → FilePath → M
  handle_parent_change t host_path s = elim (relativize t host_path) [
    | none ↦ return s
    | some rel ↦ elim (file_name rel) [
      | none ↦ return s
      | some leaf_name ↦
          let (parent_inode, remaining) =
            resolve_path t.index t.root_inode (parent_or_default rel) in
          elim remaining [ [] ↦ n.send s (inval_entry parent_inode leaf_name) | _ ∷ _ ↦ return s ]
    ]
  ]

  unfoldable pub send_inode : Option Inode → M
  send_inode none s = return s
  send_inode (some inode) s = n.send s (inval_inode inode)

  unfoldable pub handle_remove : Translator → FilePath → M
  handle_remove t host_path s =
      and_then (handle_parent_change t host_path s) (send_inode (cached_leaf t host_path))

  unfoldable pub change_of : Translator → Option FilePath → M
  change_of t none s = return s
  change_of t (some p) s = handle_parent_change t p s

  unfoldable pub handle_rename : Translator → Option FilePath → Option FilePath → M
  handle_rename t from to s =
      and_then (change_of t from s)
        λ s. and_then (change_of t to s) (send_inode (renamed_inode t from))

  -- The loop over the inodes: the root is skipped, and a send that fails is only logged.
  unfoldable pub invalidate_each : Inode → List Inode → n.Sink → n.Sink
  invalidate_each root [] s = s
  invalidate_each root (inode ∷ inodes) s =
      invalidate_each root inodes (if inode == root then s else (n.send s (inval_inode inode)).0)

  unfoldable pub bulk_invalidate : Translator → M
  bulk_invalidate t s = (invalidate_each t.root_inode (all_inodes t.index) s, ok)

  unfoldable pub handle : Translator → HostEvent → M
  handle t (modify p) s = handle_modify t p s
  handle t (create p) s = handle_parent_change t p s
  handle t (removed p) s = handle_remove t p s
  handle t (renamed from to) s = handle_rename t from to s
  handle t overflow s = bulk_invalidate t s
