-- ===== src/InodeStore/Types.antt =====
-- The data of the inode store. An `Arc<InodeData>` is its address with the fields that never change;
-- the two that do, `refcount` and `migration_info`, are cells of the store, read by the address, so
-- that all that hold the `Arc` share them.
use virtiofsd.Common.{ℕ, Bool, true, false, Option, none, some, List, [], if◌then◌else◌, ◌==◌}
use virtiofsd.Common.Io.{IoError}
use virtiofsd.BTreeMap.{BTreeMap}

abbrev pub Inode : Type 0
Inode = ℕ

-- fuse::ROOT_ID
abbrev pub root_id : Inode
root_id = 1

-- `ino`, `dev` and `mnt_id`: the derived order compares them in this order.
abbrev pub InodeIds : Type 0
InodeIds = ℕ × (ℕ × ℕ)

-- `mnt_id`, and the bytes of the `CFileHandle`.
abbrev pub FileHandle : Type 0
FileHandle = ℕ × List ℕ

-- A `GuestFile` stands for its descriptor, and a handle that can be opened for the handle.
pub data FileOrHandle : Type 0 where
  file : ℕ → FileOrHandle
  handle : FileHandle → FileOrHandle
  invalid : IoError → FileOrHandle

-- `Arc<InodeData>`, as a strong reference holds it.
pub record InodeArc : Type 0 where
  pub addr : ℕ
  pub inode : Inode
  pub file_or_handle : FileOrHandle
  pub ids : InodeIds
  pub mode : ℕ

-- `InodeLocation`: of the three, a path holds a strong reference to the parent.
pub data InodeMigrationInfo : Type 0 where
  root_node : InodeMigrationInfo
  at_path : InodeArc → List ℕ → InodeMigrationInfo
  by_file_handle : InodeMigrationInfo

-- `InodeData`, before it stands in an `Arc`.
pub record InodeData : Type 0 where
  pub inode : Inode
  pub file_or_handle : FileOrHandle
  pub refcount : ℕ
  pub ids : InodeIds
  pub mode : ℕ
  pub migration_info : Option InodeMigrationInfo

-- `InodeStoreInner` with the cells of its `Arc`s. `next` is the next free address.
pub record InodeStore : Type 0 where
  pub data_map : BTreeMap Inode InodeArc
  pub by_ids : BTreeMap InodeIds Inode
  pub by_handle : BTreeMap FileHandle Inode
  pub refcount : ℕ → ℕ
  pub migration_info : ℕ → Option InodeMigrationInfo
  pub next : ℕ

abbrev pub write {ℓ} : {A : Type ℓ} → (ℕ → A) → ℕ → A → ℕ → A
write cells a v b = if b == a then v else cells b

unfoldable pub handle_of : FileOrHandle → Option FileHandle
handle_of (handle h) = some h
handle_of _ = none

unfoldable pub is_file : FileOrHandle → Bool
is_file (file _) = true
is_file _ = false

unfoldable pub new_store : InodeStore
new_store = record {
  data_map = [];
  by_ids = [];
  by_handle = [];
  refcount = λ _. 0;
  migration_info = λ _. none;
  next = 0;
}
