-- ===== src/DentryIndex.antt =====
-- src/passthrough/dentry_index.rs: which names the guest has cached, in both directions.
-- The lock is one for each call, so a call is one step on the inner maps. `Inner` is written over
-- any ordered type of dentries; the index takes it at pairs of a parent and a name.
pub mod Inner
pub mod Consistent
pub mod History
pub mod Queries
pub mod Resolve
pub mod Tests
use Inner.{link, unlink, rename_key, forget}
use virtiofsd.Common.{ℕ, zero, suc, ◌+◌, Option, none, some, List, [], ◌∷◌, length, drop}
use virtiofsd.Common.Key.{pair_key, nat_key, bytes_key}
use virtiofsd.BTreeMap
use virtiofsd.BTreeMap.{BTreeMap}

abbrev pub Inode : Type 0
Inode = ℕ

-- Bytes.
abbrev pub Name : Type 0
Name = List ℕ

abbrev pub Dentry : Type 0
Dentry = Inode × Name

abbrev pub DentryIndex : Type 0
DentryIndex = Inner.Inner Dentry

unfoldable pub insert : DentryIndex → Inode → Name → Inode → DentryIndex
insert i parent name child = link i (parent, name) child

unfoldable pub remove : DentryIndex → Inode → Name → DentryIndex
remove i parent name = unlink i (parent, name)

unfoldable pub rename : DentryIndex → Inode → Name → Inode → Name → DentryIndex
rename i old_parent old_name new_parent new_name =
    rename_key i (old_parent, old_name) (new_parent, new_name)

unfoldable pub forget_inode : DentryIndex → Inode → DentryIndex
forget_inode i inode = forget i inode

unfoldable pub get : DentryIndex → Inode → Name → Option Inode
get i parent name = BTreeMap.get i.forward (parent, name)

-- `std::path::Component`: a path is read through its components only.
pub data Component : Type 0 where
  root_dir cur_dir parent_dir : Component
  normal : Name → Component

abbrev pub FilePath : Type 0
FilePath = List Component

-- The `filter_map` that keeps the normal components.
unfoldable pub segments : FilePath → List Name
segments [] = []
segments (normal s ∷ p) = s ∷ segments p
segments (_ ∷ p) = segments p

-- The loop: the inode reached, and the number of segments consumed.
unfoldable pub walk : BTreeMap Dentry Inode → Inode → ℕ → List Name → Inode × ℕ
walk forward current consumed [] = (current, consumed)
walk forward current consumed (seg ∷ rest) = elim (BTreeMap.get forward (current, seg)) [
  | none ↦ (current, consumed)
  | some child ↦ walk forward child (consumed + 1) rest
]

unfoldable pub resolve_path : DentryIndex → Inode → FilePath → Inode × List Name
resolve_path i root path =
    let segs = segments path in
    let (current, consumed) = walk i.forward root 0 segs in (current, drop consumed segs)

unfoldable pub names_for : DentryIndex → Inode → List Dentry
names_for i inode = elim (BTreeMap.get i.reverse inode) [ none ↦ [] | some set ↦ BTreeMap.keys set ]

unfoldable pub all_inodes : DentryIndex → List Inode
all_inodes i = BTreeMap.keys i.reverse

unfoldable pub len : DentryIndex → ℕ
len i = length i.forward
