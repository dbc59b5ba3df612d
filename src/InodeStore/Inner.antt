-- ===== src/InodeStore/Inner.antt =====
-- `InodeStoreInner`: what is done while the store is locked. The loop that decrements a refcount
-- repeats until no other thread comes between its read and its write: it is one atomic step here.
pub mod Fuel
pub mod WellFormed
use virtiofsd.Common.{
  ℕ, zero, suc, ◌-◌, Bool, true, false, Option, none, some, List, [], ◌∷◌, ◌++◌, if◌then◌else◌,
  ◌==◌, length,
}
use virtiofsd.Common.Key.{Key, nat_key, pair_key, bytes_key}
use virtiofsd.Common.Io.{Outcome, done, panic, ◌>>=◌}
use virtiofsd.BTreeMap
use virtiofsd.BTreeMap.{BTreeMap}
use virtiofsd.InodeStore.Types.{
  Inode, InodeIds, FileHandle, root_id, InodeArc, InodeMigrationInfo, root_node, at_path,
  by_file_handle, InodeStore, write, handle_of,
}

-- The indexes: a key that an inode may lack.
module _ {K : Type 0} ⦃o : Key K⦄ where
  unfoldable pub insert_key : BTreeMap K Inode → Option K → Inode → BTreeMap K Inode
  insert_key m none inode = m
  insert_key m (some k) inode = BTreeMap.insert m k inode

  unfoldable pub remove_key : BTreeMap K Inode → Option K → BTreeMap K Inode
  remove_key m none = m
  remove_key m (some k) = BTreeMap.remove m k

-- The entry into the three maps.
unfoldable pub add_entry : InodeStore → InodeArc → InodeStore
add_entry s d = record s {
  data_map = BTreeMap.insert s.data_map d.inode d;
  by_ids = insert_key s.by_ids (some d.ids) d.inode;
  by_handle = insert_key s.by_handle (handle_of d.file_or_handle) d.inode;
}

-- `insert_new`, with the assertion that the inode was not there.
unfoldable pub insert_new : InodeStore → InodeArc → Outcome InodeStore
insert_new s d = if BTreeMap.contains_key s.data_map d.inode then panic else done (add_entry s d)

-- `for_each_strong_reference`
unfoldable pub strong_references : InodeMigrationInfo → List InodeArc
strong_references root_node = []
strong_references (at_path parent name) = parent ∷ []
strong_references by_file_handle = []

unfoldable pub references : Option InodeMigrationInfo → List InodeArc
unfolding strong_references
references none = []
references (some info) = strong_references info

-- `drop_unlocked` of each, by the given `forget_one`.
unfoldable pub drop_each :
    (InodeStore → Inode → ℕ → Option InodeStore) → InodeStore → List InodeArc → Option InodeStore
drop_each forget s [] = some s
drop_each forget s (d ∷ l) = elim (forget s d.inode 1) [
  | none ↦ none
  | some s' ↦ drop_each forget s' l
]

-- The entry out of the three maps, and its migration info taken.
unfoldable pub take_out : InodeStore → Inode → InodeArc → InodeStore
take_out s inode d = record s {
  data_map = BTreeMap.remove s.data_map inode;
  by_handle = remove_key s.by_handle (handle_of d.file_or_handle);
  by_ids = remove_key s.by_ids (some d.ids);
  migration_info = write s.migration_info d.addr none;
}

unfoldable pub remove :
    (InodeStore → Inode → ℕ → Option InodeStore) → InodeStore → Inode → Option InodeStore
remove forget s inode = elim (BTreeMap.get s.data_map inode) [
  | none ↦ some s
  | some d ↦ drop_each forget (take_out s inode d) (references (s.migration_info d.addr))
]

-- On fuel: each removal may drop the reference that the migration info holds to a parent.
unfoldable pub forget_one : ℕ → InodeStore → Inode → ℕ → Option InodeStore
forget_one zero s inode count = none
forget_one (suc fuel) s inode count = elim (BTreeMap.get s.data_map inode) [
  | none ↦ some s
  | some d ↦
      let new_count = s.refcount d.addr - count in
      let s' : InodeStore = record s { refcount = write s.refcount d.addr new_count } in
      elim (new_count == 0) [ true ↦ remove (forget_one fuel) s' inode | false ↦ some s' ]
]

-- A removal shrinks the store, so its size bounds the depth; `Fuel` shows that it is enough.
unfoldable pub forget : InodeStore → Inode → ℕ → InodeStore
forget s inode count = elim (forget_one (suc (length s.data_map)) s inode count) [
  | none ↦ s
  | some s' ↦ s'
]

unfoldable pub forget_refs : InodeStore → List InodeArc → InodeStore
forget_refs s [] = s
forget_refs s (d ∷ l) = forget_refs (forget s d.inode 1) l

-- One round of the loop of `clear_migration_info`, which skips the root.
unfoldable pub take_info : Bool → InodeArc → InodeStore → List InodeArc → InodeStore × List InodeArc
take_info true d s refs = (s, refs)
take_info false d s refs = (
  record s { migration_info = write s.migration_info d.addr none },
  refs ++ references (s.migration_info d.addr),
)

-- The loop, over the values of the map.
unfoldable pub take_infos :
    BTreeMap Inode InodeArc → InodeStore → List InodeArc → InodeStore × List InodeArc
take_infos [] s refs = (s, refs)
take_infos ((_, d) ∷ m) s refs =
    let (s', refs') = take_info (d.inode == root_id) d s refs in take_infos m s' refs'

unfoldable pub clear_migration_info : InodeStore → InodeStore
clear_migration_info s = let (s', refs) = take_infos s.data_map s [] in forget_refs s' refs

unfoldable pub clear : InodeStore → InodeStore
clear s = record (clear_migration_info s) { data_map = []; by_handle = []; by_ids = [] }

unfoldable pub get : InodeStore → Inode → Option InodeArc
get s inode = BTreeMap.get s.data_map inode

-- `self.get(inode).unwrap()`, where an inode was found.
unfoldable pub unwrap_inode : InodeStore → Option Inode → Outcome (Option InodeArc)
unwrap_inode s none = done none
unwrap_inode s (some inode) = elim (get s inode) [ none ↦ panic | some d ↦ done (some d) ]

unfoldable pub get_by_ids : InodeStore → InodeIds → Outcome (Option InodeArc)
unfolding unwrap_inode
get_by_ids s ids = unwrap_inode s (BTreeMap.get s.by_ids ids)

unfoldable pub get_by_handle : InodeStore → FileHandle → Outcome (Option InodeArc)
unfolding unwrap_inode
get_by_handle s h = unwrap_inode s (BTreeMap.get s.by_handle h)

unfoldable pub contains : InodeStore → Inode → Bool
contains s inode = BTreeMap.contains_key s.data_map inode

unfoldable pub is_empty : InodeStore → Bool
is_empty s = BTreeMap.is_empty s.data_map
