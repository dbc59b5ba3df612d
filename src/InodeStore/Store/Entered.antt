-- ===== src/InodeStore/Store/Entered.antt =====
-- What the store is like where data was entered.
use virtiofsd.Common.{ap, ℕ, Option, none, suc, ◌≡◌, ◌≢◌, refl, some, arith, Bool-cases, inl, inr}
use virtiofsd.Common.Key.{Key, same, nat_key, bytes_key, pair_key}
use virtiofsd.BTreeMap
use virtiofsd.BTreeMap.{BTreeMap}
use virtiofsd.BTreeMap.Laws.{get-insert}
use virtiofsd.InodeStore.Types.{
  Inode, InodeIds, FileHandle, InodeArc, InodeData, InodeStore, handle_of,
}
use virtiofsd.InodeStore.Inner.{insert_key, add_entry, get}
use virtiofsd.InodeStore.Store.{alloc}

-- The store with the data in a new `Arc`, entered.
abbrev pub placed : InodeStore → InodeData → InodeStore
placed s x = add_entry (alloc s x).1 (alloc s x).0

-- The data stands in the store under its inode, its IDs and its handle, in a new `Arc` with the given
-- refcount; every other inode, key and cell is as it was.
pub record IsEntered (s : InodeStore) (x : InodeData) (count : ℕ) (d : InodeArc) (s' : InodeStore)
    : Type 0 where
  pub inode : d.inode ≡ x.inode
  pub file_or_handle : d.file_or_handle ≡ x.file_or_handle
  pub ids : d.ids ≡ x.ids
  pub mode : d.mode ≡ x.mode
  pub addr : d.addr ≡ s.next
  pub next : s'.next ≡ suc s.next
  pub refcount : s'.refcount d.addr ≡ count
  pub migration_info : s'.migration_info d.addr ≡ x.migration_info
  pub under_inode : get s' x.inode ≡ some d
  pub under_ids : BTreeMap.get s'.by_ids x.ids ≡ some x.inode
  pub under_handle :
      (k : FileHandle)
      → handle_of x.file_or_handle ≡ some k
      → BTreeMap.get s'.by_handle k ≡ some x.inode
  pub other_inodes : (i : Inode) → x.inode ≢ i → get s' i ≡ get s i
  pub other_ids :
      (ids : InodeIds) → x.ids ≢ ids → BTreeMap.get s'.by_ids ids ≡ BTreeMap.get s.by_ids ids
  pub other_handles :
      (k : FileHandle)
      → handle_of x.file_or_handle ≢ some k
      → BTreeMap.get s'.by_handle k ≡ BTreeMap.get s.by_handle k
  pub other_cells :
      (a : ℕ)
      → a ≢ s.next
      → (s'.refcount a ≡ s.refcount a) × (s'.migration_info a ≡ s.migration_info a)

module _ {K : Type 0} ⦃o : Key K⦄ where
  get-insert_key :
      (m : BTreeMap K Inode) (k : K) (i : Inode) → BTreeMap.get (insert_key m (some k) i) k ≡ some i
  unfolding insert_key
  get-insert_key m k i = ground (arith, get-insert m k k i, o.cmp_refl k)

  get-insert_key-other :
      (m : BTreeMap K Inode) (x : Option K) (k : K) (i : Inode)
      → x ≢ some k
      → BTreeMap.get (insert_key m x i) k ≡ BTreeMap.get m k
  unfolding insert_key
  get-insert_key-other m none k i n = refl
  get-insert_key-other m (some x) k i n = elim (Bool-cases (same x k)) [
    | inl e ↦ absurd (n (ap some (o.eq_of_cmp x k (ground (arith, e)))))
    | inr e ↦ ground (arith, get-insert m x k i, e)
  ]

pub placed-IsEntered :
    (s : InodeStore) (x : InodeData) → IsEntered s x x.refcount (alloc s x).0 (placed s x)
unfolding get add_entry alloc
placed-IsEntered s x = record {
  inode = refl;
  file_or_handle = refl;
  ids = refl;
  mode = refl;
  addr = refl;
  next = refl;
  refcount = ground arith;
  migration_info = ground arith;
  under_inode = ground (arith, get-insert s.data_map x.inode x.inode (alloc s x).0);
  under_ids = get-insert_key s.by_ids x.ids x.inode;
  under_handle = λ k p. rw p (get-insert_key s.by_handle k x.inode);
  other_inodes = λ i n. ground (arith, get-insert s.data_map x.inode i (alloc s x).0);
  other_ids =
      λ ids n. get-insert_key-other s.by_ids (some x.ids) ids x.inode (λ p. n (ground (arith, p)));
  other_handles = λ k n. get-insert_key-other s.by_handle (handle_of x.file_or_handle) k x.inode n;
  other_cells = λ a n. (ground arith, ground arith);
}

pub one-IsEntered :
    (s : InodeStore) (x : InodeData)
    → let y = record x { refcount = 1 } in IsEntered s x 1 (alloc s y).0 (placed s y)
one-IsEntered s x =
    let e = placed-IsEntered s (record x { refcount = 1 }) in
    record {
      inode = e.inode;
      file_or_handle = e.file_or_handle;
      ids = e.ids;
      mode = e.mode;
      addr = e.addr;
      next = e.next;
      refcount = e.refcount;
      migration_info = e.migration_info;
      under_inode = e.under_inode;
      under_ids = e.under_ids;
      under_handle = e.under_handle;
      other_inodes = e.other_inodes;
      other_ids = e.other_ids;
      other_handles = e.other_handles;
      other_cells = e.other_cells;
    }
