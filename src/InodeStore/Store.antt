-- ===== src/InodeStore/Store.antt =====
-- `InodeStore` and `StrongInodeReference`: what the rest of the server calls. A strong reference is
-- the `Arc` that it holds, `addr` and all; dropping it is `forget` of its inode. A method that takes
-- the lock more than once is more than one function here, so that other threads can come between.
pub mod Claim
pub mod Entered
pub mod Forget
pub mod Insert
pub mod Iterate
use virtiofsd.Common.{
  ℕ, suc, ◌+◌, ◌%◌, ◌^◌, Bool, true, false, Option, none, some, List, [], ◌∷◌, if◌then◌else◌, ltb,
}
use virtiofsd.Common.Key.{nat_key}
use virtiofsd.Common.Io.{IoError, not_found, other, IoResult, ok, err, Outcome, done, panic, ◌>>=◌}
use virtiofsd.BTreeMap
use virtiofsd.InodeStore.Types.{
  Inode, InodeIds, FileHandle, InodeArc, InodeData, InodeMigrationInfo, InodeStore, write,
  handle_of, is_file,
}
use virtiofsd.InodeStore.Inner.{
  insert_new, references, forget, forget_refs, get, get_by_ids, get_by_handle, contains,
}

-- `Arc::new`
unfoldable pub alloc : InodeStore → InodeData → InodeArc × InodeStore
alloc s x = (
  record {
    addr = s.next;
    inode = x.inode;
    file_or_handle = x.file_or_handle;
    ids = x.ids;
    mode = x.mode;
  },
  record s {
    refcount = write s.refcount s.next x.refcount;
    migration_info = write s.migration_info s.next x.migration_info;
    next = suc s.next;
  },
)

-- `increment_refcount_for`: never from zero. The count is a `u64`.
unfoldable pub increment_refcount_for : InodeStore → InodeArc → IoResult InodeStore
increment_refcount_for s d =
    if ltb 0 (s.refcount d.addr)
    then ok (record s { refcount = write s.refcount d.addr ((s.refcount d.addr + 1) % 2 ^ 64) })
    else err not_found

-- `new_with_data`, and the second half of `get_strong`, whose first half is `get`.
unfoldable pub new_with_data : InodeStore → InodeArc → IoResult (InodeArc × InodeStore)
new_with_data s d = elim (increment_refcount_for s d) [ ok s' ↦ ok (d, s') | err e ↦ err e ]

-- An inode found by its IDs counts only if it keeps a file open.
unfoldable pub keep_file : Option InodeArc → Option InodeArc
keep_file none = none
keep_file (some d) = if is_file d.file_or_handle then some d else none

unfoldable pub find_by_handle : InodeStore → Option FileHandle → Outcome (Option InodeArc)
find_by_handle s none = done none
find_by_handle s (some h) = get_by_handle s h

unfoldable pub or_by_ids : InodeStore → InodeIds → Option InodeArc → Outcome (Option InodeArc)
or_by_ids s ids (some d) = done (some d)
or_by_ids s ids none = do found ← get_by_ids s ids; done (keep_file found)

unfoldable pub reference_to : InodeStore → Option InodeArc → IoResult (InodeArc × InodeStore)
reference_to s none = err not_found
reference_to s (some d) = new_with_data s d

-- `do_claim_inode`
unfoldable pub claim_inode :
    InodeStore → Option FileHandle → InodeIds → Outcome (IoResult (InodeArc × InodeStore))
claim_inode s handle ids = do
  by_handle ← find_by_handle s handle
  found ← or_by_ids s ids by_handle
  done (reference_to s found)

-- An `InodeData` that is dropped drops the reference in its migration info.
unfoldable pub drop_data : InodeStore → InodeData → InodeStore
drop_data s x = forget_refs s (references x.migration_info)

unfoldable pub insert_data : InodeStore → InodeData → Outcome (InodeArc × InodeStore)
insert_data s x = let (d, s') = alloc s x in do s'' ← insert_new s' d; done (d, s'')

-- What follows the attempt to claim.
unfoldable pub or_insert :
    InodeStore
    → InodeData
    → IoResult (InodeArc × InodeStore)
    → Outcome (IoResult InodeArc × InodeStore)
or_insert s x (ok (d, s')) = done (ok d, drop_data s' x)
or_insert s x (err e) =
    if contains s x.inode
    then done (err other, drop_data s x)
    else do (d, s') ← insert_data s (record x { refcount = 1 }); done (ok d, s')

unfoldable pub get_or_insert : InodeStore → InodeData → Outcome (IoResult InodeArc × InodeStore)
get_or_insert s x = do
  claimed ← claim_inode s (handle_of x.file_or_handle) x.ids
  or_insert s x claimed

unfoldable pub new_inode : InodeStore → InodeData → Outcome (IoResult (Unit {0}) × InodeStore)
new_inode s x =
    if contains s x.inode
    then done (err other, drop_data s x)
    else do (_, s') ← insert_data s x; done (ok tt, s')

unfoldable pub forget_many : InodeStore → List (Inode × ℕ) → InodeStore
forget_many s [] = s
forget_many s ((inode, count) ∷ inodes) = forget_many (forget s inode count) inodes

-- `drop` and `drop_unlocked` of a strong reference.
unfoldable pub drop_reference : InodeStore → InodeArc → InodeStore
drop_reference s d = forget s d.inode 1

-- `clone`: the increment cannot fail, or it panics.
unfoldable pub clone : InodeStore → InodeArc → Outcome (InodeArc × InodeStore)
clone s d = elim (increment_refcount_for s d) [ ok s' ↦ done (d, s') | err e ↦ panic ]

-- `InodeIterator::next`, with the last inode that it returned. An inode is a `u64`.
unfoldable pub next : InodeStore → Option Inode → Option (Inode × InodeArc)
next s last = BTreeMap.first_from s.data_map (elim last [ none ↦ 0 | some i ↦ (i + 1) % 2 ^ 64 ])
