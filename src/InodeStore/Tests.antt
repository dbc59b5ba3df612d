-- ===== src/InodeStore/Tests.antt =====
-- The store on concrete inputs, and the theorems applied to them.
use virtiofsd.Common.{arith, suc, ◌≡◌, refl, true, false, none, some, List, [], ◌∷◌}
use virtiofsd.Common.Io.{IoResult, Outcome, done, panic, err, not_found}
use virtiofsd.BTreeMap
use virtiofsd.Common.Key.{cmp_bytes}
use virtiofsd.InodeStore.Types.{
  is_file, file, handle, InodeArc, InodeData, InodeStore, at_path, new_store, handle_of,
}
use virtiofsd.InodeStore.Inner.{
  forget_one as inner_forget_one, forget, get_by_ids, insert_new, add_entry, drop_each, forget_refs,
  get_by_handle, insert_key, references, remove, remove_key, strong_references, take_out,
  unwrap_inode, get, contains,
}
use virtiofsd.InodeStore.Inner.Fuel.{size}
use virtiofsd.InodeStore.Inner.WellFormed.{
  IsWellFormed, new_store-IsWellFormed, forget-IsWellFormed,
}
use virtiofsd.InodeStore.Store.{
  find_by_handle, or_by_ids, or_insert, reference_to, keep_file, insert_data,
  increment_refcount_for, alloc, claim_inode, get_or_insert, new_inode, new_with_data, next,
  drop_data, clone,
}
use virtiofsd.InodeStore.Store.Claim.{Claimed, claim_inode_sound}
use virtiofsd.InodeStore.Store.Insert.{Inserted, Entered, get_or_insert_total, new_inode_total}
use virtiofsd.InodeStore.Store.Forget.{Forgotten, forget_exact}
use virtiofsd.InodeStore.Store.Iterate.{Next, next_exact}
use virtiofsd.InodeStore.History.Outcomes.{run-new_store-Ended, run-forget_gone}
use virtiofsd.InodeStore.History.{
  apply, after, Call, insert, claim, copy, forget_one, run, Ended, completed, cloned_dead,
}

-- A directory under a file descriptor, and a file in it under a handle, with the directory as the
-- parent in its migration info.
abbrev dir_data : InodeData
dir_data = record {
  inode = 2;
  file_or_handle = file 7;
  refcount = 1;
  ids = (20, (5, 1));
  mode = 0o40755;
  migration_info = none;
}

abbrev dir_arc : InodeArc
dir_arc = record {
  addr = 0;
  inode = 2;
  file_or_handle = file 7;
  ids = (20, (5, 1));
  mode = 0o40755;
}

abbrev leaf_data : InodeData
leaf_data = record {
  inode = 3;
  file_or_handle = handle (1, b'h' ∷ []);
  refcount = 1;
  ids = (30, (5, 1));
  mode = 0o100644;
  migration_info = some (at_path dir_arc (b'f' ∷ []));
}

abbrev calls : List Call
calls =
    insert dir_data
    ∷ insert leaf_data
    ∷ claim none (20, (5, 1))
    ∷ copy dir_arc
    ∷ forget_one 2 1
    ∷ []

run-new_store-Ended_example : Ended calls new_store (run calls new_store)
run-new_store-Ended_example = run-new_store-Ended calls

result : Outcome InodeStore → InodeStore
result (done s) = s
result panic = new_store

result_valid :
    (l : List Call) (r : Outcome InodeStore) → Ended l new_store r → IsWellFormed (result r)
unfolding result
result_valid l _ (completed s v) = v
result_valid l _ (cloned_dead before rest d s p q v z) = new_store-IsWellFormed

store : InodeStore
unfolding run apply get_or_insert claim_inode find_by_handle handle_of or_by_ids get_by_ids
    BTreeMap.get new_store or_insert reference_to keep_file contains BTreeMap.contains_key
    insert_data insert_new BTreeMap.insert BTreeMap.remove clone cmp_bytes after add_entry drop_each
    forget inner_forget_one forget_refs get get_by_handle insert_key references remove remove_key
    strong_references take_out unwrap_inode alloc drop_data increment_refcount_for new_with_data
    is_file result
store = result (run calls new_store)

store_valid : IsWellFormed store
unfolding store
store_valid = result_valid calls (run calls new_store) (run-new_store-Ended calls)

abbrev one_call : List Call
one_call = insert dir_data ∷ []

-- The same file again, and a file in it.
abbrev later_calls : List Call
later_calls = insert dir_data ∷ insert leaf_data ∷ claim none (20, (5, 1)) ∷ []

one : InodeStore
unfolding store
one = result (run one_call new_store)

again : InodeStore
unfolding one
again = result (run later_calls (forget one 2 1))

run-forget_gone_example :
    (new_with_data again dir_arc ≡ err not_found) × (clone again dir_arc ≡ panic)
unfolding again
run-forget_gone_example =
    run-forget_gone one_call later_calls one again 2 1 dir_arc refl refl (omega arith) refl

-- A guest that forgets more lookups than it has leaves a reference whose clone panics.
over_forgotten : run (insert dir_data ∷ forget_one 2 5 ∷ copy dir_arc ∷ []) new_store ≡ panic
unfolding store
over_forgotten = refl

-- The directory is referred to by the guest and by the leaf; with the leaf its reference goes.
counts :
    (store.refcount 0 ≡ 2)
    × (store.refcount 1 ≡ 1)
    × ((forget store 3 1).refcount 0 ≡ 1)
    × (contains (forget store 3 1) 3 ≡ false)
    × (contains (forget store 3 1) 2 ≡ true)
unfolding store
counts = (refl, refl, refl, refl, refl)

claim_inode_sound_example :
    (r : IoResult (InodeArc × InodeStore)) × (claim_inode store (some (1, b'h' ∷ [])) (30, (5, 1))
      ≡ done r)
    × Claimed store (some (1, b'h' ∷ [])) (30, (5, 1)) r
claim_inode_sound_example = claim_inode_sound store (some (1, b'h' ∷ [])) (30, (5, 1)) store_valid

get_or_insert_total_example :
    (r : IoResult InodeArc) × (s' : InodeStore) × (get_or_insert store leaf_data ≡ done (r, s'))
    × IsWellFormed s'
    × Inserted store leaf_data r s'
get_or_insert_total_example = get_or_insert_total store leaf_data store_valid

new_inode_total_example :
    (r : IoResult (Unit {0})) × (s' : InodeStore) × (new_inode store dir_data ≡ done (r, s'))
    × IsWellFormed s'
    × Entered store dir_data r s'
new_inode_total_example = new_inode_total store dir_data store_valid

forget_exact_example : Forgotten store 3 1 (forget store 3 1)
forget_exact_example = forget_exact store 3 1

next_exact_example : Next store (some 2) (next store (some 2))
next_exact_example = next_exact store (some 2) store_valid (omega arith)

-- The guest forgets the leaf, and with it goes the reference to the directory.
forget-IsWellFormed_example :
    (inner_forget_one (suc (size store)) store 3 1 ≡ some (forget store 3 1))
    × IsWellFormed (forget store 3 1)
forget-IsWellFormed_example = forget-IsWellFormed store 3 1 store_valid
