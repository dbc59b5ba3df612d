-- ===== src/InodeStore/Store/Insert.antt =====
-- Entering an inode: what `get_or_insert` and `new_inode` do.
use virtiofsd.Common.{
  suc, ◌+◌, ◌%◌, ◌^◌, ◌≡◌, ◌≢◌, refl, Bool, true, false, arith, Bool-cases, inl, inr,
}
use virtiofsd.Common.Key.{nat_key, bytes_key, pair_key}
use virtiofsd.Common.Io.{IoResult, ok, err, other, done}
use virtiofsd.BTreeMap
use virtiofsd.BTreeMap.{BTreeMap}
use virtiofsd.InodeStore.Types.{InodeArc, InodeData, InodeStore, handle_of, write}
use virtiofsd.InodeStore.Inner.{insert_new, contains, references}
use virtiofsd.InodeStore.Inner.Fuel.{set_refcount}
use virtiofsd.InodeStore.Inner.WellFormed.{
  IsWellFormed, add_entry-IsWellFormed, forget_refs-IsWellFormed, IsWellFormed-cells,
}
use virtiofsd.InodeStore.Store.{
  alloc, claim_inode, drop_data, insert_data, or_insert, get_or_insert, new_inode,
}
use virtiofsd.InodeStore.Store.Entered.{placed, IsEntered, placed-IsEntered, one-IsEntered}
use virtiofsd.InodeStore.Store.Claim.{
  Matches, Claimed, Unclaimable, found, missing, claim_inode_sound,
}

pub drop_data-IsWellFormed :
    (s : InodeStore) (x : InodeData) → IsWellFormed s → IsWellFormed (drop_data s x)
unfolding drop_data
drop_data-IsWellFormed s x h = forget_refs-IsWellFormed s (references x.migration_info) h

alloc-IsWellFormed : (s : InodeStore) (x : InodeData) → IsWellFormed s → IsWellFormed (alloc s x).1
unfolding alloc
alloc-IsWellFormed s x h =
    IsWellFormed-cells s (write s.refcount s.next x.refcount)
      (write s.migration_info s.next x.migration_info) (suc s.next) h

placed-IsWellFormed :
    (s : InodeStore) (x : InodeData)
    → IsWellFormed s
    → contains s x.inode ≡ false
    → IsWellFormed (placed s x)
placed-IsWellFormed s x h e =
    add_entry-IsWellFormed (alloc s x).1 (alloc s x).0 (alloc-IsWellFormed s x h)
      (unfold alloc contains BTreeMap.contains_key in ground (arith, e))

insert_data_new :
    (s : InodeStore) (x : InodeData)
    → contains s x.inode ≡ false
    → insert_data s x ≡ done ((alloc s x).0, placed s x)
unfolding insert_data insert_new contains alloc
insert_data_new s x e = ground (arith, e)

-- How `get_or_insert` may end: with a reference to an entry that was there, with the error for a
-- second use of the inode number, or with a new entry whose refcount is 1.
pub data Inserted (s : InodeStore) (x : InodeData) (r : IoResult InodeArc) (s' : InodeStore)
    : Type 0 where
  claimed :
      (d : InodeArc)
      → r ≡ ok d
      → Matches s (handle_of x.file_or_handle) x.ids d
      → s.refcount d.addr ≢ 0
      → s' ≡ drop_data (set_refcount s d ((s.refcount d.addr + 1) % 2 ^ 64)) x
      → Inserted s x r s'
  double_use :
      Unclaimable s (handle_of x.file_or_handle) x.ids
      → contains s x.inode ≡ true
      → r ≡ err other
      → s' ≡ drop_data s x
      → Inserted s x r s'
  fresh :
      (d : InodeArc)
      → Unclaimable s (handle_of x.file_or_handle) x.ids
      → contains s x.inode ≡ false
      → r ≡ ok d
      → IsEntered s x 1 d s'
      → Inserted s x r s'

-- On a well-formed store `get_or_insert` does not panic, leaves a well-formed store, and ends in
-- one of three ways: with a reference to a matching entry whose refcount was not zero and is now one
-- more, the data dropped; or, where the entry that matches has the refcount zero or no index leads to
-- one, with an error if the inode number is in use, the data dropped; or else with a new entry, whose
-- refcount is 1, in the map and in both indexes, and nothing else changed.
pub get_or_insert_total :
    (s : InodeStore) (x : InodeData)
    → IsWellFormed s
    → (r : IoResult InodeArc) × (s' : InodeStore) × (get_or_insert s x ≡ done (r, s'))
      × IsWellFormed s'
      × Inserted s x r s'
get_or_insert_total s x h =
    let (c, e, f) = claim_inode_sound s (handle_of x.file_or_handle) x.ids h in
    go c e f (contains s x.inode) refl
  where
    go :
        (c : IoResult (InodeArc × InodeStore))
        → claim_inode s (handle_of x.file_or_handle) x.ids ≡ done c
        → Claimed s (handle_of x.file_or_handle) x.ids c
        → (known : Bool) → contains s x.inode ≡ known
        → (r : IoResult InodeArc) × (s' : InodeStore) × (get_or_insert s x ≡ done (r, s'))
          × IsWellFormed s'
          × Inserted s x r s'
    go _ e (found d m n) known k =
        let s' = set_refcount s d ((s.refcount d.addr + 1) % 2 ^ 64) in
        let valid : IsWellFormed s' = IsWellFormed-cells s _ s.migration_info s.next h in
        (
          ok d,
          drop_data s' x,
          unfold get_or_insert or_insert in rw e,
          drop_data-IsWellFormed s' x valid,
          claimed d refl m n refl,
        )
    go _ e (missing u) true k = (
      err other,
      drop_data s x,
      unfold get_or_insert or_insert in rw (e, k),
      drop_data-IsWellFormed s x h,
      double_use u k refl refl,
    )
    go _ e (missing u) false k =
        let y = record x { refcount = 1 } in
        (
          ok (alloc s y).0,
          placed s y,
          unfold get_or_insert or_insert in rw (e, k, insert_data_new s y k),
          placed-IsWellFormed s y h k,
          fresh (alloc s y).0 u k refl (one-IsEntered s x),
        )

-- How `new_inode` may end.
pub data Entered (s : InodeStore) (x : InodeData) (r : IoResult (Unit {0})) (s' : InodeStore)
    : Type 0 where
  in_use : contains s x.inode ≡ true → r ≡ err other → s' ≡ drop_data s x → Entered s x r s'
  entered :
      (d : InodeArc)
      → contains s x.inode ≡ false
      → r ≡ ok tt
      → IsEntered s x x.refcount d s'
      → Entered s x r s'

-- On a well-formed store `new_inode` does not panic and leaves a well-formed store: an inode number
-- that is in use is an error, and the data is dropped; any other is entered with the refcount that
-- the data has, in the map and in both indexes, and nothing else changes.
pub new_inode_total :
    (s : InodeStore) (x : InodeData)
    → IsWellFormed s
    → (r : IoResult (Unit {0})) × (s' : InodeStore) × (new_inode s x ≡ done (r, s'))
      × IsWellFormed s'
      × Entered s x r s'
new_inode_total s x h = elim (Bool-cases (contains s x.inode)) [
  | inl k ↦ (
    err other,
    drop_data s x,
    unfold new_inode in rw k,
    drop_data-IsWellFormed s x h,
    in_use k refl refl,
  )
  | inr k ↦ (
    ok tt,
    placed s x,
    unfold new_inode in rw (k, insert_data_new s x k),
    placed-IsWellFormed s x h k,
    entered (alloc s x).0 k refl (placed-IsEntered s x),
  )
]
