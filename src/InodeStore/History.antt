-- ===== src/InodeStore/History.antt =====
-- Any sequence of calls on a store.
pub mod Steps
pub mod Outcomes
use virtiofsd.Common.{
  ◌+◌, ◌%◌, ◌^◌, ℕ, ◌≡◌, ◌≢◌, ◌<◌, ◌≤◌, sym, ◌∙◌, refl, ap, inl, inr, Bool-cases, ltb, arith, ◌++◌,
  Option, some, List, [], ◌∷◌,
}
use virtiofsd.Common.Io.{IoResult, ok, err, not_found, Outcome, done, panic, ◌>>=◌}
use virtiofsd.BTreeMap
use virtiofsd.InodeStore.Types.{
  Inode, InodeIds, FileHandle, InodeArc, InodeData, InodeStore, new_store,
}
use virtiofsd.InodeStore.Inner.{forget, clear, clear_migration_info, get}
use virtiofsd.InodeStore.Inner.WellFormed.{
  IsWellFormed, new_store-IsWellFormed, forget-IsWellFormed, clear_migration_info-IsWellFormed,
  IsWellFormed-cells,
}
use virtiofsd.InodeStore.Inner.Fuel.{set_refcount}
use virtiofsd.InodeStore.Store.{
  reference_to, new_with_data, claim_inode, get_or_insert, new_inode, forget_many, clone,
  increment_refcount_for,
}
use virtiofsd.InodeStore.Later.{
  Allocated, IsLater, IsLater-refl, IsLater-trans, IsLater-raised, IsLater-forget,
  IsLater-forget_many, IsLater-drop_data, IsLater-clear_migration_info, IsLater-clear,
  IsEntered-IsLater,
}
use virtiofsd.InodeStore.Store.Forget.{forget-Gone}
use virtiofsd.InodeStore.Store.Claim.{Claimed, found, missing, referenced, claim_inode_sound}
use virtiofsd.InodeStore.Store.Insert.{
  Inserted, claimed, double_use, fresh, Entered, in_use, entered, get_or_insert_total,
  new_inode_total,
}

-- A call that locks the store, or that takes a reference through an `Arc` without the lock; `reference`
-- is the second half of `get_strong` too, and the drop of a reference is `forget_one` with the count 1.
-- Any interleaving of such calls is a sequence of them. The `Arc`s need not be of the store.
pub data Call : Type 0 where
  claim : Option FileHandle → InodeIds → Call
  reference : InodeArc → Call
  copy : InodeArc → Call
  insert : InodeData → Call
  new : InodeData → Call
  forget_one : Inode → ℕ → Call
  forget_all : List (Inode × ℕ) → Call
  clear_infos : Call
  clear_all : Call

-- The store after a call: the returned references are the caller's.
unfoldable pub after : InodeStore → IoResult (InodeArc × InodeStore) → InodeStore
after s (ok (d, s')) = s'
after s (err e) = s

unfoldable pub apply : Call → InodeStore → Outcome InodeStore
apply (claim handle ids) s = do r ← claim_inode s handle ids; done (after s r)
apply (reference d) s = done (after s (new_with_data s d))
apply (copy d) s = do (r, s') ← clone s d; done s'
apply (insert x) s = do (r, s') ← get_or_insert s x; done s'
apply (new x) s = do (r, s') ← new_inode s x; done s'
apply (forget_one inode count) s = done (forget s inode count)
apply (forget_all inodes) s = done (forget_many s inodes)
apply clear_infos s = done (clear_migration_info s)
apply clear_all s = done (clear s)

unfoldable pub run : List Call → InodeStore → Outcome InodeStore
run [] s = done s
run (c ∷ calls) s = do s' ← apply c s; run calls s'

-- There is a result, a well-formed store that is later than `s`.
abbrev pub Succeeds : InodeStore → Outcome InodeStore → Type 0
Succeeds s r = (s' : InodeStore) × (r ≡ done s') × IsWellFormed s' × IsLater s s'

-- How a sequence of calls may end.
pub data Ended (calls : List Call) (s : InodeStore) : Outcome InodeStore → Type 0 where
  completed : (s' : InodeStore) → IsWellFormed s' → Ended calls s (done s')
  -- The first call that panics is the clone of a reference whose refcount is zero by then.
  cloned_dead :
      (before rest : List Call) (d : InodeArc) (s' : InodeStore)
      → calls ≡ before ++ copy d ∷ rest
      → run before s ≡ done s'
      → IsWellFormed s'
      → s'.refcount d.addr ≡ 0
      → Ended calls s panic
