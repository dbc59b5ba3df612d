-- ===== src/NotifyInvalidate/Translate/Overflow.antt =====
-- After lost events every inode that the guest may have cached is invalidated.
use virtiofsd.Common.{
  ◌≡◌, ◌≢◌, ◌↔◌, true, false, ◌||◌, Bool, some, List, [], ◌∷◌, ◌++◌, ◌∙◌, ap, sym, arith,
  if◌then◌else◌, inl, inr, Bool-cases, ◌==◌,
}
use virtiofsd.Common.Key.{nat_key, pair_key, bytes_key}
use mathlib.Core.List.{append_assoc, append-nil}
use virtiofsd.BTreeMap.Sorted.{elem}
use virtiofsd.DentryIndex.{Inode, Dentry, all_inodes}
use virtiofsd.DentryIndex.History.{view}
use virtiofsd.DentryIndex.Consistent.{IsConsistent}
use virtiofsd.DentryIndex.Queries.{all_inodes_exact}
use virtiofsd.NotifyInvalidate.Notifier.{
  Notification, inval_inode, inval_entry, ok, capturing_notifier,
}
use virtiofsd.NotifyInvalidate.Translate.{
  Translator, overflow, handle, bulk_invalidate, invalidate_each,
}

-- The list has a notification that invalidates the inode.
unfoldable pub invalidates : Inode → List Notification → Bool
invalidates i [] = false
invalidates i (inval_inode j ∷ l) = j == i || invalidates i l
invalidates i (inval_entry p name ∷ l) = invalidates i l

-- The notifications that the loop sends.
all_but : Inode → List Inode → List Notification
all_but root [] = []
all_but root (i ∷ l) = let rest = all_but root l in if i == root then rest else inval_inode i ∷ rest

invalidate_each-all_but :
    (root : Inode) (l : List Inode) (log : List Notification)
    → invalidate_each capturing_notifier root l log ≡ log ++ all_but root l
unfolding invalidate_each all_but
invalidate_each-all_but root [] log = sym (append-nil log)
invalidate_each-all_but root (i ∷ l) log = elim (Bool-cases (i == root)) [
  | inl e ↦ rw e (invalidate_each-all_but root l log)
  | inr e ↦ rw e (
      invalidate_each-all_but root l (log ++ inval_inode i ∷ [])
      ∙ append_assoc log (inval_inode i ∷ []) (all_but root l))
]

invalidates-all_but :
    (root i : Inode) (l : List Inode)
    → invalidates i (all_but root l) ≡ (if i == root then false else elem i l)
unfolding invalidates all_but elem
invalidates-all_but root i [] = ground arith
invalidates-all_but root i (j ∷ l) = ground (arith, invalidates-all_but root i l)

-- With a consistent index and a sink that keeps everything, an overflow ends well, adds to the log,
-- and what it adds invalidates exactly the inodes other than the root that some cached dentry leads
-- to.
pub overflow_exact :
    (t : Translator) (log : List Notification)
    → IsConsistent t.index
    → (added : List Notification) × (handle capturing_notifier t overflow log ≡ (log ++ added, ok))
      × ((i : Inode)
          → (invalidates i added ≡ true)
            ↔ ((i ≢ t.root_inode) × ((j : Dentry) × (view t.index j ≡ some i))))
unfolding handle bulk_invalidate
overflow_exact t log h = (
  all_but t.root_inode (all_inodes t.index),
  ap (λ l. (l, ok)) (invalidate_each-all_but t.root_inode (all_inodes t.index) log),
  λ i.
      let known = all_inodes_exact t.index h i in
      let added = invalidates-all_but t.root_inode i (all_inodes t.index) in
      (
        λ e. (λ d. ground (arith, added), known.0 (ground (arith, added))),
        λ d. ground (arith, added, known.1 d.1, d.0),
      ),
)
