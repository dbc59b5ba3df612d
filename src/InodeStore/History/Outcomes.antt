-- ===== src/InodeStore/History/Outcomes.antt =====
-- What a sequence of calls on a new store may come to.
use virtiofsd.Common.{ℕ, ◌≡◌, ◌≢◌, ◌<◌, ◌≤◌, sym, ◌∙◌, refl, ap, arith, some, List, [], ◌∷◌}
use virtiofsd.Common.Io.{err, not_found, Outcome, done, panic, ◌>>=◌}
use virtiofsd.BTreeMap
use virtiofsd.InodeStore.Types.{Inode, InodeArc, InodeStore, new_store}
use virtiofsd.InodeStore.Inner.{forget, get}
use virtiofsd.InodeStore.Inner.WellFormed.{
  IsWellFormed, new_store-IsWellFormed, forget-IsWellFormed,
}
use virtiofsd.InodeStore.Store.{new_with_data, clone, increment_refcount_for}
use virtiofsd.InodeStore.Later.{Allocated, IsLater, IsLater-refl, IsLater-trans, IsLater-forget}
use virtiofsd.InodeStore.Store.Forget.{forget-Gone}
use virtiofsd.InodeStore.History.{Call, apply, run, Ended, completed, cloned_dead}
use virtiofsd.InodeStore.History.Steps.{applied, stopped, apply-Applied}

-- A call before the others.
Ended-cons :
    (c : Call) (calls : List Call) (s t : InodeStore) {r : Outcome InodeStore}
    → apply c s ≡ done t
    → Ended calls t r
    → Ended (c ∷ calls) s r
unfolding run
Ended-cons c calls s t e (completed s' h) = completed s' h
Ended-cons c calls s t e (cloned_dead before rest d s' p q h z) =
    cloned_dead (c ∷ before) rest d s' (ap (λ l. c ∷ l) p) (rw e q) h z

run-Ended : (calls : List Call) (s : InodeStore) → IsWellFormed s → Ended calls s (run calls s)
unfolding run
run-Ended [] s h = completed s h
run-Ended (c ∷ calls) s h = elim (apply-Applied c s h) [
  | applied (s', e, h', _) ↦ rw e (Ended-cons c calls s s' e (run-Ended calls s' h'))
  | stopped d p z e ↦ rw e (cloned_dead [] calls d s (ap (λ x. x ∷ calls) p) refl h z)
]

-- Any sequence of calls on a new store leaves a store whose three maps fit together, or panics at a
-- clone, where the calls before it have left such a store and the refcount of the cloned reference is
-- zero.
pub run-new_store-Ended : (calls : List Call) → Ended calls new_store (run calls new_store)
run-new_store-Ended calls = run-Ended calls new_store new_store-IsWellFormed

panic-done : (s : InodeStore) → panic ≢ done s
panic-done s e = cc

-- A sequence of calls that completes leads to a later store.
run-IsLater :
    (calls : List Call) (s s' : InodeStore)
    → IsWellFormed s
    → run calls s ≡ done s'
    → IsWellFormed s' × IsLater s s'
unfolding run
run-IsLater [] s s' h e = let same : s ≡ s' = cc in rw (sym same) (h, IsLater-refl s)
run-IsLater (c ∷ calls) s s' h e = elim (apply-Applied c s h) [
  | applied (t, p, h', later) ↦
      let (v, later') = run-IsLater calls t s' h' (sym (ap (λ r. r >>= run calls) p) ∙ e) in
      (v, IsLater-trans s t s' later later')
  | stopped d q z p ↦ absurd (panic-done s' (sym (ap (λ r. r >>= run calls) p) ∙ e))
]

new_store-Allocated : Allocated new_store
unfolding new_store BTreeMap.get
new_store-Allocated i d e = cc

reference-dead :
    (s : InodeStore) (d : InodeArc)
    → s.refcount d.addr ≡ 0
    → (new_with_data s d ≡ err not_found) × (clone s d ≡ panic)
unfolding new_with_data clone increment_refcount_for
reference-dead s d z = (ground (arith, z), ground (arith, z))

-- Where any calls on a new store have led to an inode in the store, and a forget of at least its
-- refcount takes it out, no calls after it bring the refcount back: a thread that still has the data
-- gets not-found, and a clone of a reference to it panics.
pub run-forget_gone :
    (before later : List Call) (s s' : InodeStore) (i : Inode) (c : ℕ) (d : InodeArc)
    → run before new_store ≡ done s
    → get s i ≡ some d
    → s.refcount d.addr ≤ c
    → run later (forget s i c) ≡ done s'
    → (new_with_data s' d ≡ err not_found) × (clone s' d ≡ panic)
unfolding get
run-forget_gone before later s s' i c d p g l q =
    let (valid, first) = run-IsLater before new_store s new_store-IsWellFormed p in
    let addr : d.addr < s.next = first.allocated new_store-Allocated i d g in
    let none_left : (forget s i c).refcount d.addr ≡ 0 = (forget-Gone s i c d g l).1 in
    let next = (IsLater-forget s i c).next in
    let (_, rest) = run-IsLater later (forget s i c) s' (forget-IsWellFormed s i c valid).1 q in
    reference-dead s' d (rest.dead d.addr (omega arith) none_left)
