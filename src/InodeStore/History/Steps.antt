-- ===== src/InodeStore/History/Steps.antt =====
-- What a single call does: there is a result, or it is a clone that panics.
use virtiofsd.Common.{
  ◌+◌, ◌%◌, ◌^◌, ℕ, ◌≡◌, ◌≢◌, refl, inl, inr, Bool-cases, ltb, arith, Option, some, List, [], ◌∷◌,
}
use virtiofsd.Common.Io.{IoResult, ok, err, panic}
use virtiofsd.BTreeMap
use virtiofsd.InodeStore.Types.{Inode, InodeIds, FileHandle, InodeArc, InodeData, InodeStore}
use virtiofsd.InodeStore.Inner.{forget, clear, clear_migration_info}
use virtiofsd.InodeStore.Inner.WellFormed.{
  IsWellFormed, forget-IsWellFormed, clear_migration_info-IsWellFormed, IsWellFormed-cells,
}
use virtiofsd.InodeStore.Inner.Fuel.{set_refcount}
use virtiofsd.InodeStore.Store.{
  reference_to, new_with_data, forget_many, clone, increment_refcount_for,
}
use virtiofsd.InodeStore.Later.{
  IsLater, IsLater-refl, IsLater-trans, IsLater-raised, IsLater-forget, IsLater-forget_many,
  IsLater-drop_data, IsLater-clear_migration_info, IsLater-clear, IsEntered-IsLater,
}
use virtiofsd.InodeStore.Store.Claim.{Claimed, found, missing, referenced, claim_inode_sound}
use virtiofsd.InodeStore.Store.Insert.{
  Inserted, claimed, double_use, fresh, Entered, in_use, entered, get_or_insert_total,
  new_inode_total,
}
use virtiofsd.InodeStore.History.{
  Call, claim, reference, copy, insert, new, forget_one, forget_all, clear_infos, clear_all, after,
  apply, Succeeds,
}

forget_many-IsWellFormed :
    (s : InodeStore) (l : List (Inode × ℕ)) → IsWellFormed s → IsWellFormed (forget_many s l)
unfolding forget_many
forget_many-IsWellFormed s [] h = h
forget_many-IsWellFormed s ((i, c) ∷ l) h =
    forget_many-IsWellFormed (forget s i c) l (forget-IsWellFormed s i c h).1

clear-IsWellFormed : (s : InodeStore) → IsWellFormed (clear s)
unfolding clear BTreeMap.get
clear-IsWellFormed s = record {
  keyed = λ i d e. cc;
  sorted = tt;
  ids_known = λ k i e. cc;
  handles_known = λ k i e. cc;
}

after-IsWellFormed :
    (s : InodeStore) (r : IoResult (InodeArc × InodeStore))
    → IsWellFormed s
    → ((d : InodeArc) (s' : InodeStore)
        → r ≡ ok (d, s')
        → s' ≡ set_refcount s d ((s.refcount d.addr + 1) % 2 ^ 64))
    → IsWellFormed (after s r)
unfolding after
after-IsWellFormed s (ok (d, s')) h f =
    rw (f d s' refl) (IsWellFormed-cells s _ s.migration_info s.next h)
after-IsWellFormed s (err e) h f = h

new_with_data-IsWellFormed :
    (s : InodeStore) (d : InodeArc) → IsWellFormed s → IsWellFormed (after s (new_with_data s d))
unfolding reference_to
new_with_data-IsWellFormed s d h =
    after-IsWellFormed s (new_with_data s d) h (λ d' s' p. (referenced s (some d) d' s' p).2)

Claimed-IsWellFormed :
    (s : InodeStore) (handle : Option FileHandle) (ids : InodeIds)
    (r : IoResult (InodeArc × InodeStore))
    → IsWellFormed s
    → Claimed s handle ids r
    → IsWellFormed (after s r)
unfolding after
Claimed-IsWellFormed s handle ids _ h (found d m n) =
    IsWellFormed-cells s _ s.migration_info s.next h
Claimed-IsWellFormed s handle ids _ h (missing u) = h

-- What a single call may do.
pub data Applied (c : Call) (s : InodeStore) : Type 0 where
  applied : Succeeds s (apply c s) → Applied c s
  stopped : (d : InodeArc) → c ≡ copy d → s.refcount d.addr ≡ 0 → apply c s ≡ panic → Applied c s

clone-Applied : (d : InodeArc) (s : InodeStore) → IsWellFormed s → Applied (copy d) s
clone-Applied d s h = elim (Bool-cases (ltb 0 (s.refcount d.addr))) [
  | inl e ↦ applied (
    set_refcount s d ((s.refcount d.addr + 1) % 2 ^ 64),
    unfold apply clone increment_refcount_for in ground (arith, e),
    IsWellFormed-cells s _ s.migration_info s.next h,
    IsLater-raised s d _ (ground (arith, e)),
  )
  | inr e ↦
      stopped d refl (ground (arith, e))
        (unfold apply clone increment_refcount_for in ground (arith, e))
]

Claimed-IsLater :
    (s : InodeStore) (handle : Option FileHandle) (ids : InodeIds)
    (r : IoResult (InodeArc × InodeStore))
    → Claimed s handle ids r
    → IsLater s (after s r)
unfolding after
Claimed-IsLater s handle ids _ (found d m n) = IsLater-raised s d _ n
Claimed-IsLater s handle ids _ (missing u) = IsLater-refl s

after-IsLater :
    (s : InodeStore) (r : IoResult (InodeArc × InodeStore))
    → ((d : InodeArc) (s' : InodeStore)
        → r ≡ ok (d, s')
        → (s.refcount d.addr ≢ 0) × (s' ≡ set_refcount s d ((s.refcount d.addr + 1) % 2 ^ 64)))
    → IsLater s (after s r)
unfolding after
after-IsLater s (ok (d, s')) f = let (n, e) = f d s' refl in rw e (IsLater-raised s d _ n)
after-IsLater s (err e) f = IsLater-refl s

new_with_data-IsLater : (s : InodeStore) (d : InodeArc) → IsLater s (after s (new_with_data s d))
unfolding reference_to
new_with_data-IsLater s d =
    after-IsLater s (new_with_data s d)
      (λ d' s' p. let (_, n, e) = referenced s (some d) d' s' p in (n, e))

Inserted-IsLater :
    (s s' : InodeStore) (x : InodeData) (r : IoResult InodeArc) → Inserted s x r s' → IsLater s s'
Inserted-IsLater s s' x r (claimed d _ m n e) =
    let t = set_refcount s d ((s.refcount d.addr + 1) % 2 ^ 64) in
    rw e (IsLater-trans s t _ (IsLater-raised s d _ n) (IsLater-drop_data t x))
Inserted-IsLater s s' x r (double_use u k _ e) = rw e (IsLater-drop_data s x)
Inserted-IsLater s s' x r (fresh d u k _ e) = IsEntered-IsLater s s' x 1 d e

Entered-IsLater :
    (s s' : InodeStore) (x : InodeData) (r : IoResult (Unit {0})) → Entered s x r s' → IsLater s s'
Entered-IsLater s s' x r (in_use k _ e) = rw e (IsLater-drop_data s x)
Entered-IsLater s s' x r (entered d k _ e) = IsEntered-IsLater s s' x x.refcount d e

pub apply-Applied : (c : Call) (s : InodeStore) → IsWellFormed s → Applied c s
unfolding apply
apply-Applied (copy d) s h = clone-Applied d s h
apply-Applied (claim handle ids) s h =
    let (r, e, f) = claim_inode_sound s handle ids h in
    applied
      (after s r, rw e, Claimed-IsWellFormed s handle ids r h f, Claimed-IsLater s handle ids r f)
apply-Applied (reference d) s h =
    applied (
      after s (new_with_data s d),
      refl,
      new_with_data-IsWellFormed s d h,
      new_with_data-IsLater s d,
    )
apply-Applied (insert x) s h =
    let (r, s', e, v, f) = get_or_insert_total s x h in
    applied (s', rw e, v, Inserted-IsLater s s' x r f)
apply-Applied (new x) s h =
    let (r, s', e, v, f) = new_inode_total s x h in
    applied (s', rw e, v, Entered-IsLater s s' x r f)
apply-Applied (forget_one i c) s h =
    applied (forget s i c, refl, (forget-IsWellFormed s i c h).1, IsLater-forget s i c)
apply-Applied (forget_all l) s h =
    applied (forget_many s l, refl, forget_many-IsWellFormed s l h, IsLater-forget_many s l)
apply-Applied clear_infos s h = applied (
  clear_migration_info s,
  refl,
  clear_migration_info-IsWellFormed s h,
  IsLater-clear_migration_info s,
)
apply-Applied clear_all s h = applied (clear s, refl, clear-IsWellFormed s, IsLater-clear s)
