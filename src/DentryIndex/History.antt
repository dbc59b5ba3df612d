-- ===== src/DentryIndex/History.antt =====
-- Any sequence of the methods, against a function from dentries to inodes.
use mathlib.Core.Path.{fun_ext}
use virtiofsd.Common.{
  ap, ◌∙◌, ℕ, ◌≡◌, refl, Option, none, some, List, [], ◌∷◌, arith, if◌then◌else◌, ◌==◌,
  Option-cases, inl, inr,
}
use virtiofsd.Common.Key.{same, nat_key, pair_key, bytes_key, Key}
use virtiofsd.BTreeMap
use virtiofsd.BTreeMap.Laws.{get-insert, get-remove}
use virtiofsd.BTreeMap.Sorted.{elem-keys}
use virtiofsd.DentryIndex.{Inode, Name, Dentry, DentryIndex, insert, remove, rename, forget_inode}
use virtiofsd.DentryIndex.Inner.{Inner, empty, link, unlink, rename_key, forget, move_key}
use virtiofsd.DentryIndex.Consistent.{named_in, leads_to, IsConsistent}
use virtiofsd.DentryIndex.Consistent.Steps.{
  empty-IsConsistent, link-IsConsistent, unlink-IsConsistent, rename_key-IsConsistent,
  forget-IsConsistent, get-unlink, get-remove_all,
}

-- A call of one of the methods that change the index.
pub data Call : Type 0 where
  insert_call : Inode → Name → Inode → Call
  remove_call : Inode → Name → Call
  rename_call : Inode → Name → Inode → Name → Call
  forget_call : Inode → Call

unfoldable pub apply : Call → DentryIndex → DentryIndex
apply (insert_call parent name child) i = insert i parent name child
apply (remove_call parent name) i = remove i parent name
apply (rename_call p n q m) i = rename i p n q m
apply (forget_call inode) i = forget_inode i inode

unfoldable pub run : List Call → DentryIndex → DentryIndex
run [] i = i
run (c ∷ calls) i = run calls (apply c i)

-- What the guest has cached: the inode that a dentry leads to.
abbrev pub View : Type 0
View = Dentry → Option Inode

abbrev pub update : View → Dentry → Option Inode → View
update f k v j = if same k j then v else f j

-- The same calls on the view. A rename first drops the destination.
unfoldable pub apply_view : Call → View → View
apply_view (insert_call parent name child) f = update f (parent, name) (some child)
apply_view (remove_call parent name) f = update f (parent, name) none
apply_view (rename_call p n q m) f =
    let dropped : View = update f (q, m) none in
    elim (dropped (p, n)) [
      | none ↦ dropped
      | some child ↦ update (update dropped (p, n) none) (q, m) (some child)
    ]
apply_view (forget_call inode) f =
    λ j. elim (f j) [ none ↦ none | some c ↦ if c == inode then none else some c ]

unfoldable pub run_view : List Call → View → View
run_view [] f = f
run_view (c ∷ calls) f = run_view calls (apply_view c f)

abbrev pub view : DentryIndex → View
view i k = BTreeMap.get i.forward k

module _ {D : Type 0} ⦃o : Key D⦄ where
  get-move_key :
      (i : Inner D) (old new j : D)
      → BTreeMap.get (move_key i old new).forward j ≡ elim (BTreeMap.get i.forward old) [
        | none ↦ BTreeMap.get i.forward j
        | some child ↦
            if same new j then some child else if same old j then none else BTreeMap.get i.forward j
      ]
  unfolding move_key
  get-move_key i old new j = elim (Option-cases (BTreeMap.get i.forward old)) [
    | inl e ↦ ground (arith, e)
    | inr (child, e) ↦ ground (
      arith,
      e,
      get-insert (BTreeMap.remove i.forward old) new j child,
      get-remove i.forward old j,
    )
  ]

  get-forget :
      (i : Inner D) (inode : ℕ) (j : D)
      → IsConsistent i
      → BTreeMap.get (forget i inode).forward j ≡ elim (BTreeMap.get i.forward j) [
        | none ↦ none
        | some c ↦ if c == inode then none else some c
      ]
  unfolding forget named_in leads_to BTreeMap.contains_key
  get-forget i inode j h = elim (Option-cases (BTreeMap.get i.reverse inode)) [
    | inl e ↦ ground (arith, e, h.agree inode j)
    | inr (set, e) ↦
        ground (
          arith,
          e,
          h.agree inode j,
          get-remove_all i.forward (BTreeMap.keys set) j,
          elem-keys set j,
        )
  ]

-- One call on the index is the same call on its view.
apply_refines :
    (c : Call) (i : DentryIndex)
    → IsConsistent i
    → (j : Dentry) → view (apply c i) j ≡ apply_view c (view i) j
unfolding apply apply_view
apply_refines (insert_call parent name child) i h j =
    unfold insert link in get-insert i.forward (parent, name) j child
apply_refines (remove_call parent name) i h j = unfold remove in get-unlink i (parent, name) j
apply_refines (rename_call p n q m) i h j =
    unfold rename rename_key in
    ground (
      arith,
      get-move_key (unlink i (q, m)) (p, n) (q, m) j,
      get-unlink i (q, m) (p, n),
      get-unlink i (q, m) j,
    )
apply_refines (forget_call inode) i h j = unfold forget_inode in get-forget i inode j h

apply-IsConsistent : (c : Call) (i : DentryIndex) → IsConsistent i → IsConsistent (apply c i)
unfolding apply insert remove rename forget_inode
apply-IsConsistent (insert_call parent name child) i = link-IsConsistent i (parent, name) child
apply-IsConsistent (remove_call parent name) i = unlink-IsConsistent i (parent, name)
apply-IsConsistent (rename_call p n q m) i = rename_key-IsConsistent i (p, n) (q, m)
apply-IsConsistent (forget_call inode) i = forget-IsConsistent i inode

run_refines :
    (calls : List Call) (i : DentryIndex)
    → IsConsistent i
    → IsConsistent (run calls i) × (view (run calls i) ≡ run_view calls (view i))
unfolding run run_view
run_refines [] i h = (h, refl)
run_refines (c ∷ calls) i h =
    let (valid, same_view) = run_refines calls (apply c i) (apply-IsConsistent c i h) in
    (valid, same_view ∙ ap (run_view calls) (fun_ext (apply_refines c i h)))

-- After any sequence of the methods on a new index, the two maps hold the same pairs, no set of
-- names is empty, and each dentry leads to the inode that the calls give it.
pub run-empty_refines :
    (calls : List Call)
    → IsConsistent (run calls empty) × (view (run calls empty) ≡ run_view calls (λ _. none))
unfolding empty BTreeMap.get
run-empty_refines calls = run_refines calls empty empty-IsConsistent
