-- ===== src/NotifyInvalidate/Translate/Tells/Total.antt =====
-- No event is left out of the description, but an overflow.
use mathlib.Core.Path.{subst}
use virtiofsd.Common.{
  ◌≡◌, ◌≢◌, refl, ap, ◌∙◌, Option, none, some, List, [], ◌∷◌, ◌++◌, arith, inl, inr, Option-cases,
  Bool-cases, ◌==◌, ◌⊎◌,
}
use virtiofsd.DentryIndex.{Inode, FilePath, segments}
use virtiofsd.DentryIndex.History.{view}
use virtiofsd.DentryIndex.Resolve.{Walk, IsCached, resolve_path-cases}
use virtiofsd.NotifyInvalidate.Notifier.{Notification, inval_inode, inval_entry}
use virtiofsd.NotifyInvalidate.Translate.{
  Translator, HostEvent, modify, create, removed, renamed, overflow, file_name, parent_or_default,
  relativize,
}
use virtiofsd.NotifyInvalidate.Translate.Laws.{strip_prefix-some}
use virtiofsd.NotifyInvalidate.Translate.Tells.{
  IsOutside, Change, outside, unnamed, unknown, known, Leads, Leaf, uncached, root, below_root,
  Seen, unseen, seen, Tells, modified_unknown, modified, created, removed_entry, moved,
}
use virtiofsd.NotifyInvalidate.Translate.Tells.Follows.{relativize-below}

below_or_IsOutside :
    (t : Translator) (p : FilePath) → ((rel : FilePath) × (p ≡ t.shared_dir ++ rel)) ⊎ IsOutside t p
below_or_IsOutside t p = elim (Option-cases (relativize t p)) [
  | inl e ↦ inr λ rel f. cc (e, relativize-below t p rel f)
  | inr (rel, e) ↦ inl (rel, strip_prefix-some p t.shared_dir rel (unfold relativize in e))
]

IsCached-or_not :
    (t : Translator) (rel : FilePath)
    → ((i : Inode) × Walk (view t.index) t.root_inode (segments rel) i)
      ⊎ (¬ IsCached t.index t.root_inode (segments rel))
IsCached-or_not t rel = elim (resolve_path-cases t.index t.root_inode rel) [
  | inl (c, w, r) ↦ inl (c, w)
  | inr (x, l, r, h) ↦ inr h
]

Leads-total : (t : Translator) (p : FilePath) → (o : Option Inode) × Leads t p o
Leads-total t p = elim (below_or_IsOutside t p) [
  | inr h ↦ (none, outside h)
  | inl (rel, e) ↦ elim (IsCached-or_not t rel) [
    | inl (i, w) ↦ (some i, known rel i e w)
    | inr h ↦ (none, unknown rel e h)
  ]
]

Change-total : (t : Translator) (p : FilePath) → (l : List Notification) × Change t p l
Change-total t p = elim (below_or_IsOutside t p) [
  | inr h ↦ ([], outside h)
  | inl (rel, e) ↦ elim (Option-cases (file_name rel)) [
    | inl f ↦ ([], unnamed rel e f)
    | inr (name, f) ↦ elim (IsCached-or_not t (parent_or_default rel)) [
      | inl (i, w) ↦ (inval_entry i name ∷ [], known rel name i e f w)
      | inr h ↦ ([], unknown rel name e f h)
    ]
  ]
]

Leaf-total : (t : Translator) (p : FilePath) → (l : List Notification) × Leaf t p l
Leaf-total t p =
    let (o, h) = Leads-total t p in
    elim (Option-cases o) [
      | inl e ↦ ([], uncached (subst (Leads t p) e h))
      | inr (i, e) ↦ elim (Bool-cases (i == t.root_inode)) [
        | inl r ↦ ([], root (subst (Leads t p) (e ∙ ap some (ground arith)) h))
        | inr r ↦ (inval_inode i ∷ [], below_root i (subst (Leads t p) e h) (ground arith))
      ]
    ]

Seen-total :
    {F : FilePath → List Notification → Type 0}
    → ((p : FilePath) → (l : List Notification) × F p l)
    → (p : Option FilePath) → (l : List Notification) × Seen F p l
Seen-total f none = ([], unseen)
Seen-total f (some p) = ((f p).0, seen p (f p).0 (f p).1)

modify-total : (t : Translator) (p : FilePath) → (l : List Notification) × Tells t (modify p) l
modify-total t p =
    let (o, h) = Leads-total t p in
    elim (Option-cases o) [
      | inl e ↦ ([], modified_unknown p (subst (Leads t p) e h))
      | inr (i, e) ↦ (inval_inode i ∷ [], modified p i (subst (Leads t p) e h))
    ]

-- A list of notifications that the description gives the event.
pub Tells-total :
    (t : Translator) (e : HostEvent) → e ≢ overflow → (l : List Notification) × Tells t e l
Tells-total t (modify p) d = modify-total t p
Tells-total t (create p) d = let (l, h) = Change-total t p in (l, created p l h)
Tells-total t (removed p) d =
    let (l, h) = Change-total t p in
    let (m, k) = Leaf-total t p in (l ++ m, removed_entry p l m h k)
Tells-total t (renamed from to) d =
    let (l, hl) = Seen-total (Change-total t) from in
    let (m, hm) = Seen-total (Change-total t) to in
    let (k, hk) = Seen-total (Leaf-total t) from in (l ++ (m ++ k), moved from to l m k hl hm hk)
Tells-total t overflow d = absurd (d refl)
