-- ===== src/NotifyInvalidate/Translate/Tells/Follows.antt =====
-- The translator sends what the description lists, with any notifier.
use std.Path.{fun_ext}
use virtiofsd.Common.{
  ◌≡◌, refl, sym, ap, ◌∙◌, Option, none, some, List, [], ◌∷◌, ◌++◌, arith, inl, inr, Option-cases,
}
use virtiofsd.DentryIndex.{Inode, FilePath}
use virtiofsd.DentryIndex.Resolve.{resolve_path-cases, resolve_path_full}
use virtiofsd.NotifyInvalidate.Notifier.{
  Notification, inval_inode, inval_entry, Sent, ok, err, Notifier,
}
use virtiofsd.NotifyInvalidate.Translate.{
  Translator, HostEvent, strip_prefix, parent_or_default, relativize, handle, handle_modify,
  handle_parent_change, handle_remove, handle_rename, cached_leaf, renamed_inode, change_of,
  send_inode, and_then, return,
}
use virtiofsd.NotifyInvalidate.Translate.Laws.{strip_prefix-append, strip_prefix-some}
use virtiofsd.NotifyInvalidate.Translate.Tells.{
  IsOutside, Change, outside, unnamed, unknown, known, Leads, Leaf, uncached, root, below_root,
  Seen, unseen, seen, Tells, modified_unknown, modified, created, removed_entry, moved,
}

module _ (n : Notifier) where
  -- The notifications in order, up to the first that fails.
  unfoldable pub send_all : List Notification → n.Sink → n.Sink × Sent
  send_all [] s = (s, ok)
  send_all (x ∷ l) s = and_then n (n.send s x) (send_all l)

  and_then_assoc :
      (r : n.Sink × Sent) (f g : n.Sink → n.Sink × Sent)
      → and_then n (and_then n r f) g ≡ and_then n r (λ s. and_then n (f s) g)
  and_then_assoc (s, ok) f g = refl
  and_then_assoc (s, err e) f g = refl

  send_all-append :
      (l m : List Notification) (s : n.Sink)
      → send_all (l ++ m) s ≡ and_then n (send_all l s) (send_all m)
  unfolding send_all
  send_all-append [] m s = refl
  send_all-append (x ∷ l) m s =
      rw (and_then_assoc (n.send s x) (send_all l) (send_all m))
        (ap (and_then n (n.send s x)) (fun_ext λ s. send_all-append l m s))

  send_all-none : (s : n.Sink) → send_all [] s ≡ (s, ok)
  unfolding send_all
  send_all-none s = refl

  send_all-one : (x : Notification) (s : n.Sink) → send_all (x ∷ []) s ≡ n.send s x
  unfolding send_all
  send_all-one x s = and_then-return (n.send s x)
    where
      and_then-return : (r : n.Sink × Sent) → and_then n r (return n) ≡ r
      and_then-return (s, ok) = refl
      and_then-return (s, err e) = refl

relativize-outside : (t : Translator) (p : FilePath) → IsOutside t p → relativize t p ≡ none
unfolding relativize
relativize-outside t p h = elim (Option-cases (strip_prefix p t.shared_dir)) [
  | inl e ↦ e
  | inr (rel, e) ↦ absurd (h rel (strip_prefix-some p t.shared_dir rel e))
]

pub relativize-below :
    (t : Translator) (p rel : FilePath) → p ≡ t.shared_dir ++ rel → relativize t p ≡ some rel
unfolding relativize
relativize-below t p rel e = rw e (strip_prefix-append t.shared_dir rel)

module _ (n : Notifier) (t : Translator) (s : n.Sink) where
  handle_parent_change-Change :
      (p : FilePath) (l : List Notification)
      → Change t p l
      → handle_parent_change n t p s ≡ send_all n l s
  unfolding handle_parent_change send_all
  handle_parent_change-Change p _ (outside h) = ground (arith, relativize-outside t p h)
  handle_parent_change-Change p _ (unnamed rel e h) = ground (arith, relativize-below t p rel e, h)
  handle_parent_change-Change p _ (unknown rel name e f h) =
      elim (resolve_path-cases t.index t.root_inode (parent_or_default rel)) [
        | inl (c, w, r) ↦ absurd (h (c, w))
        | inr (x, l, r, _) ↦ ground (arith, relativize-below t p rel e, f, r)
      ]
  handle_parent_change-Change p _ (known rel name parent e f w) = ground (
    arith,
    relativize-below t p rel e,
    f,
    resolve_path_full t.index t.root_inode parent (parent_or_default rel) w,
    send_all-one n (inval_entry parent name) s,
  )

-- What the handlers compute of a path that leads to an inode, or to none.
cached_leaf-Leaf :
    (n : Notifier) (t : Translator) (p : FilePath) (l : List Notification) (s : n.Sink)
    → Leaf t p l
    → send_inode n (cached_leaf t p) s ≡ send_all n l s
unfolding cached_leaf send_inode send_all
cached_leaf-Leaf n t p _ s (uncached (outside h)) = ground (arith, relativize-outside t p h)
cached_leaf-Leaf n t p _ s (uncached (unknown rel e h)) =
    elim (resolve_path-cases t.index t.root_inode rel) [
      | inl (c, w, r) ↦ absurd (h (c, w))
      | inr (x, l, r, _) ↦ ground (arith, relativize-below t p rel e, r)
    ]
cached_leaf-Leaf n t p _ s (root (known rel _ e w)) =
    ground
      (arith, relativize-below t p rel e, resolve_path_full t.index t.root_inode t.root_inode rel w)
cached_leaf-Leaf n t p _ s (below_root inode (known rel _ e w) d) = ground (
  arith,
  relativize-below t p rel e,
  resolve_path_full t.index t.root_inode inode rel w,
  send_all-one n (inval_inode inode) s,
  d,
)

handle_modify-Leads :
    (n : Notifier) (t : Translator) (p : FilePath) (s : n.Sink)
    → (Leads t p none → handle_modify n t p s ≡ (s, ok))
      × ((inode : Inode)
          → Leads t p (some inode)
          → handle_modify n t p s ≡ n.send s (inval_inode inode))
unfolding handle_modify
handle_modify-Leads n t p s = (uncached, cached)
  where
    uncached : Leads t p none → handle_modify n t p s ≡ (s, ok)
    uncached (outside h) = ground (arith, relativize-outside t p h)
    uncached (unknown rel e h) = elim (resolve_path-cases t.index t.root_inode rel) [
      | inl (c, w, r) ↦ absurd (h (c, w))
      | inr (x, l, r, _) ↦ ground (arith, relativize-below t p rel e, r)
    ]

    cached :
        (inode : Inode)
        → Leads t p (some inode)
        → handle_modify n t p s ≡ n.send s (inval_inode inode)
    cached inode (known rel _ e w) =
        ground
          (arith, relativize-below t p rel e, resolve_path_full t.index t.root_inode inode rel w)

change_of-Seen :
    (n : Notifier) (t : Translator) (p : Option FilePath) (l : List Notification) (s : n.Sink)
    → Seen (Change t) p l
    → change_of n t p s ≡ send_all n l s
unfolding change_of send_all
change_of-Seen n t _ _ s unseen = refl
change_of-Seen n t _ _ s (seen p l c) = handle_parent_change-Change n t s p l c

renamed_inode-Seen :
    (n : Notifier) (t : Translator) (p : Option FilePath) (l : List Notification) (s : n.Sink)
    → Seen (Leaf t) p l
    → send_inode n (renamed_inode t p) s ≡ send_all n l s
unfolding renamed_inode send_inode send_all
renamed_inode-Seen n t _ _ s unseen = refl
renamed_inode-Seen n t _ _ s (seen p l c) = cached_leaf-Leaf n t p l s c

-- With any notifier, an event sends exactly the notifications that the description lists for it, in
-- that order and up to the first that fails, whose error is returned.
pub handle_refines :
    (n : Notifier) (t : Translator) (e : HostEvent) (l : List Notification) (s : n.Sink)
    → Tells t e l
    → handle n t e s ≡ send_all n l s
unfolding handle
handle_refines n t _ _ s (modified_unknown p h) =
    (handle_modify-Leads n t p s).0 h ∙ sym (send_all-none n s)
handle_refines n t _ _ s (modified p i h) =
    (handle_modify-Leads n t p s).1 i h ∙ sym (send_all-one n (inval_inode i) s)
handle_refines n t _ _ s (created p l h) = handle_parent_change-Change n t s p l h
handle_refines n t _ _ s (removed_entry p l m h k) =
    unfold handle_remove in
    (rw (handle_parent_change-Change n t s p l h)
      (ap (and_then n (send_all n l s)) (fun_ext λ s. cached_leaf-Leaf n t p m s k)))
    ∙ sym (send_all-append n l m s)
handle_refines n t _ _ s (moved from to l m k hl hm hk) =
    unfold handle_rename in
    rw (change_of-Seen n t from l s hl) (
      ap (and_then n (send_all n l s)) (
        fun_ext λ s.
          rw (change_of-Seen n t to m s hm)
            (ap (and_then n (send_all n m s)) (fun_ext λ s. renamed_inode-Seen n t from k s hk))
          ∙ sym (send_all-append n m k s)))
    ∙ sym (send_all-append n l (m ++ k) s)
