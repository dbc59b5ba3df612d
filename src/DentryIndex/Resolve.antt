-- ===== src/DentryIndex/Resolve.antt =====
-- `resolve_path` against the relation of walking from an inode along cached names.
use mathlib.Core.List.{append-nil}
use virtiofsd.Common.{
  ◌⊎◌, ℕ, ◌+◌, ◌≡◌, refl, ap, none, some, List, [], ◌∷◌, ◌++◌, arith, Option-cases, inl, inr,
  length, drop, drop-append, drop-length,
}
use native.Mathlib.Nat.{zero-add}
use virtiofsd.Common.Key.{nat_key, pair_key, bytes_key}
use virtiofsd.BTreeMap
use virtiofsd.BTreeMap.{BTreeMap}
use virtiofsd.DentryIndex.{Inode, Name, Dentry, DentryIndex, FilePath, segments, walk, resolve_path}
use virtiofsd.DentryIndex.History.{View, view}

-- From `a`, the names lead through cached dentries to `c`.
pub data Walk (f : View) : Inode → List Name → Inode → Type 0 where
  here : {a : Inode} → Walk f a [] a
  step :
      {a b c : Inode} {s : Name} {l : List Name}
      → f (a, s) ≡ some b
      → Walk f b l c
      → Walk f a (s ∷ l) c

-- The first of the names, if there is one, is not cached under `a`.
abbrev pub IsStuck : View → Inode → List Name → Type 0
IsStuck f a [] = Unit
IsStuck f a (s ∷ _) = f (a, s) ≡ none

abbrev lookup_in : BTreeMap Dentry Inode → View
lookup_in f k = BTreeMap.get f k

record Walked (f : BTreeMap Dentry Inode) (a : Inode) (n : ℕ) (l : List Name) : Type 0 where
  reached : Inode
  known : List Name
  rest : List Name
  split : l ≡ known ++ rest
  path : Walk (lookup_in f) a known reached
  stuck : IsStuck (lookup_in f) reached rest
  result : walk f a n l ≡ (reached, n + length known)

walk_lem : (f : BTreeMap Dentry Inode) (a : Inode) (n : ℕ) (l : List Name) → Walked f a n l
unfolding walk
walk_lem f a n [] = record {
  reached = a;
  known = [];
  rest = [];
  split = refl;
  path = here;
  stuck = tt;
  result = ground arith;
}
walk_lem f a n (s ∷ l) = elim (Option-cases (BTreeMap.get f (a, s))) [
  | inl e ↦ record {
    reached = a;
    known = [];
    rest = s ∷ l;
    split = refl;
    path = here;
    stuck = e;
    result = ground (arith, e);
  }
  | inr (b, e) ↦
      let w = walk_lem f b (n + 1) l in
      record {
        reached = w.reached;
        known = s ∷ w.known;
        rest = w.rest;
        split = ap (λ r. s ∷ r) w.split;
        path = step e w.path;
        stuck = w.stuck;
        result = ground (arith, e, w.result);
      }
]

drop-known : (l known rest : List Name) → l ≡ known ++ rest → drop (0 + length known) l ≡ rest
drop-known l known rest e = rw (e, zero-add) (drop-append known rest)

-- The path's names are the ones that the walk from `root` consumed, then the remaining ones, and
-- the walk could go no further.
pub resolve_path_deepest :
    (i : DentryIndex) (root : Inode) (path : FilePath)
    → let (inode, remaining) = resolve_path i root path in
      (known : List Name) × (segments path ≡ known ++ remaining)
      × Walk (view i) root known inode
      × IsStuck (view i) inode remaining
unfolding resolve_path
resolve_path_deepest i root path =
    let w = walk_lem i.forward root 0 (segments path) in
    let consumed : drop (0 + length w.known) (segments path) ≡ w.rest =
      drop-known (segments path) w.known w.rest w.split in
    rw (w.result, consumed) (w.known, w.split, w.path, w.stuck)

walk_full :
    (f : BTreeMap Dentry Inode) (a c : Inode) (n : ℕ) (l : List Name)
    → Walk (lookup_in f) a l c
    → walk f a n l ≡ (c, n + length l)
unfolding walk
walk_full f a _ n _ here = ground arith
walk_full f a c n _ (step {b = b} {l = l} e w) = ground (arith, e, walk_full f b c (n + 1) l w)

-- Where the names of the path lead from `root` to `c`, that is the answer, with none remaining.
pub resolve_path_full :
    (i : DentryIndex) (root c : Inode) (path : FilePath)
    → Walk (view i) root (segments path) c
    → resolve_path i root path ≡ (c, [])
unfolding resolve_path
resolve_path_full i root c path w =
    rw (walk_full i.forward root c 0 (segments path) w, zero-add, drop-length)

-- The names lead from `root` to an inode.
abbrev pub IsCached : DentryIndex → Inode → List Name → Type 0
IsCached i root l = (c : Inode) × Walk (view i) root l c

-- Either the names lead somewhere, and that is the answer, or some names remain.
pub resolve_path-cases :
    (i : DentryIndex) (root : Inode) (path : FilePath)
    → ((c : Inode) × Walk (view i) root (segments path) c × (resolve_path i root path ≡ (c, [])))
      ⊎ ((s : Name) × (l : List Name) × ((resolve_path i root path).1 ≡ s ∷ l)
          × (¬ IsCached i root (segments path)))
resolve_path-cases i root path =
    go (resolve_path i root path).0 (resolve_path i root path).1 refl
      (resolve_path_deepest i root path)
  where
    go :
        (c : Inode) (rest : List Name)
        → resolve_path i root path ≡ (c, rest)
        → ((known : List Name) × (segments path ≡ known ++ rest)
            × Walk (view i) root known c
            × IsStuck (view i) c rest)
        → ((c : Inode) × Walk (view i) root (segments path) c
            × (resolve_path i root path ≡ (c, [])))
          ⊎ ((s : Name) × (l : List Name) × ((resolve_path i root path).1 ≡ s ∷ l)
              × (¬ IsCached i root (segments path)))
    go c [] e d = inl (c, rw (d.1, append-nil) d.2, e)
    go c (s ∷ l) e d =
        inr
          (s, l, ap (λ r. r.1) e, λ w. cc (resolve_path_full i root w.0 path w.1, ap (λ r. r.1) e))

pub Walk-snoc :
    {f : View} {a b c : Inode} {s : Name} (l : List Name)
    → Walk f a l b
    → f (b, s) ≡ some c
    → Walk f a (l ++ s ∷ []) c
Walk-snoc _ here e = step e here
Walk-snoc _ (step {l = l} p w) e = step p (Walk-snoc l w e)
