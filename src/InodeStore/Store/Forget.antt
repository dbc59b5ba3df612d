-- ===== src/InodeStore/Store/Forget.antt =====
-- What `forget` does, on every branch; also to a thread that had looked the inode up before.
use mathlib.Core.Path.{subst}
use virtiofsd.Common.{
  sym, Option, ℕ, ◌-◌, ◌<◌, ◌≤◌, ◌≡◌, ◌⊎◌, refl, none, some, List, [], ◌∷◌, ◌++◌, map, arith, inl,
  inr, ltb, Option-cases, Bool-cases,
}
use virtiofsd.Common.Key.{Key, nat_key, pair_key, bytes_key}
use virtiofsd.Common.Io.{err, not_found}
use virtiofsd.BTreeMap
use virtiofsd.BTreeMap.{BTreeMap}
use virtiofsd.BTreeMap.Laws.{get-remove}
use virtiofsd.InodeStore.Types.{Inode, FileHandle, InodeArc, InodeStore, handle_of}
use virtiofsd.InodeStore.Inner.{take_out, remove_key, references, forget_one, forget, get}
use virtiofsd.InodeStore.Inner.Fuel.{IsPaid, debt, set_refcount, forget-Pays}
use virtiofsd.InodeStore.Store.{increment_refcount_for, new_with_data}

-- A removal brings no key back.
none-remove_key :
    {K : Type 0} ⦃o : Key K⦄ (m : BTreeMap K Inode) (x : Option K) (k : K)
    → BTreeMap.get m k ≡ none
    → BTreeMap.get (remove_key m x) k ≡ none
unfolding remove_key
none-remove_key m none k h = h
none-remove_key m (some x) k h = ground (arith, h, get-remove m x k)

-- Neither the inode nor a key of the data leads to it, and its count is zero.
abbrev pub Gone : Inode → InodeArc → InodeStore → Type 0
Gone i d s =
    (BTreeMap.get s.data_map i ≡ none)
    × (s.refcount d.addr ≡ 0)
    × (BTreeMap.get s.by_ids d.ids ≡ none)
    × ((k : FileHandle) → handle_of d.file_or_handle ≡ some k → BTreeMap.get s.by_handle k ≡ none)

module _ (i : Inode) (d : InodeArc) where
  -- The inode is gone and its count is zero, or all of its count is about to be dropped.
  abbrev Leaves : InodeStore → List (Inode × ℕ) → Type 0
  Leaves s [] = Gone i d s
  Leaves s ((j, c) ∷ r) =
      Gone i d s ⊎ ((j ≡ i) × (BTreeMap.get s.data_map i ≡ some d) × (s.refcount d.addr ≤ c))

  -- Once gone, it stays so.
  gone : (s : InodeStore) (r : List (Inode × ℕ)) → Gone i d s → Leaves s r
  gone s [] g = g
  gone s ((j, c) ∷ r) g = inl g

  Gone-part :
      (s : InodeStore) (x : InodeArc) (c : ℕ)
      → Gone i d s
      → Gone i d (set_refcount s x (s.refcount x.addr - c))
  Gone-part s x c (a, b, e, f) = (a, ground arith, e, f)

  Gone-take_out :
      (s : InodeStore) (j : Inode) (x : InodeArc) → Gone i d s → Gone i d (take_out s j x)
  unfolding take_out
  Gone-take_out s j x (a, b, e, f) = (
    ground (arith, a, get-remove s.data_map j i),
    b,
    none-remove_key s.by_ids (some x.ids) d.ids e,
    λ k p. none-remove_key s.by_handle (handle_of x.file_or_handle) k (f k p),
  )

  Gone-taken :
      (s : InodeStore) (c : ℕ)
      → s.refcount d.addr ≤ c
      → Gone i d (take_out (set_refcount s d (s.refcount d.addr - c)) i d)
  unfolding take_out remove_key
  Gone-taken s c l = (
    ground (arith, get-remove s.data_map i i),
    ground arith,
    ground (arith, get-remove s.by_ids d.ids d.ids, Key.cmp_refl pair_key d.ids),
    λ k p. ground (arith, p, get-remove s.by_handle k k, Key.cmp_refl pair_key k),
  )

  Leaves-IsPaid : IsPaid Leaves
  Leaves-IsPaid = record {
    absent = λ s j c r e h. elim h [ inl g ↦ gone s r g | inr (p, q, _) ↦ absurd (ground arith) ];
    part = λ s j c r x e n h. elim h [
      | inl g ↦ gone (set_refcount s x (s.refcount x.addr - c)) r (Gone-part s x c g)
      | inr (p, q, l) ↦ absurd (ground arith)
    ];
    last = λ s j c r x e z h.
        gone (take_out (set_refcount s x (s.refcount x.addr - c)) j x)
          (map debt (references (s.migration_info x.addr)) ++ r)
          (elim h [
            | inl g ↦
                Gone-take_out (set_refcount s x (s.refcount x.addr - c)) j x (Gone-part s x c g)
            | inr (p, q, l) ↦
                let same : x ≡ d = ground arith in
                subst (λ y. Gone i d (take_out (set_refcount s y (s.refcount y.addr - c)) j y))
                  (sym same)
                  (subst (λ k. Gone i d (take_out (set_refcount s d (s.refcount d.addr - c)) k d))
                    (sym p) (Gone-taken s c l))
          ]);
  }

pub forget-Gone :
    (s : InodeStore) (i : Inode) (c : ℕ) (d : InodeArc)
    → BTreeMap.get s.data_map i ≡ some d
    → s.refcount d.addr ≤ c
    → Gone i d (forget s i c)
forget-Gone s i c d e all =
    (forget-Pays (Leaves i d) (Leaves-IsPaid i d) s i c [] (inr (refl, e, all))).1

-- How `forget` may end: without a change, with a smaller count, or with the inode out of the store.
pub data Forgotten (s : InodeStore) (i : Inode) (c : ℕ) (s' : InodeStore) : Type 0 where
  unknown : get s i ≡ none → s' ≡ s → Forgotten s i c s'
  counted_down :
      (d : InodeArc)
      → get s i ≡ some d
      → c < s.refcount d.addr
      → s' ≡ set_refcount s d (s.refcount d.addr - c)
      → Forgotten s i c s'
  -- A thread that still has the data can no longer take a reference.
  taken_out :
      (d : InodeArc)
      → get s i ≡ some d
      → s.refcount d.addr ≤ c
      → Gone i d s'
      → new_with_data s' d ≡ err not_found
      → Forgotten s i c s'

-- An inode that is not in the store changes nothing. A count below the refcount is subtracted, and
-- nothing else changes. Any other count leaves a store in which the inode is not, nothing stands under
-- the IDs or the handle of its data, and a thread that still has its data cannot take a reference.
pub forget_exact : (s : InodeStore) (i : Inode) (c : ℕ) → Forgotten s i c (forget s i c)
unfolding get
forget_exact s i c = elim (Option-cases (BTreeMap.get s.data_map i)) [
  | inl e ↦ unknown e (unfold forget forget_one in ground (arith, e))
  | inr (d, e) ↦ elim (Bool-cases (ltb c (s.refcount d.addr))) [
    | inl t ↦ counted_down d e (ground arith) (unfold forget forget_one in ground (arith, e))
    | inr f ↦
        let all : s.refcount d.addr ≤ c = ground arith in
        let left = forget-Gone s i c d e all in
        taken_out d e all left
          (unfold new_with_data increment_refcount_for in ground (arith, left.1))
  ]
]
