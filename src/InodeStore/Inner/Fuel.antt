-- ===== src/InodeStore/Inner/Fuel.antt =====
-- A rule for invariants of `forget_one`, with the references that are still to be dropped, and with
-- it that the size of the store is enough fuel.
use mathlib.Core.Path.{subst}
use virtiofsd.Common.{
  ◌∙◌, sym, ap, ℕ, zero, suc, ◌<◌, ◌≤◌, ◌-◌, ◌≡◌, ◌≢◌, refl, Option, none, some, List, [], ◌∷◌,
  ◌++◌, map, arith, length, ◌==◌, Option-cases, Bool-cases, inl, inr,
}
use virtiofsd.Common.Key.{nat_key, bytes_key, pair_key}
use virtiofsd.BTreeMap
use virtiofsd.BTreeMap.Laws.{length-remove-lt}
use virtiofsd.InodeStore.Types.{Inode, InodeArc, InodeStore, write}
use virtiofsd.InodeStore.Inner.{take_out, references, drop_each, remove, forget_one, forget}

abbrev pub size : InodeStore → ℕ
size s = length s.data_map

-- A reference that is to be dropped.
abbrev pub debt : InodeArc → Inode × ℕ
debt d = (d.inode, 1)

abbrev pub set_refcount : InodeStore → InodeArc → ℕ → InodeStore
set_refcount s d n = record s { refcount = write s.refcount d.addr n }

-- An invariant of a store with references to be dropped, kept by each way to drop the first.
pub record IsPaid (P : InodeStore → List (Inode × ℕ) → Type 0) : Type 0 where
  pub absent :
      (s : InodeStore) (i : Inode) (c : ℕ) (r : List (Inode × ℕ))
      → BTreeMap.get s.data_map i ≡ none
      → P s ((i, c) ∷ r)
      → P s r
  pub part :
      (s : InodeStore) (i : Inode) (c : ℕ) (r : List (Inode × ℕ)) (d : InodeArc)
      → BTreeMap.get s.data_map i ≡ some d
      → s.refcount d.addr - c ≢ 0
      → P s ((i, c) ∷ r)
      → P (set_refcount s d (s.refcount d.addr - c)) r
  pub last :
      (s : InodeStore) (i : Inode) (c : ℕ) (r : List (Inode × ℕ)) (d : InodeArc)
      → BTreeMap.get s.data_map i ≡ some d
      → s.refcount d.addr - c ≡ 0
      → P s ((i, c) ∷ r)
      → P
          (take_out (set_refcount s d (s.refcount d.addr - c)) i d)
          (map debt (references (s.migration_info d.addr)) ++ r)

forget_result :
    (s : InodeStore) (i : Inode) (c : ℕ) (s' : InodeStore)
    → forget_one (suc (size s)) s i c ≡ some s'
    → forget s i c ≡ s'
unfolding forget
forget_result s i c s' e = ground (arith, e)

module _ (P : InodeStore → List (Inode × ℕ) → Type 0) (paid : IsPaid P) where
  -- There is a result, which satisfies the invariant with `r` left, and is no larger than `n`.
  abbrev pub Pays : ℕ → Option InodeStore → List (Inode × ℕ) → Type 0
  Pays n result r = (s : InodeStore) × (result ≡ some s) × P s r × (size s ≤ n)

  drop_each-Pays :
      (drop : InodeStore → Inode → ℕ → Option InodeStore) (n : ℕ)
      → ((s : InodeStore) (i : Inode) (c : ℕ) (r : List (Inode × ℕ))
          → size s ≤ n
          → P s ((i, c) ∷ r)
          → Pays (size s) (drop s i c) r)
      → (s : InodeStore) (l : List InodeArc) (r : List (Inode × ℕ)) → size s ≤ n
      → P s (map debt l ++ r)
      → Pays (size s) (drop_each drop s l) r
  unfolding drop_each
  drop_each-Pays drop n keep s [] r h p = (s, refl, p, omega arith)
  drop_each-Pays drop n keep s (d ∷ l) r h p =
      let (s', e, p', k) = keep s d.inode 1 (map debt l ++ r) h p in
      let (s'', e', p'', k') = drop_each-Pays drop n keep s' l r (omega arith) p' in
      (s'', ground (arith, e, e'), p'', omega arith)

  pub forget_one-Pays :
      (fuel : ℕ) (s : InodeStore) (i : Inode) (c : ℕ) (r : List (Inode × ℕ))
      → size s < fuel
      → P s ((i, c) ∷ r)
      → Pays (size s) (forget_one fuel s i c) r
  unfolding forget_one remove
  forget_one-Pays zero s i c r h p = elim h [ ]
  forget_one-Pays (suc fuel) s i c r h p = elim (Option-cases (BTreeMap.get s.data_map i)) [
    | inl e ↦ (s, ground (arith, e), paid.absent s i c r e p, omega arith)
    | inr (d, e) ↦ elim (Bool-cases (s.refcount d.addr - c == 0)) [
      | inl last ↦
          let s' = set_refcount s d (s.refcount d.addr - c) in
          let less : size (take_out s' i d) < size s =
            unfold take_out in length-remove-lt s.data_map i d e in
          let (s'', e', p', k) =
            drop_each-Pays (forget_one fuel) (size (take_out s' i d))
              (λ s i c r k. forget_one-Pays fuel s i c r (omega arith)) (take_out s' i d)
              (references (s.migration_info d.addr)) r (omega arith)
              (paid.last s i c r d e (ground arith) p) in
          (s'', ground (arith, e, last, e'), p', omega arith)
      | inr more ↦ (
        set_refcount s d (s.refcount d.addr - c),
        ground (arith, e, more),
        paid.part s i c r d e (ground arith) p,
        omega arith,
      )
    ]
  ]

  -- The fuel that `forget` gives is enough, and the invariant holds of the result.
  pub forget-Pays :
      (s : InodeStore) (i : Inode) (c : ℕ) (r : List (Inode × ℕ))
      → P s ((i, c) ∷ r)
      → (forget_one (suc (size s)) s i c ≡ some (forget s i c)) × P (forget s i c) r
  forget-Pays s i c r p =
      let (s', e, p', k) = forget_one-Pays (suc (size s)) s i c r (omega arith) p in
      let q = forget_result s i c s' e in (e ∙ ap some (sym q), subst (λ x. P x r) (sym q) p')
