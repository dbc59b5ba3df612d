-- ===== src/InodeStore/Inner/WellFormed.antt =====
-- The three maps of the store fit together: this is why the `unwrap`s of the lookups never panic.
use virtiofsd.Common.{
  ℕ, suc, ◌-◌, ◌≡◌, Bool, true, false, Option, none, some, List, [], ◌∷◌, arith, ◌==◌, Option-cases,
  Bool-cases, inl, inr,
}
use virtiofsd.Common.Key.{Key, same, nat_key, bytes_key, pair_key}
use virtiofsd.Common.Io.{done}
use virtiofsd.BTreeMap
use virtiofsd.BTreeMap.{BTreeMap}
use virtiofsd.BTreeMap.Laws.{get-insert, get-remove}
use virtiofsd.BTreeMap.Sorted.{IsSorted, insert-IsSorted, remove-IsSorted}
use virtiofsd.InodeStore.Types.{
  Inode, InodeIds, FileHandle, InodeArc, InodeStore, handle_of, new_store, InodeMigrationInfo,
  write, root_id,
}
use virtiofsd.InodeStore.Inner.{
  insert_key, remove_key, add_entry, take_out, forget_one, forget, get, forget_refs, take_info,
  take_infos, clear_migration_info, get_by_ids, get_by_handle,
}
use virtiofsd.InodeStore.Inner.Fuel.{IsPaid, set_refcount, size, forget-Pays}

module _ {K : Type 0} ⦃o : Key K⦄ (key_of : InodeArc → Option K) where
  -- What the index reads is in the data, with that key.
  abbrev pub Indexes : BTreeMap K Inode → BTreeMap Inode InodeArc → Type 0
  Indexes index m =
      (k : K) (i : Inode)
      → BTreeMap.get index k ≡ some i
      → (d : InodeArc) × (BTreeMap.get m i ≡ some d) × (key_of d ≡ some k)

  Indexes-insert :
      (index : BTreeMap K Inode) (m : BTreeMap Inode InodeArc) (d : InodeArc)
      → Indexes index m
      → BTreeMap.get m d.inode ≡ none
      → Indexes (insert_key index (key_of d) d.inode) (BTreeMap.insert m d.inode d)
  unfolding insert_key
  Indexes-insert index m d h new k i e = elim (Option-cases (key_of d)) [
    | inl f ↦
        let (x, p, q) = h k i (ground (arith, f, e)) in
        (x, ground (arith, get-insert m d.inode i d, p, new), q)
    | inr (k0, f) ↦ elim (Bool-cases (same k0 k)) [
      | inl t ↦ (
        d,
        ground (arith, get-insert m d.inode i d, get-insert index k0 k d.inode, f, t, e),
        ground (arith, f, o.eq_of_cmp k0 k, t),
      )
      | inr t ↦
          let (x, p, q) = h k i (ground (arith, f, e, get-insert index k0 k d.inode, t)) in
          (x, ground (arith, get-insert m d.inode i d, p, new), q)
    ]
  ]

  Indexes-remove :
      (index : BTreeMap K Inode) (m : BTreeMap Inode InodeArc) (i : Inode) (d : InodeArc)
      → Indexes index m
      → BTreeMap.get m i ≡ some d
      → Indexes (remove_key index (key_of d)) (BTreeMap.remove m i)
  unfolding remove_key
  Indexes-remove index m i d h old k j e =
      let e' : BTreeMap.get index k ≡ some j = elim (Option-cases (key_of d)) [
        | inl f ↦ ground (arith, f, e)
        | inr (k0, f) ↦ ground (arith, f, e, get-remove index k0 k)
      ] in
      let (x, p, q) = h k j e' in (x, kept x p q, q)
    where
      kept :
          (x : InodeArc)
          → BTreeMap.get m j ≡ some x
          → key_of x ≡ some k
          → BTreeMap.get (BTreeMap.remove m i) j ≡ some x
      kept x p q = elim (Option-cases (key_of d)) [
        | inl f ↦ ground (arith, get-remove m i j, p, q, old, f)
        | inr (k0, f) ↦
            ground (arith, get-remove m i j, p, q, old, f, e, get-remove index k0 k, o.cmp_refl k)
      ]

-- The key of every entry is its inode, and both indexes lead into the data.
pub record IsWellFormed (s : InodeStore) : Type 0 where
  pub keyed : (i : Inode) (d : InodeArc) → BTreeMap.get s.data_map i ≡ some d → d.inode ≡ i
  pub sorted : IsSorted s.data_map
  pub ids_known : Indexes (λ d. some d.ids) s.by_ids s.data_map
  pub handles_known : Indexes (λ d. handle_of d.file_or_handle) s.by_handle s.data_map

pub add_entry-IsWellFormed :
    (s : InodeStore) (d : InodeArc)
    → IsWellFormed s
    → BTreeMap.get s.data_map d.inode ≡ none
    → IsWellFormed (add_entry s d)
unfolding add_entry
add_entry-IsWellFormed s d h e = record {
  keyed = λ i x p. ground (arith, h.keyed i x, get-insert s.data_map d.inode i d, p);
  sorted = insert-IsSorted s.data_map d.inode d h.sorted;
  ids_known = Indexes-insert (λ d. some d.ids) s.by_ids s.data_map d h.ids_known e;
  handles_known =
      Indexes-insert (λ d. handle_of d.file_or_handle) s.by_handle s.data_map d h.handles_known e;
}

pub take_out-IsWellFormed :
    (s : InodeStore) (i : Inode) (d : InodeArc)
    → IsWellFormed s
    → BTreeMap.get s.data_map i ≡ some d
    → IsWellFormed (take_out s i d)
unfolding take_out
take_out-IsWellFormed s i d h e = record {
  keyed = λ j x p. ground (arith, h.keyed j x, get-remove s.data_map i j, p);
  sorted = remove-IsSorted s.data_map i h.sorted;
  ids_known = Indexes-remove (λ d. some d.ids) s.by_ids s.data_map i d h.ids_known e;
  handles_known =
      Indexes-remove (λ d. handle_of d.file_or_handle) s.by_handle s.data_map i d h.handles_known e;
}

WellFormed-IsPaid : IsPaid (λ s r. IsWellFormed s)
WellFormed-IsPaid = record {
  absent = λ s i c r e h. h;
  part = λ s i c r d e n h. record {
    keyed = h.keyed;
    sorted = h.sorted;
    ids_known = h.ids_known;
    handles_known = h.handles_known;
  };
  last = λ s i c r d e z h.
      take_out-IsWellFormed (set_refcount s d (s.refcount d.addr - c)) i d
        (record {
          keyed = h.keyed;
          sorted = h.sorted;
          ids_known = h.ids_known;
          handles_known = h.handles_known;
        })
        e;
}

-- Dropping references ends, with the fuel that is given, and keeps the maps together.
pub forget-IsWellFormed :
    (s : InodeStore) (i : Inode) (c : ℕ)
    → IsWellFormed s
    → (forget_one (suc (size s)) s i c ≡ some (forget s i c)) × IsWellFormed (forget s i c)
forget-IsWellFormed s i c h = forget-Pays (λ s r. IsWellFormed s) WellFormed-IsPaid s i c [] h

-- The lookups of a well-formed store do not panic, and find an entry of the key that was asked for.
pub get_by_ids_total :
    (s : InodeStore) (ids : InodeIds)
    → IsWellFormed s
    → (o : Option InodeArc) × (get_by_ids s ids ≡ done o)
      × ((d : InodeArc) → o ≡ some d → (d.ids ≡ ids) × (get s d.inode ≡ some d))
unfolding get_by_ids get
get_by_ids_total s ids h = elim (Option-cases (BTreeMap.get s.by_ids ids)) [
  | inl e ↦ (none, ground (arith, e), λ d p. cc)
  | inr (i, e) ↦
      let (d, p, q) = h.ids_known ids i e in
      (some d, ground (arith, e, p), λ x r. ground (arith, r, q, p, h.keyed i d))
]

pub get_by_handle_total :
    (s : InodeStore) (k : FileHandle)
    → IsWellFormed s
    → (o : Option InodeArc) × (get_by_handle s k ≡ done o)
      × ((d : InodeArc)
          → o ≡ some d
          → (handle_of d.file_or_handle ≡ some k) × (get s d.inode ≡ some d))
unfolding get_by_handle get
get_by_handle_total s k h = elim (Option-cases (BTreeMap.get s.by_handle k)) [
  | inl e ↦ (none, ground (arith, e), λ d p. cc)
  | inr (i, e) ↦
      let (d, p, q) = h.handles_known k i e in
      (some d, ground (arith, e, p), λ x r. ground (arith, r, q, p, h.keyed i d))
]

pub new_store-IsWellFormed : IsWellFormed new_store
unfolding new_store BTreeMap.get
new_store-IsWellFormed = record {
  keyed = λ i d e. cc;
  sorted = tt;
  ids_known = λ k i e. cc;
  handles_known = λ k i e. cc;
}

-- Only the three maps matter.
pub IsWellFormed-cells :
    (s : InodeStore) (refcount : ℕ → ℕ) (migration_info : ℕ → Option InodeMigrationInfo) (next : ℕ)
    → IsWellFormed s
    → IsWellFormed (record s { refcount = refcount; migration_info = migration_info; next = next })
IsWellFormed-cells s r m n h = record {
  keyed = h.keyed;
  sorted = h.sorted;
  ids_known = h.ids_known;
  handles_known = h.handles_known;
}

pub forget_refs-IsWellFormed :
    (s : InodeStore) (l : List InodeArc) → IsWellFormed s → IsWellFormed (forget_refs s l)
unfolding forget_refs
forget_refs-IsWellFormed s [] h = h
forget_refs-IsWellFormed s (d ∷ l) h =
    forget_refs-IsWellFormed (forget s d.inode 1) l (forget-IsWellFormed s d.inode 1 h).1

take_info-IsWellFormed :
    (skip : Bool) (d : InodeArc) (s : InodeStore) (refs : List InodeArc)
    → IsWellFormed s
    → IsWellFormed (take_info skip d s refs).0
unfolding take_info
take_info-IsWellFormed true d s refs h = h
take_info-IsWellFormed false d s refs h =
    IsWellFormed-cells s s.refcount (write s.migration_info d.addr none) s.next h

take_infos-IsWellFormed :
    (m : BTreeMap Inode InodeArc) (s : InodeStore) (refs : List InodeArc)
    → IsWellFormed s
    → IsWellFormed (take_infos m s refs).0
unfolding take_infos
take_infos-IsWellFormed [] s refs h = h
take_infos-IsWellFormed ((_, d) ∷ m) s refs h =
    let (s', refs') = take_info (d.inode == root_id) d s refs in
    take_infos-IsWellFormed m s' refs' (take_info-IsWellFormed (d.inode == root_id) d s refs h)

pub clear_migration_info-IsWellFormed :
    (s : InodeStore) → IsWellFormed s → IsWellFormed (clear_migration_info s)
unfolding clear_migration_info
clear_migration_info-IsWellFormed s h =
    forget_refs-IsWellFormed _ _ (take_infos-IsWellFormed s.data_map s [] h)
