-- ===== src/InodeStore/Later.antt =====
-- What no operation of the store undoes: an address stays in use, and a refcount of zero stays zero.
use virtiofsd.Common.{
  ℕ, ◌-◌, ◌<◌, ◌≤◌, ◌≡◌, ◌≢◌, sym, ◌∙◌, Bool, true, false, some, List, [], ◌∷◌, ◌==◌, arith,
  Bool-cases, inl, inr,
}
use virtiofsd.Common.Key.{nat_key, bytes_key, pair_key}
use virtiofsd.BTreeMap
use virtiofsd.BTreeMap.{BTreeMap}
use virtiofsd.BTreeMap.Laws.{get-remove}
use virtiofsd.InodeStore.Types.{Inode, InodeArc, InodeData, InodeStore, root_id}
use virtiofsd.InodeStore.Inner.{
  take_out, references, forget, forget_refs, take_info, take_infos, clear_migration_info, clear,
  get,
}
use virtiofsd.InodeStore.Inner.Fuel.{IsPaid, set_refcount, forget-Pays}
use virtiofsd.InodeStore.Store.{drop_data, forget_many}
use virtiofsd.InodeStore.Store.Entered.{IsEntered}

-- The data of every entry stands at an address that was given out.
abbrev pub Allocated : InodeStore → Type 0
Allocated s = (i : Inode) (d : InodeArc) → BTreeMap.get s.data_map i ≡ some d → d.addr < s.next

pub record IsLater (s s' : InodeStore) : Type 0 where
  pub next : s.next ≤ s'.next
  pub dead : (a : ℕ) → a < s.next → s.refcount a ≡ 0 → s'.refcount a ≡ 0
  pub allocated : Allocated s → Allocated s'

pub IsLater-refl : (s : InodeStore) → IsLater s s
IsLater-refl s = record { next = omega arith; dead = λ a l z. z; allocated = λ h. h }

pub IsLater-trans : (s t u : InodeStore) → IsLater s t → IsLater t u → IsLater s u
IsLater-trans s t u f g =
    let p = f.next in
    let q = g.next in
    record {
      next = omega arith;
      dead = λ a l z. g.dead a (omega arith) (f.dead a l z);
      allocated = λ h. g.allocated (f.allocated h);
    }

IsLater-lowered :
    (s : InodeStore) (d : InodeArc) (c : ℕ) → IsLater s (set_refcount s d (s.refcount d.addr - c))
IsLater-lowered s d c = record {
  next = omega arith;
  dead = λ a l z. ground arith;
  allocated = λ h. h;
}

pub IsLater-raised :
    (s : InodeStore) (d : InodeArc) (n : ℕ) → s.refcount d.addr ≢ 0 → IsLater s (set_refcount s d n)
IsLater-raised s d n h = record {
  next = omega arith;
  dead = λ a l z. ground arith;
  allocated = λ h. h;
}

IsLater-take_out : (s : InodeStore) (i : Inode) (d : InodeArc) → IsLater s (take_out s i d)
unfolding take_out
IsLater-take_out s i d = record {
  next = omega arith;
  dead = λ a l z. z;
  allocated = λ h j x e. h j x (ground (arith, get-remove s.data_map i j, e));
}

IsLater-IsPaid : (s0 : InodeStore) → IsPaid (λ s r. IsLater s0 s)
IsLater-IsPaid s0 = record {
  absent = λ s i c r e h. h;
  part = λ s i c r d e n h. IsLater-trans s0 s _ h (IsLater-lowered s d c);
  last = λ s i c r d e z h.
      let s' = set_refcount s d (s.refcount d.addr - c) in
      IsLater-trans s0 s' _ (IsLater-trans s0 s s' h (IsLater-lowered s d c))
        (IsLater-take_out s' i d);
}

pub IsLater-forget : (s : InodeStore) (i : Inode) (c : ℕ) → IsLater s (forget s i c)
IsLater-forget s i c =
    (forget-Pays (λ t r. IsLater s t) (IsLater-IsPaid s) s i c [] (IsLater-refl s)).1

pub IsLater-forget_many : (s : InodeStore) (l : List (Inode × ℕ)) → IsLater s (forget_many s l)
unfolding forget_many
IsLater-forget_many s [] = IsLater-refl s
IsLater-forget_many s ((i, c) ∷ l) =
    IsLater-trans s (forget s i c) _ (IsLater-forget s i c) (IsLater-forget_many (forget s i c) l)

IsLater-forget_refs : (s : InodeStore) (l : List InodeArc) → IsLater s (forget_refs s l)
unfolding forget_refs
IsLater-forget_refs s [] = IsLater-refl s
IsLater-forget_refs s (d ∷ l) =
    IsLater-trans s (forget s d.inode 1) _ (IsLater-forget s d.inode 1)
      (IsLater-forget_refs (forget s d.inode 1) l)

pub IsLater-drop_data : (s : InodeStore) (x : InodeData) → IsLater s (drop_data s x)
unfolding drop_data
IsLater-drop_data s x = IsLater-forget_refs s (references x.migration_info)

IsLater-take_info :
    (b : Bool) (d : InodeArc) (s : InodeStore) (refs : List InodeArc)
    → IsLater s (take_info b d s refs).0
unfolding take_info
IsLater-take_info true d s refs = IsLater-refl s
IsLater-take_info false d s refs = record {
  next = omega arith;
  dead = λ a l z. z;
  allocated = λ h. h;
}

IsLater-take_infos :
    (m : BTreeMap Inode InodeArc) (s : InodeStore) (refs : List InodeArc)
    → IsLater s (take_infos m s refs).0
unfolding take_infos
IsLater-take_infos [] s refs = IsLater-refl s
IsLater-take_infos ((i, d) ∷ m) s refs =
    let (s', refs') = take_info (d.inode == root_id) d s refs in
    IsLater-trans s (take_info (d.inode == root_id) d s refs).0 _
      (IsLater-take_info (d.inode == root_id) d s refs)
      (IsLater-take_infos m (take_info (d.inode == root_id) d s refs).0
        (take_info (d.inode == root_id) d s refs).1)

pub IsLater-clear_migration_info : (s : InodeStore) → IsLater s (clear_migration_info s)
unfolding clear_migration_info
IsLater-clear_migration_info s =
    IsLater-trans s (take_infos s.data_map s []).0 _ (IsLater-take_infos s.data_map s [])
      (IsLater-forget_refs (take_infos s.data_map s []).0 (take_infos s.data_map s []).1)

pub IsLater-clear : (s : InodeStore) → IsLater s (clear s)
unfolding clear BTreeMap.get
IsLater-clear s =
    let e = IsLater-clear_migration_info s in
    record { next = e.next; dead = e.dead; allocated = λ h i d p. cc }

pub IsEntered-IsLater :
    (s s' : InodeStore) (x : InodeData) (n : ℕ) (d : InodeArc) → IsEntered s x n d s' → IsLater s s'
unfolding get
IsEntered-IsLater s s' x n d e = record {
  next = let p = e.next in omega arith;
  dead = λ a l z. let (p, q) = e.other_cells a (ground arith) in ground (arith, p, z);
  allocated = λ h i y p.
      let more = e.next in
      elim (Bool-cases (x.inode == i)) [
        | inl t ↦
            let same : x.inode ≡ i = ground (arith, t) in
            ground (arith, e.addr, more, e.under_inode, p, same)
        | inr t ↦
            let other : x.inode ≢ i = ground (arith, t) in
            let l = h i y (sym (e.other_inodes i other) ∙ p) in omega arith
      ];
}
