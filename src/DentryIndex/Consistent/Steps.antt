-- ===== src/DentryIndex/Consistent/Steps.antt =====
-- Each method on the two maps keeps them consistent.
use virtiofsd.Common.{
  ℕ, ◌≡◌, refl, false, ◌&&◌, Option, none, some, List, [], ◌∷◌, arith, if◌then◌else◌, ◌==◌,
  Option-cases, inl, inr, not,
}
use virtiofsd.Common.Key.{Key, nat_key, same}
use virtiofsd.BTreeMap
use virtiofsd.BTreeMap.{BTreeMap, BTreeSet}
use virtiofsd.BTreeMap.Laws.{get-insert, get-remove, is_empty-insert}
use virtiofsd.BTreeMap.Sorted.{elem, elem-keys}
use virtiofsd.DentryIndex.Consistent.{
  named_in, leads_to, IsConsistent, Inhabited, named_in-detach, named_in-attach, leads_to-insert,
  detach-Inhabited, attach-Inhabited,
}
use virtiofsd.DentryIndex.Inner.{
  Inner, empty, displace, link, unlink, move_key, rename_key, remove_all, forget,
}

abbrev or_zero : Option ℕ → ℕ
or_zero none = 0
or_zero (some n) = n

module _ {D : Type 0} ⦃o : Key D⦄ where
  pub empty-IsConsistent : IsConsistent (empty {D = D})
  unfolding empty named_in leads_to BTreeMap.get
  empty-IsConsistent = record { agree = λ c k. refl; inhabited = λ c s e. cc }

  displace-Inhabited :
      (i : Inner D) (k : D) (child : ℕ) → IsConsistent i → Inhabited (displace i k child)
  unfolding displace
  displace-Inhabited i k child h c s = ground (
    arith,
    detach-Inhabited i.reverse (or_zero (BTreeMap.get i.forward k)) k h.inhabited c s,
    h.inhabited c s,
  )

  named_in-displace :
      (i : Inner D) (k : D) (child : ℕ)
      → IsConsistent i
      → (c : ℕ) (j : D)
      → named_in (displace i k child) c j
        ≡ (if same k j && not (c == child) then false else named_in i.reverse c j)
  unfolding displace leads_to
  named_in-displace i k child h c j = ground (
    arith,
    named_in-detach i.reverse (or_zero (BTreeMap.get i.forward k)) c k j,
    h.agree c j,
    o.eq_of_cmp k j,
  )

  pub link-IsConsistent :
      (i : Inner D) (k : D) (child : ℕ) → IsConsistent i → IsConsistent (link i k child)
  unfolding link
  link-IsConsistent i k child h = record {
    agree = λ c j. ground (
      arith,
      named_in-attach (displace i k child) child c k j,
      named_in-displace i k child h c j,
      leads_to-insert i.forward k j child c,
      h.agree c j,
    );
    inhabited = attach-Inhabited (displace i k child) child k (displace-Inhabited i k child h);
  }

  pub unlink-IsConsistent : (i : Inner D) (k : D) → IsConsistent i → IsConsistent (unlink i k)
  unfolding unlink leads_to
  unlink-IsConsistent i k h = record {
    agree = λ c j. ground (
      arith,
      named_in-detach i.reverse (or_zero (BTreeMap.get i.forward k)) c k j,
      get-remove i.forward k j,
      h.agree c j,
      o.eq_of_cmp k j,
    );
    inhabited = λ c s. ground (
      arith,
      detach-Inhabited i.reverse (or_zero (BTreeMap.get i.forward k)) k h.inhabited c s,
      h.inhabited c s,
    );
  }

  pub get-unlink :
      (i : Inner D) (k j : D)
      → BTreeMap.get (unlink i k).forward j ≡ (if same k j then none else BTreeMap.get i.forward j)
  unfolding unlink
  get-unlink i k j = ground (arith, get-remove i.forward k j, o.eq_of_cmp k j)

  -- With nothing at the destination the source mapping moves there.
  move_key-agree :
      (i : Inner D) (old new : D)
      → IsConsistent i
      → BTreeMap.get i.forward new ≡ none
      → (c : ℕ) (j : D)
      → named_in (move_key i old new).reverse c j ≡ leads_to (move_key i old new).forward j c
  unfolding move_key leads_to named_in
  move_key-agree i old new h e c j = elim (Option-cases (BTreeMap.get i.forward old)) [
    | inl f ↦ ground (arith, f, h.agree c j)
    | inr (child, f) ↦ elim (Option-cases (BTreeMap.get i.reverse child)) [
      | inl g ↦ ground (arith, f, g, h.agree child old)
      | inr (set, g) ↦ ground (
        arith,
        f,
        g,
        h.agree c j,
        get-insert i.reverse child c (BTreeMap.insert (BTreeMap.remove set old) new tt),
        get-insert (BTreeMap.remove set old) new j tt,
        get-remove set old j,
        get-insert (BTreeMap.remove i.forward old) new j child,
        get-remove i.forward old j,
        o.eq_of_cmp new j,
        o.eq_of_cmp old j,
      )
    ]
  ]

  move_key-Inhabited :
      (i : Inner D) (old new : D) → Inhabited i.reverse → Inhabited (move_key i old new).reverse
  unfolding move_key
  move_key-Inhabited i old new h c s = elim (Option-cases (BTreeMap.get i.forward old)) [
    | inl f ↦ ground (arith, f, h c s)
    | inr (child, f) ↦ elim (Option-cases (BTreeMap.get i.reverse child)) [
      | inl g ↦ ground (arith, f, g, h c s)
      | inr (set, g) ↦
          let moved = BTreeMap.insert (BTreeMap.remove set old) new tt in
          ground (
            arith,
            f,
            g,
            h c s,
            get-insert i.reverse child c moved,
            is_empty-insert (BTreeMap.remove set old) new tt,
          )
    ]
  ]

  pub rename_key-IsConsistent :
      (i : Inner D) (old new : D) → IsConsistent i → IsConsistent (rename_key i old new)
  unfolding rename_key
  rename_key-IsConsistent i old new h =
      let u = unlink-IsConsistent i new h in
      record {
        agree =
            move_key-agree (unlink i new) old new u
              (ground (arith, get-unlink i new new, o.cmp_refl new));
        inhabited = move_key-Inhabited (unlink i new) old new u.inhabited;
      }

  pub get-remove_all :
      (f : BTreeMap D ℕ) (l : List D) (j : D)
      → BTreeMap.get (remove_all f l) j ≡ (if elem j l then none else BTreeMap.get f j)
  unfolding remove_all elem
  get-remove_all f [] j = refl
  get-remove_all f (k ∷ l) j =
      ground (arith, get-remove_all (BTreeMap.remove f k) l j, get-remove f k j)

  pub forget-IsConsistent :
      (i : Inner D) (inode : ℕ) → IsConsistent i → IsConsistent (forget i inode)
  unfolding forget leads_to named_in BTreeMap.contains_key
  forget-IsConsistent i inode h = record {
    agree = λ c j. elim (Option-cases (BTreeMap.get i.reverse inode)) [
      | inl e ↦ ground (arith, e, h.agree c j)
      | inr (set, e) ↦ ground (
        arith,
        e,
        h.agree c j,
        h.agree inode j,
        get-remove_all i.forward (BTreeMap.keys set) j,
        elem-keys set j,
        get-remove i.reverse inode c,
      )
    ];
    inhabited = λ c s. ground (arith, h.inhabited c s, get-remove i.reverse inode c);
  }
