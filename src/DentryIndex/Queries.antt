-- ===== src/DentryIndex/Queries.antt =====
-- What `names_for` and `all_inodes` list of a consistent index.
use virtiofsd.Common.{sym, ap, ◌∙◌, is_some, ◌≡◌, ◌↔◌, true, some, arith, Option-cases, inl, inr}
use virtiofsd.Common.Key.{nat_key, pair_key, bytes_key}
use virtiofsd.BTreeMap
use virtiofsd.BTreeMap.{BTreeSet}
use virtiofsd.BTreeMap.Sorted.{elem, elem-keys, member}
use virtiofsd.DentryIndex.{Inode, Dentry, DentryIndex, names_for, all_inodes}
use virtiofsd.DentryIndex.History.{view}
use virtiofsd.DentryIndex.Consistent.{named_in, leads_to, IsConsistent}

module _ (i : DentryIndex) (h : IsConsistent i) (inode : Inode) where
  leads_to-view : (j : Dentry) → (leads_to i.forward j inode ≡ true) ↔ (view i j ≡ some inode)
  unfolding leads_to
  leads_to-view j = (λ e. ground arith, λ e. ground arith)

  elem-names_for : (j : Dentry) → elem j (names_for i inode) ≡ leads_to i.forward j inode
  unfolding names_for named_in BTreeMap.contains_key
  elem-names_for j = elim (Option-cases (BTreeMap.get i.reverse inode)) [
    | inl e ↦ unfold elem in ground (arith, e, h.agree inode j)
    | inr (set, e) ↦ ground (arith, e, h.agree inode j, elem-keys set j)
  ]

  -- In a consistent index `names_for` lists exactly the dentries that lead to the inode.
  pub names_for_exact : (j : Dentry) → (elem j (names_for i inode) ≡ true) ↔ (view i j ≡ some inode)
  names_for_exact j = rw elem-names_for (leads_to-view j)

  names_leads_to : (j : Dentry) → named_in i.reverse inode j ≡ true → view i j ≡ some inode
  names_leads_to j e = (leads_to-view j).0 (sym (h.agree inode j) ∙ e)

  -- In a consistent index `all_inodes` lists exactly the inodes that some dentry leads to.
  pub all_inodes_exact :
      (elem inode (all_inodes i) ≡ true) ↔ ((j : Dentry) × (view i j ≡ some inode))
  unfolding all_inodes BTreeMap.contains_key named_in
  all_inodes_exact = elim (Option-cases (BTreeMap.get i.reverse inode)) [
    | inl e ↦ (
      λ p. cc (elem-keys i.reverse inode, ap is_some e),
      λ (j, p). ground (arith, e, h.agree inode j, (leads_to-view j).1 p),
    )
    | inr (set, e) ↦ (
      λ p.
          let (j, c) = member set (h.inhabited inode set e) in
          (j, names_leads_to j (ground (arith, e, c))),
      λ p. elem-keys i.reverse inode ∙ ap is_some e,
    )
  ]
