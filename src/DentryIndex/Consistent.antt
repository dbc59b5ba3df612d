-- ===== src/DentryIndex/Consistent.antt =====
-- The two maps of the index describe one relation, and every method keeps it so.
pub mod Steps
use virtiofsd.Common.{
  ℕ, ◌≡◌, ◌≢◌, refl, Bool, true, false, ◌&&◌, Option, none, some, List, [], ◌∷◌, arith, is_some,
  if◌then◌else◌, ◌==◌, Option-cases, inl, inr, ltb, not,
}
use virtiofsd.Common.Key.{Key, nat_key, same}
use virtiofsd.BTreeMap
use virtiofsd.BTreeMap.{BTreeMap, BTreeSet}
use virtiofsd.BTreeMap.Laws.{get-insert, get-remove, get-is_empty, map_laws, is_empty-insert}
use virtiofsd.BTreeMap.Sorted.{elem, elem-keys}
use virtiofsd.DentryIndex.Inner.{
  Inner, empty, detach, attach, displace, link, unlink, move_key, rename_key, remove_all, forget,
}

module _ {D : Type 0} ⦃o : Key D⦄ where
  -- `key` stands in the set of `child`.
  unfoldable pub named_in : BTreeMap ℕ (BTreeSet D) → ℕ → D → Bool
  named_in reverse child key = elim (BTreeMap.get reverse child) [
    | none ↦ false
    | some set ↦ is_some (BTreeMap.get set key)
  ]

  -- `key` leads to `child`.
  unfoldable pub leads_to : BTreeMap D ℕ → D → ℕ → Bool
  leads_to forward key child = elim (BTreeMap.get forward key) [
    | none ↦ false
    | some c ↦ c == child
  ]

  -- The reverse map holds the pairs of the forward map, and no empty set.
  pub record IsConsistent (i : Inner D) : Type 0 where
    pub agree : (child : ℕ) (key : D) → named_in i.reverse child key ≡ leads_to i.forward key child
    pub inhabited :
        (child : ℕ) (set : BTreeSet D)
        → BTreeMap.get i.reverse child ≡ some set
        → BTreeMap.is_empty set ≡ false

  pub named_in-detach :
      (r : BTreeMap ℕ (BTreeSet D)) (p c : ℕ) (k j : D)
      → named_in (detach r p k) c j ≡ (if (p == c) && same k j then false else named_in r c j)
  unfolding named_in detach
  named_in-detach r p c k j = elim (Option-cases (BTreeMap.get r p)) [
    | inl e ↦ ground (arith, e)
    | inr (set, e) ↦ ground (
      arith,
      e,
      get-remove r p c,
      get-insert r p c (BTreeMap.remove set k),
      get-remove set k j,
      get-is_empty (BTreeMap.remove set k) j,
    )
  ]

  pub named_in-attach :
      (r : BTreeMap ℕ (BTreeSet D)) (p c : ℕ) (k j : D)
      → named_in (attach r p k) c j ≡ (if (p == c) && same k j then true else named_in r c j)
  unfolding named_in attach BTreeMap.get
  named_in-attach r p c k j = elim (Option-cases (BTreeMap.get r p)) [
    | inl e ↦
        ground (
          arith,
          e,
          get-insert r p c (BTreeMap.insert [] k tt),
          get-insert {V = Unit {0}} [] k j tt,
        )
    | inr (set, e) ↦
        ground (arith, e, get-insert r p c (BTreeMap.insert set k tt), get-insert set k j tt)
  ]

  pub leads_to-insert :
      (f : BTreeMap D ℕ) (k j : D) (v c : ℕ)
      → leads_to (BTreeMap.insert f k v) j c ≡ (if same k j then v == c else leads_to f j c)
  unfolding leads_to
  leads_to-insert f k j v c = ground (arith, get-insert f k j v)

  pub leads_to-remove :
      (f : BTreeMap D ℕ) (k j : D) (c : ℕ)
      → leads_to (BTreeMap.remove f k) j c ≡ (if same k j then false else leads_to f j c)
  unfolding leads_to
  leads_to-remove f k j c = ground (arith, get-remove f k j)

  -- No set of the reverse map is empty.
  abbrev pub Inhabited : BTreeMap ℕ (BTreeSet D) → Type 0
  Inhabited r =
      (child : ℕ) (set : BTreeSet D)
      → BTreeMap.get r child ≡ some set
      → BTreeMap.is_empty set ≡ false

  pub detach-Inhabited :
      (r : BTreeMap ℕ (BTreeSet D)) (p : ℕ) (k : D) → Inhabited r → Inhabited (detach r p k)
  unfolding detach
  detach-Inhabited r p k h c s = elim (Option-cases (BTreeMap.get r p)) [
    | inl e ↦ ground (arith, e, h c s)
    | inr (set, e) ↦
        ground (arith, e, get-remove r p c, get-insert r p c (BTreeMap.remove set k), h c s)
  ]

  pub attach-Inhabited :
      (r : BTreeMap ℕ (BTreeSet D)) (p : ℕ) (k : D) → Inhabited r → Inhabited (attach r p k)
  unfolding attach
  attach-Inhabited r p k h c s = elim (Option-cases (BTreeMap.get r p)) [
    | inl e ↦ ground (
      arith,
      e,
      get-insert r p c (BTreeMap.insert [] k tt),
      is_empty-insert {V = Unit {0}} [] k tt,
      h c s,
    )
    | inr (set, e) ↦
        ground
          (arith, e, get-insert r p c (BTreeMap.insert set k tt), is_empty-insert set k tt, h c s)
  ]
