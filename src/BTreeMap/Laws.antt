-- ===== src/BTreeMap/Laws.antt =====
-- What a key reads after each operation. None of these laws needs the order of the entries.
use virtiofsd.Common.{
  length, ◌≤◌, ◌<◌, false, ◌≡◌, refl, true, none, some, [], ◌∷◌, arith, if◌then◌else◌,
}
use virtiofsd.Common.Key.{Key, same}
use virtiofsd.BTreeMap.{BTreeMap, get, insert, remove, is_empty}

module _ {ℓ κ} {K : Type ℓ} {V : Type κ} ⦃o : Key K⦄ where
  pub get-insert :
      (m : BTreeMap K V) (k j : K) (v : V)
      → get (insert m k v) j ≡ (if same k j then some v else get m j)
  unfolding get insert
  get-insert [] k j v = refl
  get-insert ((i, w) ∷ m) k j v =
      ground
        (arith, get-insert m k j v, o.eq_of_cmp k i, o.eq_of_cmp i j, o.eq_of_cmp k j, o.cmp_refl k)

  pub get-remove :
      (m : BTreeMap K V) (k j : K) → get (remove m k) j ≡ (if same k j then none else get m j)
  unfolding get remove
  get-remove [] k j = ground arith
  get-remove ((i, w) ∷ m) k j = ground (
    arith,
    get-remove m k j,
    o.eq_of_cmp i k,
    o.eq_of_cmp i j,
    o.eq_of_cmp k j,
    o.cmp_refl k,
    o.cmp_refl i,
  )

  -- An empty map reads nothing, and a map that reads something is not empty.
  pub get-is_empty : (m : BTreeMap K V) (k : K) → is_empty m ≡ true → get m k ≡ none
  unfolding get is_empty
  get-is_empty [] k h = refl
  get-is_empty (e ∷ m) k h = cc

pub ruleset map_laws = (get-insert, get-remove)

module _ {ℓ κ} {K : Type ℓ} {V : Type κ} ⦃o : Key K⦄ where
  pub is_empty-insert : (m : BTreeMap K V) (k : K) (v : V) → is_empty (insert m k v) ≡ false
  unfolding insert is_empty
  is_empty-insert [] k v = refl
  is_empty-insert ((i, w) ∷ m) k v = ground arith

  pub length-remove-le : (m : BTreeMap K V) (k : K) → length (remove m k) ≤ length m
  unfolding remove
  length-remove-le [] k = omega arith
  length-remove-le ((i, w) ∷ m) k = ground (arith, length-remove-le m k)

  -- What is there is taken away.
  pub length-remove-lt :
      (m : BTreeMap K V) (k : K) (v : V) → get m k ≡ some v → length (remove m k) < length m
  unfolding remove get
  length-remove-lt [] k v h = cc
  length-remove-lt ((i, w) ∷ m) k v h = ground (arith, length-remove-le m k, length-remove-lt m k v)
