-- ===== src/BTreeMap.antt =====
-- The standard library's `BTreeMap` and `BTreeSet`, as far as the source uses them: a list of
-- entries in ascending order of their keys. `entry(k).or_default()`, `get_mut` and iteration are
-- written with these operations where the source has them.
pub mod Laws
pub mod Sorted
use virtiofsd.Common.{
  Bool, true, false, Option, none, some, List, [], ◌∷◌, map, is_some, if◌then◌else◌,
}
use virtiofsd.Common.Key.{Key, same}
use Prim.Native.Nat.Ordering.{lt, eq, gt}

abbrev pub BTreeMap {ℓ κ} : Type ℓ → Type κ → Type (ℓ ⊔ κ)
BTreeMap K V = List (K × V)

abbrev pub BTreeSet {ℓ} : Type ℓ → Type ℓ
BTreeSet K = BTreeMap K (Unit {0})

module _ {ℓ κ} {K : Type ℓ} {V : Type κ} ⦃o : Key K⦄ where
  unfoldable pub get : BTreeMap K V → K → Option V
  get [] k = none
  get ((j, w) ∷ m) k = if same j k then some w else get m k

  unfoldable pub contains_key : BTreeMap K V → K → Bool
  contains_key m k = is_some (get m k)

  -- In the place that the order asks for; an entry of an equal key is replaced.
  unfoldable pub insert : BTreeMap K V → K → V → BTreeMap K V
  insert [] k v = (k, v) ∷ []
  insert ((j, w) ∷ m) k v = elim (o.cmp k j) [
    | lt ↦ (k, v) ∷ (j, w) ∷ m
    | eq ↦ (k, v) ∷ m
    | gt ↦ (j, w) ∷ insert m k v
  ]

  unfoldable pub remove : BTreeMap K V → K → BTreeMap K V
  remove [] k = []
  remove ((j, w) ∷ m) k = let rest = remove m k in if same j k then rest else (j, w) ∷ rest

  -- `range(low..).next()`: the first entry whose key is not below `low`.
  unfoldable pub first_from : BTreeMap K V → K → Option (K × V)
  first_from [] low = none
  first_from ((j, w) ∷ m) low = elim (o.cmp j low) [ lt ↦ first_from m low | _ ↦ some (j, w) ]

module _ {ℓ κ} {K : Type ℓ} {V : Type κ} where
  unfoldable pub is_empty : BTreeMap K V → Bool
  is_empty [] = true
  is_empty (_ ∷ _) = false

  unfoldable pub keys : BTreeMap K V → List K
  keys m = map (λ e. e.0) m
