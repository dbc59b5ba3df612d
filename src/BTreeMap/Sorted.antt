-- ===== src/BTreeMap/Sorted.antt =====
-- The order of the entries: it is what `keys`, and `range(low..).next()`, show of a map.
use virtiofsd.Common.{
  ◌≡◌, ◌≢◌, refl, Bool, true, false, ◌||◌, none, some, List, [], ◌∷◌, arith, All,
}
use virtiofsd.Common.Key.{Key, same}
use virtiofsd.BTreeMap.{BTreeMap, get, contains_key, insert, remove, keys, first_from, is_empty}
use Prim.Native.Nat.Ordering.{lt}

-- `contains` of a list.
unfoldable pub elem {ℓ} : {K : Type ℓ} ⦃o : Key K⦄ → K → List K → Bool
elem k [] = false
elem k (j ∷ l) = same j k || elem k l

module _ {ℓ κ} {K : Type ℓ} {V : Type κ} ⦃o : Key K⦄ where
  -- Every key of the map is above `k`.
  abbrev pub Above : K → BTreeMap K V → Type 0
  Above k = All (λ e. o.cmp k e.0 ≡ lt)

  abbrev pub IsSorted : BTreeMap K V → Type 0
  IsSorted [] = Unit
  IsSorted ((k, v) ∷ m) = Above k m × IsSorted m

  pub Above-trans : (m : BTreeMap K V) (k j : K) → o.cmp k j ≡ lt → Above j m → Above k m
  Above-trans [] k j p a = tt
  Above-trans ((i, v) ∷ m) k j p a = (o.lt_trans k j i p a.0, Above-trans m k j p a.1)

  Above-insert :
      (m : BTreeMap K V) (k j : K) (v : V) → o.cmp k j ≡ lt → Above k m → Above k (insert m j v)
  unfolding insert
  Above-insert [] k j v p a = (p, tt)
  Above-insert ((i, w) ∷ m) k j v p a = ground (arith, Above-insert m k j v p)

  pub insert-IsSorted : (m : BTreeMap K V) (k : K) (v : V) → IsSorted m → IsSorted (insert m k v)
  unfolding insert
  insert-IsSorted [] k v s = (tt, tt)
  insert-IsSorted ((i, w) ∷ m) k v s = ground (
    arith,
    insert-IsSorted m k v,
    Above-insert m i k v,
    Above-trans m k i,
    o.eq_of_cmp k i,
    o.cmp_opposite k i,
  )

  Above-remove : (m : BTreeMap K V) (k j : K) → Above k m → Above k (remove m j)
  unfolding remove
  Above-remove [] k j a = tt
  Above-remove ((i, w) ∷ m) k j a = ground (arith, Above-remove m k j)

  pub remove-IsSorted : (m : BTreeMap K V) (k : K) → IsSorted m → IsSorted (remove m k)
  unfolding remove
  remove-IsSorted [] k s = tt
  remove-IsSorted ((i, w) ∷ m) k s = ground (arith, remove-IsSorted m k, Above-remove m i k)

  -- `keys` lists exactly the keys that read a value.
  pub elem-keys : (m : BTreeMap K V) (k : K) → elem k (keys m) ≡ contains_key m k
  unfolding elem keys contains_key get
  elem-keys [] k = refl
  elem-keys ((j, v) ∷ m) k = ground (arith, elem-keys m k)

  pub Above-contains_key :
      (m : BTreeMap K V) (k j : K) → Above k m → contains_key m j ≡ true → o.cmp k j ≡ lt
  unfolding contains_key get
  Above-contains_key [] k j a h = cc
  Above-contains_key ((i, w) ∷ m) k j a h =
      ground (arith, Above-contains_key m k j a.1, o.eq_of_cmp i j)

  first_from-get :
      (m : BTreeMap K V) (low k : K) (v : V)
      → IsSorted m
      → first_from m low ≡ some (k, v)
      → (get m k ≡ some v) × (o.cmp k low ≢ lt)
  unfolding first_from get
  first_from-get [] low k v s h = cc
  first_from-get ((i, w) ∷ m) low k v s h =
      ground (arith, first_from-get m low k v s.1, o.eq_of_cmp i k, o.cmp_refl k)

  first_from-minimal :
      (m : BTreeMap K V) (low k j : K) (v : V)
      → IsSorted m
      → first_from m low ≡ some (k, v)
      → contains_key m j ≡ true
      → o.cmp j low ≢ lt
      → o.cmp j k ≢ lt
  unfolding first_from contains_key get
  first_from-minimal [] low k j v s h c n = cc
  first_from-minimal ((i, w) ∷ m) low k j v s h c n = ground (
    arith,
    first_from-minimal m low k j v s.1,
    o.eq_of_cmp i j,
    o.cmp_refl i,
    o.cmp_opposite i j,
    Above-contains_key m i j s.0,
  )

  -- The entry that `first_from` finds is in the map, is not below `low`, and no key in between is.
  pub first_from-least :
      (m : BTreeMap K V) (low k : K) (v : V)
      → IsSorted m
      → first_from m low ≡ some (k, v)
      → (get m k ≡ some v)
        × (o.cmp k low ≢ lt)
        × ((j : K) → contains_key m j ≡ true → o.cmp j low ≢ lt → o.cmp j k ≢ lt)
  first_from-least m low k v s h =
      let (found, above) = first_from-get m low k v s h in
      (found, above, λ j. first_from-minimal m low k j v s h)

  -- It finds none only where every key is below `low`.
  pub first_from-none :
      (m : BTreeMap K V) (low j : K)
      → first_from m low ≡ none
      → contains_key m j ≡ true
      → o.cmp j low ≡ lt
  unfolding first_from contains_key get
  first_from-none [] low j h c = cc
  first_from-none ((i, w) ∷ m) low j h c = ground (arith, first_from-none m low j, o.eq_of_cmp i j)

  pub member : (m : BTreeMap K V) → is_empty m ≡ false → (k : K) × (contains_key m k ≡ true)
  unfolding is_empty contains_key get
  member [] e = cc
  member ((j, v) ∷ m) e = (j, ground (arith, o.cmp_refl j))
