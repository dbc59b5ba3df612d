-- ===== src/Common/Key.antt =====
-- What the source asks of the keys of its `BTreeMap`s and `BTreeSet`s: the trait `Ord`, with the
-- laws that the trait documents. Numbers, pairs (a derived `Ord` compares fields in order) and byte
-- strings are keys.
use Prim.Native.Nat.{ℕ, compare, Ordering}
use Prim.Native.Nat.Ordering.{lt, eq, gt}
use mathlib.Core.Path.{◌≡◌, refl}
use mathlib.Core.Logic.{◌↔◌}
use mathlib.Core.Bool.{Bool, true, false}
use mathlib.Core.List.{List, [], ◌∷◌}
use native.Mathlib.Omega.{arith}

abbrev pub opposite : Ordering → Ordering
opposite lt = gt
opposite eq = eq
opposite gt = lt

pub record Key {ℓ} (K : Type ℓ) : Type ℓ where
  pub cmp : K → K → Ordering
  pub cmp_refl : (a : K) → cmp a a ≡ eq
  pub cmp_opposite : (a b : K) → cmp b a ≡ opposite (cmp a b)
  pub eq_of_cmp : (a b : K) → cmp a b ≡ eq → a ≡ b
  pub lt_trans : (a b c : K) → cmp a b ≡ lt → cmp b c ≡ lt → cmp a c ≡ lt

abbrev pub is_eq : Ordering → Bool
is_eq eq = true
is_eq _ = false

-- `==` of a type with an order.
abbrev pub same {ℓ} : {K : Type ℓ} ⦃o : Key K⦄ → K → K → Bool
same ⦃o⦄ a b = is_eq (o.cmp a b)

pub same_iff {ℓ} : {K : Type ℓ} ⦃o : Key K⦄ (a b : K) → (same a b ≡ true) ↔ (a ≡ b)
same_iff ⦃o⦄ a b = ground (arith, o.eq_of_cmp a b, o.cmp_refl a)

module _ (a b c : ℕ) where
  pub compare_refl : compare a a ≡ eq
  compare_refl = ground arith

  pub compare-opposite : compare b a ≡ opposite (compare a b)
  compare-opposite = ground arith

  pub eq_of_compare : compare a b ≡ eq → a ≡ b
  eq_of_compare h = ground arith

  pub compare_trans : compare a b ≡ lt → compare b c ≡ lt → compare a c ≡ lt
  compare_trans p q = ground arith

instance abbrev pub nat_key : Key ℕ
nat_key = record {
  cmp = compare;
  cmp_refl = λ a. compare_refl a a a;
  cmp_opposite = λ a b. compare-opposite a b a;
  eq_of_cmp = λ a b. eq_of_compare a b a;
  lt_trans = compare_trans;
}

abbrev pub and_then : Ordering → Ordering → Ordering
and_then eq second = second
and_then lt _ = lt
and_then gt _ = gt

module _ {ℓ κ} {A : Type ℓ} {B : Type κ} ⦃k : Key A⦄ ⦃l : Key B⦄ where
  abbrev pub cmp_pair : A × B → A × B → Ordering
  cmp_pair x y = and_then (k.cmp x.0 y.0) (l.cmp x.1 y.1)

  pub cmp_pair_refl : (x : A × B) → cmp_pair x x ≡ eq
  cmp_pair_refl x = ground (arith, k.cmp_refl x.0, l.cmp_refl x.1)

  pub cmp_pair-opposite : (x y : A × B) → cmp_pair y x ≡ opposite (cmp_pair x y)
  cmp_pair-opposite x y = ground (arith, k.cmp_opposite x.0 y.0, l.cmp_opposite x.1 y.1)

  pub eq_of_cmp_pair : (x y : A × B) → cmp_pair x y ≡ eq → x ≡ y
  eq_of_cmp_pair x y = ground (arith, k.eq_of_cmp x.0 y.0, l.eq_of_cmp x.1 y.1)

  pub cmp_pair_trans : (x y z : A × B) → cmp_pair x y ≡ lt → cmp_pair y z ≡ lt → cmp_pair x z ≡ lt
  cmp_pair_trans x y z p q = ground (
    arith,
    k.eq_of_cmp x.0 y.0,
    k.eq_of_cmp y.0 z.0,
    k.cmp_refl x.0,
    k.lt_trans x.0 y.0 z.0,
    l.lt_trans x.1 y.1 z.1,
  )

  instance abbrev pub pair_key : Key (A × B)
  pair_key = record {
    cmp = cmp_pair;
    cmp_refl = cmp_pair_refl;
    cmp_opposite = cmp_pair-opposite;
    eq_of_cmp = eq_of_cmp_pair;
    lt_trans = cmp_pair_trans;
  }

-- `Vec<u8>` compares lexicographically.
unfoldable pub cmp_bytes : List ℕ → List ℕ → Ordering
cmp_bytes [] [] = eq
cmp_bytes [] (y ∷ ys) = lt
cmp_bytes (x ∷ xs) [] = gt
cmp_bytes (x ∷ xs) (y ∷ ys) = and_then (compare x y) (cmp_bytes xs ys)

pub cmp_bytes_refl : (x : List ℕ) → cmp_bytes x x ≡ eq
unfolding cmp_bytes
cmp_bytes_refl [] = refl
cmp_bytes_refl (x ∷ xs) = ground (arith, cmp_bytes_refl xs)

pub cmp_bytes-opposite : (x y : List ℕ) → cmp_bytes y x ≡ opposite (cmp_bytes x y)
unfolding cmp_bytes
cmp_bytes-opposite [] [] = refl
cmp_bytes-opposite [] (y ∷ ys) = refl
cmp_bytes-opposite (x ∷ xs) [] = refl
cmp_bytes-opposite (x ∷ xs) (y ∷ ys) = ground (arith, cmp_bytes-opposite xs ys)

pub eq_of_cmp_bytes : (x y : List ℕ) → cmp_bytes x y ≡ eq → x ≡ y
unfolding cmp_bytes
eq_of_cmp_bytes [] [] h = refl
eq_of_cmp_bytes [] (y ∷ ys) h = cc
eq_of_cmp_bytes (x ∷ xs) [] h = cc
eq_of_cmp_bytes (x ∷ xs) (y ∷ ys) h = ground (arith, eq_of_cmp_bytes xs ys)

pub cmp_bytes_trans :
    (x y z : List ℕ) → cmp_bytes x y ≡ lt → cmp_bytes y z ≡ lt → cmp_bytes x z ≡ lt
unfolding cmp_bytes
cmp_bytes_trans [] [] z p q = cc
cmp_bytes_trans [] (y ∷ ys) [] p q = cc
cmp_bytes_trans [] (y ∷ ys) (z ∷ zs) p q = refl
cmp_bytes_trans (x ∷ xs) [] z p q = cc
cmp_bytes_trans (x ∷ xs) (y ∷ ys) [] p q = cc
cmp_bytes_trans (x ∷ xs) (y ∷ ys) (z ∷ zs) p q = ground (arith, cmp_bytes_trans xs ys zs)

instance abbrev pub bytes_key : Key (List ℕ)
bytes_key = record {
  cmp = cmp_bytes;
  cmp_refl = cmp_bytes_refl;
  cmp_opposite = cmp_bytes-opposite;
  eq_of_cmp = eq_of_cmp_bytes;
  lt_trans = cmp_bytes_trans;
}
