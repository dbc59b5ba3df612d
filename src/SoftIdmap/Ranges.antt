-- ===== src/SoftIdmap/Ranges.antt =====
-- The `RangeMap` of the crate btree_range_map, which is not part of the repository: its type and
-- operations are a parameter, with what its documentation says of them.
use virtiofsd.Common.{
  ℕ, ◌≡◌, Bool, true, false, ◌&&◌, ◌||◌, Option, none, some, List, [], ◌∷◌, if◌then◌else◌, leb, ltb,
  arith, refl,
}

-- `std::ops::Range`: `end` excluded.
pub record Range : Type 0 where
  pub start : ℕ
  pub end : ℕ

abbrev pub contains : Range → ℕ → Bool
contains r id = leb r.start id && ltb id r.end

pub record RangeMap (V : Type 0) : Type 1 where
  pub Map : Type 0
  pub new : Map
  pub get : Map → ℕ → Option V
  pub intersects : Map → Range → Bool
  pub insert : Map → Range → V → Map
  pub intersects-new : (r : Range) → intersects new r ≡ false
  pub get-new : (id : ℕ) → get new id ≡ none
  -- A map that does not intersect a range has no value in it.
  pub get-intersects :
      (m : Map) (r : Range) (id : ℕ)
      → intersects m r ≡ false
      → contains r id ≡ true
      → get m id ≡ none
  -- The given value at the range, and elsewhere what was there.
  pub get-insert :
      (m : Map) (r : Range) (v : V) (id : ℕ)
      → get (insert m r v) id ≡ (if contains r id then some v else get m id)

-- A list of ranges, the last one first, meets the laws.
module _ {V : Type 0} where
  abbrev list_get : List (Range × V) → ℕ → Option V
  list_get [] id = none
  list_get ((r, v) ∷ m) id = if contains r id then some v else list_get m id

  abbrev list_intersects : List (Range × V) → Range → Bool
  list_intersects [] r = false
  list_intersects ((s, v) ∷ m) r = (ltb s.start r.end && ltb r.start s.end) || list_intersects m r

  pub list_get-intersects :
      (m : List (Range × V)) (r : Range) (id : ℕ)
      → list_intersects m r ≡ false
      → contains r id ≡ true
      → list_get m id ≡ none
  list_get-intersects [] r id h c = refl
  list_get-intersects ((s, v) ∷ m) r id h c = ground (arith, list_get-intersects m r id)

abbrev pub list_range_map : (V : Type 0) → RangeMap V
list_range_map V = record {
  Map = List (Range × V);
  new = [];
  get = list_get;
  intersects = list_intersects;
  insert = λ m r v. (r, v) ∷ m;
  intersects-new = λ r. refl;
  get-new = λ id. refl;
  get-intersects = list_get-intersects;
  get-insert = λ m r v id. refl;
}
