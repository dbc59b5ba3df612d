-- ===== src/SoftIdmap.antt =====
-- src/soft_idmap/mod.rs and id_types.rs: translation of UIDs and GIDs between the guest and the host.
-- The ID types all wrap a `u32`, and one map serves UIDs or GIDs, so an ID is its number here.
pub mod Cmdline
pub mod Ranges
pub mod Honours
pub mod Tests
use virtiofsd.Common.{
  ℕ, ◌+◌, ◌-◌, ◌%◌, ◌^◌, ◌≤◌, ◌<◌, Bool, true, false, ◌&&◌, Option, none, some, List, [], ◌∷◌,
  if◌then◌else◌, leb, ltb,
}
use virtiofsd.Common.Io.{IoError, IoResult, ok, err, invalid_input, other, Outcome, done, panic}
use virtiofsd.Common.Chain.{◌>>=◌}
use virtiofsd.SoftIdmap.Ranges.{Range, contains, RangeMap}

-- `MapEntry`
pub data MapEntry : Type 0 where
  squash : Range → ℕ → MapEntry
  range : Range → ℕ → MapEntry
  fail : Range → MapEntry

-- `cmdline::IdMap`
pub data CmdIdMap : Type 0 where
  guest : ℕ → ℕ → ℕ → CmdIdMap
  host : ℕ → ℕ → ℕ → CmdIdMap
  squash_guest : ℕ → ℕ → ℕ → CmdIdMap
  squash_host : ℕ → ℕ → ℕ → CmdIdMap
  bidirectional : ℕ → ℕ → ℕ → CmdIdMap
  forbid_guest : ℕ → ℕ → CmdIdMap

-- `Result<Target, MapError>`
pub data Mapped : Type 0 where
  ok_id : ℕ → Mapped
  explicit_fail_mapping : ℕ → Mapped

-- u32 addition, as a release build makes it.
abbrev pub add_u32 : ℕ → ℕ → ℕ
add_u32 a b = (a + b) % 2 ^ 32

unfoldable pub map_entry : MapEntry → ℕ → Outcome Mapped
map_entry (squash from to) id = if contains from id then done (ok_id to) else panic
map_entry (range from to_base) id =
    if contains from id then done (ok_id (add_u32 to_base (id - from.start))) else panic
map_entry (fail from) id = if contains from id then done (explicit_fail_mapping id) else panic

unfoldable pub source_range : MapEntry → Range
source_range (squash from to) = from
source_range (range from to_base) = from
source_range (fail from) = from

-- `base.checked_add(count)`
unfoldable pub id_range_from_u32 : ℕ → ℕ → IoResult Range
id_range_from_u32 base count =
    if ltb (base + count) (2 ^ 32)
    then ok (record { start = base; end = base + count })
    else err invalid_input

module _ (R : RangeMap MapEntry) where
  pub record IdMap : Type 0 where
    pub guest_to_host : R.Map
    pub host_to_guest : R.Map

  unfoldable pub empty : IdMap
  empty = record { guest_to_host = R.new; host_to_guest = R.new }

  -- An ID that no entry covers maps to itself.
  unfoldable pub map_by : R.Map → ℕ → Outcome Mapped
  map_by m id = elim (R.get m id) [ none ↦ done (ok_id id) | some e ↦ map_entry e id ]

  unfoldable pub map_guest : IdMap → ℕ → Outcome Mapped
  map_guest m id = map_by m.guest_to_host id

  unfoldable pub map_host : IdMap → ℕ → Outcome Mapped
  map_host m id = map_by m.host_to_guest id

  unfoldable pub do_push : R.Map → MapEntry → IoResult R.Map
  do_push m entry =
      let inner_range = source_range entry in
      if R.intersects m inner_range then err other else ok (R.insert m inner_range entry)

  unfoldable pub push_guest_to_host : IdMap → MapEntry → IoResult IdMap
  push_guest_to_host m entry = do
    g ← do_push m.guest_to_host entry
    ok (record m { guest_to_host = g })

  unfoldable pub push_host_to_guest : IdMap → MapEntry → IoResult IdMap
  push_host_to_guest m entry = do
    h ← do_push m.host_to_guest entry
    ok (record m { host_to_guest = h })

  -- One round of the loop of `try_from`.
  unfoldable pub push : IdMap → CmdIdMap → IoResult IdMap
  push m (guest from_guest to_host count) = do
    from ← id_range_from_u32 from_guest count
    push_guest_to_host m (range from to_host)
  push m (host from_host to_guest count) = do
    from ← id_range_from_u32 from_host count
    push_host_to_guest m (range from to_guest)
  push m (squash_guest from_guest to_host count) = do
    from ← id_range_from_u32 from_guest count
    push_guest_to_host m (squash from to_host)
  push m (squash_host from_host to_guest count) = do
    from ← id_range_from_u32 from_host count
    push_host_to_guest m (squash from to_guest)
  push m (bidirectional guest_id host_id count) = do
    guest_range ← id_range_from_u32 guest_id count
    m' ← push_guest_to_host m (range guest_range host_id)
    host_range ← id_range_from_u32 host_id count
    push_host_to_guest m' (range host_range guest_id)
  push m (forbid_guest from_guest count) =
      push_guest_to_host m (fail (record { start = from_guest; end = add_u32 from_guest count }))

  unfoldable pub push_all : IdMap → List CmdIdMap → IoResult IdMap
  push_all m [] = ok m
  push_all m (entry ∷ cmdline) = do m' ← push m entry; push_all m' cmdline

  unfoldable pub try_from : List CmdIdMap → IoResult IdMap
  try_from cmdline = push_all empty cmdline
