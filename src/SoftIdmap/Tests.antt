-- ===== src/SoftIdmap/Tests.antt =====
-- The maps on concrete command lines, with a list as the map of ranges.
use virtiofsd.Common.{ℕ, ◌≡◌, refl, List, [], ◌∷◌, arith}
use virtiofsd.Common.Io.{IoResult, ok, err, other, done}
use virtiofsd.SoftIdmap.Ranges.{RangeMap, list_range_map}
use virtiofsd.SoftIdmap.{
  MapEntry, CmdIdMap, guest, bidirectional, forbid_guest, squash_host, ok_id, IdMap, empty,
  try_from, push_all, push, push_guest_to_host, push_host_to_guest, do_push, source_range,
  id_range_from_u32, map_guest, map_host,
}
use virtiofsd.SoftIdmap.Honours.{try_from-Honours, forbid_guest_overflow}

abbrev ranges : RangeMap MapEntry
ranges = list_range_map MapEntry

abbrev cmdline : List CmdIdMap
cmdline = bidirectional 0 1000 100 ∷ squash_host 5000 7 10 ∷ forbid_guest 200 50 ∷ []

result : IoResult (IdMap ranges) → IdMap ranges
result (ok m) = m
result (err e) = record { guest_to_host = []; host_to_guest = [] }

id_map : IdMap ranges
unfolding result try_from push_all push push_guest_to_host push_host_to_guest do_push source_range
    id_range_from_u32 empty
id_map = result (try_from ranges cmdline)

try_from-Honours_example :
    (map_guest ranges id_map 33 ≡ done (ok_id 1033))
    × (map_host ranges id_map 1033 ≡ done (ok_id 33))
unfolding id_map
try_from-Honours_example =
    try_from-Honours ranges cmdline id_map 0 (bidirectional 0 1000 100) 33 refl refl (omega arith)
      tt

-- Overlapping entries are refused.
overlap : try_from ranges (guest 0 0 10 ∷ guest 9 100 10 ∷ []) ≡ err other
unfolding id_map
overlap = refl

forbid_guest_overflow_example :
    (m : IdMap ranges) × (try_from ranges (forbid_guest 4294967290 100 ∷ []) ≡ ok m)
    × ((id : ℕ) → map_guest ranges m id ≡ done (ok_id id))
forbid_guest_overflow_example =
    forbid_guest_overflow ranges 4294967290 100 (omega arith) (omega arith) (omega arith)
