-- ===== src/SoftIdmap/Cmdline/Tests.antt =====
-- The ASCII tables, and the theorems applied with them.
use virtiofsd.Common.{ℕ, ◌≡◌, refl, Bool, true, ◌||◌, List, [], ◌∷◌, arith}
use virtiofsd.SoftIdmap.{bidirectional}
use virtiofsd.SoftIdmap.Cmdline.{ok, is_digit, from_str, print}
use virtiofsd.SoftIdmap.Cmdline.RoundTrip.{is_lower, IsAscii, from_str-print}

abbrev is_ascii_alphanumeric : ℕ → Bool
is_ascii_alphanumeric c = is_lower c || is_digit c

abbrev same_case : ℕ → List ℕ
same_case c = c ∷ []

letter : (c : ℕ) → is_lower c ≡ true → is_ascii_alphanumeric c ≡ true
letter c e = ground (arith, e)

ascii : IsAscii is_ascii_alphanumeric same_case
ascii = record { letter = letter; colon = refl; kept = λ c e. refl; dash = refl }

from_str-print_example :
    from_str is_ascii_alphanumeric same_case (print (bidirectional 0 1000 65536))
    ≡ ok (bidirectional 0 1000 65536)
from_str-print_example =
    from_str-print is_ascii_alphanumeric same_case ascii (bidirectional 0 1000 65536)
      (omega arith, omega arith, omega arith)
