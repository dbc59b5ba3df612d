-- ===== src/SoftIdmap/Cmdline.antt =====
-- src/soft_idmap/cmdline.rs: the entries of the ID map as text, both ways. A text is its code
-- points. What the standard library's tables say of a character, whether it is alphanumeric and
-- its lower case, is a parameter.
pub mod Printed
pub mod RoundTrip
pub mod Tests
use virtiofsd.Common.{
  ℕ, zero, suc, ◌+◌, ◌-◌, ◌*◌, ◌/◌, ◌%◌, ◌^◌, Bool, true, false, ◌&&◌, ◌||◌, ◌≡◌, ◌<◌, Option, none,
  some, List, [], ◌∷◌, ◌++◌, length, if◌then◌else◌, ◌==◌, leb, ltb,
}
use virtiofsd.Common.Key.{same, bytes_key}
use virtiofsd.SoftIdmap.{
  CmdIdMap, guest, host, squash_guest, squash_host, bidirectional, forbid_guest,
}

-- `IdMapError`
pub data IdMapError : Type 0 where
  invalid_length : ℕ → ℕ → IdMapError
  invalid_value invalid_prefix : List ℕ → IdMapError

-- `Result<_, IdMapError>`
pub data Parsed (A : Type 0) : Type 0 where
  ok : A → Parsed A
  err : IdMapError → Parsed A

infixl 5 ◌>>=◌
abbrev ◌>>=◌ : {A B : Type 0} → Parsed A → (A → Parsed B) → Parsed B
ok a >>= f = f a
err e >>= f = err e

abbrev pub guest_text : List ℕ
guest_text = b'g' ∷ b'u' ∷ b'e' ∷ b's' ∷ b't' ∷ []

abbrev pub host_text : List ℕ
host_text = b'h' ∷ b'o' ∷ b's' ∷ b't' ∷ []

abbrev pub squash_guest_text : List ℕ
squash_guest_text = b's' ∷ b'q' ∷ b'u' ∷ b'a' ∷ b's' ∷ b'h' ∷ b'-' ∷ guest_text

abbrev pub squash_host_text : List ℕ
squash_host_text = b's' ∷ b'q' ∷ b'u' ∷ b'a' ∷ b's' ∷ b'h' ∷ b'-' ∷ host_text

abbrev pub forbid_guest_text : List ℕ
forbid_guest_text = b'f' ∷ b'o' ∷ b'r' ∷ b'b' ∷ b'i' ∷ b'd' ∷ b'-' ∷ guest_text

abbrev pub map_text : List ℕ
map_text = b'm' ∷ b'a' ∷ b'p' ∷ []

abbrev pub is_digit : ℕ → Bool
is_digit c = leb b'0' c && leb c b'9'

-- The digits of a `u32`, read from the left; None where one is none, or the number does not fit.
unfoldable pub parse_digits : ℕ → List ℕ → Option ℕ
parse_digits n [] = some n
parse_digits n (c ∷ l) =
    let m = 10 * n + (c - b'0') in
    let rest = parse_digits m l in if is_digit c && ltb m (2 ^ 32) then rest else none

-- `str::parse::<u32>`: a plus may stand before the digits, of which there is one at least.
unfoldable pub parse_u32 : List ℕ → Option ℕ
parse_u32 [] = none
parse_u32 (c ∷ []) = parse_digits 0 (c ∷ [])
parse_u32 (c ∷ d ∷ l) = if c == b'+' then parse_digits 0 (d ∷ l) else parse_digits 0 (c ∷ d ∷ l)

-- `split`, with the piece that is being read.
unfoldable pub split_at : ℕ → List ℕ → List ℕ → List (List ℕ)
split_at separator piece [] = piece ∷ []
split_at separator piece (c ∷ l) = elim (c == separator) [
  | true ↦ piece ∷ split_at separator [] l
  | false ↦ split_at separator (piece ++ c ∷ []) l
]

unfoldable pub parse_value : List ℕ → Option ℕ → Parsed ℕ
parse_value v none = err (invalid_value v)
parse_value v (some n) = ok n

unfoldable pub parse_values : List (List ℕ) → Parsed (List ℕ)
parse_values [] = ok []
parse_values (v ∷ values) = do
  n ← parse_value v (parse_u32 v)
  rest ← parse_values values
  ok (n ∷ rest)

-- `check_arg_count`, and then the fields, which the source indexes.
unfoldable pub three : (ℕ → ℕ → ℕ → CmdIdMap) → List ℕ → Parsed CmdIdMap
three f (a ∷ b ∷ c ∷ []) = ok (f a b c)
three f fields = err (invalid_length 3 (length fields))

unfoldable pub two : (ℕ → ℕ → CmdIdMap) → List ℕ → Parsed CmdIdMap
two f (a ∷ b ∷ []) = ok (f a b)
two f fields = err (invalid_length 2 (length fields))

-- The `match` on the prefix.
unfoldable pub of_fields : List ℕ → List ℕ → Parsed CmdIdMap
of_fields prefix fields =
    if same prefix guest_text
    then three guest fields
    else if same prefix host_text
    then three host fields
    else if same prefix squash_guest_text
    then three squash_guest fields
    else if same prefix squash_host_text
    then three squash_host fields
    else if same prefix forbid_guest_text
    then two forbid_guest fields
    else if same prefix map_text
    then three bidirectional fields
    else err (invalid_prefix prefix)

module _ (is_alphanumeric : ℕ → Bool) (to_lowercase : ℕ → List ℕ) where
  -- The loop: the prefix in lower case, the separator, and what follows it.
  unfoldable pub read_prefix : List ℕ → List ℕ → Parsed (List ℕ × (ℕ × List ℕ))
  read_prefix prefix [] = err (invalid_length 1 0)
  read_prefix prefix (c ∷ chars) =
      let rest = read_prefix (prefix ++ to_lowercase c) chars in
      if is_alphanumeric c || (c == b'-' || c == b'_') then rest else ok (prefix, (c, chars))

  -- `pre_parse`
  unfoldable pub pre_parse : List ℕ → Parsed (List ℕ × List ℕ)
  pre_parse s = do
    (prefix, (separator, chars)) ← read_prefix [] s
    values ← parse_values (split_at separator [] chars)
    ok (prefix, values)

  -- `from_str`
  unfoldable pub from_str : List ℕ → Parsed CmdIdMap
  from_str s = do (prefix, fields) ← pre_parse s; of_fields prefix fields

-- The decimal digits of a number, on fuel: a number below 10 ^ fuel.
unfoldable pub digits : ℕ → ℕ → List ℕ
digits zero n = []
digits (suc fuel) n =
    let rest = digits fuel (n / 10) in
    if ltb n 10 then (b'0' + n) ∷ [] else rest ++ (b'0' + n % 10) ∷ []

-- `{n}` for a `u32`, which has ten digits at most.
unfoldable pub print_u32 : ℕ → List ℕ
print_u32 n = digits 10 n

abbrev pub field : ℕ → List ℕ → List ℕ
field n rest = b':' ∷ (print_u32 n ++ rest)

abbrev pub last_field : ℕ → List ℕ
last_field n = b':' ∷ print_u32 n

-- `Display`
unfoldable pub print : CmdIdMap → List ℕ
print (guest a b c) = guest_text ++ field a (field b (last_field c))
print (host a b c) = host_text ++ field a (field b (last_field c))
print (squash_guest a b c) = squash_guest_text ++ field a (field b (last_field c))
print (squash_host a b c) = squash_host_text ++ field a (field b (last_field c))
print (bidirectional a b c) = map_text ++ field a (field b (last_field c))
print (forbid_guest a b) = forbid_guest_text ++ field a (last_field b)
