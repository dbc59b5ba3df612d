-- ===== src/SoftIdmap/Cmdline/RoundTrip.antt =====
-- An entry of the ID map that is printed is read back.
use mathlib.Core.List.{append_assoc, append-nil}
use virtiofsd.Common.{
  ap, sym, ◌∙◌, ℕ, ◌^◌, Bool, true, false, ◌&&◌, ◌||◌, ◌≡◌, ◌<◌, refl, List, [], ◌∷◌, ◌++◌, ◌==◌,
  leb, arith, All, Bool-cases, inl, inr,
}
use virtiofsd.Common.Key.{cmp_bytes}
use virtiofsd.SoftIdmap.{
  CmdIdMap, guest, host, squash_guest, squash_host, bidirectional, forbid_guest,
}
use virtiofsd.SoftIdmap.Cmdline.{
  ok, split_at, parse_values, print_u32, field, last_field, read_prefix, pre_parse, from_str,
  of_fields, three, two, print, guest_text, host_text, squash_guest_text, squash_host_text,
  forbid_guest_text, map_text,
}
use virtiofsd.SoftIdmap.Cmdline.Printed.{parse_values-field, parse_values-last}

-- A letter of a prefix: a lower-case ASCII letter.
abbrev pub is_lower : ℕ → Bool
is_lower c = leb b'a' c && leb c b'z'

-- What the standard library says of ASCII: lower-case letters are alphanumeric, a colon is not, and
-- lower-case letters and the dash are their own lower case.
pub record IsAscii (is_alphanumeric : ℕ → Bool) (to_lowercase : ℕ → List ℕ) : Type 0 where
  pub letter : (c : ℕ) → is_lower c ≡ true → is_alphanumeric c ≡ true
  pub colon : is_alphanumeric b':' ≡ false
  pub kept : (c : ℕ) → is_lower c ≡ true → to_lowercase c ≡ c ∷ []
  pub dash : to_lowercase b'-' ≡ b'-' ∷ []

-- The numbers are u32.
abbrev pub IsU32 : CmdIdMap → Type 0
IsU32 (guest a b c) = (a < 2 ^ 32) × (b < 2 ^ 32) × (c < 2 ^ 32)
IsU32 (host a b c) = (a < 2 ^ 32) × (b < 2 ^ 32) × (c < 2 ^ 32)
IsU32 (squash_guest a b c) = (a < 2 ^ 32) × (b < 2 ^ 32) × (c < 2 ^ 32)
IsU32 (squash_host a b c) = (a < 2 ^ 32) × (b < 2 ^ 32) × (c < 2 ^ 32)
IsU32 (bidirectional a b c) = (a < 2 ^ 32) × (b < 2 ^ 32) × (c < 2 ^ 32)
IsU32 (forbid_guest a b) = (a < 2 ^ 32) × (b < 2 ^ 32)

abbrev is_prefix_char : ℕ → Bool
is_prefix_char c = is_lower c || c == b'-'

abbrev each : List ℕ → Bool
each [] = true
each (c ∷ l) = is_prefix_char c && each l

each_prefix_char : (l : List ℕ) → each l ≡ true → All (λ c. is_prefix_char c ≡ true) l
each_prefix_char [] e = tt
each_prefix_char (c ∷ l) e = elim (Bool-cases (is_prefix_char c)) [
  | inl t ↦ (t, each_prefix_char l (sym (ap (λ b. b && each l) t) ∙ e))
  | inr f ↦ cc (e, ap (λ b. b && each l) f)
]

three_values :
    (a b c : ℕ)
    → a < 2 ^ 32
    → b < 2 ^ 32
    → c < 2 ^ 32
    → parse_values (split_at b':' [] (print_u32 a ++ field b (last_field c))) ≡ ok (a ∷ b ∷ c ∷ [])
three_values a b c p q r =
    parse_values-field a (print_u32 b ++ last_field c) (b ∷ c ∷ []) p
      (parse_values-field b (print_u32 c) (c ∷ []) q (parse_values-last c r))

two_values :
    (a b : ℕ)
    → a < 2 ^ 32
    → b < 2 ^ 32
    → parse_values (split_at b':' [] (print_u32 a ++ last_field b)) ≡ ok (a ∷ b ∷ [])
two_values a b p q = parse_values-field a (print_u32 b) (b ∷ []) p (parse_values-last b q)

module _ (is_alphanumeric : ℕ → Bool) (to_lowercase : ℕ → List ℕ)
    (h : IsAscii is_alphanumeric to_lowercase) where
  lower_of : (c : ℕ) → is_prefix_char c ≡ true → to_lowercase c ≡ c ∷ []
  lower_of c e = elim (Bool-cases (is_lower c)) [
    | inl l ↦ h.kept c l
    | inr n ↦ let d : c ≡ b'-' = ground (arith, e, n) in rw d h.dash
  ]

  goes_on :
      (c : ℕ) → is_prefix_char c ≡ true → (is_alphanumeric c || (c == b'-' || c == b'_')) ≡ true
  goes_on c e = elim (Bool-cases (is_lower c)) [
    | inl l ↦ rw (h.letter c l) refl
    | inr n ↦ ground (arith, e, n)
  ]

  read_prefix-more :
      (prefix chars : List ℕ) (c : ℕ)
      → is_prefix_char c ≡ true
      → read_prefix is_alphanumeric to_lowercase prefix (c ∷ chars)
        ≡ read_prefix is_alphanumeric to_lowercase (prefix ++ c ∷ []) chars
  unfolding read_prefix
  read_prefix-more prefix chars c e = rw (goes_on c e, lower_of c e) refl

  read_prefix-append :
      (prefix l rest : List ℕ)
      → All (λ c. is_prefix_char c ≡ true) l
      → read_prefix is_alphanumeric to_lowercase prefix (l ++ b':' ∷ rest)
        ≡ ok (prefix ++ l, (b':', rest))
  read_prefix-append prefix [] rest a =
      (unfold read_prefix in rw h.colon (ap (λ p. ok (p, (b':', rest))) (sym (append-nil prefix))))
  read_prefix-append prefix (c ∷ l) rest a =
      read_prefix-more prefix (l ++ b':' ∷ rest) c a.0
      ∙ (read_prefix-append (prefix ++ c ∷ []) l rest a.1
          ∙ ap (λ p. ok (p, (b':', rest))) (append_assoc prefix (c ∷ []) l))

  from_str-fields :
      (prefix rest values : List ℕ)
      → All (λ c. is_prefix_char c ≡ true) prefix
      → parse_values (split_at b':' [] rest) ≡ ok values
      → from_str is_alphanumeric to_lowercase (prefix ++ b':' ∷ rest) ≡ of_fields prefix values
  unfolding from_str pre_parse
  from_str-fields prefix rest values a e = rw (read_prefix-append [] prefix rest a, e) refl

  -- With any tables that are right for ASCII, an entry whose numbers are u32 is read back from what
  -- it is printed as.
  pub from_str-print :
      (e : CmdIdMap) → IsU32 e → from_str is_alphanumeric to_lowercase (print e) ≡ ok e
  unfolding print of_fields cmp_bytes three two
  from_str-print (guest a b c) u =
      from_str-fields guest_text _ (a ∷ b ∷ c ∷ []) (each_prefix_char guest_text refl)
        (three_values a b c u.0 u.1 u.2)
  from_str-print (host a b c) u =
      from_str-fields host_text _ (a ∷ b ∷ c ∷ []) (each_prefix_char host_text refl)
        (three_values a b c u.0 u.1 u.2)
  from_str-print (squash_guest a b c) u =
      from_str-fields squash_guest_text _ (a ∷ b ∷ c ∷ []) (each_prefix_char squash_guest_text refl)
        (three_values a b c u.0 u.1 u.2)
  from_str-print (squash_host a b c) u =
      from_str-fields squash_host_text _ (a ∷ b ∷ c ∷ []) (each_prefix_char squash_host_text refl)
        (three_values a b c u.0 u.1 u.2)
  from_str-print (bidirectional a b c) u =
      from_str-fields map_text _ (a ∷ b ∷ c ∷ []) (each_prefix_char map_text refl)
        (three_values a b c u.0 u.1 u.2)
  from_str-print (forbid_guest a b) u =
      from_str-fields forbid_guest_text _ (a ∷ b ∷ []) (each_prefix_char forbid_guest_text refl)
        (two_values a b u.0 u.1)
