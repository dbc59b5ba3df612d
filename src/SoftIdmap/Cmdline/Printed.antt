-- ===== src/SoftIdmap/Cmdline/Printed.antt =====
-- What is printed is read back.
use mathlib.Core.List.{append_assoc, append-nil}
use virtiofsd.Common.{
  ap, sym, ◌∙◌, ℕ, zero, suc, ◌+◌, ◌-◌, ◌*◌, ◌/◌, ◌%◌, ◌^◌, true, false, ◌&&◌, ◌≡◌, ◌≢◌, ◌<◌, ◌≤◌,
  refl, none, some, List, [], ◌∷◌, ◌++◌, if◌then◌else◌, ltb, arith, Bool-cases, inl, inr, All,
}
use virtiofsd.SoftIdmap.Cmdline.{
  ok, is_digit, parse_digits, parse_u32, split_at, parse_values, parse_value, digits, print_u32,
}

parse_digits-step :
    (n d : ℕ) (rest : List ℕ)
    → d < 10
    → 10 * n + d < 2 ^ 32
    → parse_digits n ((b'0' + d) ∷ rest) ≡ parse_digits (10 * n + d) rest
unfolding parse_digits
parse_digits-step n d rest l b =
    let e : (48 + d) - 48 ≡ d = omega arith in go (10 * n + ((48 + d) - 48)) (omega arith)
  where
    go :
        (m : ℕ)
        → m ≡ 10 * n + d
        → (if is_digit (48 + d) && ltb m (2 ^ 32) then parse_digits m rest else none)
          ≡ parse_digits (10 * n + d) rest
    go m e = ground (arith, e, l, b)

parse_digits-first :
    (n : ℕ) (rest : List ℕ)
    → n < 10
    → n < 2 ^ 32
    → parse_digits 0 ((b'0' + n) ∷ rest) ≡ parse_digits n rest
parse_digits-first n rest l b =
    let e : 10 * 0 + n ≡ n = omega arith in
    parse_digits-step 0 n rest l (omega arith) ∙ ap (λ m. parse_digits m rest) e

digits-small : (fuel n : ℕ) → ltb n 10 ≡ true → digits (suc fuel) n ≡ (b'0' + n) ∷ []
unfolding digits
digits-small fuel n e = rw e refl

digits-big :
    (fuel n : ℕ)
    → ltb n 10 ≡ false
    → digits (suc fuel) n ≡ digits fuel (n / 10) ++ (b'0' + n % 10) ∷ []
unfolding digits
digits-big fuel n e = rw e refl

-- The digits of a number, and then the rest.
parse_digits-digits :
    (fuel n : ℕ) (rest : List ℕ)
    → n < 10 ^ suc fuel
    → n < 2 ^ 32
    → parse_digits 0 (digits (suc fuel) n ++ rest) ≡ parse_digits n rest
parse_digits-digits zero n rest l b =
    rw (digits-small zero n (ground arith)) (parse_digits-first n rest (omega arith) (omega arith))
parse_digits-digits (suc fuel) n rest l b = elim (Bool-cases (ltb n 10)) [
  | inl e ↦
      rw (digits-small (suc fuel) n e) (parse_digits-first n rest (ground arith) (omega arith))
  | inr e ↦
      let small : n / 10 < 10 ^ suc fuel = omega arith in
      let whole : 10 * (n / 10) + n % 10 ≡ n = omega arith in
      rw
        (
          digits-big (suc fuel) n e,
          append_assoc (digits (suc fuel) (n / 10)) ((b'0' + n % 10) ∷ []) rest,
        )
        (parse_digits-digits fuel (n / 10) ((b'0' + n % 10) ∷ rest) small (omega arith)
          ∙ (parse_digits-step (n / 10) (n % 10) rest (omega arith) (omega arith)
              ∙ ap (λ m. parse_digits m rest) whole))
]

-- Only digits.
abbrev IsDigits : List ℕ → Type 0
IsDigits l = All (λ c. (b'0' ≤ c) × (c ≤ b'9')) l

All-snoc : (P : ℕ → Type 0) (l : List ℕ) (c : ℕ) → All P l → P c → All P (l ++ c ∷ [])
All-snoc P [] c a p = (p, tt)
All-snoc P (x ∷ l) c a p = (a.0, All-snoc P l c a.1 p)

digits-IsDigits : (fuel n : ℕ) → IsDigits (digits fuel n)
digits-IsDigits zero n = unfold digits in tt
digits-IsDigits (suc fuel) n = elim (Bool-cases (ltb n 10)) [
  | inl e ↦ rw (digits-small fuel n e) ((omega arith, ground arith), tt)
  | inr e ↦ rw (digits-big fuel n e) (
      All-snoc _ (digits fuel (n / 10)) (b'0' + n % 10) (digits-IsDigits fuel (n / 10))
        (omega arith, omega arith))
]

parse_u32-plain : (c : ℕ) (l : List ℕ) → c ≢ b'+' → parse_u32 (c ∷ l) ≡ parse_digits 0 (c ∷ l)
unfolding parse_u32
parse_u32-plain c [] d = refl
parse_u32-plain c (e ∷ l) d = ground (arith, d)

snoc-not_nil : (l : List ℕ) (c : ℕ) → l ++ c ∷ [] ≢ []
snoc-not_nil [] c e = cc e
snoc-not_nil (x ∷ l) c e = cc e

digits-not_nil : (fuel n : ℕ) → digits (suc fuel) n ≢ []
digits-not_nil fuel n e = elim (Bool-cases (ltb n 10)) [
  | inl s ↦ cc (e, digits-small fuel n s)
  | inr s ↦ snoc-not_nil (digits fuel (n / 10)) (b'0' + n % 10) (sym (digits-big fuel n s) ∙ e)
]

parse_u32-digits : (l : List ℕ) → IsDigits l → l ≢ [] → parse_u32 l ≡ parse_digits 0 l
parse_u32-digits [] a d = absurd (d refl)
parse_u32-digits (c ∷ l) a d = parse_u32-plain c l (omega (arith, a.0.0))

-- A u32 is read back from its decimal digits.
pub parse_u32-print_u32 : (n : ℕ) → n < 2 ^ 32 → parse_u32 (print_u32 n) ≡ some n
unfolding print_u32 parse_digits
parse_u32-print_u32 n b =
    parse_u32-digits (digits 10 n) (digits-IsDigits 10 n) (digits-not_nil 9 n)
    ∙ (ap (parse_digits 0) (sym (append-nil (digits 10 n)))
        ∙ parse_digits-digits 9 n [] (omega arith) b)

split_at-field :
    (piece l rest : List ℕ)
    → IsDigits l
    → split_at b':' piece (l ++ b':' ∷ rest) ≡ (piece ++ l) ∷ split_at b':' [] rest
unfolding split_at
split_at-field piece [] rest a = ap (λ p. p ∷ split_at b':' [] rest) (sym (append-nil piece))
split_at-field piece (c ∷ l) rest a =
    ground
      (arith, a.0.1, split_at-field (piece ++ c ∷ []) l rest a.1, append_assoc piece (c ∷ []) l)

split_at-last : (piece l : List ℕ) → IsDigits l → split_at b':' piece l ≡ (piece ++ l) ∷ []
unfolding split_at
split_at-last piece [] a = ap (λ p. p ∷ []) (sym (append-nil piece))
split_at-last piece (c ∷ l) a =
    ground (arith, a.0.1, split_at-last (piece ++ c ∷ []) l a.1, append_assoc piece (c ∷ []) l)

-- The values of a field and those after it.
pub parse_values-field :
    (n : ℕ) (rest : List ℕ) (values : List ℕ)
    → n < 2 ^ 32
    → parse_values (split_at b':' [] rest) ≡ ok values
    → parse_values (split_at b':' [] (print_u32 n ++ b':' ∷ rest)) ≡ ok (n ∷ values)
unfolding parse_values parse_value
parse_values-field n rest values b e =
    rw
      (
        split_at-field [] (print_u32 n) rest (unfold print_u32 in digits-IsDigits 10 n),
        parse_u32-print_u32 n b,
        e,
      )
      refl

pub parse_values-last :
    (n : ℕ) → n < 2 ^ 32 → parse_values (split_at b':' [] (print_u32 n)) ≡ ok (n ∷ [])
unfolding parse_values parse_value
parse_values-last n b =
    rw
      (
        split_at-last [] (print_u32 n) (unfold print_u32 in digits-IsDigits 10 n),
        parse_u32-print_u32 n b,
      )
      refl
