-- ===== src/XattrMap/Parse/Loop.antt =====
-- The loop over the rules: it ends, and what it makes can be used for translation.
use virtiofsd.Common.{
  ℕ, zero, suc, ◌+◌, ◌<◌, true, false, ◌≡◌, ◌≢◌, refl, Option, none, some, List, [], ◌∷◌, ◌++◌,
  length, arith, inl, inr, Bool-cases, All,
}
use virtiofsd.Common.Io.{Outcome, done}
use virtiofsd.XattrMap.{
  ErrorKind, no_rules_provided, map_rule_violation, Result, ok, err, Rule, has_nul, expand_map_type,
  map_rules, is_map,
}
use virtiofsd.XattrMap.Total.{IsExpanded}
use virtiofsd.XattrMap.Parse.{
  Token, from_tokens, Round, stop, again, after_map_rule, after_rule, round, parse_rules,
  some_rules, try_from, is_ascii_whitespace, trim_start, trim_end, is_whitespace, unless_blank,
}
use virtiofsd.XattrMap.Parse.Valid.{
  IsByteSafe, IsClean, got, bad_token, Reads, reads, from_tokens-Reads,
}

All-append : {A : Type 0} (P : A → Type 0) (l m : List A) → All P l → All P m → All P (l ++ m)
All-append P [] m a b = b
All-append P (x ∷ l) m a b = (a.0, All-append P l m a.1 b)

map_rules-IsExpanded :
    (key prepend : List ℕ)
    → has_nul key ≡ false
    → has_nul prepend ≡ false
    → All IsExpanded (map_rules key prepend)
unfolding map_rules is_map has_nul
map_rules-IsExpanded [] prepend k p = ((refl, k, p), ((refl, refl, refl), tt))
map_rules-IsExpanded (c ∷ key) prepend k p =
    ((refl, k, p), ((refl, p, k), ((refl, refl, refl), tt)))

-- What the result of the parser may be.
pub data Parsed : Result (List Rule) → Type 0 where
  parsed : (rules : List Rule) → All IsExpanded rules → Parsed (ok rules)
  refused : (e : ErrorKind) (n : Option ℕ) → Parsed (err e n)

-- What a round of the loop leaves.
data After (n : ℕ) : Round → Type 0 where
  ended : (r : Result (List Rule)) → Parsed r → After n (stop (done r))
  more :
      (left : List ℕ) (rules : List Rule)
      → length left < n
      → All IsByteSafe left
      → All IsExpanded rules
      → After n (again left rules)

after_map_rule-last :
    (rules : List Rule) (rule : Rule)
    → is_map rule.kind ≡ true
    → after_map_rule rules rule [] ≡ again [] (rules ++ map_rules rule.key rule.prepend)
unfolding after_map_rule expand_map_type
after_map_rule-last rules rule e = ground (arith, e)

after_map_rule-After :
    (n : ℕ) (rules : List Rule) (rule : Rule) (left : List ℕ)
    → length left < n
    → All IsExpanded rules
    → IsClean rule
    → is_map rule.kind ≡ true
    → After n (after_map_rule rules rule left)
after_map_rule-After n rules rule [] l a c e = rw (after_map_rule-last rules rule e) (
    more [] _ l tt (
      All-append IsExpanded rules (map_rules rule.key rule.prepend) a
        (map_rules-IsExpanded rule.key rule.prepend c.0 c.1)))
after_map_rule-After n rules rule (_ ∷ left) l a c e =
    unfold after_map_rule in ended _ (refused map_rule_violation (some (length rules + 1)))

after_rule-After :
    (n : ℕ) (rules : List Rule) (o : Outcome (Token (Rule × List ℕ)))
    → All IsExpanded rules
    → Reads IsClean n o
    → After n (after_rule rules o)
unfolding after_rule
after_rule-After n rules _ a (reads _ (bad_token e)) = ended _ (refused e (some (length rules + 1)))
after_rule-After n rules _ a (reads _ (got rule left c l s)) =
    elim (Bool-cases (is_map rule.kind)) [
      | inl e ↦ rw e (after_map_rule-After n rules rule left l a c e)
      | inr e ↦
          rw e (more left _ l s (All-append IsExpanded rules (rule ∷ []) a ((e, c.0, c.1), tt)))
    ]

round-After :
    (tokens : List ℕ) (rules : List Rule)
    → All IsByteSafe tokens
    → All IsExpanded rules
    → After (length tokens) (round tokens rules)
unfolding round
round-After [] rules s a = ended (ok rules) (parsed rules a)
round-After (c ∷ tokens) rules s a = elim (Bool-cases (is_ascii_whitespace c)) [
  | inl e ↦ rw e (more tokens rules (omega arith) s.1 a)
  | inr e ↦
      rw e
        (after_rule-After _ rules (from_tokens (c ∷ tokens)) a (from_tokens-Reads (c ∷ tokens) s))
]

continue_total :
    (n fuel : ℕ) (tokens : List ℕ) (rules : List Rule) (r : Round)
    → round tokens rules ≡ r
    → After n r
    → ((left : List ℕ) (rules : List Rule)
        → length left < n
        → All IsByteSafe left
        → All IsExpanded rules
        → (r : Result (List Rule)) × (parse_rules fuel left rules ≡ some (done r)) × Parsed r)
    → (r : Result (List Rule)) × (parse_rules (suc fuel) tokens rules ≡ some (done r)) × Parsed r
unfolding parse_rules
continue_total n fuel tokens rules _ e (ended r p) rest = (r, ground (arith, e), p)
continue_total n fuel tokens rules _ e (more left rules' l s a) rest =
    let (r, f, p) = rest left rules' l s a in (r, ground (arith, e, f), p)

parse_rules_total :
    (fuel : ℕ) (tokens : List ℕ) (rules : List Rule)
    → length tokens < fuel
    → All IsByteSafe tokens
    → All IsExpanded rules
    → (r : Result (List Rule)) × (parse_rules fuel tokens rules ≡ some (done r)) × Parsed r
parse_rules_total zero tokens rules l s a = absurd (omega arith)
parse_rules_total (suc fuel) tokens rules l s a =
    continue_total (length tokens) fuel tokens rules (round tokens rules) refl
      (round-After tokens rules s a)
      (λ left rules l' s a. parse_rules_total fuel left rules (omega arith) s a)

trim_start-safe : (l : List ℕ) → All IsByteSafe l → All IsByteSafe (trim_start l)
unfolding trim_start
trim_start-safe [] s = tt
trim_start-safe (c ∷ l) s = elim (Bool-cases (is_whitespace c)) [
  | inl e ↦ rw e (trim_start-safe l s.1)
  | inr e ↦ rw e s
]

unless_blank-safe :
    (c : ℕ) (l : List ℕ) → IsByteSafe c → All IsByteSafe l → All IsByteSafe (unless_blank c l)
unless_blank-safe c [] s a = elim (Bool-cases (is_whitespace c)) [
  | inl e ↦ rw e tt
  | inr e ↦ rw e (s, tt)
]
unless_blank-safe c (d ∷ l) s a = (s, a)

trim_end-safe : (l : List ℕ) → All IsByteSafe l → All IsByteSafe (trim_end l)
unfolding trim_end
trim_end-safe [] s = tt
trim_end-safe (c ∷ l) s = unless_blank-safe c (trim_end l) s.0 (trim_end-safe l s.1)

-- Rules that the translation can use, one at least, or an error.
pub data Usable : Result (List Rule) → Type 0 where
  usable : (rules : List Rule) → rules ≢ [] → All IsExpanded rules → Usable (ok rules)
  unusable : (e : ErrorKind) (n : Option ℕ) → Usable (err e n)

some_rules-Usable :
    (r : Result (List Rule))
    → Parsed r
    → (q : Result (List Rule)) × (some_rules (done r) ≡ done q) × Usable q
unfolding some_rules
some_rules-Usable _ (parsed [] a) =
    (err no_rules_provided none, refl, unusable no_rules_provided none)
some_rules-Usable _ (parsed (x ∷ l) a) = (ok (x ∷ l), refl, usable (x ∷ l) (λ e. cc e) a)
some_rules-Usable _ (refused e n) = (err e n, refl, unusable e n)

-- A text with no character whose low byte is zero is parsed to its end, with the fuel that is given
-- and without a panic: to an error, or to one rule or more, none of them a `map` rule, all of them
-- with C strings.
pub try_from_total :
    (input : List ℕ)
    → All IsByteSafe input
    → (r : Result (List Rule)) × (try_from input ≡ some (done r)) × Usable r
unfolding try_from
try_from_total input s =
    let trimmed = trim_end (trim_start input) in
    let safe : All IsByteSafe trimmed =
      trim_end-safe (trim_start input) (trim_start-safe input s) in
    let (r, e, p) = parse_rules_total (suc (length trimmed)) trimmed [] (omega arith) safe tt in
    let (q, f, u) = some_rules-Usable r p in (q, ground (arith, e, f), u)
