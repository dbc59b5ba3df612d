-- ===== src/XattrMap/Total.antt =====
-- Rules as the parser makes them, under which the translation of names does not panic.
use virtiofsd.Common.{
  ℕ, ◌≤◌, Bool, true, false, ◌≡◌, ◌≢◌, refl, Option, none, some, List, [], ◌∷◌, ◌++◌, length, drop,
  arith, inl, inr, Bool-cases, All,
}
use virtiofsd.Common.Io.{Outcome, done}
use virtiofsd.XattrMap.{
  unterminated_mapping, Result, ok, err, Scope, client, server, all, Kind, prefix, okay, bad,
  unsupported, map, Rule, AppliedRule, pass, deny, not_supported, has_scope, starts_with, matches,
  matches_in, find_rule, has_nul, apply_client, client_result, map_client_xattr, slice_from,
  apply_server, filter_names, push_name, close_list, map_server_xattrlist, split, non_empty, is_map,
}
use virtiofsd.XattrMap.MapRule.{has_nul-append, c_string-clean}

-- No `map` rule is left, and the strings are C strings.
abbrev pub IsExpanded : Rule → Type 0
IsExpanded r = (is_map r.kind ≡ false) × (has_nul r.key ≡ false) × (has_nul r.prepend ≡ false)

pub starts_with-length : (name p : List ℕ) → starts_with name p ≡ true → length p ≤ length name
unfolding starts_with
starts_with-length name [] e = omega arith
starts_with-length [] (c ∷ p) e = cc
starts_with-length (b ∷ name) (c ∷ p) e = ground (arith, starts_with-length name p)

-- How a search for a rule ends.
data Found (rules : List Rule) (s : Scope) (name : List ℕ) : Outcome (Result Rule) → Type 0 where
  one : (r : Rule) → IsExpanded r → matches r s name ≡ done true → Found rules s name (done (ok r))
  no : Found rules s name (done (err unterminated_mapping none))

matches_total :
    (r : Rule) (s : Scope) (name : List ℕ) → s ≢ all → (b : Bool) × (matches r s name ≡ done b)
unfolding matches matches_in
matches_total r client name d = elim (Bool-cases (has_scope r.scope client)) [
  | inl e ↦ (starts_with name r.key, ground (arith, e))
  | inr e ↦ (false, ground (arith, e))
]
matches_total r server name d = elim (Bool-cases (has_scope r.scope server)) [
  | inl e ↦ (starts_with name r.prepend, ground (arith, e))
  | inr e ↦ (false, ground (arith, e))
]
matches_total r all name d = absurd (d refl)

more-Found :
    (r : Rule) (rules : List Rule) (s : Scope) (name : List ℕ) (o : Outcome (Result Rule))
    → Found rules s name o
    → Found (r ∷ rules) s name o
more-Found r rules s name _ (one x v m) = one x v m
more-Found r rules s name _ no = no

find_rule_total :
    (rules : List Rule) (s : Scope) (name : List ℕ)
    → s ≢ all
    → All IsExpanded rules
    → (o : Outcome (Result Rule)) × (find_rule rules s name ≡ o) × Found rules s name o
unfolding find_rule
find_rule_total [] s name d a = (done (err unterminated_mapping none), refl, no)
find_rule_total (r ∷ rules) s name d a =
    let (b, e) = matches_total r s name d in
    let (o, f, v) = find_rule_total rules s name d a.1 in
    elim (Bool-cases b) [
      | inl t ↦ (done (ok r), ground (arith, e, t), one r a.0 (ground (arith, e, t)))
      | inr t ↦ (o, ground (arith, e, t, f), more-Found r rules s name o v)
    ]

apply_client_total :
    (r : Rule) (name : List ℕ) (k : Kind)
    → is_map k ≡ false
    → has_nul r.prepend ≡ false
    → has_nul name ≡ false
    → (x : AppliedRule) × (apply_client r name k ≡ done x)
unfolding apply_client is_map
apply_client_total r name prefix e p q = (
  pass (r.prepend ++ name),
  ground (arith, c_string-clean (r.prepend ++ name) (has_nul-append r.prepend name p q)),
)
apply_client_total r name okay e p q = (pass name, refl)
apply_client_total r name bad e p q = (deny, refl)
apply_client_total r name unsupported e p q = (not_supported, refl)
apply_client_total r name map e p q = cc

client_result_total :
    (rules : List Rule) (name : List ℕ) (o : Outcome (Result Rule))
    → has_nul name ≡ false
    → find_rule rules client name ≡ o
    → Found rules client name o
    → (r : Result AppliedRule) × (map_client_xattr rules name ≡ done r)
unfolding map_client_xattr client_result
client_result_total rules name _ q e (one r v m) =
    let (x, f) = apply_client_total r name r.kind v.0 v.2 q in (ok x, ground (arith, e, f))
client_result_total rules name _ q e no = (err unterminated_mapping none, ground (arith, e))

-- With rules as the parser makes them, a name from the client does not cause a panic.
pub map_client_total :
    (rules : List Rule) (name : List ℕ)
    → All IsExpanded rules
    → has_nul name ≡ false
    → (r : Result AppliedRule) × (map_client_xattr rules name ≡ done r)
map_client_total rules name a q =
    let (o, e, f) = find_rule_total rules client name (λ e. cc e) a in
    client_result_total rules name o q e f

has_prepend :
    (r : Rule) (name : List ℕ)
    → matches r server name ≡ done true
    → starts_with name r.prepend ≡ true
unfolding matches matches_in
has_prepend r name e = ground (arith, e)

apply_server_total :
    (r : Rule) (name : List ℕ) (k : Kind)
    → is_map k ≡ false
    → length r.prepend ≤ length name
    → (x : Option (List ℕ)) × (apply_server r name k ≡ done x)
unfolding apply_server slice_from is_map
apply_server_total r name prefix e p = (some (drop (length r.prepend) name), ground (arith, p))
apply_server_total r name okay e p = (some name, refl)
apply_server_total r name bad e p = (none, refl)
apply_server_total r name unsupported e p = (none, refl)
apply_server_total r name map e p = cc

filter_names_total :
    (rules : List Rule) (l : List (List ℕ)) (filtered : List ℕ)
    → All IsExpanded rules
    → (r : Result (List ℕ)) × (filter_names rules l filtered ≡ done r)
unfolding filter_names
filter_names_total rules [] filtered a = (ok filtered, refl)
filter_names_total rules (name ∷ l) filtered a =
    let (o, e, f) = find_rule_total rules server name (λ e. cc e) a in
    go (λ d. filter_names_total rules l d a) o e f
  where
    go :
        ((d : List ℕ) → (r : Result (List ℕ)) × (filter_names rules l d ≡ done r))
        → (o : Outcome (Result Rule)) → find_rule rules server name ≡ o
        → Found rules server name o
        → (r : Result (List ℕ)) × (filter_names rules (name ∷ l) filtered ≡ done r)
    go rest _ e (one r v m) =
        let (x, f) =
          apply_server_total r name r.kind v.0
            (starts_with-length name r.prepend (has_prepend r name m)) in
        let (y, g) = rest (push_name filtered x) in (y, ground (arith, e, f, g))
    go rest _ e no = (err unterminated_mapping none, ground (arith, e))

-- With rules as the parser makes them, no list of names from the host causes a panic.
pub map_server_total :
    (rules : List Rule) (names : List ℕ)
    → All IsExpanded rules
    → (r : Result (List ℕ)) × (map_server_xattrlist rules names ≡ done r)
unfolding map_server_xattrlist
map_server_total rules names a =
    let (r, e) = filter_names_total rules (non_empty (split [] names)) [] a in
    (close_list r, ground (arith, e))
