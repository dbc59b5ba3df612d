-- ===== src/XattrMap.antt =====
-- src/passthrough/xattrmap.rs: the names of extended attributes, from the client to the host and
-- back. A name is its bytes without the NUL that ends it.
pub mod Listing
pub mod MapRule
pub mod Parse
pub mod Tests
pub mod Total
use virtiofsd.Common.{
  ℕ, zero, suc, ◌+◌, Bool, true, false, ◌&&◌, ◌||◌, not, ◌≡◌, Option, none, some, List, [], ◌∷◌,
  ◌++◌, if◌then◌else◌, ◌==◌, length, drop, ltb,
}
use virtiofsd.Common.Io.{Outcome, done, panic, ◌>>=◌}

-- `ErrorKind`, without the texts of the two that have them.
pub data ErrorKind : Type 0 where
  invalid_scope invalid_type invalid_delimiter incomplete_rule : ErrorKind
  map_rule_violation no_rules_provided unterminated_mapping : ErrorKind

-- `Error`: the cause, and the number of the rule.
pub data Result (A : Type 0) : Type 0 where
  ok : A → Result A
  err : ErrorKind → Option ℕ → Result A

-- The three values of the bit flags that the code makes.
pub data Scope : Type 0 where
  client server all : Scope

-- `Type`
pub data Kind : Type 0 where
  prefix okay bad unsupported map : Kind

pub record Rule : Type 0 where
  pub scope : Scope
  pub kind : Kind
  pub key : List ℕ
  pub prepend : List ℕ

-- `AppliedRule`
pub data AppliedRule : Type 0 where
  pass : List ℕ → AppliedRule
  deny not_supported : AppliedRule

-- `Scope::contains`, of the bit flags
unfoldable pub has_scope : Scope → Scope → Bool
has_scope all s = true
has_scope client client = true
has_scope server server = true
has_scope _ _ = false

unfoldable pub starts_with : List ℕ → List ℕ → Bool
starts_with name [] = true
starts_with [] (c ∷ p) = false
starts_with (b ∷ name) (c ∷ p) = (b == c) && starts_with name p

unfoldable pub matches_in : Rule → Scope → List ℕ → Outcome Bool
matches_in r client name = done (starts_with name r.key)
matches_in r server name = done (starts_with name r.prepend)
matches_in r all name = panic

-- `Rule::matches`
unfoldable pub matches : Rule → Scope → List ℕ → Outcome Bool
matches r s name = if has_scope r.scope s then matches_in r s name else done false

unfoldable pub find_rule : List Rule → Scope → List ℕ → Outcome (Result Rule)
find_rule [] s name = done (err unterminated_mapping none)
find_rule (r ∷ rules) s name = do
  found ← matches r s name
  elim found [ true ↦ done (ok r) | false ↦ find_rule rules s name ]

unfoldable pub has_nul : List ℕ → Bool
has_nul [] = false
has_nul (b ∷ l) = b == 0 || has_nul l

-- `CString::new(bytes).unwrap()`
unfoldable pub c_string : List ℕ → Outcome (List ℕ)
c_string l = if has_nul l then panic else done l

-- What a rule makes of a name from the client.
unfoldable pub apply_client : Rule → List ℕ → Kind → Outcome AppliedRule
apply_client r name okay = done (pass name)
apply_client r name bad = done deny
apply_client r name unsupported = done not_supported
apply_client r name prefix = do concat ← c_string (r.prepend ++ name); done (pass concat)
apply_client r name map = panic

unfoldable pub client_result : List ℕ → Result Rule → Outcome (Result AppliedRule)
client_result name (ok r) = do applied ← apply_client r name r.kind; done (ok applied)
client_result name (err e n) = done (err e n)

unfoldable pub map_client_xattr : List Rule → List ℕ → Outcome (Result AppliedRule)
map_client_xattr rules name = do rule ← find_rule rules client name; client_result name rule

-- `&name[n..]`, which panics beyond the end.
unfoldable pub slice_from : List ℕ → ℕ → Outcome (List ℕ)
slice_from l n = if ltb (length l) n then panic else done (drop n l)

-- What a rule makes of a name from the host: the name for the client, or none where it is hidden.
unfoldable pub apply_server : Rule → List ℕ → Kind → Outcome (Option (List ℕ))
apply_server r name bad = done none
apply_server r name unsupported = done none
apply_server r name okay = done (some name)
apply_server r name prefix = do stripped ← slice_from name (length r.prepend); done (some stripped)
apply_server r name map = panic

-- `split(|b| *b == 0)`, with the piece that is being read.
unfoldable pub split : List ℕ → List ℕ → List (List ℕ)
split piece [] = piece ∷ []
split piece (b ∷ l) = elim (b == 0) [
  | true ↦ piece ∷ split [] l
  | false ↦ split (piece ++ b ∷ []) l
]

unfoldable pub non_empty : List (List ℕ) → List (List ℕ)
non_empty [] = []
non_empty ([] ∷ l) = non_empty l
non_empty ((b ∷ piece) ∷ l) = (b ∷ piece) ∷ non_empty l

unfoldable pub push_name : List ℕ → Option (List ℕ) → List ℕ
push_name filtered none = filtered
push_name filtered (some processed) = filtered ++ (processed ++ 0 ∷ [])

-- The loop over the names.
unfoldable pub filter_names : List Rule → List (List ℕ) → List ℕ → Outcome (Result (List ℕ))
filter_names rules [] filtered = done (ok filtered)
filter_names rules (name ∷ unprocessed) filtered = do
  found ← find_rule rules server name
  elim found [
    | err e n ↦ done (err e n)
    | ok r ↦ do
      processed ← apply_server r name r.kind
      filter_names rules unprocessed (push_name filtered processed)
  ]

-- An empty list is one NUL.
unfoldable pub close_list : Result (List ℕ) → Result (List ℕ)
close_list (ok []) = ok (0 ∷ [])
close_list (ok (b ∷ l)) = ok (b ∷ l)
close_list (err e n) = err e n

unfoldable pub map_server_xattrlist : List Rule → List ℕ → Outcome (Result (List ℕ))
map_server_xattrlist rules names = do
  filtered ← filter_names rules (non_empty (split [] names)) []
  done (close_list filtered)

abbrev pub last_kind : List ℕ → Kind
last_kind [] = bad
last_kind (_ ∷ _) = okay

abbrev pub second_rule : List ℕ → List ℕ → List Rule
second_rule [] prepend = []
second_rule (c ∷ key) prepend =
    record { scope = all; kind = bad; key = prepend; prepend = c ∷ key } ∷ []

-- The rules that a `map` rule stands for.
unfoldable pub map_rules : List ℕ → List ℕ → List Rule
map_rules key prepend =
    record { scope = all; kind = prefix; key = key; prepend = prepend }
    ∷ (second_rule key prepend
        ++ record { scope = all; kind = last_kind key; key = []; prepend = [] } ∷ [])

unfoldable pub is_map : Kind → Bool
is_map map = true
is_map _ = false

-- `Rule::expand_map_type`, with its assertion.
unfoldable pub expand_map_type : Rule → Outcome (List Rule)
expand_map_type r = if is_map r.kind then done (map_rules r.key r.prepend) else panic
