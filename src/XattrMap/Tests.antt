-- ===== src/XattrMap/Tests.antt =====
-- The translation on small maps, and the theorems applied to them.
use virtiofsd.Common.{ℕ, ◌≡◌, refl, true, some, List, [], ◌∷◌, ◌++◌, arith}
use virtiofsd.Common.Io.{done}
use virtiofsd.Common.Key.{cmp_bytes}
use virtiofsd.XattrMap.{
  Result, ok, all, prefix, Rule, AppliedRule, pass, deny, apply_client, c_string, client_result,
  close_list, expand_map_type, find_rule, has_nul, has_scope, is_map, map_client_xattr, map_rules,
  map_server_xattrlist, matches, matches_in, starts_with,
}
use virtiofsd.XattrMap.MapRule.{Mapping, map_client_exact, map_client_confined}
use virtiofsd.XattrMap.Listing.{encode, names, hosts, map_server-Written}
use virtiofsd.XattrMap.Total.{map_client_total, map_server_total}
use virtiofsd.XattrMap.Parse.{
  token, after_map_rule, after_rule, from_tokens, is_ascii_whitespace, is_whitespace,
  kind_from_bytes, names_from, next_token, parse_rules, push_byte, round, rule_of_kind,
  scope_from_bytes, some_rules, trim_end, trim_start, try_from,
}
use virtiofsd.XattrMap.Parse.Loop.{Usable, try_from_total}
use virtiofsd.XattrMap.Parse.Text.{
  rule_text, map_rule_text, map_rule, from_tokens-rule_text, from_tokens-map_rule_text,
}

abbrev key : List ℕ
key = b't' ∷ b'.' ∷ []

abbrev prepend : List ℕ
prepend = b'u' ∷ b'.' ∷ []

abbrev name : List ℕ
name = b't' ∷ b'.' ∷ b'a' ∷ []

map_client_exact_example : Mapping key prepend name (map_client_xattr (map_rules key prepend) name)
unfolding has_nul
map_client_exact_example = map_client_exact key prepend name refl refl

written : map_client_xattr (map_rules key prepend) name ≡ done (ok (pass (prepend ++ name)))
unfolding map_client_xattr map_rules find_rule matches matches_in has_scope client_result
    apply_client c_string has_nul starts_with
written = refl

map_client_confined_example : (prepend ++ name ≡ prepend ++ name) × (starts_with name key ≡ true)
unfolding has_nul starts_with
map_client_confined_example =
    map_client_confined key prepend name (prepend ++ name) refl refl written refl

-- A name behind the prepend is denied to the client.
behind : map_client_xattr (map_rules key prepend) (prepend ++ name) ≡ done (ok deny)
unfolding written
behind = refl

abbrev files : List (List ℕ × List ℕ)
files = (name, prepend ++ name) ∷ []

map_server-Written_example :
    map_server_xattrlist (map_rules key prepend) (encode (hosts files))
    ≡ done (close_list (ok (encode (names files))))
unfolding has_nul
map_server-Written_example =
    map_server-Written key prepend files refl ((written, refl, refl, λ e. cc e), tt)

abbrev rule : Rule
rule = record { scope = all; kind = prefix; key = key; prepend = prepend }

map_client_total_example : (r : Result AppliedRule) × (map_client_xattr (rule ∷ []) name ≡ done r)
unfolding has_nul is_map
map_client_total_example = map_client_total (rule ∷ []) name ((refl, refl, refl), tt) refl

map_server_total_example :
    (r : Result (List ℕ)) × (map_server_xattrlist (rule ∷ []) (prepend ++ 0 ∷ []) ≡ done r)
unfolding has_nul is_map
map_server_total_example = map_server_total (rule ∷ []) (prepend ++ 0 ∷ []) ((refl, refl, refl), tt)

-- A space, and `:map:t.:u.:`.
abbrev input : List ℕ
input = b' ' ∷ map_rule_text b':' (map_rule key prepend) []

try_from_total_example : (r : Result (List Rule)) × (try_from input ≡ some (done r)) × Usable r
try_from_total_example = try_from_total input (omega arith)

parsed_input : try_from input ≡ some (done (ok (map_rules key prepend)))
unfolding cmp_bytes after_map_rule after_rule from_tokens is_ascii_whitespace is_whitespace
    kind_from_bytes names_from next_token parse_rules push_byte round rule_of_kind scope_from_bytes
    some_rules trim_end trim_start try_from expand_map_type is_map map_rules c_string has_nul
parsed_input = refl

from_tokens-rule_text_example :
    from_tokens (rule_text b':' rule (b'x' ∷ [])) ≡ done (token (rule, b'x' ∷ []))
unfolding has_nul is_map
from_tokens-rule_text_example =
    from_tokens-rule_text b':' rule (b'x' ∷ []) refl (refl, refl) (omega arith) (omega arith)
      (omega arith) (omega arith)

from_tokens-map_rule_text_example :
    from_tokens (map_rule_text b':' (map_rule key prepend) [])
    ≡ done (token (map_rule key prepend, []))
unfolding has_nul
from_tokens-map_rule_text_example =
    from_tokens-map_rule_text b':' key prepend [] (refl, refl) (omega arith) (omega arith)
      (omega arith)
