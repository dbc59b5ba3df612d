-- ===== src/XattrMap/Parse/Text.antt =====
-- The text of a rule, and that the parser reads it back.
use virtiofsd.Common.{
  ℕ, ◌<◌, false, ◌≡◌, ◌≢◌, refl, List, [], ◌∷◌, ◌++◌, if◌then◌else◌, ◌==◌, arith, All,
}
use virtiofsd.Common.Key.{bytes_key, cmp_bytes}
use virtiofsd.Common.Io.{done}
use virtiofsd.XattrMap.{
  Scope, client, server, all, Kind, map, prefix, okay, bad, unsupported, Rule, has_nul, c_string,
  is_map,
}
use virtiofsd.XattrMap.Parse.{
  client_text, server_text, all_text, prefix_text, ok_text, bad_text, unsupported_text, map_text,
  Token, token, push_byte, scope_from_bytes, kind_from_bytes, next_token, then_token, names_from,
  rule_of_kind, from_tokens,
}
use virtiofsd.XattrMap.Parse.Valid.{IsClean}

abbrev pub kind_text : Kind → List ℕ
kind_text prefix = prefix_text
kind_text okay = ok_text
kind_text bad = bad_text
kind_text unsupported = unsupported_text
kind_text map = map_text

abbrev pub scope_text : Scope → List ℕ
scope_text client = client_text
scope_text server = server_text
scope_text all = all_text

-- Bytes without the delimiter.
abbrev pub IsPlain : ℕ → List ℕ → Type 0
IsPlain delim l = All (λ c. (c ≢ delim) × (c < 256)) l

-- The key and the prepend, each ended by the delimiter, and what follows.
abbrev names_text : ℕ → Rule → List ℕ → List ℕ
names_text delim r rest = r.key ++ delim ∷ (r.prepend ++ delim ∷ rest)

-- The text of a rule that is no `map` rule, and what follows.
abbrev pub rule_text : ℕ → Rule → List ℕ → List ℕ
rule_text delim r rest =
    delim ∷ (kind_text r.kind ++ delim ∷ (scope_text r.scope ++ delim ∷ names_text delim r rest))

-- The text of a `map` rule, which has no scope.
abbrev pub map_rule_text : ℕ → Rule → List ℕ → List ℕ
map_rule_text delim r rest = delim ∷ (map_text ++ delim ∷ names_text delim r rest)

abbrev pub map_rule : List ℕ → List ℕ → Rule
map_rule key prepend = record { scope = all; kind = map; key = key; prepend = prepend }

next_token-append :
    (delim : ℕ) (l rest : List ℕ)
    → IsPlain delim l
    → next_token delim (l ++ delim ∷ rest) ≡ token (l, rest)
unfolding next_token push_byte
next_token-append delim [] rest p = ground arith
next_token-append delim (c ∷ l) rest p =
    more (next_token delim (l ++ delim ∷ rest)) (next_token-append delim l rest p.1)
  where
    more :
        (t : Token (List ℕ × List ℕ))
        → t ≡ token (l, rest)
        → (if c == delim then token ([], l ++ delim ∷ rest) else push_byte c t)
          ≡ token (c ∷ l, rest)
    more t e = ground (arith, e, p.0.0, p.0.1)

kind_from_bytes-text : (k : Kind) → kind_from_bytes (kind_text k) ≡ token k
unfolding kind_from_bytes cmp_bytes
kind_from_bytes-text prefix = refl
kind_from_bytes-text okay = refl
kind_from_bytes-text bad = refl
kind_from_bytes-text unsupported = refl
kind_from_bytes-text map = refl

scope_from_bytes-text : (s : Scope) → scope_from_bytes (scope_text s) ≡ token s
unfolding scope_from_bytes cmp_bytes
scope_from_bytes-text client = refl
scope_from_bytes-text server = refl
scope_from_bytes-text all = refl

c_string-kept : (l : List ℕ) → has_nul l ≡ false → c_string l ≡ done l
unfolding c_string
c_string-kept l e = rw e refl

names_from-text :
    (delim : ℕ) (r : Rule) (rest : List ℕ)
    → IsClean r
    → IsPlain delim r.key
    → IsPlain delim r.prepend
    → names_from delim r.kind r.scope (names_text delim r rest) ≡ done (token (r, rest))
unfolding names_from
names_from-text delim r rest c k p =
    rw
      (
        next_token-append delim r.key (r.prepend ++ delim ∷ rest) k,
        c_string-kept r.key c.0,
        next_token-append delim r.prepend rest p,
        c_string-kept r.prepend c.1,
      )
      refl

scoped-text :
    (delim : ℕ) (r : Rule) (kind : Kind) (rest : List ℕ)
    → is_map kind ≡ false
    → rule_of_kind delim kind rest
      ≡ then_token (next_token delim rest) (λ (bytes, tokens).
        then_token (scope_from_bytes bytes) λ scope. names_from delim kind scope tokens)
unfolding rule_of_kind is_map
scoped-text delim r prefix rest e = refl
scoped-text delim r okay rest e = refl
scoped-text delim r bad rest e = refl
scoped-text delim r unsupported rest e = refl
scoped-text delim r map rest e = cc

-- The text of a rule that is no `map` rule is read back as the rule, with what follows it left, if
-- the delimiter stands in none of its parts, and its key and its prepend are bytes without a NUL.
pub from_tokens-rule_text :
    (delim : ℕ) (r : Rule) (rest : List ℕ)
    → is_map r.kind ≡ false
    → IsClean r
    → IsPlain delim (kind_text r.kind)
    → IsPlain delim (scope_text r.scope)
    → IsPlain delim r.key
    → IsPlain delim r.prepend
    → from_tokens (rule_text delim r rest) ≡ done (token (r, rest))
unfolding from_tokens
from_tokens-rule_text delim r rest m c t s k p =
    rw
      (
        next_token-append delim (kind_text r.kind)
            (scope_text r.scope ++ delim ∷ names_text delim r rest) t,
        kind_from_bytes-text r.kind,
        scoped-text delim r r.kind (scope_text r.scope ++ delim ∷ names_text delim r rest) m,
        next_token-append delim (scope_text r.scope) (names_text delim r rest) s,
        scope_from_bytes-text r.scope,
      )
      (names_from-text delim r rest c k p)

-- The text of a `map` rule, which has no scope, is read back as the rule for both sides, with what
-- follows it left, if the delimiter stands in none of its parts, and its key and its prepend are bytes
-- without a NUL.
pub from_tokens-map_rule_text :
    (delim : ℕ) (key prepend rest : List ℕ)
    → IsClean (map_rule key prepend)
    → IsPlain delim map_text
    → IsPlain delim key
    → IsPlain delim prepend
    → from_tokens (map_rule_text delim (map_rule key prepend) rest)
      ≡ done (token (map_rule key prepend, rest))
unfolding from_tokens rule_of_kind
from_tokens-map_rule_text delim key prepend rest c t k p =
    rw
      (
        next_token-append delim map_text (names_text delim (map_rule key prepend) rest) t,
        kind_from_bytes-text map,
      )
      (names_from-text delim (map_rule key prepend) rest c k p)
