-- ===== src/XattrMap/Parse.antt =====
-- src/passthrough/xattrmap.rs: the rules read from the command line, as the code points of its text.
pub mod Loop
pub mod Text
pub mod Valid
use virtiofsd.Common.{
  ℕ, zero, suc, ◌+◌, ◌%◌, Bool, true, false, ◌&&◌, ◌||◌, Option, none, some, List, [], ◌∷◌, ◌++◌,
  if◌then◌else◌, ◌==◌, leb, length,
}
use virtiofsd.Common.Key.{same, bytes_key}
use virtiofsd.Common.Io.{Outcome, done, panic, ◌>>=◌}
use virtiofsd.XattrMap.{
  ErrorKind, invalid_scope, invalid_type, invalid_delimiter, incomplete_rule, map_rule_violation,
  no_rules_provided, Result, ok, err, Scope, client, server, all, Kind, prefix, okay, bad,
  unsupported, map, Rule, c_string, expand_map_type, is_map,
}

abbrev pub client_text : List ℕ
client_text = b'c' ∷ b'l' ∷ b'i' ∷ b'e' ∷ b'n' ∷ b't' ∷ []

abbrev pub server_text : List ℕ
server_text = b's' ∷ b'e' ∷ b'r' ∷ b'v' ∷ b'e' ∷ b'r' ∷ []

abbrev pub all_text : List ℕ
all_text = b'a' ∷ b'l' ∷ b'l' ∷ []

abbrev pub prefix_text : List ℕ
prefix_text = b'p' ∷ b'r' ∷ b'e' ∷ b'f' ∷ b'i' ∷ b'x' ∷ []

abbrev pub ok_text : List ℕ
ok_text = b'o' ∷ b'k' ∷ []

abbrev pub bad_text : List ℕ
bad_text = b'b' ∷ b'a' ∷ b'd' ∷ []

abbrev pub unsupported_text : List ℕ
unsupported_text = b'u' ∷ b'n' ∷ b's' ∷ b'u' ∷ b'p' ∷ b'p' ∷ b'o' ∷ b'r' ∷ b't' ∷ b'e' ∷ b'd' ∷ []

abbrev pub map_text : List ℕ
map_text = b'm' ∷ b'a' ∷ b'p' ∷ []

-- `Result<_, ErrorKind>`
pub data Token (A : Type 0) : Type 0 where
  token : A → Token A
  fault : ErrorKind → Token A

-- `Scope::from_bytes`
unfoldable pub scope_from_bytes : List ℕ → Token Scope
scope_from_bytes bytes =
    if same bytes all_text
    then token all
    else if same bytes client_text
    then token client
    else if same bytes server_text
    then token server
    else fault invalid_scope

-- `Type::from_bytes`
unfoldable pub kind_from_bytes : List ℕ → Token Kind
kind_from_bytes bytes =
    if same bytes prefix_text
    then token prefix
    else if same bytes ok_text
    then token okay
    else if same bytes bad_text
    then token bad
    else if same bytes unsupported_text
    then token unsupported
    else if same bytes map_text
    then token map
    else fault invalid_type

-- `bytes.push(*ch as u8)`
unfoldable pub push_byte : ℕ → Token (List ℕ × List ℕ) → Token (List ℕ × List ℕ)
push_byte ch (token (bytes, left)) = token ((ch % 256) ∷ bytes, left)
push_byte ch (fault e) = fault e

-- `next_token`: what stands before the delimiter, each character cut to a byte, and what follows it.
unfoldable pub next_token : ℕ → List ℕ → Token (List ℕ × List ℕ)
next_token delim [] = fault incomplete_rule
next_token delim (ch ∷ tokens) =
    let rest = next_token delim tokens in
    if ch == delim then token ([], tokens) else push_byte ch rest

-- `?` of a token, in what may also panic.
abbrev pub then_token : {A B : Type 0} → Token A → (A → Outcome (Token B)) → Outcome (Token B)
then_token (token a) f = f a
then_token (fault e) f = done (fault e)

-- The key and the prepend, which end every rule.
unfoldable pub names_from : ℕ → Kind → Scope → List ℕ → Outcome (Token (Rule × List ℕ))
names_from delim kind scope tokens = then_token (next_token delim tokens) λ (key, tokens). do
  key' ← c_string key
  then_token (next_token delim tokens) λ (prepend, tokens). do
    prepend' ← c_string prepend
    done (token (record { scope = scope; kind = kind; key = key'; prepend = prepend' }, tokens))

unfoldable pub rule_of_kind : ℕ → Kind → List ℕ → Outcome (Token (Rule × List ℕ))
rule_of_kind delim map tokens = names_from delim map all tokens
rule_of_kind delim kind tokens = then_token (next_token delim tokens) λ (bytes, tokens).
    then_token (scope_from_bytes bytes) λ scope. names_from delim kind scope tokens

-- `Rule::from_tokens`, with the characters that are left.
unfoldable pub from_tokens : List ℕ → Outcome (Token (Rule × List ℕ))
from_tokens [] = done (fault invalid_delimiter)
from_tokens (delim ∷ tokens) =
    then_token (next_token delim tokens)
      λ (bytes, tokens). then_token (kind_from_bytes bytes) λ kind. rule_of_kind delim kind tokens

-- `char::is_ascii_whitespace`
unfoldable pub is_ascii_whitespace : ℕ → Bool
is_ascii_whitespace c = c == 32 || c == 9 || c == 10 || c == 12 || c == 13

-- `char::is_whitespace`: the White_Space property.
unfoldable pub is_whitespace : ℕ → Bool
is_whitespace c =
    (leb 9 c && leb c 13)
    || c == 32
    || c == 0x85
    || c == 0xA0
    || c == 0x1680
    || (leb 0x2000 c && leb c 0x200A)
    || c == 0x2028
    || c == 0x2029
    || c == 0x202F
    || c == 0x205F
    || c == 0x3000

unfoldable pub trim_start : List ℕ → List ℕ
trim_start [] = []
trim_start (c ∷ l) = let rest = trim_start l in if is_whitespace c then rest else c ∷ l

abbrev pub unless_blank : ℕ → List ℕ → List ℕ
unless_blank c [] = if is_whitespace c then [] else c ∷ []
unless_blank c (d ∷ l) = c ∷ d ∷ l

unfoldable pub trim_end : List ℕ → List ℕ
trim_end [] = []
trim_end (c ∷ l) = unless_blank c (trim_end l)

-- A round of the loop ends it, or goes on with the characters that are left and the rules so far.
pub data Round : Type 0 where
  stop : Outcome (Result (List Rule)) → Round
  again : List ℕ → List Rule → Round

unfoldable pub after_map_rule : List Rule → Rule → List ℕ → Round
after_map_rule rules rule (_ ∷ _) = stop (done (err map_rule_violation (some (length rules + 1))))
after_map_rule rules rule [] = elim (expand_map_type rule) [
  | done expanded ↦ again [] (rules ++ expanded)
  | panic ↦ stop panic
]

unfoldable pub after_rule : List Rule → Outcome (Token (Rule × List ℕ)) → Round
after_rule rules panic = stop panic
after_rule rules (done (fault e)) = stop (done (err e (some (length rules + 1))))
after_rule rules (done (token (rule, unparsed))) =
    if is_map rule.kind
    then after_map_rule rules rule unparsed
    else again unparsed (rules ++ rule ∷ [])

unfoldable pub round : List ℕ → List Rule → Round
round [] rules = stop (done (ok rules))
round (ch ∷ unparsed) rules =
    if is_ascii_whitespace ch
    then again unparsed rules
    else after_rule rules (from_tokens (ch ∷ unparsed))

-- The loop of `try_from`, on fuel: each round reads a character or more.
unfoldable pub parse_rules : ℕ → List ℕ → List Rule → Option (Outcome (Result (List Rule)))
parse_rules zero unparsed rules = none
parse_rules (suc fuel) unparsed rules = elim (round unparsed rules) [
  | stop r ↦ some r
  | again left more ↦ parse_rules fuel left more
]

unfoldable pub some_rules : Outcome (Result (List Rule)) → Outcome (Result (List Rule))
some_rules (done (ok [])) = done (err no_rules_provided none)
some_rules r = r

-- None where the fuel is not enough, which does not happen.
unfoldable pub try_from : List ℕ → Option (Outcome (Result (List Rule)))
try_from input =
    let trimmed = trim_end (trim_start input) in
    elim (parse_rules (suc (length trimmed)) trimmed []) [
      | none ↦ none
      | some r ↦ some (some_rules r)
    ]
