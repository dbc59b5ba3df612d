-- ===== src/XattrMap/Parse/Valid.antt =====
-- What the parser makes of any text: that it ends, and rules that the translation can use.
use virtiofsd.Common.{
  ℕ, suc, ◌%◌, ◌<◌, false, ◌≡◌, ◌≢◌, refl, List, [], ◌∷◌, ◌==◌, length, arith, inl, inr, Bool-cases,
  All,
}
use virtiofsd.Common.Io.{Outcome, done}
use virtiofsd.XattrMap.{
  ErrorKind, Scope, all, Kind, map, prefix, okay, bad, unsupported, Rule, has_nul, c_string,
}
use virtiofsd.XattrMap.Parse.{
  Token, token, fault, push_byte, scope_from_bytes, kind_from_bytes, next_token, then_token,
  names_from, rule_of_kind, from_tokens,
}

-- A character that the parser does not cut to a NUL byte.
abbrev pub IsByteSafe : ℕ → Type 0
IsByteSafe ch = ch % 256 ≢ 0

-- What a token reader leaves: shorter than what it was given, and still safe.
pub data Read {A : Type 0} (V : A → Type 0) (n : ℕ) : Token (A × List ℕ) → Type 0 where
  got :
      (a : A) (left : List ℕ)
      → V a
      → length left < n
      → All IsByteSafe left
      → Read V n (token (a, left))
  bad_token : (e : ErrorKind) → Read V n (fault e)

push_byte-Read :
    (ch n : ℕ) (t : Token (List ℕ × List ℕ))
    → IsByteSafe ch
    → Read (λ bytes. has_nul bytes ≡ false) n t
    → Read (λ bytes. has_nul bytes ≡ false) (suc n) (push_byte ch t)
unfolding push_byte has_nul
push_byte-Read ch n _ s (got bytes left v l a) =
    got ((ch % 256) ∷ bytes) left (ground arith) (omega arith) a
push_byte-Read ch n _ s (bad_token e) = bad_token e

next_token-more :
    (delim ch : ℕ) (tokens : List ℕ)
    → (ch == delim) ≡ false
    → next_token delim (ch ∷ tokens) ≡ push_byte ch (next_token delim tokens)
unfolding next_token
next_token-more delim ch tokens e = rw e refl

next_token-Read :
    (delim : ℕ) (tokens : List ℕ)
    → All IsByteSafe tokens
    → Read (λ bytes. has_nul bytes ≡ false) (length tokens) (next_token delim tokens)
next_token-Read delim [] a = unfold next_token in bad_token _
next_token-Read delim (ch ∷ tokens) a = elim (Bool-cases (ch == delim)) [
  | inl e ↦ unfold next_token in rw e (got [] tokens (unfold has_nul in refl) (omega arith) a.1)
  | inr e ↦ rw (next_token-more delim ch tokens e) (
      push_byte-Read ch (length tokens) (next_token delim tokens) a.0
        (next_token-Read delim tokens a.1))
]

abbrev NoNul : List ℕ → Type 0
NoNul l = has_nul l ≡ false

weaken :
    {A : Type 0}
    → (V : A → Type 0) (n m : ℕ) {t : Token (A × List ℕ)} → m < n
    → Read V m t
    → Read V n t
weaken V n m l (got a left v l' s) = got a left v (omega arith) s
weaken V n m l (bad_token e) = bad_token e

-- The same of a reader that may panic, but does not.
pub data Reads {A : Type 0} (V : A → Type 0) (n : ℕ) : Outcome (Token (A × List ℕ)) → Type 0 where
  reads : (t : Token (A × List ℕ)) → Read V n t → Reads V n (done t)

c_string-clean : (l : List ℕ) → has_nul l ≡ false → c_string l ≡ done l
unfolding c_string
c_string-clean l e = rw e refl

then_token-Reads :
    {A B : Type 0} {W : B → Type 0}
    → (V : A → Type 0) (n : ℕ) (t : Token (A × List ℕ))
      (f : A × List ℕ → Outcome (Token (B × List ℕ)))
    → Read V n t
    → ((a : A) (left : List ℕ)
        → V a
        → length left < n
        → All IsByteSafe left
        → Reads W n (f (a, left)))
    → Reads W n (then_token t f)
then_token-Reads V n _ f (got a left v l s) g = g a left v l s
then_token-Reads V n _ f (bad_token e) g = reads (fault e) (bad_token e)

-- The strings of a rule are C strings.
abbrev pub IsClean : Rule → Type 0
IsClean r = (has_nul r.key ≡ false) × (has_nul r.prepend ≡ false)

names_from-Reads :
    (delim : ℕ) (kind : Kind) (scope : Scope) (n : ℕ) (tokens : List ℕ)
    → length tokens < n
    → All IsByteSafe tokens
    → Reads IsClean n (names_from delim kind scope tokens)
unfolding names_from
names_from-Reads delim kind scope n tokens l a =
    then_token-Reads NoNul n (next_token delim tokens) _
      (weaken NoNul n _ l (next_token-Read delim tokens a))
      λ key left v l' a'. rw (c_string-clean key v) (
        then_token-Reads NoNul n (next_token delim left) _
          (weaken NoNul n _ l' (next_token-Read delim left a'))
          λ prepend left' v' l'' a''.
            rw (c_string-clean prepend v') (reads _ (got _ left' (v, v') l'' a'')))

with_scope-Reads :
    (delim : ℕ) (kind : Kind) (n : ℕ) (tokens : List ℕ) (scope : Token Scope)
    → length tokens < n
    → All IsByteSafe tokens
    → Reads IsClean n (then_token scope λ scope. names_from delim kind scope tokens)
with_scope-Reads delim kind n tokens (token scope) l a =
    names_from-Reads delim kind scope n tokens l a
with_scope-Reads delim kind n tokens (fault e) l a = reads (fault e) (bad_token e)

scoped-Reads :
    (delim : ℕ) (kind : Kind) (n : ℕ) (tokens : List ℕ)
    → length tokens < n
    → All IsByteSafe tokens
    → Reads IsClean n (
        then_token (next_token delim tokens) λ (bytes, tokens).
          then_token (scope_from_bytes bytes) λ scope. names_from delim kind scope tokens)
scoped-Reads delim kind n tokens l a =
    then_token-Reads NoNul n (next_token delim tokens) _
      (weaken NoNul n _ l (next_token-Read delim tokens a))
      λ bytes left v l' a'. with_scope-Reads delim kind n left (scope_from_bytes bytes) l' a'

rule_of_kind-Reads :
    (delim : ℕ) (kind : Kind) (n : ℕ) (tokens : List ℕ)
    → length tokens < n
    → All IsByteSafe tokens
    → Reads IsClean n (rule_of_kind delim kind tokens)
unfolding rule_of_kind
rule_of_kind-Reads delim prefix n tokens l a = scoped-Reads delim prefix n tokens l a
rule_of_kind-Reads delim okay n tokens l a = scoped-Reads delim okay n tokens l a
rule_of_kind-Reads delim bad n tokens l a = scoped-Reads delim bad n tokens l a
rule_of_kind-Reads delim unsupported n tokens l a = scoped-Reads delim unsupported n tokens l a
rule_of_kind-Reads delim map n tokens l a = names_from-Reads delim map all n tokens l a

with_kind-Reads :
    (delim n : ℕ) (tokens : List ℕ) (kind : Token Kind)
    → length tokens < n
    → All IsByteSafe tokens
    → Reads IsClean n (then_token kind λ kind. rule_of_kind delim kind tokens)
with_kind-Reads delim n tokens (token kind) l a = rule_of_kind-Reads delim kind n tokens l a
with_kind-Reads delim n tokens (fault e) l a = reads (fault e) (bad_token e)

-- A rule that is read leaves fewer characters, and its strings are C strings.
pub from_tokens-Reads :
    (tokens : List ℕ) → All IsByteSafe tokens → Reads IsClean (length tokens) (from_tokens tokens)
unfolding from_tokens
from_tokens-Reads [] a = reads _ (bad_token _)
from_tokens-Reads (delim ∷ tokens) a =
    then_token-Reads NoNul (suc (length tokens)) (next_token delim tokens) _
      (weaken NoNul _ _ (omega arith) (next_token-Read delim tokens a.1))
      λ bytes left v l' a'. with_kind-Reads delim _ left (kind_from_bytes bytes) l' a'
