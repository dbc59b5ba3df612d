-- ===== src/XattrMap/MapRule.antt =====
-- The rules of a `map` rule: what the client can name, and that it reads back what it wrote.
use mathlib.Core.Path.{subst}
use virtiofsd.Common.{
  ap, ℕ, true, false, ◌≡◌, refl, some, List, [], ◌∷◌, ◌++◌, arith, inl, inr, Bool-cases,
  length-append, drop-append,
}
use virtiofsd.Common.Io.{Outcome, done}
use virtiofsd.XattrMap.{
  Result, ok, server, all, prefix, okay, Rule, AppliedRule, pass, deny, has_scope, starts_with,
  matches, matches_in, find_rule, has_nul, c_string, apply_client, client_result, map_client_xattr,
  slice_from, apply_server, map_rules,
}

pub starts_with-append : (p name : List ℕ) → starts_with (p ++ name) p ≡ true
unfolding starts_with
starts_with-append [] name = refl
starts_with-append (c ∷ p) name = ground (arith, starts_with-append p name)

-- How a name from the client is mapped by a `map` rule.
pub data Mapping (key prepend name : List ℕ) : Outcome (Result AppliedRule) → Type 0 where
  -- A name with the key goes to the host behind the prepend.
  prefixed :
      starts_with name key ≡ true → Mapping key prepend name (done (ok (pass (prepend ++ name))))
  -- Any other name goes unchanged, if there is a key and the name is not one of those behind the
  -- prepend.
  unchanged :
      starts_with name key ≡ false
      → starts_with name prepend ≡ false
      → Mapping key prepend name (done (ok (pass name)))
  denied :
      starts_with name key ≡ false
      → starts_with name prepend ≡ true
      → Mapping key prepend name (done (ok deny))

pub c_string-clean : (l : List ℕ) → has_nul l ≡ false → c_string l ≡ done l
unfolding c_string
c_string-clean l e = rw e refl

pub has_nul-append :
    (a b : List ℕ) → has_nul a ≡ false → has_nul b ≡ false → has_nul (a ++ b) ≡ false
unfolding has_nul
has_nul-append [] b p q = q
has_nul-append (c ∷ a) b p q = ground (arith, has_nul-append a b)

map_client-prefixed :
    (key prepend name : List ℕ)
    → has_nul prepend ≡ false
    → has_nul name ≡ false
    → starts_with name key ≡ true
    → map_client_xattr (map_rules key prepend) name ≡ done (ok (pass (prepend ++ name)))
unfolding map_client_xattr map_rules find_rule matches matches_in has_scope client_result
    apply_client
map_client-prefixed key prepend name p q e =
    ground (arith, e, c_string-clean (prepend ++ name) (has_nul-append prepend name p q))

map_client-denied :
    (key prepend name : List ℕ)
    → starts_with name key ≡ false
    → starts_with name prepend ≡ true
    → map_client_xattr (map_rules key prepend) name ≡ done (ok deny)
unfolding map_client_xattr map_rules find_rule matches matches_in has_scope client_result
    apply_client
map_client-denied [] prepend name e f = unfold starts_with in cc
map_client-denied (c ∷ key) prepend name e f = ground (arith, e, f)

map_client-unchanged :
    (key prepend name : List ℕ)
    → starts_with name key ≡ false
    → starts_with name prepend ≡ false
    → map_client_xattr (map_rules key prepend) name ≡ done (ok (pass name))
unfolding map_client_xattr map_rules find_rule matches matches_in has_scope client_result
    apply_client
map_client-unchanged [] prepend name e f = unfold starts_with in cc
map_client-unchanged (c ∷ key) prepend name e f = unfold starts_with in ground (arith, e, f)

-- A `map` rule maps every name from the client, without a panic: with the key to the name behind
-- the prepend; without it to itself, unless the name stands behind the prepend, which is denied.
pub map_client_exact :
    (key prepend name : List ℕ)
    → has_nul prepend ≡ false
    → has_nul name ≡ false
    → Mapping key prepend name (map_client_xattr (map_rules key prepend) name)
map_client_exact key prepend name p q = elim (Bool-cases (starts_with name key)) [
  | inl e ↦ rw (map_client-prefixed key prepend name p q e) (prefixed e)
  | inr e ↦ elim (Bool-cases (starts_with name prepend)) [
    | inl f ↦ rw (map_client-denied key prepend name e f) (denied e f)
    | inr f ↦ rw (map_client-unchanged key prepend name e f) (unchanged e f)
  ]
]

-- With a `map` rule, the client reaches a host name behind the prepend only by a name with the key,
-- which the prepend is put before.
pub map_client_confined :
    (key prepend name host : List ℕ)
    → has_nul prepend ≡ false
    → has_nul name ≡ false
    → map_client_xattr (map_rules key prepend) name ≡ done (ok (pass host))
    → starts_with host prepend ≡ true
    → (host ≡ prepend ++ name) × (starts_with name key ≡ true)
map_client_confined key prepend name host p q e b =
    go (map_client_xattr (map_rules key prepend) name) e (map_client_exact key prepend name p q)
  where
    go :
        (r : Outcome (Result AppliedRule))
        → r ≡ done (ok (pass host))
        → Mapping key prepend name r
        → (host ≡ prepend ++ name) × (starts_with name key ≡ true)
    go _ e (prefixed k) = (cc, k)
    go _ e (unchanged k f) =
        let h : name ≡ host = cc in cc (b, f, ap (λ n. starts_with n prepend) h)
    go _ e (denied k f) = cc

-- The name that the host's name is listed under.
listed_prefixed :
    (key prepend name : List ℕ)
    → (r : Rule) × (find_rule (map_rules key prepend) server (prepend ++ name) ≡ done (ok r))
      × (apply_server r (prepend ++ name) r.kind ≡ done (some name))
unfolding map_rules find_rule matches matches_in has_scope apply_server slice_from
listed_prefixed key prepend name = (
  record { scope = all; kind = prefix; key = key; prepend = prepend },
  ground (arith, starts_with-append prepend name),
  ground (arith, length-append prepend name, drop-append prepend name),
)

listed_unchanged :
    (key prepend name : List ℕ)
    → starts_with name key ≡ false
    → starts_with name prepend ≡ false
    → (r : Rule) × (find_rule (map_rules key prepend) server name ≡ done (ok r))
      × (apply_server r name r.kind ≡ done (some name))
unfolding map_rules find_rule matches matches_in has_scope apply_server
listed_unchanged [] prepend name e f = unfold starts_with in cc
listed_unchanged (c ∷ key) prepend name e f = (
  record { scope = all; kind = okay; key = []; prepend = [] },
  unfold starts_with in ground (arith, e, f),
  refl,
)

-- A host name that the client wrote under a name is listed under that name.
pub listed_as_written :
    (key prepend name host : List ℕ)
    → has_nul prepend ≡ false
    → has_nul name ≡ false
    → map_client_xattr (map_rules key prepend) name ≡ done (ok (pass host))
    → (r : Rule) × (find_rule (map_rules key prepend) server host ≡ done (ok r))
      × (apply_server r host r.kind ≡ done (some name))
listed_as_written key prepend name host p q e =
    go (map_client_xattr (map_rules key prepend) name) e (map_client_exact key prepend name p q)
  where
    Listed : List ℕ → Type 0
    Listed h =
        (r : Rule) × (find_rule (map_rules key prepend) server h ≡ done (ok r))
        × (apply_server r h r.kind ≡ done (some name))

    go :
        (r : Outcome (Result AppliedRule))
        → r ≡ done (ok (pass host))
        → Mapping key prepend name r
        → Listed host
    go _ e (prefixed k) =
        let h : prepend ++ name ≡ host = cc in subst Listed h (listed_prefixed key prepend name)
    go _ e (unchanged k f) =
        let h : name ≡ host = cc in subst Listed h (listed_unchanged key prepend name k f)
    go _ e (denied k f) = cc
