-- ===== src/XattrMap/Listing.antt =====
-- Lists of names, each ended by a NUL, as `listxattr` returns them.
use mathlib.Core.List.{append_assoc, append-nil}
use virtiofsd.Common.{sym, ◌∙◌, ap, ℕ, false, ◌≡◌, ◌≢◌, refl, List, [], ◌∷◌, ◌++◌, arith, All}
use virtiofsd.Common.Io.{done}
use virtiofsd.XattrMap.{
  ok, pass, has_nul, map_client_xattr, map_rules, split, non_empty, push_name, filter_names,
  close_list, map_server_xattrlist,
}
use virtiofsd.XattrMap.MapRule.{listed_as_written}

-- Names as the host lists them.
unfoldable pub encode : List (List ℕ) → List ℕ
encode [] = []
encode (name ∷ l) = name ++ 0 ∷ encode l

-- A name from the client with the name that the host has for it.
abbrev pub Written : List ℕ → List ℕ → List ℕ × List ℕ → Type 0
Written key prepend (name, host) =
    (map_client_xattr (map_rules key prepend) name ≡ done (ok (pass host)))
    × (has_nul name ≡ false)
    × (has_nul host ≡ false)
    × (host ≢ [])

unfoldable pub names : List (List ℕ × List ℕ) → List (List ℕ)
names [] = []
names ((name, host) ∷ l) = name ∷ names l

unfoldable pub hosts : List (List ℕ × List ℕ) → List (List ℕ)
hosts [] = []
hosts ((name, host) ∷ l) = host ∷ hosts l

split-encode :
    (piece name rest : List ℕ)
    → has_nul name ≡ false
    → split piece (name ++ 0 ∷ rest) ≡ (piece ++ name) ∷ split [] rest
unfolding split has_nul
split-encode piece [] rest e = ap (λ p. p ∷ split [] rest) (sym (append-nil piece))
split-encode piece (b ∷ name) rest e =
    ground (arith, split-encode (piece ++ b ∷ []) name rest, append_assoc piece (b ∷ []) name)

non_empty-keep :
    (name : List ℕ) (l : List (List ℕ)) → name ≢ [] → non_empty (name ∷ l) ≡ name ∷ non_empty l
unfolding non_empty
non_empty-keep [] l d = absurd (d refl)
non_empty-keep (b ∷ name) l d = refl

pieces :
    (key prepend : List ℕ) (l : List (List ℕ × List ℕ))
    → All (Written key prepend) l
    → non_empty (split [] (encode (hosts l))) ≡ hosts l
unfolding encode hosts
pieces key prepend [] a = unfold split non_empty in refl
pieces key prepend ((name, host) ∷ l) a = rw (split-encode [] host (encode (hosts l)) a.0.2) (
    non_empty-keep host (split [] (encode (hosts l))) a.0.3
    ∙ ap (λ r. host ∷ r) (pieces key prepend l a.1))

filtered :
    (key prepend : List ℕ) (l : List (List ℕ × List ℕ)) (done_so_far : List ℕ)
    → has_nul prepend ≡ false
    → All (Written key prepend) l
    → filter_names (map_rules key prepend) (hosts l) done_so_far
      ≡ done (ok (done_so_far ++ encode (names l)))
unfolding filter_names hosts names encode push_name
filtered key prepend [] d p a = ap (λ r. done (ok r)) (sym (append-nil d))
filtered key prepend ((name, host) ∷ l) d p a =
    let (r, e, f) = listed_as_written key prepend name host p a.0.1 a.0.0 in
    rw (e, f)
      (filtered key prepend l (d ++ (name ++ 0 ∷ [])) p a.1
        ∙ ap (λ r. done (ok r))
            (append_assoc d (name ++ 0 ∷ []) (encode (names l))
              ∙ ap (λ r. d ++ r) (append_assoc name (0 ∷ []) (encode (names l)))))

-- With a `map` rule, the host names of attributes that the client wrote, none of them empty, are
-- listed to the client as the names that it wrote, in the same order.
pub map_server-Written :
    (key prepend : List ℕ) (l : List (List ℕ × List ℕ))
    → has_nul prepend ≡ false
    → All (Written key prepend) l
    → map_server_xattrlist (map_rules key prepend) (encode (hosts l))
      ≡ done (close_list (ok (encode (names l))))
unfolding map_server_xattrlist
map_server-Written key prepend l p a =
    rw (pieces key prepend l a, filtered key prepend l [] p a) refl
