-- ===== src/Server/ExtensionPayloads.antt =====
-- The payloads of the extensions in src/server.rs, read back.
use virtiofsd.Common.{
  ◌≡◌, ◌≢◌, refl, ap, ◌∙◌, ℕ, ◌+◌, ◌-◌, ◌*◌, ◌^◌, ◌≤◌, ◌<◌, some, List, [], ◌∷◌, ◌++◌, length,
  length-append, All, false, ◌==◌, arith,
}
use mathlib.Core.List.{append_assoc}
use virtiofsd.Fuse.Bytes.{le_bytes, length-le_bytes, uint-le_bytes, u32, bind-some}
use virtiofsd.Fuse.Requests.{read_secctx, read_supp_groups}
use virtiofsd.FileSystem.{SecContext}
use virtiofsd.Server.Dirents.{zeros}
use virtiofsd.Server.Added.{length-zeros}
use virtiofsd.Server.Result.{
  ok, decode_message, missing_parameter, invalid_c_string2, ok_or, cstr, next_component, until_nul,
}
use virtiofsd.Server.Extensions.{
  take_object, one_security_context, parse_security_context, take_groups, next_multiple_of_8,
  parse_sup_groups,
}
use virtiofsd.Server.ExtensionBytes.{
  context_payload, gid_bytes, groups_payload, bind-ok, require-true, take-length,
}

until_nul-name :
    (name rest : List ℕ)
    → All (λ b. b ≢ 0) name
    → until_nul (name ++ (0 ∷ rest)) ≡ (name ++ (0 ∷ []), rest)
unfolding until_nul
until_nul-name [] rest no_nul = refl
until_nul-name (b ∷ name) rest (b_not, no_nul) =
    let not_nul : (b == 0) ≡ false = ground arith in
    rw (not_nul, until_nul-name name rest no_nul) refl

next_component-name :
    (name rest : List ℕ)
    → All (λ b. b ≢ 0) name
    → next_component (name ++ (0 ∷ rest)) ≡ some (name ++ (0 ∷ []), rest)
unfolding next_component
next_component-name [] rest no_nul = ap some (until_nul-name [] rest no_nul)
next_component-name (b ∷ name) rest no_nul = ap some (until_nul-name (b ∷ name) rest no_nul)

cstr-name : (name : List ℕ) → All (λ b. b ≢ 0) name → cstr (name ++ (0 ∷ [])) ≡ some name
unfolding cstr
cstr-name [] no_nul = refl
cstr-name (b ∷ []) (b_not, no_nul) =
    let not_nul : (b == 0) ≡ false = ground arith in rw not_nul refl
cstr-name (b ∷ c ∷ name) (b_not, no_nul) =
    let not_nul : (b == 0) ≡ false = ground arith in rw (not_nul, cstr-name (c ∷ name) no_nul) refl

-- What a guest may send as a security context.
pub record IsContext (c : SecContext) : Type 0 where
  pub no_nul : All (λ b. b ≢ 0) c.name
  pub some_bytes : 0 < length c.secctx
  pub small : length c.secctx < 2 ^ 32

pub parse_security_context-payload :
    (c : SecContext) (padding : List ℕ)
    → IsContext c
    → parse_security_context 1 (context_payload c padding) ≡ ok (some c)
unfolding parse_security_context one_security_context context_payload take_object ok_or read_secctx
parse_security_context-payload c padding is =
    let size = length c.secctx in
    let header =
      bind-some u32 _ _ _ size (uint-le_bytes 4 size _ (omega (arith, is.small)))
      ∙ bind-some u32 _ _ _ 0 (uint-le_bytes 4 0 _ (omega arith)) in
    bind-ok _ (ap (ok_or decode_message) header) (
      bind-ok _ (require-true (ground (arith, is.some_bytes))) (
        bind-ok _
          (ap (ok_or missing_parameter)
            (next_component-name c.name (c.secctx ++ padding) is.no_nul))
          (bind-ok _ (require-true (ground (arith, length-append c.secctx padding))) (
            bind-ok _ (ap (ok_or invalid_c_string2) (cstr-name c.name is.no_nul)) (
              ap (λ l. ok (some (record { name = c.name; secctx = l })))
                (take-length c.secctx padding))))))

length-gid_bytes : (gids : List ℕ) → length (gid_bytes gids) ≡ 4 * length gids
unfolding gid_bytes
length-gid_bytes [] = refl
length-gid_bytes (gid ∷ gids) = omega (
  arith,
  length-append (le_bytes 4 gid) (gid_bytes gids),
  length-le_bytes 4 gid,
  length-gid_bytes gids,
)

take_groups-gid_bytes :
    (gids rest : List ℕ)
    → All (λ gid. gid < 2 ^ 32) gids
    → take_groups (length gids) (gid_bytes gids ++ rest) ≡ ok gids
unfolding take_groups gid_bytes take_object ok_or
take_groups-gid_bytes [] rest small = refl
take_groups-gid_bytes (gid ∷ gids) rest (gid_small, small) =
    let front = append_assoc (le_bytes 4 gid) (gid_bytes gids) rest in
    bind-ok _
      (ap (ok_or decode_message)
        (ap u32 front ∙ uint-le_bytes 4 gid (gid_bytes gids ++ rest) (omega arith)))
      (bind-ok _ (take_groups-gid_bytes gids rest small) refl)

pub length-groups_payload :
    (gids : List ℕ) → length (groups_payload gids) ≡ next_multiple_of_8 (4 + 4 * length gids)
unfolding groups_payload
length-groups_payload gids =
    let size = 4 + 4 * length gids in
    let pad = zeros (next_multiple_of_8 size - size) in
    omega (
      arith,
      length-append (le_bytes 4 (length gids)) (gid_bytes gids ++ pad),
      length-le_bytes 4 (length gids),
      length-append (gid_bytes gids) pad,
      length-gid_bytes gids,
      length-zeros (next_multiple_of_8 size - size),
    )

pub parse_sup_groups-payload :
    (gids : List ℕ)
    → All (λ gid. gid < 2 ^ 32) gids
    → length gids ≤ 65536
    → parse_sup_groups (groups_payload gids) ≡ ok gids
unfolding parse_sup_groups take_object read_supp_groups groups_payload ok_or
parse_sup_groups-payload gids small few =
    bind-ok _
      (ap (ok_or decode_message)
        (bind-some u32 _ _ _ (length gids) (uint-le_bytes 4 (length gids) _ (omega arith))))
      (bind-ok _ (require-true (ground (arith, length-groups_payload gids)))
        (take_groups-gid_bytes gids _ small))
