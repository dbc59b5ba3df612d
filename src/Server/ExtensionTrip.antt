-- ===== src/Server/ExtensionTrip.antt =====
-- `get_extensions` of src/server.rs gives back the extensions that a guest sent.
use virtiofsd.Common.{
  ◌≡◌, refl, sym, ap, ◌∙◌, ℕ, ◌^◌, ◌≤◌, ◌<◌, Option, none, some, List, [], ◌∷◌, ◌++◌, length,
  length-append, drop-append, All, true, false, arith,
}
use mathlib.Core.List.{append-nil}
use virtiofsd.FileSystem.{SecContext, Extensions}
use virtiofsd.Server.Result.{ok}
use virtiofsd.Server.Options.{contains, security_ctx, create_supp_group}
use virtiofsd.Server.Extensions.{
  ◌>>=◌, sec_ctx, sup_groups, ext_type, parse_security_context, no_extensions, is_empty,
  parse_extension, parse_extensions, check_received, get_extensions,
}
use virtiofsd.Server.ExtensionBytes.{
  context_payload, groups_payload, context_extension, groups_extension, extension_bytes,
  parse_extensions-extension, bind-ok, require-true,
}
use virtiofsd.Server.ExtensionPayloads.{
  IsContext, parse_security_context-payload, length-groups_payload, parse_sup_groups-payload,
}

-- What a guest may send as extensions, with the bytes that pad the security context.
pub record IsSendable (e : Extensions) (padding : List ℕ) : Type 0 where
  pub context : (c : SecContext) → e.secctx ≡ some c → IsContext c
  pub context_small :
      (c : SecContext) → e.secctx ≡ some c → length (context_payload c padding) < 2 ^ 31
  pub gids_small : All (λ gid. gid < 2 ^ 32) e.sup_gids
  pub few : length e.sup_gids ≤ 65536

module _ (options : ℕ) (with_context : contains options security_ctx ≡ true)
    (with_groups : contains options create_supp_group ≡ true) where
  context-read :
      (c : Option SecContext) (padding rest : List ℕ)
      → ((c' : SecContext) → c ≡ some c' → IsContext c')
      → ((c' : SecContext) → c ≡ some c' → length (context_payload c' padding) < 2 ^ 31)
      → parse_extensions options 0 (context_extension c padding ++ rest) (false, no_extensions)
        ≡ parse_extensions options 0 rest (true, record { secctx = c; sup_gids = [] })
  unfolding context_extension parse_extension parse_security_context ext_type ◌>>=◌
  context-read none padding rest is small =
      parse_extensions-extension options 0 [] rest (sec_ctx 0) _ _ (omega arith) (omega arith) refl
        (bind-ok _ (require-true (ground (arith, with_context))) refl)
  context-read (some c) padding rest is small =
      parse_extensions-extension options 1 (context_payload c padding) rest (sec_ctx 1) _ _
        (omega (arith, small c refl)) (omega arith) refl
        (bind-ok _ (require-true (ground (arith, with_context)))
          (bind-ok _ (parse_security_context-payload c padding (is c refl)) refl))

  groups-read :
      (gids : List ℕ) (secctx : Option SecContext)
      → All (λ gid. gid < 2 ^ 32) gids
      → length gids ≤ 65536
      → parse_extensions options 0
          (groups_extension gids)
          (true, record { secctx = secctx; sup_gids = [] })
        ≡ ok (true, record { secctx = secctx; sup_gids = gids })
  unfolding groups_extension parse_extension parse_extensions ext_type is_empty
  groups-read [] secctx small few = refl
  groups-read (gid ∷ gids) secctx small few =
      ap (λ l. parse_extensions options 0 l (true, record { secctx = secctx; sup_gids = [] }))
        (sym (append-nil _))
      ∙ parse_extensions-extension options 32 (groups_payload (gid ∷ gids)) [] sup_groups
          (true, record { secctx = secctx; sup_gids = [] }) _
          (omega (arith, length-groups_payload (gid ∷ gids))) (omega arith) refl
          (bind-ok _ (require-true (ground (arith, with_groups)))
            (bind-ok _ (parse_sup_groups-payload (gid ∷ gids) small few) refl))

  -- Where both flags are negotiated, the extensions that a guest sends behind the names of a request
  -- are the ones that `get_extensions` reads: a security context with a name without NUL and with
  -- some bytes, or an empty one, padded with any bytes and shorter than 2 ^ 31, and at most 65536
  -- groups of 32 bits.
  pub get_extensions-sent :
      (names padding : List ℕ) (e : Extensions)
      → IsSendable e padding
      → get_extensions options (length names) (names ++ extension_bytes e padding) ≡ ok e
  unfolding get_extensions extension_bytes check_received
  get_extensions-sent names padding e is = rw with_context (
      bind-ok _ (require-true (ground (arith, length-append names (extension_bytes e padding)))) (
        bind-ok _
          (ap (λ l. parse_extensions options 0 l (false, no_extensions))
              (drop-append names (extension_bytes e padding))
            ∙ context-read e.secctx padding (groups_extension e.sup_gids) is.context
                is.context_small
            ∙ groups-read e.sup_gids e.secctx is.gids_small is.few)
          refl))
