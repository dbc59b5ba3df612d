-- ===== src/Server/Extensions.antt =====
-- src/server.rs: the extensions behind the names of a request that creates a file.
use virtiofsd.Common.{
  ℕ, zero, suc, ◌+◌, ◌-◌, ◌*◌, ◌/◌, Option, none, some, List, [], ◌∷◌, Bool, true, false, ◌&&◌,
  ◌||◌, not, if◌then◌else◌, ltb, leb, ◌==◌, length, take, drop,
}
use virtiofsd.Fuse.Bytes.{Decode, u32}
use virtiofsd.Fuse.Requests.{read_ext_header, read_secctx, read_supp_groups}
use virtiofsd.FileSystem.{SecContext, Extensions}
use virtiofsd.Server.Result.{
  Result, ok, err, decode_message, missing_parameter, invalid_c_string2, invalid_header_length,
  missing_extension, ok_or, cstr, next_component,
}
use virtiofsd.Server.Options.{contains, security_ctx, create_supp_group}

infixl 5 ◌>>=◌
unfoldable pub ◌>>=◌ : {A B : Type 0} → Result A → (A → Result B) → Result B
ok a >>= f = f a
err e >>= f = err e

unfoldable pub require : Bool → Result (Unit {0})
require true = ok tt
require false = err decode_message

unfoldable pub take_object : {A : Type 0} → Decode A → List ℕ → Result (A × List ℕ)
take_object decode bytes = ok_or decode_message (decode bytes)

pub data ExtType : Type 0 where
  sec_ctx : ℕ → ExtType
  sup_groups : ExtType

unfoldable pub ext_type : ℕ → Result ExtType
ext_type value =
    if leb value 31
    then ok (sec_ctx value)
    else if value == 32
    then ok sup_groups
    else err decode_message

unfoldable pub one_security_context : List ℕ → Result (Option SecContext)
one_security_context bytes = do
  (secctx, bytes) ← take_object read_secctx bytes
  _ ← require (not (secctx.size == 0))
  (name, bytes) ← ok_or missing_parameter (next_component bytes)
  _ ← require (leb secctx.size (length bytes))
  name ← ok_or invalid_c_string2 (cstr name)
  ok (some (record { name = name; secctx = take secctx.size bytes }))

unfoldable pub parse_security_context : ℕ → List ℕ → Result (Option SecContext)
parse_security_context zero bytes = ok none
parse_security_context (suc zero) bytes = one_security_context bytes
parse_security_context (suc (suc n)) bytes = err decode_message

unfoldable pub take_groups : ℕ → List ℕ → Result (List ℕ)
take_groups zero bytes = ok []
take_groups (suc n) bytes = do
  (gid, bytes) ← take_object u32 bytes
  gids ← take_groups n bytes
  ok (gid ∷ gids)

abbrev pub next_multiple_of_8 : ℕ → ℕ
next_multiple_of_8 n = (n + 7) / 8 * 8

unfoldable pub parse_sup_groups : List ℕ → Result (List ℕ)
parse_sup_groups bytes = do
  (header, ids) ← take_object read_supp_groups bytes
  _ ← require (
      leb header.nr_groups 65536 && (length bytes == next_multiple_of_8 (4 + 4 * header.nr_groups)))
  take_groups header.nr_groups ids

-- What the loop keeps: whether a security context was received, and the extensions.
abbrev pub Parsed : Type 0
Parsed = Bool × Extensions

abbrev pub no_extensions : Extensions
no_extensions = record { secctx = none; sup_gids = [] }

unfoldable pub is_empty : List ℕ → Bool
is_empty [] = true
is_empty (_ ∷ _) = false

-- The arms of the `match` on the type.
unfoldable pub parse_extension : ℕ → ExtType → List ℕ → Parsed → Result Parsed
parse_extension options (sec_ctx nr_secctx) bytes (secctx_received, extensions) = do
  _ ← require (contains options security_ctx && not secctx_received)
  secctx ← parse_security_context nr_secctx bytes
  ok (true, record { secctx = secctx; sup_gids = extensions.sup_gids })
parse_extension options sup_groups bytes (secctx_received, extensions) = do
  _ ← require (contains options create_supp_group && is_empty extensions.sup_gids)
  sup_gids ← parse_sup_groups bytes
  ok (secctx_received, record { secctx = extensions.secctx; sup_gids = sup_gids })

-- One round of the loop, with the size of the extension's payload.
unfoldable pub parse_next : ℕ → List ℕ → Parsed → Result (ℕ × Parsed)
parse_next options buf parsed = do
  (header, bytes) ← take_object read_ext_header buf
  _ ← (if ltb header.size 8 then err invalid_header_length else ok tt)
  _ ← require (leb (header.size - 8) (length bytes))
  type ← ext_type header.ext_type
  parsed ← parse_extension options type (take (header.size - 8) bytes) parsed
  ok (header.size - 8, parsed)

-- The loop. After a round, `passed` more bytes belong to the extension that it read.
unfoldable pub parse_extensions : ℕ → ℕ → List ℕ → Parsed → Result Parsed
parse_extensions options passed [] parsed = ok parsed
parse_extensions options (suc passed) (b ∷ buf) parsed = parse_extensions options passed buf parsed
parse_extensions options zero (b ∷ buf) parsed = do
  (size, parsed) ← parse_next options (b ∷ buf) parsed
  parse_extensions options (7 + size) buf parsed

unfoldable pub check_received : ℕ → Parsed → Result Extensions
check_received options (secctx_received, extensions) =
    if contains options security_ctx && not secctx_received
    then err missing_extension
    else ok extensions

unfoldable pub get_extensions : ℕ → ℕ → List ℕ → Result Extensions
get_extensions options skip request_bytes =
    if contains options security_ctx || contains options create_supp_group
    then (do
      _ ← require (leb skip (length request_bytes))
      parsed ← parse_extensions options 0 (drop skip request_bytes) (false, no_extensions)
      check_received options parsed)
    else ok no_extensions
