-- ===== src/Server/ExtensionBytes.antt =====
-- The extensions as a guest sends them, and that `get_extensions` of src/server.rs reads them back.
use virtiofsd.Common.{
  ◌≡◌, refl, ap, ◌∙◌, ℕ, ◌+◌, ◌-◌, ◌*◌, ◌^◌, ◌<◌, Option, none, some, List, [], ◌∷◌, ◌++◌, length,
  take, drop, length-append, Bool, true, arith,
}
use mathlib.Core.List.{append_assoc}
use virtiofsd.Fuse.Bytes.{le_bytes, uint-le_bytes, u32, bind-some}
use virtiofsd.Fuse.Requests.{read_ext_header}
use virtiofsd.FileSystem.{SecContext, Extensions}
use virtiofsd.Server.Dirents.{zeros}
use virtiofsd.Server.Result.{Result, decode_message, ok, ok_or}
use virtiofsd.Server.Extensions.{
  ◌>>=◌, require, take_object, ExtType, ext_type, next_multiple_of_8, Parsed, parse_extension,
  parse_next, parse_extensions,
}

-- An extension: its size, its type and its payload.
unfoldable pub extension : ℕ → List ℕ → List ℕ
extension type payload = le_bytes 4 (8 + length payload) ++ (le_bytes 4 type ++ payload)

-- A security context, with the bytes that pad it.
unfoldable pub context_payload : SecContext → List ℕ → List ℕ
context_payload c padding =
    le_bytes 4 (length c.secctx) ++ (le_bytes 4 0 ++ (c.name ++ (0 ∷ (c.secctx ++ padding))))

unfoldable pub gid_bytes : List ℕ → List ℕ
gid_bytes [] = []
gid_bytes (gid ∷ gids) = le_bytes 4 gid ++ gid_bytes gids

-- Groups, padded to a multiple of 8 bytes.
unfoldable pub groups_payload : List ℕ → List ℕ
groups_payload gids =
    let size = 4 + 4 * length gids in
    le_bytes 4 (length gids) ++ (gid_bytes gids ++ zeros (next_multiple_of_8 size - size))

-- Without a security context an empty one is sent, without groups no extension of them.
unfoldable pub context_extension : Option SecContext → List ℕ → List ℕ
context_extension none padding = extension 0 []
context_extension (some c) padding = extension 1 (context_payload c padding)

unfoldable pub groups_extension : List ℕ → List ℕ
groups_extension [] = []
groups_extension (gid ∷ gids) = extension 32 (groups_payload (gid ∷ gids))

unfoldable pub extension_bytes : Extensions → List ℕ → List ℕ
extension_bytes e padding = context_extension e.secctx padding ++ groups_extension e.sup_gids

read_ext_header-bytes :
    (size type : ℕ) (rest : List ℕ)
    → size < 2 ^ 32
    → type < 2 ^ 32
    → read_ext_header (le_bytes 4 size ++ (le_bytes 4 type ++ rest))
      ≡ some (record { size = size; ext_type = type }, rest)
unfolding read_ext_header
read_ext_header-bytes size type rest s t =
    bind-some u32 _ _ _ size (uint-le_bytes 4 size (le_bytes 4 type ++ rest) (omega arith))
    ∙ bind-some u32 _ _ _ type (uint-le_bytes 4 type rest (omega arith))

pub take-length : {A : Type 0} (xs ys : List A) → take (length xs) (xs ++ ys) ≡ xs
take-length [] ys = refl
take-length (x ∷ xs) ys = ap (λ l. x ∷ l) (take-length xs ys)

passed_over :
    (options : ℕ) (xs rest : List ℕ) (parsed : Parsed)
    → parse_extensions options (length xs) (xs ++ rest) parsed
      ≡ parse_extensions options 0 rest parsed
unfolding parse_extensions
passed_over options [] rest parsed = refl
passed_over options (x ∷ xs) rest parsed = passed_over options xs rest parsed

pub bind-ok :
    {A B : Type 0} {m : Result A} {a : A} (f : A → Result B) {r : Result B}
    → m ≡ ok a
    → f a ≡ r
    → (m >>= f) ≡ r
unfolding ◌>>=◌
bind-ok f e k = ap (λ m. m >>= f) e ∙ k

pub require-true : {b : Bool} → b ≡ true → require b ≡ ok tt
unfolding require
require-true e = ap require e

extension-append :
    (type : ℕ) (payload rest : List ℕ)
    → extension type payload ++ rest
      ≡ le_bytes 4 (8 + length payload) ++ (le_bytes 4 type ++ (payload ++ rest))
unfolding extension
extension-append type payload rest =
    append_assoc (le_bytes 4 (8 + length payload)) (le_bytes 4 type ++ payload) rest
    ∙ ap (λ l. le_bytes 4 (8 + length payload) ++ l) (append_assoc (le_bytes 4 type) payload rest)

-- A round reads the extension that the buffer begins with.
parse_next-extension :
    (options type : ℕ) (payload rest : List ℕ) (t : ExtType) (parsed parsed' : Parsed)
    → 8 + length payload < 2 ^ 32
    → type < 2 ^ 32
    → ext_type type ≡ ok t
    → parse_extension options t payload parsed ≡ ok parsed'
    → parse_next options (extension type payload ++ rest) parsed ≡ ok (length payload, parsed')
unfolding parse_next take_object ok_or
parse_next-extension options type payload rest t parsed parsed' small small_type is_type parses =
    let size : 8 + length payload - 8 ≡ length payload = omega arith in
    let header =
      ap read_ext_header (extension-append type payload rest)
      ∙ read_ext_header-bytes (8 + length payload) type (payload ++ rest) small small_type in
    bind-ok _ (ap (ok_or decode_message) header) (
      bind-ok _ (ground arith) (
        bind-ok _ (require-true (ground (arith, length-append payload rest))) (
          bind-ok _ is_type (
            bind-ok _
              (ap (λ l. parse_extension options t l parsed)
                  (ap (λ n. take n (payload ++ rest)) size ∙ take-length payload rest)
                ∙ parses)
              (ap (λ n. ok (n, parsed')) size)))))

-- The loop goes on behind the extension.
pub parse_extensions-extension :
    (options type : ℕ) (payload rest : List ℕ) (t : ExtType) (parsed parsed' : Parsed)
    → 8 + length payload < 2 ^ 32
    → type < 2 ^ 32
    → ext_type type ≡ ok t
    → parse_extension options t payload parsed ≡ ok parsed'
    → parse_extensions options 0 (extension type payload ++ rest) parsed
      ≡ parse_extensions options 0 rest parsed'
unfolding parse_extensions extension le_bytes
parse_extensions-extension options type payload rest t parsed parsed' small small_type is_type
      parses =
    let tail = drop 1 (extension type payload) in
    let passed : 7 + length payload ≡ length tail = omega arith in
    bind-ok _
      (parse_next-extension options type payload rest t parsed parsed' small small_type is_type
        parses)
      (ap (λ n. parse_extensions options n (tail ++ rest) parsed') passed
        ∙ passed_over options tail rest parsed')
