-- ===== src/Server/Result.antt =====
-- `Error` and `Result` of src/lib.rs, and the readers of a request in src/server.rs.
use virtiofsd.Common.{ℕ, ◌-◌, Option, none, some, List, [], ◌∷◌, if◌then◌else◌, ltb, ◌==◌}
use virtiofsd.Fuse.Bytes.{Decode, bytes_of}
use virtiofsd.Fuse.Requests.{InHeader}

-- Without the `io::Error` or the message that the source keeps.
pub data ServerError : Type 0 where
  decode_message encode_message flush_message missing_parameter invalid_c_string : ServerError
  invalid_c_string2 invalid_header_length missing_extension : ServerError
  invalid_xattr_size : ℕ → ℕ → ServerError

pub data Result (A : Type 0) : Type 0 where
  ok : A → Result A
  err : ServerError → Result A

-- `ok_or`
unfoldable pub ok_or : {A : Type 0} → ServerError → Option A → Result A
ok_or e none = err e
ok_or e (some a) = ok a

-- `Reader::read_obj`
unfoldable pub read_obj : {A : Type 0} → Decode A → List ℕ → Result (A × List ℕ)
read_obj decode r = ok_or decode_message (decode r)

-- `Reader::read_exact`
unfoldable pub read_exact : ℕ → List ℕ → Result (List ℕ × List ℕ)
read_exact n r = read_obj (bytes_of n) r

-- The length of the request less those of its header and of a message.
unfoldable pub remaining_len : InHeader → ℕ → Result ℕ
remaining_len in_header size =
    if ltb in_header.len 40
    then err invalid_header_length
    else if ltb (in_header.len - 40) size
    then err invalid_header_length
    else ok (in_header.len - 40 - size)

-- `CStr::from_bytes_with_nul`, without the NUL
unfoldable pub cstr : List ℕ → Option (List ℕ)
cstr [] = none
cstr (b ∷ []) = if b == 0 then some [] else none
cstr (b ∷ c ∷ l) =
    let rest = cstr (c ∷ l) in
    if b == 0 then none else elim rest [ none ↦ none | some name ↦ some (b ∷ name) ]

unfoldable pub bytes_to_cstr : List ℕ → Result (List ℕ)
bytes_to_cstr buf = ok_or invalid_c_string (cstr buf)

-- Up to and with the first NUL, if there is one, and what is behind it.
unfoldable pub until_nul : List ℕ → List ℕ × List ℕ
until_nul [] = ([], [])
until_nul (b ∷ l) = let rest = until_nul l in if b == 0 then (b ∷ [], l) else (b ∷ rest.0, rest.1)

-- `next` of `split_inclusive` at the NULs
unfoldable pub next_component : List ℕ → Option (List ℕ × List ℕ)
next_component [] = none
next_component (b ∷ l) = some (until_nul (b ∷ l))

-- `split_at` behind the `position` of the first NUL
unfoldable pub split_after_nul : List ℕ → Option (List ℕ × List ℕ)
split_after_nul [] = none
split_after_nul (b ∷ l) =
    let rest = split_after_nul l in
    if b == 0
    then some (b ∷ [], l)
    else elim rest [ none ↦ none | some (front, back) ↦ some (b ∷ front, back) ]
