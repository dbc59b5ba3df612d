-- ===== src/Server/Writer.antt =====
-- The `Writer` of src/descriptor_utils.rs as src/server.rs uses it: the room that is left in the
-- guest's buffers and the bytes written into them.
use virtiofsd.Common.{
  ℕ, ◌-◌, Option, none, some, List, [], ◌∷◌, ◌++◌, length, take, if◌then◌else◌, ltb, leb,
}
use virtiofsd.Common.Io.{IoResult, ok, err, write_zero}

pub record Writer : Type 0 where
  pub room : ℕ
  pub out : List ℕ

-- What does not fit is cut off, and then `write` gives 0.
unfoldable pub write_all : List ℕ → Writer → IoResult (Unit {0}) × Writer
write_all bytes w =
    if leb (length bytes) w.room
    then (ok tt, record { room = w.room - length bytes; out = w.out ++ bytes })
    else (err write_zero, record { room = 0; out = w.out ++ take w.room bytes })

-- `write_all` of each, up to the first error.
unfoldable pub write_parts : List (List ℕ) → Writer → IoResult (Unit {0}) × Writer
write_parts [] w = (ok tt, w)
write_parts (bytes ∷ parts) w =
    let (r, w') = write_all bytes w in elim r [ ok _ ↦ write_parts parts w' | err e ↦ (err e, w') ]

-- The front part, and the part behind it.
unfoldable pub split_at : ℕ → Writer → Option (Writer × Writer)
split_at offset w =
    if ltb w.room offset
    then none
    else some (record { room = offset; out = w.out }, record { room = w.room - offset; out = [] })
