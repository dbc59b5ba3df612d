-- ===== src/Server/Parts.antt =====
-- The bytes of a reply's parts: how many, and what a writer keeps of them.
use virtiofsd.Common.{
  ◌≡◌, refl, sym, ap, ◌∙◌, ℕ, ◌+◌, ◌-◌, ◌≤◌, ◌<◌, List, [], ◌∷◌, ◌++◌, length, leb, take,
  length-append, arith, Bool-cases, inl, inr, leb→le, take-append, take-front,
}
use mathlib.Core.Path.{subst}
use mathlib.Core.List.{append_assoc, append-nil}
use virtiofsd.Common.Io.{IoResult, ok, err, write_zero}
use virtiofsd.Fuse.Bytes.{le_bytes, length-le_bytes}
use virtiofsd.Fuse.Replies.{Fields, as_slice}
use virtiofsd.Server.Reply.{total}
use virtiofsd.Server.Writer.{Writer, write_all, write_parts}

-- The size of a structure.
unfoldable pub size_of : Fields → ℕ
size_of [] = 0
size_of ((width, value) ∷ fields) = width + size_of fields

pub length-as_slice : (fields : Fields) → length (as_slice fields) ≡ size_of fields
unfolding as_slice size_of
length-as_slice [] = refl
length-as_slice ((width, value) ∷ fields) = omega (
  arith,
  length-append (le_bytes width value) (as_slice fields),
  length-le_bytes width value,
  length-as_slice fields,
)

unfoldable pub joined : List (List ℕ) → List ℕ
joined [] = []
joined (bytes ∷ parts) = bytes ++ joined parts

pub length-joined : (parts : List (List ℕ)) → length (joined parts) ≡ total parts
unfolding joined total
length-joined [] = refl
length-joined (bytes ∷ parts) =
    omega (arith, length-append bytes (joined parts), length-joined parts)

-- What a writer does with parts: it takes them all, or it fails where they are more than its room.
pub data Wrote (parts : List (List ℕ)) (w : Writer) : IoResult (Unit {0}) × Writer → Type 0 where
  fits :
      (w' : Writer)
      → total parts ≤ w.room
      → w'.room ≡ w.room - total parts
      → w'.out ≡ w.out ++ joined parts
      → Wrote parts w (ok tt, w')
  overflows :
      (w' : Writer)
      → w.room < total parts
      → w'.out ≡ w.out ++ take w.room (joined parts)
      → Wrote parts w (err write_zero, w')

all_written :
    (bytes : List ℕ) (w : Writer)
    → length bytes ≤ w.room
    → write_all bytes w ≡ (ok tt, record { room = w.room - length bytes; out = w.out ++ bytes })
unfolding write_all
all_written bytes w h = ground (arith)

not_all_written :
    (bytes : List ℕ) (w : Writer)
    → w.room < length bytes
    → write_all bytes w ≡ (err write_zero, record { room = 0; out = w.out ++ take w.room bytes })
unfolding write_all
not_all_written bytes w h = ground (arith)

Wrote-cons :
    (bytes : List ℕ) (parts : List (List ℕ)) (w : Writer) {r : IoResult (Unit {0}) × Writer}
    → length bytes ≤ w.room
    → Wrote parts (record { room = w.room - length bytes; out = w.out ++ bytes }) r
    → Wrote (bytes ∷ parts) w r
unfolding joined total
Wrote-cons bytes parts w h (fits w' f room out) =
    fits w' (omega arith) (omega arith) (out ∙ append_assoc w.out bytes (joined parts))
Wrote-cons bytes parts w h (overflows w' f out) =
    let cut = take-append bytes (joined parts) w.room h in
    overflows w' (omega arith) (out ∙ append_assoc w.out bytes _ ∙ ap (λ l. w.out ++ l) (sym cut))

pub write_parts-Wrote : (parts : List (List ℕ)) (w : Writer) → Wrote parts w (write_parts parts w)
unfolding write_parts joined total
write_parts-Wrote [] w = fits w (omega arith) (omega arith) (sym (append-nil w.out))
write_parts-Wrote (bytes ∷ parts) w =
    let Goal : IoResult (Unit {0}) × Writer → Type 0 = λ x.
      Wrote (bytes ∷ parts) w (elim x.0 [ ok _ ↦ write_parts parts x.1 | err e ↦ (err e, x.1) ]) in
    elim (Bool-cases (leb (length bytes) w.room)) [
      | inl e ↦
          let h : length bytes ≤ w.room = leb→le _ _ e in
          subst Goal (sym (all_written bytes w h))
            (Wrote-cons bytes parts w h (write_parts-Wrote parts _))
      | inr e ↦
          let h : w.room < length bytes = ground arith in
          subst Goal (sym (not_all_written bytes w h))
            (overflows _ (omega arith) (ap (λ l. w.out ++ l) (sym (take-front bytes _ w.room h))))
    ]
