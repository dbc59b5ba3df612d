-- ===== src/ReadDir/Walk.antt =====
-- `move_past` of src/read_dir.rs on the records that getdents64 wrote.
use virtiofsd.Common.{
  ◌≡◌, ◌≢◌, refl, sym, ap, ◌∙◌, ℕ, zero, suc, ◌+◌, ◌-◌, ◌≤◌, Option, none, some, List, [], ◌∷◌,
  ◌++◌, Bool, true, false, Bool-cases, inl, inr, All, length, take, drop, length-append,
  if◌then◌else◌, ◌==◌, ==_iff, arith,
}
use mathlib.Core.Path.{subst}
use virtiofsd.Common.Io.{Outcome, done, panic}
use virtiofsd.FileSystem.{DirEntry}
use virtiofsd.ReadDir.{ReadDir, remaining, rem, next, move_past_on, move_past}
use virtiofsd.ReadDir.Records.{
  Padded, IsWritten, reclen, record_bytes, records, behind, rem-behind, next-end, next-record,
  length-record_bytes,
}

-- What `next` does on the records that remain: the entries come in the order of the records.
pub data Iterates (rs : List Padded) : Outcome (Option (DirEntry × ReadDir)) → Type 0 where
  at_end : rs ≡ [] → Iterates rs (done none)
  gives :
      (r : Padded) (rest : List Padded) (rd' : ReadDir)
      → rs ≡ r ∷ rest
      → rem rd' ≡ records rest
      → Iterates rs (done (some (r.0, rd')))

pub next-Iterates :
    (rd : ReadDir) (rs : List Padded)
    → All IsWritten rs
    → rem rd ≡ records rs
    → Iterates rs (next rd)
unfolding records
next-Iterates rd [] is e = rw (next-end rd e) (at_end refl)
next-Iterates rd (r ∷ rs) (is, rest) e =
    rw (next-record rd r (records rs) is e)
      (gives r rs (behind rd r) refl (rem-behind rd r (records rs) e))

-- What `move_past` leaves: the records behind the first whose offset is the target, or none.
pub data Passed (target : ℕ) (rd : ReadDir) (rs : List Padded)
    : Outcome (Bool × ReadDir) → Type 0 where
  passed :
      (before after : List Padded) (r : Padded) (rd' : ReadDir)
      → rs ≡ before ++ (r ∷ after)
      → All (λ x. x.0.offset ≢ target) before
      → r.0.offset ≡ target
      → rem rd' ≡ records after
      → (rd'.buf ≡ rd.buf) × (rd'.end ≡ rd.end)
      → Passed target rd rs (done (true, rd'))
  not_found :
      (rd' : ReadDir)
      → All (λ x. x.0.offset ≢ target) rs
      → rem rd' ≡ []
      → (rd'.buf ≡ rd.buf) × (rd'.end ≡ rd.end)
      → Passed target rd rs (done (false, rd'))

Passed-over :
    (target : ℕ) (rd rd' : ReadDir) (r : Padded) (rs : List Padded) {o : Outcome (Bool × ReadDir)}
    → (rd'.buf ≡ rd.buf) × (rd'.end ≡ rd.end)
    → r.0.offset ≢ target
    → Passed target rd' rs o
    → Passed target rd (r ∷ rs) o
Passed-over target rd rd' r rs same other
      (passed before after x rd'' e none_before here left same') =
    passed (r ∷ before) after x rd'' (ap (λ l. r ∷ l) e) (other, none_before) here left
      (same'.0 ∙ same.0, same'.1 ∙ same.1)
Passed-over target rd rd' r rs same other (not_found rd'' none_of left same') =
    not_found rd'' (other, none_of) left (same'.0 ∙ same.0, same'.1 ∙ same.1)

round-Passed :
    (target : ℕ) (rd : ReadDir) (r : Padded) (rs : List Padded) (rd' : ReadDir)
    {rest : Outcome (Bool × ReadDir)}
    → rem rd' ≡ records rs
    → (rd'.buf ≡ rd.buf) × (rd'.end ≡ rd.end)
    → Passed target rd' rs rest
    → Passed target rd (r ∷ rs) (if r.0.offset == target then done (true, rd') else rest)
round-Passed target rd r rs rd' left same p = elim (Bool-cases (r.0.offset == target)) [
  | inl e ↦ rw e (passed [] rs r rd' refl tt ((==_iff _ _).0 e) left same)
  | inr e ↦ rw e (Passed-over target rd rd' r rs same (ground arith) p)
]

pub length-records :
    (r : Padded) (rs : List Padded) → length (records (r ∷ rs)) ≡ reclen r + length (records rs)
unfolding records
length-records r rs =
    omega (arith, length-append (record_bytes r) (records rs), length-record_bytes r)

pub reclen-pos : (r : Padded) → 20 ≤ reclen r
unfolding reclen
reclen-pos (d, padding) = omega arith

-- Fuel for the bytes of the records is enough.
move_past_on-Passed :
    (target : ℕ) (rs : List Padded) (fuel : ℕ) (rd : ReadDir)
    → All IsWritten rs
    → rem rd ≡ records rs
    → length (records rs) ≤ fuel
    → Passed target rd rs (move_past_on fuel target rd)
unfolding records move_past_on
move_past_on-Passed target [] zero rd is e f = not_found rd tt e (refl, refl)
move_past_on-Passed target [] (suc fuel) rd is e f =
    let Goal : Outcome (Option (DirEntry × ReadDir)) → Type 0 = λ o. Passed target rd [] (elim o [
      | panic ↦ panic
      | done found ↦ elim found [
        | none ↦ done (false, rd)
        | some x ↦ if x.0.offset == target then done (true, x.1) else move_past_on fuel target x.1
      ]
    ]) in
    subst Goal (sym (next-end rd e)) (not_found rd tt e (refl, refl))
move_past_on-Passed target (r ∷ rs) zero rd is e f =
    absurd (omega (arith, length-records r rs, reclen-pos r))
move_past_on-Passed target (r ∷ rs) (suc fuel) rd (is, rest) e f =
    let Goal : Outcome (Option (DirEntry × ReadDir)) → Type 0 = λ o.
      Passed target rd (r ∷ rs) (elim o [
        | panic ↦ panic
        | done found ↦ elim found [
          | none ↦ done (false, rd)
          | some x ↦ if x.0.offset == target then done (true, x.1) else move_past_on fuel target x.1
        ]
      ]) in
    let left = rem-behind rd r (records rs) e in
    let few : length (records rs) ≤ fuel = omega (arith, length-records r rs, reclen-pos r) in
    subst Goal (sym (next-record rd r (records rs) is e)) (
      round-Passed target rd r rs (behind rd r) left (refl, refl)
        (move_past_on-Passed target rs fuel (behind rd r) rest left few))

length_take : (n : ℕ) (xs : List ℕ) → length (take n xs) ≤ n
length_take zero xs = omega arith
length_take (suc n) [] = omega arith
length_take (suc n) (x ∷ xs) = omega (arith, length_take n xs)

length-rem : (rd : ReadDir) → length (rem rd) ≤ remaining rd
unfolding rem remaining
length-rem rd = length_take (rd.end - rd.current) (drop rd.current rd.buf)

-- On records as the kernel writes them, `move_past` does not panic. It stops behind the first record
-- whose offset is the target, with exactly the records after it left; or no record has the offset,
-- and nothing is left.
pub move_past-Passed :
    (target : ℕ) (rs : List Padded) (rd : ReadDir)
    → All IsWritten rs
    → rem rd ≡ records rs
    → Passed target rd rs (move_past target rd)
unfolding move_past
move_past-Passed target rs rd is e =
    let few : length (records rs) ≤ remaining rd = omega (arith, length-rem rd, ap length e) in
    move_past_on-Passed target rs (remaining rd) rd is e few
