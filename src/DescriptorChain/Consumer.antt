-- ===== src/DescriptorChain/Consumer.antt =====
-- `DescriptorChainConsumer` of src/descriptor_utils.rs. A slice is the list of its cells: of the bytes
-- that a reader finds there, or of the places that a writer fills.
use virtiofsd.Common.{
  ℕ, ◌+◌, ◌-◌, ◌^◌, Option, none, some, List, [], ◌∷◌, length, take, drop, if◌then◌else◌, ltb, leb,
  ◌==◌,
}
use virtiofsd.Common.Io.{IoResult, ok, err, invalid_data}
use Prim.Native.Nat.{min}

pub record DescriptorChainConsumer (A : Type 0) : Type 0 where
  pub buffers : List (List A)
  pub bytes_consumed : ℕ

-- `checked_add` of an `usize`
unfoldable pub checked_add : ℕ → ℕ → Option ℕ
checked_add a b = if ltb (a + b) (2 ^ 64) then some (a + b) else none

module _ {A : Type 0} where
  -- The `fold` of `available_bytes`
  unfoldable pub bytes_in : List (List A) → ℕ
  bytes_in [] = 0
  bytes_in (vs ∷ buffers) = length vs + bytes_in buffers

  unfoldable pub available_bytes : DescriptorChainConsumer A → ℕ
  available_bytes c = bytes_in c.buffers

  -- The slices that `consume` gives to its function: the last one is whole.
  unfoldable pub chosen : ℕ → ℕ → List (List A) → List (List A)
  chosen count buflen [] = []
  chosen count buflen (vs ∷ buffers) =
      let rest = chosen count (buflen + min (count - buflen) (length vs)) buffers in
      if leb count buflen then [] else vs ∷ rest

  -- The loop that removes what was consumed.
  unfoldable pub advance : ℕ → List (List A) → List (List A)
  advance rem [] = []
  advance rem (vs ∷ buffers) =
      let rest = advance (rem - length vs) buffers in
      if ltb rem (length vs) then drop rem vs ∷ buffers else rest

  unfoldable pub consumed :
      DescriptorChainConsumer A → IoResult ℕ → IoResult ℕ × DescriptorChainConsumer A
  consumed c (err e) = (err e, c)
  consumed c (ok n) = elim (checked_add c.bytes_consumed n) [
    | none ↦ (err invalid_data, c)
    | some total ↦ (ok n, record { buffers = advance n c.buffers; bytes_consumed = total })
  ]

  -- What the function does beside its result is kept too: none where it is not called.
  unfoldable pub consume_chosen :
      {B : Type 0}
      → List (List A)
      → (List (List A) → IoResult ℕ × B)
      → DescriptorChainConsumer A
      → (IoResult ℕ × Option B) × DescriptorChainConsumer A
  consume_chosen [] f c = ((ok 0, none), c)
  consume_chosen (vs ∷ bufs) f c =
      let (result, effect) = f (vs ∷ bufs) in
      let (result, c) = consumed c result in ((result, some effect), c)

  unfoldable pub consume :
      {B : Type 0}
      → ℕ
      → (List (List A) → IoResult ℕ × B)
      → DescriptorChainConsumer A
      → (IoResult ℕ × Option B) × DescriptorChainConsumer A
  consume count f c = consume_chosen (chosen count 0 c.buffers) f c

  -- The front part and the part behind it.
  unfoldable pub split_buffers : ℕ → List (List A) → Option (List (List A) × List (List A))
  split_buffers rem [] = if rem == 0 then some ([], []) else none
  split_buffers rem (vs ∷ buffers) =
      let rest = split_buffers (rem - length vs) buffers in
      if ltb rem (length vs)
      then (if rem == 0
          then some ([], vs ∷ buffers)
          else some (take rem vs ∷ [], drop rem vs ∷ buffers))
      else elim rest [ none ↦ none | some (front, back) ↦ some (vs ∷ front, back) ]

  -- `self` and the consumer that is returned, or `SplitOutOfBounds`.
  unfoldable pub split_at :
      ℕ → DescriptorChainConsumer A → Option (DescriptorChainConsumer A × DescriptorChainConsumer A)
  split_at offset c = elim (split_buffers offset c.buffers) [
    | none ↦ none
    | some (front, back) ↦ some (
      record { buffers = front; bytes_consumed = c.bytes_consumed },
      record { buffers = back; bytes_consumed = 0 },
    )
  ]
