-- ===== src/DescriptorChain/ZeroCopy.antt =====
-- `ZcReader` of src/server.rs, over the reader of src/descriptor_utils.rs: data that goes from the guest's
-- buffers to a file without a copy. `ZcWriter` is the same loop, with a file that fills the slices.
use virtiofsd.Common.{
  ◌≡◌, refl, sym, ℕ, zero, suc, ◌+◌, ◌-◌, ◌≤◌, ◌<◌, ◌^◌, Option, none, some, List, [], ◌∷◌,
  Bool-cases, inl, inr, ◌⊎◌, if◌then◌else◌, ltb, arith,
}
use mathlib.Core.Path.{subst}
use virtiofsd.Common.Io.{IoError, IoResult, ok, err, other, invalid_data}
use virtiofsd.DescriptorChain.Consumer.{
  DescriptorChainConsumer, checked_add, chosen, consumed, consume_chosen, consume,
}

-- A file: what a vectored access at an offset moves, with the slices that it is given.
pub record File (A : Type 0) : Type 1 where
  pub State : Type 0
  pub access_at : List (List A) → ℕ → State → IoResult ℕ × State

-- The checks of the new offset and of the count that is left.
unfoldable pub advanced : ℕ → ℕ → ℕ → Option (ℕ × ℕ)
advanced count off n = elim (checked_add off n) [
  | none ↦ none
  | some off ↦ if ltb count n then none else some (off, count - n)
]

advanced-cases :
    (count off n : ℕ)
    → (advanced count off n ≡ none)
      ⊎ ((n ≤ count) × (advanced count off n ≡ some (off + n, count - n)))
unfolding advanced checked_add
advanced-cases count off n = elim (Bool-cases (ltb (off + n) (2 ^ 64))) [
  | inr wraps ↦ inl (rw (advanced, checked_add, wraps) refl)
  | inl fits ↦ elim (Bool-cases (ltb count n)) [
    | inl over ↦ inl (rw (advanced, checked_add, fits, over) refl)
    | inr within ↦ inr (ground arith, rw (advanced, checked_add, fits, within) refl)
  ]
]

module _ {A : Type 0} (file : File A) where
  abbrev pub Transfer : Type 0
  Transfer = IoResult ℕ × (DescriptorChainConsumer A × file.State)

  unfoldable pub after : Option file.State → file.State → file.State
  after none st = st
  after (some st') st = st'

  -- `Reader::write_to_file_at`
  unfoldable pub access_file : ℕ → ℕ → DescriptorChainConsumer A → file.State → Transfer
  access_file count off c st =
      let ((result, effect), c) = consume count (λ bufs. file.access_at bufs off st) c in
      (result, (c, after effect st))

  -- What the loop does with the result of an access.
  unfoldable pub moved_on :
      (ℕ → ℕ → DescriptorChainConsumer A → file.State → Option Transfer)
      → ℕ
      → ℕ
      → ℕ
      → Transfer
      → Option Transfer
  moved_on again start count off (err e, s) = some (err e, s)
  moved_on again start count off (ok zero, s) = some (ok (off - start), s)
  moved_on again start count off (ok (suc n), (c, st)) = elim (advanced count off (suc n)) [
    | none ↦ some (err other, (c, st))
    | some (off, count) ↦ again count off c st
  ]

  -- The loop, none where the fuel is gone. Each round moves a byte at least: the fuel is the count.
  unfoldable pub zero_copy_on :
      ℕ → ℕ → ℕ → ℕ → DescriptorChainConsumer A → file.State → Option Transfer
  zero_copy_on fuel start zero off c st = some (ok (off - start), (c, st))
  zero_copy_on zero start (suc count) off c st = none
  zero_copy_on (suc fuel) start (suc count) off c st =
      moved_on (λ count off c st. zero_copy_on fuel start count off c st) start (suc count) off
        (access_file (suc count) off c st)

  -- `write_to_file_at` and `read_from_file_at`
  unfoldable pub zero_copy : ℕ → ℕ → DescriptorChainConsumer A → file.State → Option Transfer
  zero_copy count off c st = zero_copy_on count off count off c st

  -- How a transfer ends: what it reports is at most the count, and what was consumed; or it fails.
  pub data Transferred (most before : ℕ) : Option Transfer → Type 0 where
    transferred :
        (n : ℕ) (c : DescriptorChainConsumer A) (st : file.State)
        → n ≤ most
        → c.bytes_consumed ≡ before + n
        → Transferred most before (some (ok n, (c, st)))
    failed :
        (e : IoError) (c : DescriptorChainConsumer A) (st : file.State)
        → Transferred most before (some (err e, (c, st)))

  -- An access consumes what it reports.
  data Consumes (before : ℕ) : Transfer → Type 0 where
    consumes :
        (n : ℕ) (c : DescriptorChainConsumer A) (st : file.State)
        → c.bytes_consumed ≡ before + n
        → Consumes before (ok n, (c, st))
    refused :
        (e : IoError) (c : DescriptorChainConsumer A) (st : file.State)
        → Consumes before (err e, (c, st))

  consumed-Consumes :
      (c : DescriptorChainConsumer A) (r : IoResult ℕ) (st : file.State)
      → Consumes c.bytes_consumed ((consumed c r).0, ((consumed c r).1, st))
  unfolding consumed checked_add
  consumed-Consumes c (err e) st = refused e c st
  consumed-Consumes c (ok n) st = elim (Bool-cases (ltb (c.bytes_consumed + n) (2 ^ 64))) [
    | inl e ↦ rw (consumed, checked_add, e) (consumes n _ st refl)
    | inr e ↦ rw (consumed, checked_add, e) (refused invalid_data c st)
  ]

  chosen-Consumes :
      (bufs : List (List A)) (off : ℕ) (c : DescriptorChainConsumer A) (st : file.State)
      → let ((result, effect), c') = consume_chosen bufs (λ bufs. file.access_at bufs off st) c in
        Consumes c.bytes_consumed (result, (c', after effect st))
  unfolding consume_chosen after
  chosen-Consumes [] off c st = consumes 0 c st (omega arith)
  chosen-Consumes (vs ∷ bufs) off c st = consumed-Consumes c (file.access_at (vs ∷ bufs) off st).0 _

  moved_on-Transferred :
      (again : ℕ → ℕ → DescriptorChainConsumer A → file.State → Option Transfer)
      (start count off before : ℕ) (c : DescriptorChainConsumer A) {r : Transfer}
      → start ≤ off
      → c.bytes_consumed + start ≡ before + off
      → ((count' off' : ℕ) (c' : DescriptorChainConsumer A) (st' : file.State)
          → count' < count
          → start ≤ off'
          → off' + count' ≡ off + count
          → c'.bytes_consumed + start ≡ before + off'
          → Transferred (off - start + count) before (again count' off' c' st'))
      → Consumes c.bytes_consumed r
      → Transferred (off - start + count) before (moved_on again start count off r)
  unfolding moved_on
  moved_on-Transferred again start count off before c h at go (refused e c' st) = failed e c' st
  moved_on-Transferred again start count off before c h at go (consumes zero c' st e) =
      transferred (off - start) c' st (omega arith) (omega arith)
  moved_on-Transferred again start count off before c h at go (consumes (suc n) c' st e) =
      let Goal : Option (ℕ × ℕ) → Type 0 = λ o.
        Transferred (off - start + count) before
          (elim o [ none ↦ some (err other, (c', st)) | some x ↦ again x.1 x.0 c' st ]) in
      elim (advanced-cases count off (suc n)) [
        | inl none_left ↦ subst Goal (sym none_left) (failed other c' st)
        | inr (few, e') ↦ subst Goal (sym e') (
            go (count - suc n) (off + suc n) c' st (omega arith) (omega arith) (omega arith)
              (omega arith))
      ]

  zero_copy_on-Transferred :
      (fuel start count off before : ℕ) (c : DescriptorChainConsumer A) (st : file.State)
      → count ≤ fuel
      → start ≤ off
      → c.bytes_consumed + start ≡ before + off
      → Transferred (off - start + count) before (zero_copy_on fuel start count off c st)
  unfolding zero_copy_on access_file consume
  zero_copy_on-Transferred fuel start zero off before c st f h at =
      transferred (off - start) c st (omega arith) (omega arith)
  zero_copy_on-Transferred zero start (suc count) off before c st f h at = absurd (omega arith)
  zero_copy_on-Transferred (suc fuel) start (suc count) off before c st f h at =
      moved_on-Transferred _ start (suc count) off before c h at
        (λ count' off' c' st' less h' sum at'.
          let most : off' - start + count' ≡ off - start + suc count = omega arith in
          subst (λ m. Transferred m before (zero_copy_on fuel start count' off' c' st')) most
            (zero_copy_on-Transferred fuel start count' off' before c' st' (omega arith) h' at'))
        (chosen-Consumes (chosen (suc count) 0 c.buffers) off c st)

  -- With any file the loop ends, with the count as fuel. A transfer that succeeds reports at most the
  -- count, and exactly what it consumed.
  pub zero_copy-Transferred :
      (count off : ℕ) (c : DescriptorChainConsumer A) (st : file.State)
      → Transferred count c.bytes_consumed (zero_copy count off c st)
  unfolding zero_copy
  zero_copy-Transferred count off c st =
      let none_yet : off - off + count ≡ count = omega arith in
      subst (λ m. Transferred m c.bytes_consumed (zero_copy_on count off count off c st)) none_yet
        (zero_copy_on-Transferred count off count off c.bytes_consumed c st (omega arith)
          (omega arith) refl)
