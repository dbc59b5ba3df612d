-- ===== src/DescriptorChain/Refinement.antt =====
-- The chains of src/descriptor_utils.rs against one list of cells, and against the readers and the
-- writer that the server of src/server.rs is modelled with.
use virtiofsd.Common.{
  ◌≡◌, refl, ap, ◌∙◌, ℕ, zero, suc, ◌+◌, ◌-◌, ◌≤◌, ◌<◌, ◌^◌, List, [], ◌∷◌, ◌++◌, length, take,
  drop, ltb, true, arith,
}
use mathlib.Core.List.{append-nil}
use mathlib.Core.Path.{subst}
use virtiofsd.Common.Io.{IoError, IoResult, ok, err}
use virtiofsd.DescriptorChain.Consumer.{
  DescriptorChainConsumer, checked_add, chosen, consumed, consume_chosen, consume,
}
use virtiofsd.DescriptorChain.Reader.{
  copied, copy_out, effect_of, with_cells, access, more, access_all,
}
use virtiofsd.DescriptorChain.Flat.{
  flat, length-take-min, length-drop, take-all, drop-all, drop-taken, copied-chosen, flat-advance,
}

module _ {A : Type 0} where
  -- The chain's cells number less than 2 ^ 64 with those consumed before.
  abbrev pub InUsize : DescriptorChainConsumer A → Type 0
  InUsize c = c.bytes_consumed + length (flat c.buffers) < 2 ^ 64

  -- An access moves as many cells as are wanted and there.
  data Accessed (n : ℕ) (c : DescriptorChainConsumer A)
      : (IoResult ℕ × List A) × DescriptorChainConsumer A → Type 0 where
    accessed :
        (cells : List A) (k : ℕ) (c' : DescriptorChainConsumer A)
        → cells ≡ take n (flat c.buffers)
        → k ≡ length cells
        → flat c'.buffers ≡ drop n (flat c.buffers)
        → c'.bytes_consumed ≡ c.bytes_consumed + k
        → Accessed n c ((ok k, cells), c')

  consumed-Accessed :
      (n : ℕ) (c : DescriptorChainConsumer A) (cells : List A)
      → InUsize c
      → cells ≡ take n (flat c.buffers)
      → let (result, c') = consumed c (ok (length cells)) in Accessed n c ((result, cells), c')
  unfolding consumed checked_add
  consumed-Accessed n c cells h e =
      let few : length cells ≤ length (flat c.buffers) =
        omega (arith, ap length e, length-take-min n (flat c.buffers)) in
      let fits : ltb (c.bytes_consumed + length cells) (2 ^ 64) ≡ true = ground arith in
      rw (consumed, checked_add, fits)
        (accessed cells (length cells) _ e refl
          (flat-advance (length cells) c.buffers
            ∙ ap (λ l. drop (length l) (flat c.buffers)) e
            ∙ drop-taken n (flat c.buffers))
          refl)

  chosen-Accessed :
      (n : ℕ) (c : DescriptorChainConsumer A) (bufs : List (List A))
      → InUsize c
      → copied n bufs ≡ take n (flat c.buffers)
      → Accessed n c (with_cells (consume_chosen bufs (copy_out n) c))
  unfolding consume_chosen copied copy_out effect_of
  chosen-Accessed n c [] h e =
      accessed [] 0 c e refl
        (ap (λ l. drop (length l) (flat c.buffers)) e ∙ drop-taken n (flat c.buffers)) (omega arith)
  chosen-Accessed n c (vs ∷ bufs) h e = consumed-Accessed n c (copied n (vs ∷ bufs)) h e

  access-Accessed : (n : ℕ) (c : DescriptorChainConsumer A) → InUsize c → Accessed n c (access n c)
  unfolding access consume
  access-Accessed n c h =
      let left : n - 0 ≡ n = omega arith in
      chosen-Accessed n c (chosen n 0 c.buffers) h (
        subst (λ k. copied k (chosen n 0 c.buffers) ≡ take k (flat c.buffers)) left
          (copied-chosen n 0 c.buffers))

  -- What the loop of `read_exact` and `write_all` leaves: the cells that are wanted, or all of them and
  -- the error of the end.
  pub data Moved (at_end : IoError) (n : ℕ) (c : DescriptorChainConsumer A)
      : (IoResult (Unit {0}) × List A) × DescriptorChainConsumer A → Type 0 where
    moved :
        (cells : List A) (c' : DescriptorChainConsumer A)
        → n ≤ length (flat c.buffers)
        → cells ≡ take n (flat c.buffers)
        → flat c'.buffers ≡ drop n (flat c.buffers)
        → c'.bytes_consumed ≡ c.bytes_consumed + n
        → Moved at_end n c ((ok tt, cells), c')
    ended :
        (cells : List A) (c' : DescriptorChainConsumer A)
        → length (flat c.buffers) < n
        → cells ≡ flat c.buffers
        → flat c'.buffers ≡ []
        → c'.bytes_consumed ≡ c.bytes_consumed + length (flat c.buffers)
        → Moved at_end n c ((err at_end, cells), c')

  more-Moved :
      (at_end : IoError) (n m : ℕ) (c : DescriptorChainConsumer A) (cells : List A)
      (c' : DescriptorChainConsumer A)
      {r : (IoResult (Unit {0}) × List A) × DescriptorChainConsumer A}
      → cells ≡ take (suc n) (flat c.buffers)
      → suc m ≡ length cells
      → flat c'.buffers ≡ drop (suc n) (flat c.buffers)
      → c'.bytes_consumed ≡ c.bytes_consumed + suc m
      → Moved at_end (suc n - suc m) c' r
      → Moved at_end (suc n) c (more cells r)
  unfolding more
  more-Moved at_end n m c cells c' e k d b (moved cells' c'' fits e' d' b') =
      let size = length-take-min (suc n) (flat c.buffers) in
      let left = length-drop (suc n) (flat c.buffers) in
      let whole : suc n ≤ length (flat c.buffers) = omega (arith, ap length e, ap length d) in
      let nothing : suc n - suc m ≡ 0 = omega (arith, ap length e) in
      moved (cells ++ cells') c'' whole
        (ap (λ l. cells ++ l) (e' ∙ ap (λ j. take j (flat c'.buffers)) nothing)
          ∙ append-nil cells
          ∙ e)
        (d' ∙ ap (λ j. drop j (flat c'.buffers)) nothing ∙ d) (omega (arith, ap length e))
  more-Moved at_end n m c cells c' e k d b (ended cells' c'' short e' d' b') =
      let size = length-take-min (suc n) (flat c.buffers) in
      let left = length-drop (suc n) (flat c.buffers) in
      let over : length (flat c.buffers) < suc n = omega (arith, ap length e, ap length d) in
      let few : length (flat c.buffers) ≤ suc n = omega arith in
      let gone : flat c'.buffers ≡ [] = d ∙ drop-all (suc n) (flat c.buffers) few in
      ended (cells ++ cells') c'' over
        (ap (λ l. cells ++ l) (e' ∙ gone)
          ∙ append-nil cells
          ∙ e
          ∙ take-all (suc n) (flat c.buffers) few)
        d' (omega (arith, ap length e, ap length gone))

  round-Moved :
      (at_end : IoError) (fuel n : ℕ) (c : DescriptorChainConsumer A)
      {r : (IoResult ℕ × List A) × DescriptorChainConsumer A}
      → InUsize c
      → ((m : ℕ) (c' : DescriptorChainConsumer A)
          → m ≤ fuel
          → InUsize c'
          → Moved at_end m c' (access_all at_end fuel m c'))
      → n ≤ fuel
      → Accessed (suc n) c r
      → Moved at_end (suc n) c (elim r.0.0 [
        | err e ↦ ((err e, r.0.1), r.1)
        | ok k ↦ elim k [
          | zero ↦ ((err at_end, r.0.1), r.1)
          | suc m ↦ more r.0.1 (access_all at_end fuel (suc n - suc m) r.1)
        ]
      ])
  round-Moved at_end fuel n c h rest f (accessed cells zero c' e k d b) =
      let size = length-take-min (suc n) (flat c.buffers) in
      let empty : length (flat c.buffers) ≤ suc n = omega (arith, ap length e) in
      ended cells c' (omega (arith, ap length e)) (e ∙ take-all (suc n) (flat c.buffers) empty)
        (d ∙ drop-all (suc n) (flat c.buffers) empty) (omega (arith, ap length e))
  round-Moved at_end fuel n c h rest f (accessed cells (suc m) c' e k d b) =
      let size = length-take-min (suc n) (flat c.buffers) in
      let left = length-drop (suc n) (flat c.buffers) in
      more-Moved at_end n m c cells c' e k d b
        (rest (suc n - suc m) c' (omega arith) (omega (arith, ap length e, ap length d)))

  pub access_all-Moved :
      (at_end : IoError) (fuel n : ℕ) (c : DescriptorChainConsumer A)
      → n ≤ fuel
      → InUsize c
      → Moved at_end n c (access_all at_end fuel n c)
  unfolding access_all
  access_all-Moved at_end fuel zero c f h = moved [] c (omega arith) refl refl (omega arith)
  access_all-Moved at_end zero (suc n) c f h = absurd (omega arith)
  access_all-Moved at_end (suc fuel) (suc n) c f h =
      round-Moved at_end fuel n c h (λ m c' f' h'. access_all-Moved at_end fuel m c' f' h')
        (omega arith) (access-Accessed (suc n) c h)
