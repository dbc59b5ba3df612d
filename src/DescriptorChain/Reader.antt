-- ===== src/DescriptorChain/Reader.antt =====
-- `Reader` and `Writer` of src/descriptor_utils.rs, and the loops of the standard library's `read_exact`
-- and `write_all` over them.
use virtiofsd.Common.{ℕ, zero, suc, ◌-◌, Option, none, some, List, [], ◌∷◌, ◌++◌, length, take}
use virtiofsd.Common.Io.{IoError, IoResult, ok, err, write_zero, other}
use virtiofsd.DescriptorChain.Consumer.{DescriptorChainConsumer, consume}

module _ {A : Type 0} where
  -- The loop over the slices: `copy_len` cells of each.
  unfoldable pub copied : ℕ → List (List A) → List A
  copied rem [] = []
  copied rem (vs ∷ bufs) = take rem vs ++ copied (rem - length vs) bufs

  unfoldable pub copy_out : ℕ → List (List A) → IoResult ℕ × List A
  copy_out rem bufs = let cells = copied rem bufs in (ok (length cells), cells)

  unfoldable pub effect_of : Option (List A) → List A
  effect_of none = []
  effect_of (some cells) = cells

  abbrev pub with_cells :
      (IoResult ℕ × Option (List A)) × DescriptorChainConsumer A
      → (IoResult ℕ × List A) × DescriptorChainConsumer A
  with_cells ((result, effect), c) = ((result, effect_of effect), c)

  -- The cells that `read` copies from, or `write` to, in their order.
  unfoldable pub access :
      ℕ → DescriptorChainConsumer A → (IoResult ℕ × List A) × DescriptorChainConsumer A
  access n c = with_cells (consume n (copy_out n) c)

  -- What an access of the rest adds to the cells so far.
  unfoldable pub more :
      List A
      → (IoResult (Unit {0}) × List A) × DescriptorChainConsumer A
      → (IoResult (Unit {0}) × List A) × DescriptorChainConsumer A
  more cells ((result, rest), c) = ((result, cells ++ rest), c)

  -- The loop of `read_exact` and `write_all`, with the error where no more can be had. Each round
  -- moves a cell at least: the fuel is the number of cells wanted.
  unfoldable pub access_all :
      IoError
      → ℕ
      → ℕ
      → DescriptorChainConsumer A
      → (IoResult (Unit {0}) × List A) × DescriptorChainConsumer A
  access_all at_end fuel zero c = ((ok tt, []), c)
  access_all at_end zero (suc n) c = ((err at_end, []), c)
  access_all at_end (suc fuel) (suc n) c =
      let ((result, cells), c) = access (suc n) c in
      elim result [
        | err e ↦ ((err e, cells), c)
        | ok k ↦ elim k [
          | zero ↦ ((err at_end, cells), c)
          | suc m ↦ more cells (access_all at_end fuel (suc n - suc m) c)
        ]
      ]

  -- `UnexpectedEof`
  unfoldable pub read_exact :
      ℕ → DescriptorChainConsumer A → (IoResult (Unit {0}) × List A) × DescriptorChainConsumer A
  read_exact n = access_all other n n

  -- The copies of `write`: `rem` moves on with the places, so each byte goes to the next place.
  unfoldable pub copied_to : List A → List ℕ → List (A × ℕ)
  copied_to [] rem = []
  copied_to (place ∷ places) [] = []
  copied_to (place ∷ places) (byte ∷ rem) = (place, byte) ∷ copied_to places rem

  -- The places that are written, each with its byte.
  unfoldable pub write_all :
      List ℕ
      → DescriptorChainConsumer A
      → (IoResult (Unit {0}) × List (A × ℕ)) × DescriptorChainConsumer A
  write_all bytes c =
      let ((result, places), c) = access_all write_zero (length bytes) (length bytes) c in
      ((result, copied_to places bytes), c)
