-- ===== src/DescriptorChain/Agreement.antt =====
-- The reader and the writer that src/server.rs is modelled with are what src/descriptor_utils.rs does on
-- any chain: the slices do not show.
use virtiofsd.Common.{
  ◌≡◌, refl, sym, ap, ◌∙◌, ℕ, zero, suc, ◌-◌, ◌≤◌, ◌<◌, Option, none, some, List, [], ◌∷◌, ◌++◌,
  length, map, take, drop, ltb, leb, true, false, arith,
}
use mathlib.Core.List.{append-nil}
use virtiofsd.Common.Io.{IoResult, ok, err, other, write_zero}
use virtiofsd.Fuse.Bytes.{bytes_of}
use virtiofsd.Server.Writer as Room
use virtiofsd.Server.Writer.{Writer}
use virtiofsd.DescriptorChain.Consumer.{DescriptorChainConsumer, split_at}
use virtiofsd.DescriptorChain.Reader.{read_exact, copied_to, write_all}
use virtiofsd.DescriptorChain.Flat.{
  flat, length-take-min, length-drop, take-all, Split, split, beyond, split_buffers-Split,
}
use virtiofsd.DescriptorChain.Refinement.{InUsize, Moved, moved, ended, access_all-Moved}

bytes_of-take : (n : ℕ) (xs : List ℕ) → n ≤ length xs → bytes_of n xs ≡ some (take n xs, drop n xs)
unfolding bytes_of
bytes_of-take zero xs h = refl
bytes_of-take (suc n) [] h = absurd (omega arith)
bytes_of-take (suc n) (x ∷ xs) h = rw (bytes_of-take n xs (omega arith)) refl

bytes_of-short : (n : ℕ) (xs : List ℕ) → length xs < n → bytes_of n xs ≡ none
unfolding bytes_of
bytes_of-short zero xs h = absurd (omega arith)
bytes_of-short (suc n) [] h = refl
bytes_of-short (suc n) (x ∷ xs) h = rw (bytes_of-short n xs (omega arith)) refl

-- How a reader of `n` bytes agrees with `bytes_of` on the bytes of its slices.
pub data Reads (n : ℕ) (c : DescriptorChainConsumer ℕ)
    : (IoResult (Unit {0}) × List ℕ) × DescriptorChainConsumer ℕ → Type 0 where
  reads :
      (bytes : List ℕ) (c' : DescriptorChainConsumer ℕ)
      → bytes_of n (flat c.buffers) ≡ some (bytes, flat c'.buffers)
      → Reads n c ((ok tt, bytes), c')
  runs_out :
      (bytes : List ℕ) (c' : DescriptorChainConsumer ℕ)
      → bytes_of n (flat c.buffers) ≡ none
      → Reads n c ((err other, bytes), c')

Moved-Reads :
    (n : ℕ) (c : DescriptorChainConsumer ℕ)
    {r : (IoResult (Unit {0}) × List ℕ) × DescriptorChainConsumer ℕ}
    → Moved other n c r
    → Reads n c r
Moved-Reads n c (moved bytes c' h e d _) = reads bytes c' (
    bytes_of-take n (flat c.buffers) h
    ∙ ap some (ap (λ b. (b, drop n (flat c.buffers))) (sym e) ∙ ap (λ l. (bytes, l)) (sym d)))
Moved-Reads n c (ended bytes c' h e d _) = runs_out bytes c' (bytes_of-short n (flat c.buffers) h)

-- `read_exact` of a reader gives the first `n` bytes of its slices and leaves the others, or fails where
-- there are fewer. The bytes number less than 2 ^ 64 with those read before.
pub read_exact-Reads :
    (n : ℕ) (c : DescriptorChainConsumer ℕ) → InUsize c → Reads n c (read_exact n c)
unfolding read_exact
read_exact-Reads n c h = Moved-Reads n c (access_all-Moved other n n c (omega arith) h)

module _ {A : Type 0} where
  -- How a writer of bytes agrees with one that has only a room: it fills the first places in their
  -- order with the bytes that the other puts out, and what does not fit is cut off.
  pub data Writes (bytes : List ℕ) (w : Writer) (c : DescriptorChainConsumer A)
      : (IoResult (Unit {0}) × List (A × ℕ)) × DescriptorChainConsumer A → Type 0 where
    writes :
        (written : List (A × ℕ)) (c' : DescriptorChainConsumer A) (w' : Writer)
        → Room.write_all bytes w ≡ (ok tt, w')
        → w'.room ≡ length (flat c'.buffers)
        → w'.out ≡ w.out ++ map (λ p. p.1) written
        → map (λ p. p.0) written ++ flat c'.buffers ≡ flat c.buffers
        → Writes bytes w c ((ok tt, written), c')
    cuts :
        (written : List (A × ℕ)) (c' : DescriptorChainConsumer A) (w' : Writer)
        → Room.write_all bytes w ≡ (err write_zero, w')
        → w'.room ≡ length (flat c'.buffers)
        → w'.out ≡ w.out ++ map (λ p. p.1) written
        → map (λ p. p.0) written ++ flat c'.buffers ≡ flat c.buffers
        → Writes bytes w c ((err write_zero, written), c')

  take-drop : (n : ℕ) (xs : List A) → take n xs ++ drop n xs ≡ xs
  take-drop zero xs = refl
  take-drop (suc n) [] = refl
  take-drop (suc n) (x ∷ xs) = ap (λ l. x ∷ l) (take-drop n xs)

  copied_to-places :
      (places : List A) (bytes : List ℕ)
      → length places ≤ length bytes
      → map (λ p. p.0) (copied_to places bytes) ≡ places
  unfolding copied_to
  copied_to-places [] bytes h = refl
  copied_to-places (p ∷ places) [] h = absurd (omega arith)
  copied_to-places (p ∷ places) (b ∷ bytes) h =
      ap (λ l. p ∷ l) (copied_to-places places bytes (omega arith))

  copied_to-bytes :
      (places : List A) (bytes : List ℕ)
      → map (λ p. p.1) (copied_to places bytes) ≡ take (length places) bytes
  unfolding copied_to
  copied_to-bytes [] bytes = refl
  copied_to-bytes (p ∷ places) [] = refl
  copied_to-bytes (p ∷ places) (b ∷ bytes) = ap (λ l. b ∷ l) (copied_to-bytes places bytes)

  -- What `write_all` makes of the places that were moved over.
  abbrev with_bytes :
      List ℕ
      → (IoResult (Unit {0}) × List A) × DescriptorChainConsumer A
      → (IoResult (Unit {0}) × List (A × ℕ)) × DescriptorChainConsumer A
  with_bytes bytes r = ((r.0.0, copied_to r.0.1 bytes), r.1)

  Moved-Writes :
      (bytes : List ℕ) (w : Writer) (c : DescriptorChainConsumer A)
      {r : (IoResult (Unit {0}) × List A) × DescriptorChainConsumer A}
      → w.room ≡ length (flat c.buffers)
      → Moved write_zero (length bytes) c r
      → Writes bytes w c (with_bytes bytes r)
  unfolding Room.write_all
  Moved-Writes bytes w c room (moved places c' h e d _) =
      let fits : leb (length bytes) w.room ≡ true = ground arith in
      let size = length-take-min (length bytes) (flat c.buffers) in
      let count : length places ≡ length bytes = omega (arith, ap length e) in
      writes (copied_to places bytes) c'
        (record { room = w.room - length bytes; out = w.out ++ bytes }) (rw fits refl)
        (omega (arith, ap length d, length-drop (length bytes) (flat c.buffers)))
        (ap (λ l. w.out ++ l)
          (sym (copied_to-bytes places bytes ∙ take-all (length places) bytes (omega arith))))
        (ap (λ l. l ++ flat c'.buffers) (copied_to-places places bytes (omega arith) ∙ e)
          ∙ ap (λ l. take (length bytes) (flat c.buffers) ++ l) d
          ∙ take-drop (length bytes) (flat c.buffers))
  Moved-Writes bytes w c room (ended places c' h e d _) =
      let over : leb (length bytes) w.room ≡ false = ground arith in
      let size : w.room ≡ length places = omega (arith, ap length e) in
      cuts (copied_to places bytes) c' (record { room = 0; out = w.out ++ take w.room bytes })
        (rw over refl) (omega (arith, ap length d))
        (ap (λ l. w.out ++ l) (ap (λ k. take k bytes) size ∙ sym (copied_to-bytes places bytes)))
        (ap (λ l. l ++ flat c'.buffers) (copied_to-places places bytes (omega arith))
          ∙ ap (λ l. places ++ l) d
          ∙ append-nil places
          ∙ e)

  -- `write_all` of a writer is the `write_all` of one that has the room of its slices: it fills their
  -- first places in order with the bytes, and fails where they do not fit. The places number less than
  -- 2 ^ 64 with those filled before.
  pub write_all-Writes :
      (bytes : List ℕ) (w : Writer) (c : DescriptorChainConsumer A)
      → InUsize c
      → w.room ≡ length (flat c.buffers)
      → Writes bytes w c (write_all bytes c)
  unfolding write_all
  write_all-Writes bytes w c h room =
      Moved-Writes bytes w c room
        (access_all-Moved write_zero (length bytes) (length bytes) c (omega arith) h)

  -- How a split of the slices agrees with a split of the room.
  pub data Splits (n : ℕ) (w : Writer) (c : DescriptorChainConsumer A)
      : Option (DescriptorChainConsumer A × DescriptorChainConsumer A) → Type 0 where
    splits :
        (front back : DescriptorChainConsumer A) (w' cursor : Writer)
        → Room.split_at n w ≡ some (w', cursor)
        → w'.room ≡ length (flat front.buffers)
        → cursor.room ≡ length (flat back.buffers)
        → flat front.buffers ++ flat back.buffers ≡ flat c.buffers
        → Splits n w c (some (front, back))
    out_of_bounds : Room.split_at n w ≡ none → Splits n w c none

  split-Splits :
      (n : ℕ) (w : Writer) (c : DescriptorChainConsumer A)
      {r : Option (List (List A) × List (List A))}
      → w.room ≡ length (flat c.buffers)
      → Split n c.buffers r
      → Splits n w c (elim r [
        | none ↦ none
        | some (front, back) ↦ some (
          record { buffers = front; bytes_consumed = c.bytes_consumed },
          record { buffers = back; bytes_consumed = 0 },
        )
      ])
  unfolding Room.split_at
  split-Splits n w c room (split front back h f b) =
      let fits : ltb w.room n ≡ false = ground arith in
      splits _ _ (record { room = n; out = w.out }) (record { room = w.room - n; out = [] })
        (rw fits refl) (omega (arith, ap length f, length-take-min n (flat c.buffers)))
        (omega (arith, ap length b, length-drop n (flat c.buffers)))
        (ap (λ l. l ++ flat back) f
          ∙ ap (λ l. take n (flat c.buffers) ++ l) b
          ∙ take-drop n (flat c.buffers))
  split-Splits n w c room (beyond h) =
      let over : ltb w.room n ≡ true = ground arith in out_of_bounds (rw over refl)

  -- `split_at` of a writer is the `split_at` of one that has the room of its slices, whose places it
  -- parts in their order.
  pub split_at-Splits :
      (n : ℕ) (w : Writer) (c : DescriptorChainConsumer A)
      → w.room ≡ length (flat c.buffers)
      → Splits n w c (split_at n c)
  unfolding split_at
  split_at-Splits n w c room = split-Splits n w c room (split_buffers-Split n c.buffers)
