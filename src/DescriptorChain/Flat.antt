-- ===== src/DescriptorChain/Flat.antt =====
-- The cells of a chain's slices in one list: what the operations of src/descriptor_utils.rs do to them.
use virtiofsd.Common.{
  ◌≡◌, refl, sym, ap, ◌∙◌, ℕ, zero, suc, ◌+◌, ◌-◌, ◌≤◌, ◌<◌, ◌==◌, inl, inr, Option, none, some,
  List, [], ◌∷◌, ◌++◌, length, take, drop, length-append, if◌then◌else◌, ltb, leb, ltb→lt,
  Bool-cases, arith,
}
use Prim.Native.Nat.{min}
use virtiofsd.DescriptorChain.Consumer.{bytes_in, chosen, advance, split_buffers}
use virtiofsd.DescriptorChain.Reader.{copied}

module _ {A : Type 0} where
  unfoldable pub flat : List (List A) → List A
  flat [] = []
  flat (vs ∷ buffers) = vs ++ flat buffers

  pub bytes_in-flat : (buffers : List (List A)) → bytes_in buffers ≡ length (flat buffers)
  unfolding bytes_in flat
  bytes_in-flat [] = refl
  bytes_in-flat (vs ∷ buffers) =
      omega (arith, length-append vs (flat buffers), bytes_in-flat buffers)

  take_append : (n : ℕ) (xs ys : List A) → take n (xs ++ ys) ≡ take n xs ++ take (n - length xs) ys
  take_append zero [] ys = let e : 0 ≡ 0 - 0 = omega arith in ap (λ k. take k ys) e
  take_append (suc n) [] ys = let e : suc n ≡ suc n - 0 = omega arith in ap (λ k. take k ys) e
  take_append zero (x ∷ xs) ys =
      let e : 0 ≡ 0 - suc (length xs) = omega arith in ap (λ k. take k ys) e
  take_append (suc n) (x ∷ xs) ys =
      let e : n - length xs ≡ suc n - suc (length xs) = omega arith in
      ap (λ l. x ∷ l) (take_append n xs ys ∙ ap (λ k. take n xs ++ take k ys) e)

  drop_append : (n : ℕ) (xs ys : List A) → drop n (xs ++ ys) ≡ drop n xs ++ drop (n - length xs) ys
  drop_append zero [] ys = let e : 0 ≡ 0 - 0 = omega arith in ap (λ k. drop k ys) e
  drop_append (suc n) [] ys = let e : suc n ≡ suc n - 0 = omega arith in ap (λ k. drop k ys) e
  drop_append zero (x ∷ xs) ys =
      let e : 0 ≡ 0 - suc (length xs) = omega arith in ap (λ k. x ∷ (xs ++ drop k ys)) e
  drop_append (suc n) (x ∷ xs) ys =
      let e : n - length xs ≡ suc n - suc (length xs) = omega arith in
      drop_append n xs ys ∙ ap (λ k. drop n xs ++ drop k ys) e

  pub length-take-min : (n : ℕ) (xs : List A) → length (take n xs) ≡ min n (length xs)
  length-take-min zero xs = omega arith
  length-take-min (suc n) [] = omega arith
  length-take-min (suc n) (x ∷ xs) = omega (arith, length-take-min n xs)

  pub length-drop : (n : ℕ) (xs : List A) → length (drop n xs) ≡ length xs - n
  length-drop zero xs = omega arith
  length-drop (suc n) [] = omega arith
  length-drop (suc n) (x ∷ xs) = omega (arith, length-drop n xs)

  pub take-all : (n : ℕ) (xs : List A) → length xs ≤ n → take n xs ≡ xs
  take-all zero [] h = refl
  take-all (suc n) [] h = refl
  take-all zero (x ∷ xs) h = absurd (omega arith)
  take-all (suc n) (x ∷ xs) h = ap (λ l. x ∷ l) (take-all n xs (omega arith))

  pub drop-all : (n : ℕ) (xs : List A) → length xs ≤ n → drop n xs ≡ []
  drop-all zero [] h = refl
  drop-all (suc n) [] h = refl
  drop-all zero (x ∷ xs) h = absurd (omega arith)
  drop-all (suc n) (x ∷ xs) h = drop-all n xs (omega arith)

  pub drop-taken : (n : ℕ) (xs : List A) → drop (length (take n xs)) xs ≡ drop n xs
  drop-taken zero xs = refl
  drop-taken (suc n) [] = refl
  drop-taken (suc n) (x ∷ xs) = drop-taken n xs

  pub take-taken : (n : ℕ) (xs : List A) → take (length (take n xs)) xs ≡ take n xs
  take-taken zero xs = refl
  take-taken (suc n) [] = refl
  take-taken (suc n) (x ∷ xs) = ap (λ l. x ∷ l) (take-taken n xs)

  take-nil : (n : ℕ) → take {A = A} n [] ≡ []
  take-nil zero = refl
  take-nil (suc n) = refl

  drop-nil : (n : ℕ) → drop {A = A} n [] ≡ []
  drop-nil zero = refl
  drop-nil (suc n) = refl

  pub copied-flat : (n : ℕ) (buffers : List (List A)) → copied n buffers ≡ take n (flat buffers)
  unfolding copied flat
  copied-flat n [] = sym (take-nil n)
  copied-flat n (vs ∷ buffers) =
      ap (λ l. take n vs ++ l) (copied-flat (n - length vs) buffers)
      ∙ sym (take_append n vs (flat buffers))

  -- The slices that are chosen hold the cells that are wanted.
  pub copied-chosen :
      (count buflen : ℕ) (buffers : List (List A))
      → copied (count - buflen) (chosen count buflen buffers) ≡ take (count - buflen) (flat buffers)
  unfolding copied chosen flat
  copied-chosen count buflen [] = sym (take-nil (count - buflen))
  copied-chosen count buflen (vs ∷ buffers) = elim (Bool-cases (leb count buflen)) [
    | inl e ↦
        let none_left : 0 ≡ count - buflen = ground arith in
        rw e (ap (λ k. take k (vs ++ flat buffers)) none_left)
    | inr e ↦
        let next = buflen + min (count - buflen) (length vs) in
        let left : count - buflen - length vs ≡ count - next = ground arith in
        rw e (
          ap (λ l. take (count - buflen) vs ++ l)
            (ap (λ k. copied k (chosen count next buffers)) left
              ∙ copied-chosen count next buffers
              ∙ ap (λ k. take k (flat buffers)) (sym left))
          ∙ sym (take_append (count - buflen) vs (flat buffers)))
  ]

  pub flat-advance :
      (n : ℕ) (buffers : List (List A)) → flat (advance n buffers) ≡ drop n (flat buffers)
  unfolding advance flat
  flat-advance n [] = sym (drop-nil n)
  flat-advance n (vs ∷ buffers) = elim (Bool-cases (ltb n (length vs))) [
    | inl e ↦
        let within : 0 ≡ n - length vs = ground arith in
        rw e (
          ap (λ k. drop n vs ++ drop k (flat buffers)) within
          ∙ sym (drop_append n vs (flat buffers)))
    | inr e ↦
        let beyond : length vs ≤ n = ground arith in
        rw e (
          flat-advance (n - length vs) buffers
          ∙ ap (λ l. l ++ drop (n - length vs) (flat buffers)) (sym (drop-all n vs beyond))
          ∙ sym (drop_append n vs (flat buffers)))
  ]

  -- A split of the slices is a split of the cells, where there are so many.
  pub data Split (n : ℕ) (buffers : List (List A))
      : Option (List (List A) × List (List A)) → Type 0 where
    split :
        (front back : List (List A))
        → n ≤ length (flat buffers)
        → flat front ≡ take n (flat buffers)
        → flat back ≡ drop n (flat buffers)
        → Split n buffers (some (front, back))
    beyond : length (flat buffers) < n → Split n buffers none

  split_further :
      (n : ℕ) (vs : List A) (buffers : List (List A)) {r : Option (List (List A) × List (List A))}
      → length vs ≤ n
      → Split (n - length vs) buffers r
      → Split n
          (vs ∷ buffers)
          (elim r [ none ↦ none | some (front, back) ↦ some (vs ∷ front, back) ])
  unfolding flat
  split_further n vs buffers h (split front back fits f b) =
      split (vs ∷ front) back (omega (arith, length-append vs (flat buffers)))
        (ap (λ l. vs ++ l) f
          ∙ ap (λ l. l ++ take (n - length vs) (flat buffers)) (sym (take-all n vs h))
          ∙ sym (take_append n vs (flat buffers)))
        (b
          ∙ ap (λ l. l ++ drop (n - length vs) (flat buffers)) (sym (drop-all n vs h))
          ∙ sym (drop_append n vs (flat buffers)))
  split_further n vs buffers h (beyond b) = beyond (omega (arith, length-append vs (flat buffers)))

  split_within :
      (n : ℕ) (vs : List A) (buffers : List (List A))
      → n < length vs
      → Split n
          (vs ∷ buffers)
          (if n == 0 then some ([], vs ∷ buffers) else some (take n vs ∷ [], drop n vs ∷ buffers))
  unfolding flat
  split_within n vs buffers h =
      let fits = length-append vs (flat buffers) in
      elim (Bool-cases (n == 0)) [
        | inl e ↦
            let z : 0 ≡ n = ground arith in
            rw e (
              split [] (vs ∷ buffers) (omega (arith, fits))
                (ap (λ k. take k (vs ++ flat buffers)) z) (ap (λ k. drop k (vs ++ flat buffers)) z))
        | inr e ↦
            let z : 0 ≡ n - length vs = omega arith in
            rw e (
              split (take n vs ∷ []) (drop n vs ∷ buffers) (omega (arith, fits))
                (ap (λ k. take n vs ++ take k (flat buffers)) z
                  ∙ sym (take_append n vs (flat buffers)))
                (ap (λ k. drop n vs ++ drop k (flat buffers)) z
                  ∙ sym (drop_append n vs (flat buffers))))
      ]

  pub split_buffers-Split :
      (n : ℕ) (buffers : List (List A)) → Split n buffers (split_buffers n buffers)
  unfolding split_buffers flat
  split_buffers-Split n [] = elim (Bool-cases (n == 0)) [
    | inl e ↦ rw e (split [] [] (ground arith) (sym (take-nil n)) (sym (drop-nil n)))
    | inr e ↦ rw e (beyond (ground arith))
  ]
  split_buffers-Split n (vs ∷ buffers) = elim (Bool-cases (ltb n (length vs))) [
    | inr e ↦
        rw e
          (split_further n vs buffers (ground arith) (split_buffers-Split (n - length vs) buffers))
    | inl e ↦ rw e (split_within n vs buffers (ltb→lt _ _ e))
  ]
