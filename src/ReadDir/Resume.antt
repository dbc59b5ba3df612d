-- ===== src/ReadDir/Resume.antt =====
-- The walk of src/read_dir.rs resumes a directory behind a cookie.
use virtiofsd.Common.{
  ◌≡◌, ◌≢◌, refl, sym, ap, ◌∙◌, ℕ, zero, suc, ◌+◌, ◌-◌, ◌≤◌, ◌<◌, List, [], ◌∷◌, ◌++◌, Bool, false,
  Bool-cases, inl, inr, All, length, take, drop, length-append, ltb, ◌==◌, arith,
}
use mathlib.Core.List.{append_assoc}
use virtiofsd.Common.Io.{ok, Outcome}
use virtiofsd.ReadDir.{ReadDir, remaining, rem}
use virtiofsd.DescriptorChain.Flat.{length-take-min, length-drop}
use virtiofsd.ReadDir.Records.{Padded, IsWritten, records, take_front}
use virtiofsd.ReadDir.Walk.{Passed, passed, not_found, move_past-Passed, length-records, reclen-pos}
use virtiofsd.ReadDir.Seek.{
  Directory, Walked, walked, filled, new_no_seek, walked_with, passed_on, batch_read, walk_on,
  rewound, new_walk_to,
}

unfoldable pub all_records : List (List Padded) → List Padded
all_records [] = []
all_records (batch ∷ batches) = batch ++ all_records batches

All-append : (P : Padded → Type 0) (xs ys : List Padded) → All P xs → All P ys → All P (xs ++ ys)
All-append P [] ys a b = b
All-append P (x ∷ xs) ys (p, a) b = (p, All-append P xs ys a b)

length-no_records : length (records []) ≡ 0
unfolding records
length-no_records = refl

no_records : (r : Padded) (rs : List Padded) → r ∷ rs ≢ []
no_records r rs e = omega (arith, ap length e)

no_bytes : (rs : List Padded) → length (records rs) ≡ 0 → rs ≡ []
no_bytes [] h = refl
no_bytes (r ∷ rs) h = absurd (omega (arith, length-records r rs, reclen-pos r))

module _ (dir : Directory) (size : ℕ) where
  -- What the directory gives from a state on to buffers of this size: batches of records, none of them
  -- empty, and then nothing any more.
  pub data Streams : List (List Padded) → dir.State → Type 0 where
    ends : (st : dir.State) → dir.getdents64 size st ≡ (ok [], st) → Streams [] st
    fills :
        (r : Padded) (rs : List Padded) (batches : List (List Padded)) (st st' : dir.State)
        → All IsWritten (r ∷ rs)
        → length (records (r ∷ rs)) ≤ size
        → dir.getdents64 size st ≡ (ok (records (r ∷ rs)), st')
        → Streams batches st'
        → Streams ((r ∷ rs) ∷ batches) st

  -- The records behind the target are those in the buffer and those that the directory gives next. An
  -- empty buffer is the end of the directory.
  pub data Resumes (target : ℕ) (all : List Padded) : Walked dir.State → Type 0 where
    resumed :
        (before after now : List Padded) (r : Padded) (later : List (List Padded)) (rd : ReadDir)
        (st : dir.State)
        → all ≡ before ++ (r ∷ after)
        → All (λ x. x.0.offset ≢ target) before
        → r.0.offset ≡ target
        → rem rd ≡ records now
        → Streams later st
        → after ≡ now ++ all_records later
        → (now ≡ [] → later ≡ [])
        → Resumes target all (walked (ok rd) st)
    at_end :
        (rd : ReadDir) (st : dir.State)
        → All (λ x. x.0.offset ≢ target) all
        → rem rd ≡ []
        → Resumes target all (walked (ok rd) st)

  -- A buffer that was filled.
  abbrev filled_with : List ℕ → List ℕ → ReadDir
  filled_with bytes buf = record {
    buf = bytes ++ drop (length bytes) buf;
    current = 0;
    end = length bytes;
  }

  rem-filled : (bytes buf : List ℕ) → rem (filled_with bytes buf) ≡ bytes
  unfolding rem
  rem-filled bytes buf =
      let e : length bytes - 0 ≡ length bytes = omega arith in
      ap (λ k. take k (bytes ++ drop (length bytes) buf)) e ∙ take_front bytes _

  new_no_seek-bytes :
      (buf bytes : List ℕ) (st st' : dir.State)
      → length buf ≡ size
      → dir.getdents64 size st ≡ (ok bytes, st')
      → new_no_seek dir buf st ≡ (ok (filled_with bytes buf), st')
  unfolding new_no_seek filled
  new_no_seek-bytes buf bytes st st' len e =
      ap (λ n. filled dir buf (dir.getdents64 n st)) len ∙ ap (filled dir buf) e

  abbrev Goes : (ReadDir → dir.State → Walked dir.State) → ℕ → List (List Padded) → Type 0
  Goes again target batches =
      (rd : ReadDir) (st : dir.State)
      → length rd.buf ≡ size
      → Streams batches st
      → Resumes target (all_records batches) (again rd st)

  prepend-Resumes :
      (target : ℕ) (batch all : List Padded) {w : Walked dir.State}
      → All (λ x. x.0.offset ≢ target) batch
      → Resumes target all w
      → Resumes target (batch ++ all) w
  prepend-Resumes target batch all none_of
        (resumed before after now r later rd st e none_before here left s a z) =
      resumed (batch ++ before) after now r later rd st
        (ap (λ l. batch ++ l) e ∙ sym (append_assoc batch before (r ∷ after)))
        (All-append _ batch before none_of none_before) here left s a z
  prepend-Resumes target batch all none_of (at_end rd st others left) =
      at_end rd st (All-append _ batch all none_of others) left

  -- The target was the last of its batch: the directory goes on behind it.
  next_batch-Resumes :
      (target : ℕ) (before : List Padded) (r : Padded) (batches : List (List Padded))
      (all : List Padded) (buf : List ℕ) (st : dir.State)
      → all ≡ before ++ (r ∷ all_records batches)
      → All (λ x. x.0.offset ≢ target) before
      → r.0.offset ≡ target
      → length buf ≡ size
      → Streams batches st
      → Resumes target all (walked_with dir (new_no_seek dir buf st))
  unfolding walked_with all_records records
  next_batch-Resumes target before r batches all buf st e none_before here len (ends _ given) =
      rw (new_no_seek-bytes buf [] st st len given) (
        resumed before [] [] r [] _ st e none_before here (rem-filled [] buf) (ends st given) refl
          (λ z. refl))
  next_batch-Resumes target before r batches all buf st e none_before here len
        (fills r' rs later _ st' is fit given more) =
      rw (new_no_seek-bytes buf (records (r' ∷ rs)) st st' len given) (
        resumed before _ (r' ∷ rs) r later _ st' e none_before here
          (rem-filled (records (r' ∷ rs)) buf) more refl (λ z. absurd (no_records r' rs z)))

  length-rem : (rd : ReadDir) → rd.end ≤ length rd.buf → length (rem rd) ≡ remaining rd
  unfolding rem remaining
  length-rem rd h = omega (
    arith,
    length-take-min (rd.end - rd.current) (drop rd.current rd.buf),
    length-drop rd.current rd.buf,
  )

  passed_on-Resumes :
      (target : ℕ) (rd : ReadDir) (batch : List Padded) (batches : List (List Padded))
      (again : ReadDir → dir.State → Walked dir.State) (st : dir.State)
      {o : Outcome (Bool × ReadDir)}
      → length rd.buf ≡ size
      → rd.end ≤ length rd.buf
      → Streams batches st
      → Goes again target batches
      → Passed target rd batch o
      → Resumes target (batch ++ all_records batches) (passed_on dir (λ rd. again rd st) st o)
  unfolding passed_on
  passed_on-Resumes target rd batch batches again st len inside s go
        (passed before after x rd' e none_before here left same) =
      let joined : batch ++ all_records batches ≡ before ++ (x ∷ (after ++ all_records batches)) =
        ap (λ l. l ++ all_records batches) e
        ∙ append_assoc before (x ∷ after) (all_records batches) in
      let size_left = length-rem rd' (omega (arith, ap length same.0, same.1)) in
      elim (Bool-cases (ltb 0 (remaining rd'))) [
        | inl some_left ↦ rw some_left (
            resumed before _ after x batches rd' st joined none_before here left s refl (λ z.
              absurd (
                ground (arith, ap length left, ap (λ l. length (records l)) z, length-no_records))))
        | inr none_left ↦
            let gone : after ≡ [] = no_bytes after (ground (arith, ap length left)) in
            rw none_left (
              next_batch-Resumes target before x batches _ rd'.buf st
                (joined ∙ ap (λ l. before ++ (x ∷ (l ++ all_records batches))) gone) none_before
                here (ap length same.0 ∙ len) s)
      ]
  passed_on-Resumes target rd batch batches again st len inside s go
        (not_found rd' none_of left same) =
      prepend-Resumes target batch (all_records batches) none_of
        (go rd' st (ap length same.0 ∙ len) s)

  -- The batches that are left are read until one has the target.
  walk_on-Resumes :
      (target : ℕ) (batches : List (List Padded)) (fuel : ℕ) (buf : List ℕ) (st : dir.State)
      → length batches < fuel
      → length buf ≡ size
      → Streams batches st
      → Resumes target (all_records batches) (walk_on dir fuel target buf st)
  unfolding walk_on batch_read all_records remaining
  walk_on-Resumes target batches zero buf st f len s = absurd (omega arith)
  walk_on-Resumes target _ (suc fuel) buf st f len (ends _ given) =
      rw (new_no_seek-bytes buf [] st st len given)
        (at_end (filled_with [] buf) st tt (rem-filled [] buf))
  walk_on-Resumes target _ (suc fuel) buf st f len (fills r rs batches _ st' is fit given more) =
      let bytes = records (r ∷ rs) in
      let rd = filled_with bytes buf in
      let some_left : (length bytes - 0 == 0) ≡ false =
        ground (arith, length-records r rs, reclen-pos r) in
      let whole : length rd.buf ≡ size =
        omega
          (arith, length-append bytes (drop (length bytes) buf), length-drop (length bytes) buf) in
      rw (new_no_seek-bytes buf bytes st st' len given, some_left)
        (passed_on-Resumes target rd (r ∷ rs) batches (λ rd st. walk_on dir fuel target rd.buf st)
          st' whole (omega arith) more
          (λ rd st l s. walk_on-Resumes target batches fuel rd.buf st (omega arith) l s)
          (move_past-Passed target (r ∷ rs) rd is (rem-filled bytes buf)))

  -- Where the directory, rewound, gives batches of records to buffers of a size, the walk ends within
  -- one round more than there are batches. It leaves exactly the records behind the first with the
  -- target offset, those in the buffer and then those that the directory gives next, and an empty
  -- buffer only where none are left; or no record has the offset, and the buffer is empty.
  pub new_walk_to-Resumes :
      (target : ℕ) (batches : List (List Padded)) (buf : List ℕ) (before st : dir.State)
      → length buf ≡ size
      → dir.lseek64 0 before ≡ (ok tt, st)
      → Streams batches st
      → Resumes target
          (all_records batches)
          (new_walk_to dir (1 + length batches) target buf before)
  unfolding new_walk_to rewound
  new_walk_to-Resumes target batches buf before st len e s =
      rw e (walk_on-Resumes target batches (1 + length batches) buf st (omega arith) len s)
