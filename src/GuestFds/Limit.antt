-- ===== src/GuestFds/Limit.antt =====
-- The guest never has more files open than the limit, and no slot is lost.
use virtiofsd.Common.{
  ℕ, zero, suc, ◌+◌, ◌≡◌, ◌<◌, ◌^◌, refl, List, [], ◌∷◌, length, true, arith, Bool-cases, inl, inr,
}
use virtiofsd.Common.Io.{IoResult, ok, err, os, Outcome, done}
use virtiofsd.GuestFds.{
  enfile, State, new, allocate, release, without, is_live, drop_file, Call, take, close, apply, run,
}

-- The free slots and the live files together are the limit.
abbrev pub IsBalanced : ℕ → State → Type 0
IsBalanced limit s = (s.sem.initial ≡ limit) × (s.sem.available + length s.live ≡ limit)

length-without :
    (l : List ℕ) (file : ℕ) → is_live l file ≡ true → suc (length (without l file)) ≡ length l
unfolding is_live without
length-without [] file e = cc
length-without (f ∷ l) file e = ground (arith, length-without l file)

-- How a call may end.
data Ends (limit : ℕ) (o : Outcome State) : Type 0 where
  ends : (s : State) → o ≡ done s → IsBalanced limit s → Ends limit o

allocate-IsBalanced :
    (limit : ℕ) (s : State) (file : ℕ) → IsBalanced limit s → IsBalanced limit (allocate s file).1
unfolding allocate
allocate-IsBalanced limit s file h = go s.sem.available refl
  where
    go : (n : ℕ) → s.sem.available ≡ n → IsBalanced limit (allocate s file).1
    go zero e = (ground (arith, e, h.0), ground (arith, e, h.1))
    go (suc n) e = (ground (arith, e, h.0), ground (arith, e, h.1))

drop_file-Ends :
    (limit : ℕ) (s : State) (file : ℕ)
    → limit < 2 ^ 64
    → IsBalanced limit s
    → Ends limit (drop_file s file)
unfolding drop_file release
drop_file-Ends limit s file l h = elim (Bool-cases (is_live s.live file)) [
  | inl e ↦
      let n = length-without s.live file e in
      ends
        (record {
          sem = record s.sem { available = s.sem.available + 1 };
          live = without s.live file;
        })
        (ground (arith, e, n, h.0, h.1)) (h.0, omega arith)
  | inr e ↦ ends s (ground (arith, e)) h
]

apply-Ends :
    (limit : ℕ) (c : Call) (s : State)
    → limit < 2 ^ 64
    → IsBalanced limit s
    → Ends limit (apply c s)
unfolding apply
apply-Ends limit (take file) s l h =
    ends (allocate s file).1 refl (allocate-IsBalanced limit s file h)
apply-Ends limit (close file) s l h = drop_file-Ends limit s file l h

run-step :
    (c : Call) (calls : List Call) (s s' : State)
    → apply c s ≡ done s'
    → run (c ∷ calls) s ≡ run calls s'
unfolding run
run-step c calls s s' e = ground (arith, e)

run-Ends :
    (limit : ℕ) (calls : List Call) (s : State)
    → limit < 2 ^ 64
    → IsBalanced limit s
    → Ends limit (run calls s)
run-Ends limit [] s l h = ends s (unfold run in refl) h
run-Ends limit (c ∷ calls) s l h =
    then_run (apply-Ends limit c s l h) λ s' h'. run-Ends limit calls s' l h'
  where
    then_run :
        Ends limit (apply c s)
        → ((s' : State) → IsBalanced limit s' → Ends limit (run calls s'))
        → Ends limit (run (c ∷ calls) s)
    then_run (ends s' e h') f = rw (run-step c calls s s' e) (f s' h')

-- No sequence of opens and drops of live files on a new semaphore whose limit is a u64 panics, and
-- after each the free slots and the files that the guest has are together the limit.
pub run-IsBalanced :
    (limit : ℕ) (calls : List Call)
    → limit < 2 ^ 64
    → (s : State) × (run calls (new limit) ≡ done s) × IsBalanced limit s
run-IsBalanced limit calls l =
    let h : IsBalanced limit (new limit) = unfold new in (omega arith) in
    result (run-Ends limit calls (new limit) l h)
  where
    result :
        Ends limit (run calls (new limit))
        → (s : State) × (run calls (new limit) ≡ done s) × IsBalanced limit s
    result (ends s e h) = (s, e, h)

-- How an allocation may end.
pub data Allocated (limit : ℕ) (s : State) (file : ℕ) : IoResult ℕ × State → Type 0 where
  refused :
      (s' : State)
      → length s.live ≡ limit
      → s'.live ≡ s.live
      → s'.sem.available ≡ 0
      → Allocated limit s file (err (os enfile), s')
  granted :
      (s' : State)
      → length s.live < limit
      → s'.live ≡ file ∷ s.live
      → Allocated limit s file (ok file, s')

-- While the free slots and the files are together the limit, a file is refused with ENFILE where
-- the guest has as many files as the limit, and is granted where it has fewer.
pub allocate_exact :
    (limit : ℕ) (s : State) (file : ℕ)
    → IsBalanced limit s
    → Allocated limit s file (allocate s file)
allocate_exact limit s file h = go s.sem.available refl
  where
    at_zero :
        s.sem.available ≡ 0
        → allocate s file
          ≡ (err (os enfile), record s { sem = record s.sem { error_logged = true } })
    at_zero e = unfold allocate in rw e refl

    at_suc :
        (n : ℕ)
        → s.sem.available ≡ suc n
        → allocate s file
          ≡ (ok file, record { sem = record s.sem { available = n }; live = file ∷ s.live })
    at_suc n e = unfold allocate in rw e refl

    go : (n : ℕ) → s.sem.available ≡ n → Allocated limit s file (allocate s file)
    go zero e = rw (at_zero e) (refused _ (omega arith) refl e)
    go (suc n) e = rw (at_suc n e) (granted _ (omega arith) refl)
