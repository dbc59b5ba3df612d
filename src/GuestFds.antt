-- ===== src/GuestFds.antt =====
-- src/passthrough/guest_fd_limit.rs: the semaphore that limits the files that the guest keeps open.
-- The counter is atomic, so each method is one step; `live` holds the files that the guest has,
-- which stand for the `GuestFile`s that are not dropped yet.
pub mod Limit
pub mod Tests
use virtiofsd.Common.{
  ℕ, zero, suc, ◌+◌, ◌-◌, ◌^◌, ◌≡◌, Option, none, some, List, [], ◌∷◌, length, if◌then◌else◌, ◌==◌,
  Bool, true, false, ltb, leb, ◌&&◌,
}
use virtiofsd.Common.Io.{IoResult, ok, err, os, Outcome, done, panic}

-- ENFILE
abbrev pub enfile : ℕ
enfile = 23

pub record GuestFdSemaphore : Type 0 where
  pub initial : ℕ
  pub available : ℕ
  pub error_logged : Bool

pub record State : Type 0 where
  pub sem : GuestFdSemaphore
  pub live : List ℕ

unfoldable pub new : ℕ → State
new limit = record {
  sem = record { initial = limit; available = limit; error_logged = false };
  live = [];
}

-- `allocate`, with the file that it wraps, which is dropped where there is no slot.
unfoldable pub allocate : State → ℕ → IoResult ℕ × State
allocate s file = elim s.sem.available [
  | zero ↦ (err (os enfile), record s { sem = record s.sem { error_logged = true } })
  | suc n ↦ (ok file, record { sem = record s.sem { available = n }; live = file ∷ s.live })
]

-- `release`: the counter is a `u64`, and a debug build asserts that it is not above the limit.
unfoldable pub release : GuestFdSemaphore → Outcome GuestFdSemaphore
release s =
    if ltb (s.available + 1) (2 ^ 64) && leb (s.available + 1) s.initial
    then done (record s { available = s.available + 1 })
    else panic

unfoldable pub without : List ℕ → ℕ → List ℕ
without [] file = []
without (f ∷ live) file = let rest = without live file in if f == file then live else f ∷ rest

unfoldable pub is_live : List ℕ → ℕ → Bool
is_live [] file = false
is_live (f ∷ live) file = let rest = is_live live file in if f == file then true else rest

-- The drop of a `GuestFile`; only one that is live can be dropped.
unfoldable pub drop_file : State → ℕ → Outcome State
drop_file s file = elim (is_live s.live file) [
  | true ↦ elim (release s.sem) [
    | done sem ↦ done (record { sem = sem; live = without s.live file })
    | panic ↦ panic
  ]
  | false ↦ done s
]

-- A call, by any thread.
pub data Call : Type 0 where
  take close : ℕ → Call

unfoldable pub apply : Call → State → Outcome State
apply (take file) s = done (allocate s file).1
apply (close file) s = drop_file s file

unfoldable pub run : List Call → State → Outcome State
run [] s = done s
run (c ∷ calls) s = elim (apply c s) [ done s' ↦ run calls s' | panic ↦ panic ]
