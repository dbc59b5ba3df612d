-- ===== src/ReadDir/Seek.antt =====
-- `ReadDir::new` of src/read_dir.rs: a seek in a directory, and the walk that stands in for it where the
-- kernel refuses a large offset.
use virtiofsd.Common.{
  ℕ, zero, suc, ◌^◌, List, ◌++◌, Bool, true, false, ◌||◌, not, length, drop, if◌then◌else◌, ltb,
  ◌==◌,
}
use virtiofsd.Common.Io.{IoError, os, IoResult, ok, err, Outcome, done, panic}
use virtiofsd.ReadDir.{ReadDir, remaining, move_past}

-- An open directory: lseek64 from its start, and getdents64 with the length of the buffer, which gives
-- the bytes that it writes.
pub record Directory : Type 1 where
  pub State : Type 0
  pub lseek64 : ℕ → State → IoResult (Unit {0}) × State
  pub getdents64 : ℕ → State → IoResult (List ℕ) × State

-- How a walk ends.
pub data Walked (S : Type 0) : Type 0 where
  out_of_fuel panicked : Walked S
  walked : IoResult ReadDir → S → Walked S

module _ (dir : Directory) where
  unfoldable pub filled : List ℕ → IoResult (List ℕ) × dir.State → IoResult ReadDir × dir.State
  filled buf (err e, st) = (err e, st)
  filled buf (ok bytes, st) =
      (ok (record { buf = bytes ++ drop (length bytes) buf; current = 0; end = length bytes }), st)

  unfoldable pub new_no_seek : List ℕ → dir.State → IoResult ReadDir × dir.State
  new_no_seek buf st = filled buf (dir.getdents64 (length buf) st)

  unfoldable pub walked_with : IoResult ReadDir × dir.State → Walked dir.State
  walked_with (r, st) = walked r st

  -- After `move_past`, with the walk that goes on.
  unfoldable pub passed_on :
      (ReadDir → Walked dir.State) → dir.State → Outcome (Bool × ReadDir) → Walked dir.State
  passed_on again st panic = panicked
  passed_on again st (done (false, rd)) = again rd
  passed_on again st (done (true, rd)) =
      if ltb 0 (remaining rd) then walked (ok rd) st else walked_with (new_no_seek rd.buf st)

  unfoldable pub batch_read :
      (ReadDir → dir.State → Walked dir.State) → ℕ → IoResult ReadDir × dir.State → Walked dir.State
  batch_read again target (err e, st) = walked (err e) st
  batch_read again target (ok rd, st) =
      if remaining rd == 0
      then walked (ok rd) st
      else passed_on (λ rd. again rd st) st (move_past target rd)

  -- The loop of `new_walk_to`.
  unfoldable pub walk_on : ℕ → ℕ → List ℕ → dir.State → Walked dir.State
  walk_on zero target buf st = out_of_fuel
  walk_on (suc fuel) target buf st =
      batch_read (λ rd st. walk_on fuel target rd.buf st) target (new_no_seek buf st)

  unfoldable pub rewound : ℕ → ℕ → List ℕ → IoResult (Unit {0}) × dir.State → Walked dir.State
  rewound fuel target buf (err e, st) = walked (err e) st
  rewound fuel target buf (ok _, st) = walk_on fuel target buf st

  unfoldable pub new_walk_to : ℕ → ℕ → List ℕ → dir.State → Walked dir.State
  new_walk_to fuel target buf st = rewound fuel target buf (dir.lseek64 0 st)

  unfoldable pub is_einval : IoError → Bool
  is_einval (os e) = e == 22
  is_einval _ = false

  -- Only EINVAL for an offset that is negative as an `off64_t` leads to the walk.
  unfoldable pub seeked : ℕ → ℕ → List ℕ → IoResult (Unit {0}) × dir.State → Walked dir.State
  seeked fuel offset buf (ok _, st) = walked_with (new_no_seek buf st)
  seeked fuel offset buf (err e, st) =
      if not (is_einval e) || ltb offset (2 ^ 63)
      then walked (err e) st
      else new_walk_to fuel offset buf st

  unfoldable pub new : ℕ → ℕ → List ℕ → dir.State → Walked dir.State
  new fuel offset buf st = seeked fuel offset buf (dir.lseek64 offset st)
