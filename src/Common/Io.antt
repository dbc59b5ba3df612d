-- ===== src/Common/Io.antt =====
-- `io::Result`, and code that may panic. Of an `io::Error` the kind or the `errno` is kept, the text
-- is not.
use virtiofsd.Common.{ℕ}

pub data IoError : Type 0 where
  os : ℕ → IoError
  not_found permission_denied invalid_input invalid_data write_zero other : IoError

pub data IoResult {ℓ} (A : Type ℓ) : Type ℓ where
  ok : A → IoResult A
  err : IoError → IoResult A

-- `unwrap`, `assert!` and arithmetic checks end in a panic.
pub data Outcome {ℓ} (A : Type ℓ) : Type ℓ where
  done : A → Outcome A
  panic : Outcome A

infixl 5 ◌>>=◌
abbrev pub ◌>>=◌ {ℓ κ} : {A : Type ℓ} {B : Type κ} → Outcome A → (A → Outcome B) → Outcome B
done a >>= f = f a
panic >>= f = panic
