-- ===== src/Common/Chain.antt =====
-- Chains of fallible steps, the `?` of the source.
use virtiofsd.Common.{◌≡◌, refl}
use virtiofsd.Common.Io.{IoResult, ok, err}

infixl 5 ◌>>=◌
abbrev pub ◌>>=◌ {ℓ κ} : {A : Type ℓ} {B : Type κ} → IoResult A → (A → IoResult B) → IoResult B
ok a >>= f = f a
err e >>= f = err e

-- A chain that succeeds has succeeded at its first step.
pub >>=-eq-ok {ℓ κ} :
    {A : Type ℓ} {B : Type κ} (r : IoResult A) (f : A → IoResult B) {b : B}
    → (r >>= f) ≡ ok b
    → (a : A) × (r ≡ ok a) × (f a ≡ ok b)
>>=-eq-ok (ok a) f h = (a, refl, h)
>>=-eq-ok (err e) f h = cc
