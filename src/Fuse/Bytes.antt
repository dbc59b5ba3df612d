-- ===== src/Fuse/Bytes.antt =====
-- Integers as bytes, in the little-endian order of the hosts that the daemon runs on, and readers of
-- them.
use virtiofsd.Common.{
  ap, ◌∙◌, ℕ, zero, suc, ◌+◌, ◌*◌, ◌/◌, ◌%◌, ◌^◌, ◌≡◌, ◌<◌, refl, Option, none, some, List, [], ◌∷◌,
  ◌++◌, length, arith,
}

-- The `n` low bytes of a number, the lowest first.
unfoldable pub le_bytes : ℕ → ℕ → List ℕ
le_bytes zero v = []
le_bytes (suc n) v = (v % 256) ∷ le_bytes n (v / 256)

pub length-le_bytes : (n v : ℕ) → length (le_bytes n v) ≡ n
unfolding le_bytes
length-le_bytes zero v = refl
length-le_bytes (suc n) v = ap suc (length-le_bytes n (v / 256))

-- A number read from the front, with what follows.
unfoldable pub read_le : ℕ → List ℕ → ℕ × List ℕ
read_le zero l = (0, l)
read_le (suc n) [] = (0, [])
read_le (suc n) (b ∷ l) = let (v, left) = read_le n l in (b + 256 * v, left)

pub read_le-append :
    (n v : ℕ) (rest : List ℕ) → v < 256 ^ n → read_le n (le_bytes n v ++ rest) ≡ (v, rest)
unfolding read_le le_bytes
read_le-append zero v rest l = let z : 0 ≡ v = omega arith in ap (λ x. (x, rest)) z
read_le-append (suc n) v rest l =
    let small : v / 256 < 256 ^ n = omega arith in
    let read = read_le-append n (v / 256) rest small in
    let whole : v % 256 + 256 * (v / 256) ≡ v = omega arith in
    ap (λ r. (v % 256 + 256 * r.0, r.1)) read ∙ ap (λ x. (x, rest)) whole

-- A reader of an object: none where the bytes run out.
abbrev pub Decode : Type 0 → Type 0
Decode A = List ℕ → Option (A × List ℕ)

infixl 5 ◌>>=◌
abbrev pub ◌>>=◌ : {A B : Type 0} → Decode A → (A → Decode B) → Decode B
◌>>=◌ d f bytes = elim (d bytes) [ none ↦ none | some (a, rest) ↦ f a rest ]

abbrev pub pure : {A : Type 0} → A → Decode A
pure a bytes = some (a, bytes)

-- An unsigned integer of `n` bytes.
unfoldable pub uint : ℕ → Decode ℕ
uint zero bytes = some (0, bytes)
uint (suc n) [] = none
uint (suc n) (b ∷ bytes) = elim (uint n bytes) [
  | none ↦ none
  | some (v, rest) ↦ some (b + 256 * v, rest)
]

abbrev pub u16 : Decode ℕ
u16 = uint 2

abbrev pub u32 : Decode ℕ
u32 = uint 4

abbrev pub u64 : Decode ℕ
u64 = uint 8

-- The next `n` bytes.
unfoldable pub bytes_of : ℕ → Decode (List ℕ)
bytes_of zero bytes = some ([], bytes)
bytes_of (suc n) [] = none
bytes_of (suc n) (b ∷ bytes) = elim (bytes_of n bytes) [
  | none ↦ none
  | some (l, rest) ↦ some (b ∷ l, rest)
]

pub uint-le_bytes :
    (n v : ℕ) (rest : List ℕ) → v < 256 ^ n → uint n (le_bytes n v ++ rest) ≡ some (v, rest)
unfolding uint le_bytes
uint-le_bytes zero v rest l = let z : 0 ≡ v = omega arith in ap (λ x. some (x, rest)) z
uint-le_bytes (suc n) v rest l =
    let small : v / 256 < 256 ^ n = omega arith in
    let whole : v % 256 + 256 * (v / 256) ≡ v = omega arith in
    rw (uint-le_bytes n (v / 256) rest small) (ap (λ x. some (x, rest)) whole)

-- A reader whose first step reads something.
pub bind-some :
    {A B : Type 0} (d : Decode A) (f : A → Decode B) (bytes rest : List ℕ) (a : A)
    → d bytes ≡ some (a, rest)
    → (d >>= f) bytes ≡ f a rest
bind-some d f bytes rest a e = ap (λ o. elim o [ none ↦ none | some x ↦ f x.0 x.1 ]) e
