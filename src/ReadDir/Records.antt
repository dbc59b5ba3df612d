-- ===== src/ReadDir/Records.antt =====
-- The records that getdents64 writes, and that `next` and `move_past` of src/read_dir.rs read them back.
use virtiofsd.Common.{
  ◌≡◌, ◌≢◌, refl, sym, ap, ◌∙◌, ℕ, zero, suc, ◌+◌, ◌-◌, ◌<◌, ◌^◌, none, some, List, [], ◌∷◌, ◌++◌,
  false, All, length, take, drop, length-append, drop-append, ltb, ◌==◌, arith,
}
use virtiofsd.Common.Io.{done}
use virtiofsd.Fuse.Bytes.{le_bytes, uint, u16, u64, uint-le_bytes, bind-some}
use virtiofsd.FileSystem.{DirEntry}
use virtiofsd.ReadDir.{
  LinuxDirent64, read_linux_dirent64, ReadDir, rem, strip_padding, named, decoded, next_in, next,
}

-- An entry with the bytes that pad its name.
abbrev pub Padded : Type 0
Padded = DirEntry × List ℕ

unfoldable pub reclen : Padded → ℕ
reclen (d, padding) = 20 + length d.name + length padding

unfoldable pub record_bytes : Padded → List ℕ
record_bytes (d, padding) =
    le_bytes 8 d.ino
    ++ (le_bytes 8 d.offset
        ++ (le_bytes 2 (20 + length d.name + length padding)
            ++ (le_bytes 1 d.type_ ++ (d.name ++ (0 ∷ padding)))))

unfoldable pub records : List Padded → List ℕ
records [] = []
records (r ∷ rs) = record_bytes r ++ records rs

-- What the kernel writes: the numbers fit their fields, and the name has no NUL.
pub record IsWritten (r : Padded) : Type 0 where
  pub ino_small : r.0.ino < 2 ^ 64
  pub offset_small : r.0.offset < 2 ^ 64
  pub type_small : r.0.type_ < 2 ^ 8
  pub reclen_small : reclen r < 2 ^ 16
  pub no_nul : All (λ b. b ≢ 0) r.0.name

strip_padding-name :
    (name padding : List ℕ)
    → All (λ b. b ≢ 0) name
    → strip_padding (name ++ (0 ∷ padding)) ≡ done name
unfolding strip_padding
strip_padding-name [] padding no_nul = refl
strip_padding-name (b ∷ name) padding (b_not, no_nul) =
    let not_nul : (b == 0) ≡ false = ground arith in
    rw (not_nul, strip_padding-name name padding no_nul) refl

pub length-record_bytes : (r : Padded) → length (record_bytes r) ≡ reclen r
unfolding record_bytes reclen le_bytes
length-record_bytes (d, padding) = omega (arith, length-append d.name (0 ∷ padding))

record_bytes-append :
    (d : DirEntry) (padding rest : List ℕ)
    → record_bytes (d, padding) ++ rest
      ≡ le_bytes 8 d.ino
        ++ (le_bytes 8 d.offset
            ++ (le_bytes 2 (20 + length d.name + length padding)
                ++ (le_bytes 1 d.type_ ++ ((d.name ++ (0 ∷ padding)) ++ rest))))
unfolding record_bytes le_bytes
record_bytes-append d padding rest = refl

decodes :
    (d : DirEntry) (padding rest : List ℕ)
    → IsWritten (d, padding)
    → read_linux_dirent64 (record_bytes (d, padding) ++ rest)
      ≡ some (
        record { d_ino = d.ino; d_off = d.offset; d_reclen = reclen (d, padding); d_ty = d.type_ },
        (d.name ++ (0 ∷ padding)) ++ rest,
      )
unfolding read_linux_dirent64 reclen
decodes d padding rest is =
    ap read_linux_dirent64 (record_bytes-append d padding rest)
    ∙ bind-some u64 _ _ _ d.ino (uint-le_bytes 8 d.ino _ (omega (arith, is.ino_small)))
    ∙ bind-some u64 _ _ _ d.offset (uint-le_bytes 8 d.offset _ (omega (arith, is.offset_small)))
    ∙ bind-some u16 _ _ _ (reclen (d, padding))
        (uint-le_bytes 2 (reclen (d, padding)) _ (omega (arith, is.reclen_small)))
    ∙ bind-some (uint 1) _ _ _ d.type_ (uint-le_bytes 1 d.type_ _ (omega (arith, is.type_small)))

drop_nil : (n : ℕ) → drop {A = ℕ} n [] ≡ []
drop_nil zero = refl
drop_nil (suc n) = refl

take_nil : (n : ℕ) → take {A = ℕ} n [] ≡ []
take_nil zero = refl
take_nil (suc n) = refl

pub take_front : (xs ys : List ℕ) → take (length xs) (xs ++ ys) ≡ xs
take_front [] ys = refl
take_front (x ∷ xs) ys = ap (λ l. x ∷ l) (take_front xs ys)

drop_add : (a n : ℕ) (xs : List ℕ) → drop (a + n) xs ≡ drop n (drop a xs)
drop_add zero n xs = let e : zero + n ≡ n = omega arith in ap (λ k. drop k xs) e
drop_add (suc a) n [] =
    let e : suc a + n ≡ suc (a + n) = omega arith in ap (λ k. drop k []) e ∙ sym (drop_nil n)
drop_add (suc a) n (x ∷ xs) =
    let e : suc a + n ≡ suc (a + n) = omega arith in ap (λ k. drop k (x ∷ xs)) e ∙ drop_add a n xs

drop-take : (n m : ℕ) (xs : List ℕ) → drop n (take m xs) ≡ take (m - n) (drop n xs)
drop-take zero m xs = let e : m ≡ m - zero = omega arith in ap (λ k. take k xs) e
drop-take (suc n) zero xs =
    let e : zero ≡ zero - suc n = omega arith in ap (λ k. take k (drop (suc n) xs)) e
drop-take (suc n) (suc m) [] = sym (take_nil (suc m - suc n))
drop-take (suc n) (suc m) (x ∷ xs) =
    let e : m - n ≡ suc m - suc n = omega arith in drop-take n m xs ∙ ap (λ k. take k (drop n xs)) e

-- What is left behind the bytes that are consumed.
rem-consumed :
    (rd : ReadDir) (n : ℕ) (xs rest : List ℕ)
    → rem rd ≡ xs ++ rest
    → length xs ≡ n
    → rem (record { buf = rd.buf; current = rd.current + n; end = rd.end }) ≡ rest
unfolding rem
rem-consumed rd n xs rest e size =
    let left : rd.end - (rd.current + n) ≡ rd.end - rd.current - n = omega arith in
    ap (λ k. take k (drop (rd.current + n) rd.buf)) left
    ∙ ap (take (rd.end - rd.current - n)) (drop_add rd.current n rd.buf)
    ∙ sym (drop-take n (rd.end - rd.current) (drop rd.current rd.buf))
    ∙ ap (drop n) e
    ∙ ap (λ k. drop k (xs ++ rest)) (sym size)
    ∙ drop-append xs rest

-- The reader behind a record.
abbrev pub behind : ReadDir → Padded → ReadDir
behind rd r = record { buf = rd.buf; current = rd.current + reclen r; end = rd.end }

pub rem-behind :
    (rd : ReadDir) (r : Padded) (rest : List ℕ)
    → rem rd ≡ record_bytes r ++ rest
    → rem (behind rd r) ≡ rest
rem-behind rd r rest e = rem-consumed rd (reclen r) (record_bytes r) rest e (length-record_bytes r)

decoded-record :
    (rd : ReadDir) (d : DirEntry) (padding rest : List ℕ)
    → IsWritten (d, padding)
    → decoded rd (
        some (
          record {
            d_ino = d.ino;
            d_off = d.offset;
            d_reclen = reclen (d, padding);
            d_ty = d.type_;
          },
          (d.name ++ (0 ∷ padding)) ++ rest,
        ))
      ≡ done (some (d, behind rd (d, padding)))
unfolding decoded named reclen
decoded-record rd d padding rest is =
    let name = d.name ++ (0 ∷ padding) in
    let fields : LinuxDirent64 = record {
      d_ino = d.ino;
      d_off = d.offset;
      d_reclen = reclen (d, padding);
      d_ty = d.type_;
    } in
    let size : reclen (d, padding) - 19 ≡ length name =
      omega (arith, length-append d.name (0 ∷ padding)) in
    let long : ltb (reclen (d, padding)) 19 ≡ false = ground arith in
    let inside : ltb (length (name ++ rest)) (reclen (d, padding) - 19) ≡ false =
      ground (arith, length-append name rest) in
    let cut : take (reclen (d, padding) - 19) (name ++ rest) ≡ name =
      ap (λ k. take k (name ++ rest)) size ∙ take_front name rest in
    rw (long, inside)
      (ap (λ l. named rd fields (strip_padding l)) cut
        ∙ ap (named rd fields) (strip_padding-name d.name padding is.no_nul))

pub next-end : (rd : ReadDir) → rem rd ≡ [] → next rd ≡ done none
unfolding next next_in
next-end rd e = ap (next_in rd) e

pub next-record :
    (rd : ReadDir) (r : Padded) (rest : List ℕ)
    → IsWritten r
    → rem rd ≡ record_bytes r ++ rest
    → next rd ≡ done (some (r.0, behind rd r))
unfolding next next_in record_bytes le_bytes
next-record rd (d, padding) rest is e =
    ap (next_in rd) e
    ∙ ap (decoded rd) (decodes d padding rest is)
    ∙ decoded-record rd d padding rest is
