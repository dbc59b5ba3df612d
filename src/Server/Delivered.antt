-- ===== src/Server/Delivered.antt =====
-- The data behind the place of a reply's header: src/server.rs counts the bytes that a loop wrote.
use virtiofsd.Common.{
  ◌≡◌, sym, ap, ℕ, zero, suc, ◌+◌, ◌-◌, ◌≤◌, Option, none, some, List, [], ◌∷◌, ◌++◌, length,
  length-append, arith,
}
use mathlib.Core.List.{append-nil}
use virtiofsd.Common.Io.{IoError, IoResult, ok, err}
use virtiofsd.Fuse.Replies.{Entry}
use virtiofsd.Fuse.Requests.{InHeader}
use virtiofsd.FileSystem.{FileSystem, DirEntry}
use virtiofsd.Server.Writer.{Writer}
use virtiofsd.Server.Dirents.{fill}
use virtiofsd.Server.Added.{encoded, Added, added, full, too_long, no_space, add_dirent-Added}
use virtiofsd.Server.Readdirplus.{
  Round, stop, next, propagated, handle_dirent, plus_added, plus_found, fill_plus,
}

-- A count with the bytes that were written into a room: it counts the first of them.
pub data Delivered (room : ℕ) : IoResult ℕ → List ℕ → Type 0 where
  delivered :
      (n : ℕ) (bytes payload left : List ℕ)
      → bytes ≡ payload ++ left
      → n ≡ length payload
      → n ≤ room
      → Delivered room (ok n) bytes
  undelivered : (e : IoError) (bytes : List ℕ) → Delivered room (err e) bytes

-- The same of the cursor that a loop leaves.
abbrev pub Filled : ℕ → IoResult ℕ × Writer → Type 0
Filled room (result, cursor) = Delivered room result cursor.out

-- A loop has written `total` bytes into a room.
pub record AtTotal (room total : ℕ) (cursor : Writer) : Type 0 where
  pub counted : total ≡ length cursor.out
  pub in_room : cursor.room + total ≡ room

AtTotal-Delivered :
    {room total : ℕ} {cursor : Writer} (out tail : List ℕ)
    → AtTotal room total cursor
    → out ≡ cursor.out ++ tail
    → Delivered room (ok total) out
AtTotal-Delivered {room} {total} {cursor} out tail at e =
    delivered total out cursor.out tail e at.counted (omega (arith, at.in_room))

AtTotal-same :
    {room total : ℕ} {cursor : Writer}
    → AtTotal room total cursor
    → Delivered room (ok total) cursor.out
AtTotal-same {room} {total} {cursor} at =
    AtTotal-Delivered cursor.out [] at (sym (append-nil cursor.out))

AtTotal-added :
    {room total : ℕ} {cursor : Writer} (d : DirEntry) (entry : Option Entry) (cursor' : Writer)
    (n : ℕ)
    → AtTotal room total cursor
    → suc n ≡ length (encoded d entry)
    → suc n ≤ cursor.room
    → cursor'.room ≡ cursor.room - suc n
    → cursor'.out ≡ cursor.out ++ encoded d entry
    → AtTotal room (total + suc n) cursor'
AtTotal-added {room} {total} {cursor} d entry cursor' n at e h r out = record {
  counted = omega (arith, at.counted, length-append cursor.out (encoded d entry), ap length out);
  in_room = omega (arith, at.in_room);
}

Filled-Delivered :
    {room total : ℕ} {cursor : Writer} (size max : ℕ) (d : DirEntry) (entries : List DirEntry)
    {r : IoResult ℕ × Writer}
    → AtTotal room total cursor
    → ((n : ℕ) (cursor' : Writer)
        → AtTotal room (total + suc n) cursor'
        → Filled room (fill size (total + suc n) entries cursor'))
    → Added cursor max d none r
    → Filled room (elim r.0 [
      | ok n ↦ elim n [ zero ↦ (ok total, r.1) | suc m ↦ fill size (total + suc m) entries r.1 ]
      | err e ↦ (err e, r.1)
    ])
Filled-Delivered size max d entries at rest (added cursor' n e _ h room out) =
    rest n cursor' (AtTotal-added d none cursor' n at e h room out)
Filled-Delivered size max d entries at rest (full _) = AtTotal-same at
Filled-Delivered size max d entries at rest too_long = undelivered _ _
Filled-Delivered size max d entries at rest (no_space cursor' tail _ out) = undelivered _ _

pub fill-Delivered :
    {room : ℕ} (size : ℕ) (entries : List DirEntry) (total : ℕ) (cursor : Writer)
    → AtTotal room total cursor
    → Filled room (fill size total entries cursor)
unfolding fill
fill-Delivered size [] total cursor at = AtTotal-same at
fill-Delivered size (d ∷ entries) total cursor at =
    Filled-Delivered size (size - total) d entries at
      (λ n cursor' at'. fill-Delivered size entries _ cursor' at')
      (add_dirent-Added cursor (size - total) d none)

-- The same of `readdirplus`, which keeps what it wrote when an entry fails.
propagated-Delivered :
    {room total : ℕ} (e : IoError) (out : List ℕ)
    → Delivered room (ok total) out
    → Delivered room (propagated total e) out
unfolding propagated
propagated-Delivered {total = zero} e out d = undelivered e out
propagated-Delivered {total = suc n} e out d = d

module _ (fs : FileSystem) (h : InHeader) where
  -- What a round leaves.
  pub data Went (room : ℕ) : Round fs.State → Type 0 where
    stopped :
        (result : IoResult ℕ) (cursor : Writer) (st : fs.State)
        → Delivered room result cursor.out
        → Went room (stop result cursor st)
    went_on :
        (total : ℕ) (cursor : Writer) (st : fs.State)
        → AtTotal room total cursor
        → Went room (next total cursor st)

  plus_added-Went :
      {room total : ℕ} {cursor : Writer} (max : ℕ) (d : DirEntry) (e : Entry)
      {r : IoResult ℕ × Writer} (st : fs.State)
      → AtTotal room total cursor
      → Added cursor max d (some e) r
      → Went room (plus_added fs h total e r st)
  unfolding plus_added
  plus_added-Went max d e st at (added cursor' n e' _ h room out) =
      went_on _ cursor' st (AtTotal-added d (some e) cursor' n at e' h room out)
  plus_added-Went max d e st at (full _) = stopped _ _ _ (AtTotal-same at)
  plus_added-Went max d e st at too_long =
      stopped _ _ _ (propagated-Delivered _ _ (AtTotal-same at))
  plus_added-Went max d e st at (no_space cursor' tail _ out) =
      stopped _ _ _ (propagated-Delivered _ _ (AtTotal-Delivered cursor'.out tail at out))

  plus_found-Went :
      {room total : ℕ} {cursor : Writer} (size : ℕ) (d : DirEntry)
      (found : IoResult Entry × fs.State)
      → AtTotal room total cursor
      → Went room (plus_found fs h size total d cursor found)
  unfolding plus_found
  plus_found-Went size d (err e, st) at = stopped _ _ _ (propagated-Delivered e _ (AtTotal-same at))
  plus_found-Went {room} {total} {cursor} size d (ok e, st) at =
      plus_added-Went (size - total) d e st at (add_dirent-Added cursor (size - total) d (some e))

  round-Delivered :
      {room : ℕ} (size : ℕ) (entries : List DirEntry) {round : Round fs.State}
      → ((total : ℕ) (cursor : Writer) (st : fs.State)
          → AtTotal room total cursor
          → Filled room (fill_plus fs h size total entries cursor st).0)
      → Went room round
      → Filled room
          (elim round as (λ x. (IoResult ℕ × Writer) × fs.State) [
            | stop result cursor st ↦ ((result, cursor), st)
            | next total cursor st ↦ fill_plus fs h size total entries cursor st
          ]).0
  round-Delivered size entries rest (stopped result cursor st d) = d
  round-Delivered size entries rest (went_on total cursor st at) = rest total cursor st at

  pub fill_plus-Delivered :
      {room : ℕ} (size : ℕ) (entries : List DirEntry) (total : ℕ) (cursor : Writer) (st : fs.State)
      → AtTotal room total cursor
      → Filled room (fill_plus fs h size total entries cursor st).0
  unfolding fill_plus
  fill_plus-Delivered size [] total cursor st at = AtTotal-same at
  fill_plus-Delivered size (d ∷ entries) total cursor st at =
      round-Delivered size entries
        (λ total cursor st at. fill_plus-Delivered size entries total cursor st at)
        (plus_found-Went size d (handle_dirent fs h d st) at)
