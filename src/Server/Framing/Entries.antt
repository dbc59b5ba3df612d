-- ===== src/Server/Framing/Entries.antt =====
-- The handlers of src/server.rs that read data and entries leave a frame: its length counts the bytes
-- that were written behind the header.
use virtiofsd.Common.{
  ◌≡◌, refl, ℕ, ◌+◌, ◌-◌, ◌%◌, ◌^◌, ◌≤◌, ◌<◌, Option, none, some, Bool, List, [], ◌∷◌, ◌++◌, length,
  ltb, ltb→lt, Bool-cases, inl, inr, arith,
}
use virtiofsd.Common.Io.{IoResult, ok, err}
use virtiofsd.FileSystem.{FileSystem, Context, DirEntry}
use virtiofsd.Fuse.Requests.{InHeader, ReadIn}
use virtiofsd.Fuse.Replies.{as_slice, out_header, negated}
use Prim.Native.Nat.{min}
use virtiofsd.Server.Limits.{max_buffer_size}
use virtiofsd.Server.Writer.{Writer, split_at}
use virtiofsd.Server.Parts.{joined, Wrote, fits, overflows, write_parts-Wrote}
use virtiofsd.Server.Reply.{Server, Host, sent, total, reply_readdir, reply_error_over}
use virtiofsd.Server.Directories.{
  read_reply, read_data, handle_read, with_cursor, entries_of, handle_readdir,
}
use virtiofsd.Server.Readdirplus.{entries_plus, handle_readdirplus}
use virtiofsd.Server.Delivered.{
  Delivered, delivered, undelivered, Filled, AtTotal, fill-Delivered, fill_plus-Delivered,
}
use virtiofsd.Server.Framing.{
  Ends, replied, refused, split_panic, length-out_header, length-written, Framed,
  Framed-reply_error, framing_rules, Framed-bind,
}

-- The documented result of a `read`: it counts the bytes that it wrote to the data writer.
pub record CountsReads (fs : FileSystem) : Type 0 where
  pub at :
      (c : Context) (inode handle room size offset : ℕ) (owner : Option ℕ) (flags : ℕ)
      (st : fs.State)
      → (let ((result, bytes), _) = fs.read c inode handle room size offset owner flags st in
          Delivered room result bytes)

module _ {S : Type 0} {quiet : Bool} {unique room : ℕ} (s : Server S) where
  -- The front part of split buffers holds the header.
  ends_read :
      (n : ℕ) (bytes payload left : List ℕ) {r : IoResult (Unit {0}) × Writer}
      → bytes ≡ payload ++ left
      → n ≡ length payload
      → 16 + n ≤ room
      → room < 2 ^ 32
      → Wrote
          (as_slice (out_header ((16 + n) % 2 ^ 32) 0 unique) ∷ [])
          (record { room = 16; out = [] })
          r
      → Ends quiet unique room (sent (some ((16 + n) % 2 ^ 32)) bytes r s)
  unfolding sent total joined
  ends_read n bytes payload left e count h small (fits w' f _ out) =
      let whole : (16 + n) % 2 ^ 32 ≡ 16 + length payload = omega arith in
      rw e (replied s _ w'.out [] payload left out whole (omega arith))
  ends_read n bytes payload left e count h small (overflows w' f out) =
      absurd (omega (arith, length-out_header ((16 + n) % 2 ^ 32) 0 unique))

  ends_refused :
      (left : List ℕ) (errno : ℕ) {r : IoResult (Unit {0}) × Writer}
      → 16 ≤ room
      → Wrote
          (as_slice (out_header 16 (negated errno) unique) ∷ [])
          (record { room = 16; out = [] })
          r
      → Ends quiet unique room (sent none left r s)
  unfolding sent total joined
  ends_refused left errno h (fits w' f _ out) =
      let n = length-written 16 (negated errno) unique [] w'.out out in
      refused s w'.out left (length w'.out) errno out n (omega arith)
  ends_refused left errno h (overflows w' f out) =
      absurd (omega (arith, length-out_header 16 (negated errno) unique))

module _ (fs : FileSystem) (host : Host) {quiet : Bool} (unique : ℕ) where
  ends_read_reply :
      (s : Server fs.State) (room : ℕ) (bytes : List ℕ) {result : IoResult ℕ}
      → 16 ≤ room
      → room < 2 ^ 32
      → Delivered (room - 16) result bytes
      → Ends quiet unique room
          (read_reply fs host bytes unique result s (record { room = 16; out = [] }))
  unfolding read_reply reply_readdir reply_error_over
  ends_read_reply s room bytes h small (delivered n _ payload left e count fit) =
      ends_read s n bytes payload left e count (omega arith) small (write_parts-Wrote _ _)
  ends_read_reply s room bytes h small (undelivered e _) =
      ends_refused s bytes _ h (write_parts-Wrote _ _)

  Framed-with_cursor :
      (size : ℕ) (read_entries : ℕ → Writer → fs.State → (IoResult ℕ × Writer) × fs.State)
      → ((size : ℕ) (cursor : Writer) (st : fs.State)
          → AtTotal cursor.room 0 cursor
          → Filled cursor.room (read_entries size cursor st).0)
      → Framed quiet unique (with_cursor fs host unique size read_entries)
  unfolding with_cursor split_at
  Framed-with_cursor size read_entries fill = record {
    at = λ s room small. elim (Bool-cases (ltb room (min size max_buffer_size))) [
      | inl e ↦ rw e ((Framed-reply_error [] host _).at s room small)
      | inr e ↦ elim (Bool-cases (ltb room 16)) [
        | inl short ↦ rw (e, short) (split_panic (ltb→lt _ _ short))
        | inr long ↦
            rw (e, long)
              (ends_read_reply _ room _ (ground arith) small
                (fill _ _ _ (record { counted = refl; in_room = omega arith })))
      ]
    ];
  }

entries_of-Filled :
    {S : Type 0} (r : IoResult (List DirEntry) × S) (size : ℕ) (cursor : Writer)
    → AtTotal cursor.room 0 cursor
    → Filled cursor.room (entries_of r size cursor).0
unfolding entries_of
entries_of-Filled (err e, st) size cursor at = undelivered e _
entries_of-Filled (ok entries, st) size cursor at = fill-Delivered size entries 0 cursor at

module _ (fs : FileSystem) (h : InHeader) where
  entries_plus-Filled :
      (r : IoResult (List DirEntry) × fs.State) (size : ℕ) (cursor : Writer)
      → AtTotal cursor.room 0 cursor
      → Filled cursor.room (entries_plus fs h r size cursor).0
  unfolding entries_plus
  entries_plus-Filled (err e, st) size cursor at = undelivered e _
  entries_plus-Filled (ok entries, st) size cursor at =
      fill_plus-Delivered fs h size entries 0 cursor st at

module _ (fs : FileSystem) (host : Host) {quiet : Bool} (h : InHeader) where
  Framed-read_data : (m : ReadIn) → CountsReads fs → Framed quiet h.unique (read_data fs host h m)
  unfolding read_data split_at
  Framed-read_data m counts = record {
    at = λ s room small. elim (Bool-cases (ltb room 16)) [
      | inl short ↦ rw (read_data, split_at, short) (split_panic (ltb→lt _ _ short))
      | inr long ↦
          rw (read_data, split_at, long)
            (ends_read_reply fs host h.unique _ room _ (ground arith) small
              (counts.at _ _ _ _ _ _ _ _ _))
    ];
  }

  pub Framed-read : (r : List ℕ) → CountsReads fs → Framed quiet h.unique (handle_read fs host h r)
  unfolding handle_read
  Framed-read r counts = search (Framed-read_data, framing_rules)

  pub Framed-readdir : (r : List ℕ) → Framed quiet h.unique (handle_readdir fs host h r)
  unfolding handle_readdir
  Framed-readdir r = Framed-bind _ _ (λ m.
      Framed-with_cursor fs host h.unique _ _
        (λ size cursor st at. entries_of-Filled _ size cursor at))

  pub Framed-readdirplus : (r : List ℕ) → Framed quiet h.unique (handle_readdirplus fs host h r)
  unfolding handle_readdirplus
  Framed-readdirplus r = Framed-bind _ _ (λ m.
      Framed-with_cursor fs host h.unique _ _
        (λ size cursor st at. entries_plus-Filled fs h _ size cursor at))
