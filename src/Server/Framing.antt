-- ===== src/Server/Framing.antt =====
-- The frames of FUSE: what a handler of src/server.rs may leave in the guest's buffers and return.
-- One rule for each way in which the handlers are built.
pub mod Names
pub mod Files
pub mod Creations
pub mod Handles
pub mod Xattrs
pub mod Init
pub mod Entries
pub mod Messages
use virtiofsd.Common.{
  ◌≡◌, refl, sym, ap, ◌∙◌, ℕ, ◌+◌, ◌%◌, ◌^◌, ◌≤◌, ◌<◌, Option, none, some, List, [], ◌∷◌, ◌++◌,
  length, take, Bool, true, false, if◌then◌else◌, length-append, arith,
}
use mathlib.Core.List.{append-nil}
use virtiofsd.Common.Io.{IoError, IoResult, Outcome, done, panic}
use virtiofsd.Fuse.Replies.{Fields, as_slice, out_header, negated}
use virtiofsd.Server.Errno.{errno_to_linux}
use virtiofsd.Server.Result.{Result, ServerError, encode_message}
use virtiofsd.Server.Writer.{Writer, write_parts}
use virtiofsd.Server.Parts.{
  size_of, length-as_slice, joined, length-joined, Wrote, fits, overflows, write_parts-Wrote,
}
use virtiofsd.Server.Reply.{
  Server, Served, Handler, Host, silent, fail, ◌>>=◌, sent, total, body_parts, reply_ok,
  reply_error_over, reply_error, native_errno, reply_readdir, answer, answered, empty_reply,
  with_options,
}

-- The bytes of a reply.
abbrev pub framed : ℕ → ℕ → ℕ → List ℕ → List ℕ
framed n error unique body = as_slice (out_header n error unique) ++ body

-- How a request may end, with the room of the buffers and whether it may go unanswered.
pub data Ends {S : Type 0} (quiet : Bool) (unique room : ℕ) : Outcome (Served S) → Type 0 where
  unanswered :
      (s : Server S)
      → quiet ≡ true
      → Ends quiet unique room
          (done (record { server = s; reply = []; payload = []; result = Result.ok 0 }))
  dropped :
      (s : Server S) (e : ServerError)
      → Ends quiet unique room
          (done (record { server = s; reply = []; payload = []; result = Result.err e }))
  replied :
      (s : Server S) (n : ℕ) (reply body payload left : List ℕ)
      → reply ≡ framed n 0 unique body
      → n ≡ 16 + length body + length payload
      → n ≤ room
      → Ends quiet unique room (
          done
            (record { server = s; reply = reply; payload = payload ++ left; result = Result.ok n }))
  refused :
      (s : Server S) (reply left : List ℕ) (n errno : ℕ)
      → reply ≡ framed 16 (negated errno) unique []
      → n ≡ 16
      → n ≤ room
      → Ends quiet unique room
          (done (record { server = s; reply = reply; payload = left; result = Result.ok n }))
  cut_off :
      (s : Server S) (reply left body : List ℕ) (error : ℕ)
      → room < 16 + length body
      → reply ≡ take room (framed (16 + length body) error unique body)
      → Ends quiet unique room (
          done (record {
            server = s;
            reply = reply;
            payload = left;
            result = Result.err encode_message;
          }))
  split_panic : room < 16 → Ends quiet unique room panic

-- On buffers of less than 2 ^ 32 bytes into which nothing was written.
pub record Framed {S : Type 0} (quiet : Bool) (unique : ℕ) (k : Handler S) : Type 0 where
  pub at :
      (s : Server S) (room : ℕ)
      → room < 2 ^ 32
      → Ends quiet unique room (k s (record { room = room; out = [] }))

pub length-out_header : (n error unique : ℕ) → length (as_slice (out_header n error unique)) ≡ 16
unfolding out_header size_of
length-out_header n error unique = length-as_slice (out_header n error unique)

pub length-framed :
    (n error unique : ℕ) (body : List ℕ) → length (framed n error unique body) ≡ 16 + length body
length-framed n error unique body = omega (
  arith,
  length-append (as_slice (out_header n error unique)) body,
  length-out_header n error unique,
)

-- The number of bytes that were written for a frame.
pub length-written :
    (n error unique : ℕ) (parts : List (List ℕ)) (out : List ℕ)
    → out ≡ framed n error unique (joined parts)
    → length out ≡ 16 + total parts
length-written n error unique parts out e =
    ap length e
    ∙ length-framed n error unique (joined parts)
    ∙ ap (λ k. 16 + k) (length-joined parts)

module _ {S : Type 0} (s : Server S) (quiet : Bool) (unique room : ℕ) where
  -- The frame is cut off at the end of the buffers.
  ends_cut_off :
      (left : List ℕ) (error : ℕ) (parts : List (List ℕ)) (w' : Writer)
      → room < 16 + total parts
      → w'.out ≡ take room (framed (16 + total parts) error unique (joined parts))
      → Ends quiet unique room (
          done (record {
            server = s;
            reply = w'.out;
            payload = left;
            result = Result.err encode_message;
          }))
  ends_cut_off left error parts w' over out =
      let e = length-joined parts in
      cut_off s w'.out left (joined parts) error (omega arith)
        (out ∙ ap (λ k. take room (framed (16 + k) error unique (joined parts))) (sym e))

  pub ends_ok :
      (parts : List (List ℕ)) {r : IoResult (Unit {0}) × Writer}
      → Wrote
          (as_slice (out_header (16 + total parts) 0 unique) ∷ parts)
          (record { room = room; out = [] })
          r
      → Ends quiet unique room (sent none [] r s)
  unfolding sent total joined
  ends_ok parts (fits w' f _ out) =
      let n = length-written (16 + total parts) 0 unique parts w'.out out in
      let header = length-out_header (16 + total parts) 0 unique in
      let body = length-joined parts in
      replied s (length w'.out) w'.out (joined parts) [] []
        (out ∙ ap (λ k. framed k 0 unique (joined parts)) (sym n)) (omega arith) (omega arith)
  ends_ok parts (overflows w' f out) =
      let header = length-out_header (16 + total parts) 0 unique in
      ends_cut_off [] 0 parts w' (omega arith) out

  pub ends_error :
      (left : List ℕ) (errno : ℕ) {r : IoResult (Unit {0}) × Writer}
      → Wrote
          (as_slice (out_header 16 (negated errno) unique) ∷ [])
          (record { room = room; out = [] })
          r
      → Ends quiet unique room (sent none left r s)
  unfolding sent total joined
  ends_error left errno (fits w' f _ out) =
      let n = length-written 16 (negated errno) unique [] w'.out out in
      let header = length-out_header 16 (negated errno) unique in
      refused s w'.out left (length w'.out) errno out (omega arith) (omega arith)
  ends_error left errno (overflows w' f out) =
      let header = length-out_header 16 (negated errno) unique in
      ends_cut_off left (negated errno) [] w' (omega arith) out

module _ {S : Type 0} {quiet : Bool} {unique : ℕ} where
  pub Framed-silent : quiet ≡ true → Framed quiet unique (silent {S = S} 0)
  unfolding silent
  Framed-silent q = record { at = λ s room h. unanswered s q }

  pub Framed-fail : (e : ServerError) → Framed quiet unique (fail {S = S} e)
  unfolding fail
  Framed-fail e = record { at = λ s room h. dropped s e }

  pub Framed-bind :
      {A : Type 0} (m : Result A) (f : A → Handler S)
      → ((a : A) → Framed quiet unique (f a))
      → Framed quiet unique (m >>= f)
  unfolding ◌>>=◌
  Framed-bind (Result.ok a) f k = k a
  Framed-bind (Result.err e) f k = Framed-fail e

  pub Framed-if :
      (b : Bool) (k l : Handler S)
      → Framed quiet unique k
      → Framed quiet unique l
      → Framed quiet unique (if b then k else l)
  Framed-if true k l fk fl = fk
  Framed-if false k l fk fl = fl

  pub Framed-reply_ok :
      (out : Option Fields) (bytes : Option (List ℕ))
      → Framed quiet unique (reply_ok {S = S} out bytes unique)
  unfolding reply_ok
  Framed-reply_ok out bytes = record {
    at = λ s room h. ends_ok s quiet unique room (body_parts out bytes) (write_parts-Wrote _ _);
  }

  pub Framed-reply_error :
      (left : List ℕ) (host : Host) (e : IoError)
      → Framed quiet unique (reply_error_over {S = S} left host e unique)
  unfolding reply_error_over
  Framed-reply_error left host e = record {
    at = λ s room h. ends_error s quiet unique room left _ (write_parts-Wrote _ _);
  }

  pub Framed-answered :
      {A : Type 0} (host : Host) (r : IoResult A) (k : A → Handler S)
      → ((a : A) → Framed quiet unique (k a))
      → Framed quiet unique (answered host unique r k)
  unfolding answered
  Framed-answered host (IoResult.ok a) k fk = fk a
  Framed-answered host (IoResult.err e) k fk = Framed-reply_error [] host e

  pub Framed-answer :
      {A : Type 0} (host : Host) (call : S → IoResult A × S) (k : A → Handler S)
      → ((a : A) → Framed quiet unique (k a))
      → Framed quiet unique (answer host unique call k)
  unfolding answer
  Framed-answer host call k fk = record {
    at = λ s room h. (Framed-answered host (call s.fs).0 k fk).at _ room h;
  }

  pub Framed-empty_reply : (a : Unit {0}) → Framed quiet unique (empty_reply {S = S} unique a)
  unfolding empty_reply
  Framed-empty_reply a = Framed-reply_ok none none

  pub Framed-with_options :
      (k : ℕ → Handler S)
      → ((options : ℕ) → Framed quiet unique (k options))
      → Framed quiet unique (with_options k)
  unfolding with_options
  Framed-with_options k fk = record { at = λ s. (fk s.options).at s }

pub ruleset framing_rules = (
  Framed-bind, Framed-if, Framed-reply_ok, Framed-reply_error, Framed-answer, Framed-empty_reply,
  Framed-with_options,
)
