-- ===== src/Server/Reply.antt =====
-- src/server.rs: the server's state, and the replies.
use virtiofsd.Common.{ℕ, ◌+◌, ◌%◌, ◌^◌, Option, none, some, List, [], ◌∷◌, length}
use virtiofsd.Common.Io.{IoError, os, IoResult, Outcome, done}
use virtiofsd.Fuse.Replies.{Fields, as_slice, out_header, negated}
use virtiofsd.Server.Errno.{Platform, errno_to_linux}
use virtiofsd.Server.Result.{ServerError, encode_message, Result}
use virtiofsd.Server.Writer.{Writer, write_parts}

pub record Server (S : Type 0) : Type 0 where
  pub fs : S
  pub options : ℕ

-- The host that the server is built for.
pub record Host : Type 0 where
  pub platform : Platform
  pub page_size : ℕ

-- What a handler leaves: the server, the bytes in the front of the guest's buffers, the bytes
-- behind the place of the header where the handler split the buffers there, and the result.
pub record Served (S : Type 0) : Type 0 where
  pub server : Server S
  pub reply : List ℕ
  pub payload : List ℕ
  pub result : Result ℕ

abbrev pub Handler : Type 0 → Type 0
Handler S = Server S → Writer → Outcome (Served S)

-- The parts of a reply behind its header.
unfoldable pub body_parts : Option Fields → Option (List ℕ) → List (List ℕ)
body_parts none none = []
body_parts none (some payload) = payload ∷ []
body_parts (some out) none = as_slice out ∷ []
body_parts (some out) (some payload) = as_slice out ∷ payload ∷ []

unfoldable pub total : List (List ℕ) → ℕ
total [] = 0
total (bytes ∷ parts) = length bytes + total parts

-- `raw_os_error`, or EIO
unfoldable pub native_errno : IoError → ℕ
native_errno (os e) = e
native_errno _ = 5

module _ {S : Type 0} where
  -- `Ok(n)` without a reply, and an error.
  unfoldable pub silent : ℕ → Handler S
  silent n s w = done (record { server = s; reply = w.out; payload = []; result = Result.ok n })

  unfoldable pub fail : ServerError → Handler S
  fail e s w = done (record { server = s; reply = w.out; payload = []; result = Result.err e })

  infixl 5 ◌>>=◌
  unfoldable pub ◌>>=◌ : {A : Type 0} → Result A → (A → Handler S) → Handler S
  Result.ok a >>= f = f a
  Result.err e >>= f = fail e

  -- Ends with `n`, or with what was written.
  unfoldable pub sent :
      Option ℕ → List ℕ → IoResult (Unit {0}) × Writer → Server S → Outcome (Served S)
  sent n payload (IoResult.ok _, w) s = done (record {
    server = s;
    reply = w.out;
    payload = payload;
    result = Result.ok (elim n [ none ↦ length w.out | some n ↦ n ]);
  })
  sent n payload (IoResult.err _, w) s =
      done (record {
        server = s;
        reply = w.out;
        payload = payload;
        result = Result.err encode_message;
      })

  unfoldable pub reply_ok : Option Fields → Option (List ℕ) → ℕ → Handler S
  reply_ok out payload unique s w =
      let parts = body_parts out payload in
      sent none [] (write_parts (as_slice (out_header (16 + total parts) 0 unique) ∷ parts) w) s

  -- With the bytes behind the header that stay in the buffers.
  unfoldable pub reply_error_over : List ℕ → Host → IoError → ℕ → Handler S
  reply_error_over payload host e unique s w =
      let errno = errno_to_linux host.platform (native_errno e) in
      sent none payload (write_parts (as_slice (out_header 16 (negated errno) unique) ∷ []) w) s

  abbrev pub reply_error : Host → IoError → ℕ → Handler S
  reply_error = reply_error_over []

  -- For the data that is behind the header already. The `flush` has nothing to do.
  unfoldable pub reply_readdir : List ℕ → ℕ → ℕ → Handler S
  reply_readdir payload len unique s w =
      let n = (16 + len) % 2 ^ 32 in
      sent (some n) payload (write_parts (as_slice (out_header n 0 unique) ∷ []) w) s

  -- The result of a method, with the file system's new state.
  unfoldable pub answered : {A : Type 0} → Host → ℕ → IoResult A → (A → Handler S) → Handler S
  answered host unique (IoResult.ok a) k = k a
  answered host unique (IoResult.err e) k = reply_error host e unique

  unfoldable pub answer :
      {A : Type 0} → Host → ℕ → (S → IoResult A × S) → (A → Handler S) → Handler S
  answer host unique call k s w =
      let (r, fs) = call s.fs in
      answered host unique r k (record { fs = fs; options = s.options }) w

  -- `Ok(())`
  unfoldable pub empty_reply : ℕ → Unit {0} → Handler S
  empty_reply unique _ = reply_ok none none unique

  -- `options.load`
  unfoldable pub with_options : (ℕ → Handler S) → Handler S
  with_options k s = k s.options s
