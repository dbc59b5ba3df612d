-- ===== src/Server/Lookups.antt =====
-- The lookup counts of src/filesystem.rs and `readdirplus` of src/server.rs: an entry that is looked
-- up but not sent is forgotten again.
use virtiofsd.Common.{
  ◌≡◌, ◌≢◌, refl, sym, ap, ◌∙◌, ℕ, zero, suc, ◌+◌, ◌-◌, ◌≤◌, some, List, [], ◌∷◌, ◌++◌, length,
  length-append, map, Bool-cases, inl, inr, ◌⊎◌, arith,
}
use mathlib.Core.List.{append-nil}
use virtiofsd.Common.Io.{IoError, IoResult, ok, err}
use virtiofsd.Fuse.Replies.{Entry}
use virtiofsd.Fuse.Requests.{InHeader}
use virtiofsd.FileSystem.{FileSystem, Context, DirEntry, context}
use virtiofsd.Server.Writer.{Writer}
use virtiofsd.Server.Sent.{
  one_if, Sent, sent_bytes, sent_count, entry_of, sent_bytes-snoc, sent_count-snoc, map-snoc,
  none_sent,
}
use virtiofsd.Server.Added.{encoded, Added, added, full, too_long, no_space, add_dirent-Added}
use virtiofsd.Server.Readdirplus.{
  is_current_or_parent, negative_entry, Round, stop, next, propagated, handle_dirent, plus_added,
  plus_found, fill_plus, entries_plus,
}

-- The documented effect of the methods on the lookup counts of the inodes.
pub record CountsLookups (fs : FileSystem) : Type 0 where
  pub lookups : fs.State → ℕ → ℕ
  pub found :
      (c : Context) (parent : ℕ) (name : List ℕ) (st : fs.State) (e : Entry) (i : ℕ)
      → (fs.lookup c parent name st).0 ≡ ok e
      → lookups (fs.lookup c parent name st).1 i ≡ lookups st i + one_if e.inode i
  pub not_found :
      (c : Context) (parent : ℕ) (name : List ℕ) (st : fs.State) (e : IoError) (i : ℕ)
      → (fs.lookup c parent name st).0 ≡ err e
      → lookups (fs.lookup c parent name st).1 i ≡ lookups st i
  pub forgot :
      (c : Context) (inode : ℕ) (st : fs.State) (i : ℕ)
      → lookups (fs.forget c inode 1 st) i ≡ lookups st i - one_if inode i

abbrev inode_of : IoResult Entry → ℕ
inode_of (ok e) = e.inode
inode_of (err _) = 0

not_counted :
    (d : DirEntry) {e : Entry} {i n : ℕ}
    → ok (negative_entry d) ≡ ok e
    → i ≢ 0
    → n ≡ n + one_if e.inode i
unfolding negative_entry
not_counted d {e} {i} {n} same p = let zero_inode : 0 ≡ e.inode = ap inode_of same in ground arith

propagated-cases :
    (total : ℕ) (e : IoError)
    → (propagated total e ≡ ok total) ⊎ ((total ≡ 0) × (propagated total e ≡ err e))
unfolding propagated
propagated-cases zero e = inr (refl, refl)
propagated-cases (suc n) e = inl refl

-- The entries, if there are any.
abbrev pub listed_entries : IoResult (List DirEntry) → List DirEntry
listed_entries (ok entries) = entries
listed_entries (err _) = []

module _ (fs : FileSystem) (counts : CountsLookups fs) (h : InHeader) (size : ℕ)
    (all : List DirEntry) (before : fs.State) where
  -- The first of the entries are sent, in their order and within the size, and the lookups of an
  -- inode are those that were and one for each time it was sent; or nothing is sent or counted.
  pub data Listed : (IoResult ℕ × Writer) × fs.State → Type 0 where
    listed :
        (sent : Sent) (rest : List DirEntry) (left : List ℕ) (n : ℕ) (cursor : Writer)
        (st : fs.State)
        → all ≡ map entry_of sent ++ rest
        → cursor.out ≡ sent_bytes sent ++ left
        → n ≡ length (sent_bytes sent)
        → n ≤ size
        → ((i : ℕ) → i ≢ 0 → counts.lookups st i ≡ counts.lookups before i + sent_count i sent)
        → Listed ((ok n, cursor), st)
    failed :
        (e : IoError) (cursor : Writer) (st : fs.State)
        → ((i : ℕ) → i ≢ 0 → counts.lookups st i ≡ counts.lookups before i)
        → Listed ((err e, cursor), st)

  -- The loop with `entries` left.
  record Listing (sent : Sent) (entries : List DirEntry) (total : ℕ) (cursor : Writer)
      (st : fs.State) : Type 0 where
    prefix : all ≡ map entry_of sent ++ entries
    bytes : cursor.out ≡ sent_bytes sent
    number : total ≡ length (sent_bytes sent)
    in_size : total ≤ size
    counted : (i : ℕ) → i ≢ 0 → counts.lookups st i ≡ counts.lookups before i + sent_count i sent

  module _ {sent : Sent} {entries : List DirEntry} {total : ℕ} {cursor : Writer} {st : fs.State}
      (l : Listing sent entries total cursor st) where
    Listed-so_far :
        (cursor' : Writer) (tail : List ℕ) (st' : fs.State)
        → cursor'.out ≡ cursor.out ++ tail
        → ((i : ℕ) → i ≢ 0 → counts.lookups st' i ≡ counts.lookups st i)
        → Listed ((ok total, cursor'), st')
    Listed-so_far cursor' tail st' out same =
        listed sent entries tail total cursor' st' l.prefix (out ∙ ap (λ b. b ++ tail) l.bytes)
          l.number l.in_size (λ i p. same i p ∙ l.counted i p)

    Listed-or_failed :
        (e : IoError) (cursor' : Writer) (tail : List ℕ) (st' : fs.State)
        → cursor'.out ≡ cursor.out ++ tail
        → ((i : ℕ) → i ≢ 0 → counts.lookups st' i ≡ counts.lookups st i)
        → Listed ((propagated total e, cursor'), st')
    unfolding sent_count
    Listed-or_failed e cursor' tail st' out same = elim (propagated-cases total e) [
      | inl p ↦ rw p (Listed-so_far cursor' tail st' out same)
      | inr (empty, p) ↦
          let none : sent ≡ [] = none_sent sent (sym l.number ∙ empty) in
          rw p (
            failed e cursor' st'
              (λ i q. omega (arith, same i q, l.counted i q, ap (sent_count i) none)))
    ]

  -- What a round leaves, with the entries that are left.
  data Went (entries : List DirEntry) : Round fs.State → Type 0 where
    stopped :
        (result : IoResult ℕ) (cursor' : Writer) (st' : fs.State)
        → Listed ((result, cursor'), st')
        → Went entries (stop result cursor' st')
    went_on :
        (sent' : Sent) (total' : ℕ) (cursor' : Writer) (st' : fs.State)
        → Listing sent' entries total' cursor' st'
        → Went entries (next total' cursor' st')

  -- An entry that was looked up is sent, or its lookup is undone.
  plus_added-Went :
      {sent : Sent} {d : DirEntry} {entries : List DirEntry} {total : ℕ} {cursor : Writer}
      {st : fs.State} (e : Entry) (st' : fs.State) {r : IoResult ℕ × Writer}
      → Listing sent (d ∷ entries) total cursor st
      → ((i : ℕ) → i ≢ 0 → counts.lookups st' i ≡ counts.lookups st i + one_if e.inode i)
      → Added cursor (size - total) d (some e) r
      → Went entries (plus_added fs h total e r st')
  unfolding plus_added
  plus_added-Went {sent} {d} {entries} {total} {cursor} {st} e st' l one
        (added cursor' n count fit room _ out) =
      let snoc = sent_bytes-snoc sent d e in
      went_on (sent ++ ((d, e) ∷ [])) _ cursor' st' (record {
        prefix = l.prefix ∙ sym (map-snoc sent d e entries);
        bytes = out ∙ ap (λ b. b ++ encoded d (some e)) l.bytes ∙ sym snoc;
        number = omega (
          arith,
          l.number,
          count,
          ap length snoc,
          length-append (sent_bytes sent) (encoded d (some e)),
        );
        in_size = omega (arith, l.in_size);
        counted = λ i p. omega (arith, one i p, l.counted i p, sent_count-snoc i sent d e);
      })
  plus_added-Went {sent} {d} {entries} {total} {cursor} {st} e st' l one (full _) = stopped _ _ _ (
      Listed-so_far l cursor [] _ (sym (append-nil cursor.out))
        (λ i p. omega (arith, one i p, counts.forgot (context h) e.inode st' i)))
  plus_added-Went {sent} {d} {entries} {total} {cursor} {st} e st' l one too_long = stopped _ _ _ (
      Listed-or_failed l _ cursor [] _ (sym (append-nil cursor.out))
        (λ i p. omega (arith, one i p, counts.forgot (context h) e.inode st' i)))
  plus_added-Went {sent} {d} {entries} {total} {cursor} {st} e st' l one
        (no_space cursor' tail _ out) =
      stopped _ _ _ (
        Listed-or_failed l _ cursor' tail _ out
          (λ i p. omega (arith, one i p, counts.forgot (context h) e.inode st' i)))

  plus_found-Went :
      {sent : Sent} {d : DirEntry} {entries : List DirEntry} {total : ℕ} {cursor : Writer}
      {st : fs.State} {st' : fs.State} (found : IoResult Entry)
      → Listing sent (d ∷ entries) total cursor st
      → ((e : Entry)
          → found ≡ ok e
          → (i : ℕ) → i ≢ 0
          → counts.lookups st' i ≡ counts.lookups st i + one_if e.inode i)
      → ((e : IoError)
          → found ≡ err e
          → (i : ℕ) → i ≢ 0
          → counts.lookups st' i ≡ counts.lookups st i)
      → Went entries (plus_found fs h size total d cursor (found, st'))
  unfolding plus_found
  plus_found-Went {sent} {d} {entries} {total} {cursor} {st} {st'} (ok e) l hit miss =
      plus_added-Went e st' l (hit e refl) (add_dirent-Added cursor (size - total) d (some e))
  plus_found-Went {sent} {d} {entries} {total} {cursor} {st} {st'} (err e) l hit miss =
      stopped _ _ _ (Listed-or_failed l e cursor [] st' (sym (append-nil cursor.out)) (miss e refl))

  -- Nothing is looked up for `.` and `..`, whose entry has the inode 0.
  handled-Went :
      {sent : Sent} {d : DirEntry} {entries : List DirEntry} {total : ℕ} {cursor : Writer}
      {st : fs.State}
      → Listing sent (d ∷ entries) total cursor st
      → Went entries (plus_found fs h size total d cursor (handle_dirent fs h d st))
  unfolding handle_dirent negative_entry
  handled-Went {sent} {d} {entries} {total} {cursor} {st} l =
      elim (Bool-cases (is_current_or_parent d.name)) [
        | inl e ↦
            rw e
              (plus_found-Went _ l (λ entry same i p. not_counted d same p) (λ error q i p. refl))
        | inr e ↦ rw e (
            plus_found-Went _ l
              (λ entry q i p. counts.found (context h) h.nodeid d.name st entry i q)
              (λ error q i p. counts.not_found (context h) h.nodeid d.name st error i q))
      ]

  round-Listed :
      (entries : List DirEntry) {round : Round fs.State}
      → ((sent : Sent) (total : ℕ) (cursor : Writer) (st : fs.State)
          → Listing sent entries total cursor st
          → Listed (fill_plus fs h size total entries cursor st))
      → Went entries round
      → Listed (elim round [
        | stop result cursor st ↦ ((result, cursor), st)
        | next total cursor st ↦ fill_plus fs h size total entries cursor st
      ])
  round-Listed entries rest (stopped result cursor st d) = d
  round-Listed entries rest (went_on sent total cursor st l) = rest sent total cursor st l

  fill_plus-Listed :
      (entries : List DirEntry) (sent : Sent) (total : ℕ) (cursor : Writer) (st : fs.State)
      → Listing sent entries total cursor st
      → Listed (fill_plus fs h size total entries cursor st)
  unfolding fill_plus
  fill_plus-Listed [] sent total cursor st l =
      Listed-so_far l cursor [] st (sym (append-nil cursor.out)) (λ i p. refl)
  fill_plus-Listed (d ∷ entries) sent total cursor st l =
      round-Listed entries
        (λ sent total cursor st l. fill_plus-Listed entries sent total cursor st l) (handled-Went l)

  pub fill_plus-start :
      (cursor : Writer) → cursor.out ≡ [] → Listed (fill_plus fs h size 0 all cursor before)
  unfolding sent_bytes sent_count
  fill_plus-start cursor empty = fill_plus-Listed all [] 0 cursor before (record {
    prefix = refl;
    bytes = empty;
    number = refl;
    in_size = omega arith;
    counted = λ i p. omega arith;
  })

-- `readdirplus` with the entries that `readdir` gives and a cursor into which nothing was written
-- sends the first of the entries, in their order, whole and within the size, and counts as one
-- lookup of an inode for each time that the inode was sent; or it fails and counts as none. The
-- inode is not 0, and the file system counts lookups as documented.
pub entries_plus-Listed :
    (fs : FileSystem) (counts : CountsLookups fs) (h : InHeader) (size : ℕ) (cursor : Writer)
    (entries : IoResult (List DirEntry)) (before : fs.State)
    → cursor.out ≡ []
    → Listed fs counts h size
        (listed_entries entries)
        before
        (entries_plus fs h (entries, before) size cursor)
unfolding entries_plus
entries_plus-Listed fs counts h size cursor (err e) before empty =
    failed e cursor before (λ i p. refl)
entries_plus-Listed fs counts h size cursor (ok entries) before empty =
    fill_plus-start fs counts h size entries before cursor empty
