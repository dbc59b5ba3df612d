-- ===== src/Server/Sent.antt =====
-- The entries that `readdirplus` of src/server.rs sends: their bytes, and how often an inode is sent.
use virtiofsd.Common.{
  ◌≡◌, refl, sym, ap, ◌∙◌, ℕ, ◌+◌, ◌==◌, some, List, [], ◌∷◌, ◌++◌, length, length-append, map,
  if◌then◌else◌, arith,
}
use mathlib.Core.List.{append_assoc, append-nil}
use virtiofsd.Fuse.Replies.{Entry}
use virtiofsd.FileSystem.{DirEntry}
use virtiofsd.Server.Added.{encoded, length-encoded, total_len-pos}

-- An inode is one lookup of itself.
abbrev pub one_if : ℕ → ℕ → ℕ
one_if inode i = if inode == i then 1 else 0

-- Entries as they are sent: the entry of the directory, and what was looked up.
abbrev pub Sent : Type 0
Sent = List (DirEntry × Entry)

unfoldable pub sent_bytes : Sent → List ℕ
sent_bytes [] = []
sent_bytes ((d, e) ∷ sent) = encoded d (some e) ++ sent_bytes sent

unfoldable pub sent_count : ℕ → Sent → ℕ
sent_count i [] = 0
sent_count i ((d, e) ∷ sent) = one_if e.inode i + sent_count i sent

abbrev pub entry_of : DirEntry × Entry → DirEntry
entry_of (d, e) = d

pub sent_bytes-snoc :
    (sent : Sent) (d : DirEntry) (e : Entry)
    → sent_bytes (sent ++ ((d, e) ∷ [])) ≡ sent_bytes sent ++ encoded d (some e)
unfolding sent_bytes
sent_bytes-snoc [] d e = append-nil (encoded d (some e))
sent_bytes-snoc ((d', e') ∷ sent) d e =
    ap (λ l. encoded d' (some e') ++ l) (sent_bytes-snoc sent d e)
    ∙ sym (append_assoc (encoded d' (some e')) (sent_bytes sent) (encoded d (some e)))

pub sent_count-snoc :
    (i : ℕ) (sent : Sent) (d : DirEntry) (e : Entry)
    → sent_count i (sent ++ ((d, e) ∷ [])) ≡ sent_count i sent + one_if e.inode i
unfolding sent_count
sent_count-snoc i [] d e = omega arith
sent_count-snoc i ((d', e') ∷ sent) d e = omega (arith, sent_count-snoc i sent d e)

pub map-snoc :
    (sent : Sent) (d : DirEntry) (e : Entry) (entries : List DirEntry)
    → map entry_of (sent ++ ((d, e) ∷ [])) ++ entries ≡ map entry_of sent ++ (d ∷ entries)
map-snoc [] d e entries = refl
map-snoc ((d', e') ∷ sent) d e entries = ap (λ l. d' ∷ l) (map-snoc sent d e entries)

-- Where no bytes were sent, no entries were.
pub none_sent : (sent : Sent) → length (sent_bytes sent) ≡ 0 → sent ≡ []
unfolding sent_bytes
none_sent [] h = refl
none_sent ((d, e) ∷ sent) h = absurd (
    omega (
      arith,
      length-append (encoded d (some e)) (sent_bytes sent),
      length-encoded d (some e),
      total_len-pos d (some e),
    ))
