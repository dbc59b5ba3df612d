-- ===== src/NotifyInvalidate/Frame/Layout.antt =====
-- The receiver's view of a frame.
use mathlib.Core.List.{append_assoc}
use virtiofsd.Common.{
  ap, sym, ◌∙◌, ℕ, ◌+◌, ◌%◌, ◌^◌, ◌≡◌, ◌<◌, refl, List, [], ◌∷◌, ◌++◌, length, length-append, arith,
}
use virtiofsd.Fuse.Bytes.{le_bytes, read_le, read_le-append}
use virtiofsd.NotifyInvalidate.Notifier.{Notification, inval_inode, inval_entry}
use virtiofsd.NotifyInvalidate.Frame.{
  negated_i32, out_header, inval_inode_out, inval_entry_out, encode,
}

-- How many bytes a frame has.
abbrev frame_size : Notification → ℕ
frame_size (inval_inode inode) = 40
frame_size (inval_entry parent name) = 33 + length name

length-out_header : (len opcode : ℕ) → length (out_header len opcode) ≡ 16
unfolding out_header le_bytes
length-out_header len opcode = refl

length-inval_inode_out : (inode : ℕ) → length (inval_inode_out inode) ≡ 24
unfolding inval_inode_out le_bytes
length-inval_inode_out inode = refl

length-inval_entry_out : (parent n : ℕ) → length (inval_entry_out parent n) ≡ 16
unfolding inval_entry_out le_bytes
length-inval_entry_out parent n = refl

length-encode : (n : Notification) → length (encode n) ≡ frame_size n
unfolding encode
length-encode (inval_inode inode) =
    length-append (out_header 40 2) (inval_inode_out inode)
    ∙ (omega (arith, length-out_header 40 2, length-inval_inode_out inode))
length-encode (inval_entry parent name) =
    let len = 32 + length name + 1 in
    omega (
      arith,
      length-append (out_header len 3) (inval_entry_out parent (length name) ++ (name ++ 0 ∷ [])),
      length-append (inval_entry_out parent (length name)) (name ++ 0 ∷ []),
      length-append name (0 ∷ []),
      length-out_header len 3,
      length-inval_entry_out parent (length name),
    )

out_header-len :
    (len opcode : ℕ) (rest : List ℕ)
    → len < 2 ^ 32
    → (read_le 4 (out_header len opcode ++ rest)).0 ≡ len
unfolding out_header
out_header-len len opcode rest l =
    let e : len % 2 ^ 32 ≡ len = omega arith in
    ap (λ r. r.0)
      (ap (read_le 4) (
          append_assoc (le_bytes 4 (len % 2 ^ 32)) (le_bytes 4 (negated_i32 opcode) ++ le_bytes 8 0)
            rest)
        ∙ read_le-append 4 (len % 2 ^ 32)
            ((le_bytes 4 (negated_i32 opcode) ++ le_bytes 8 0) ++ rest) (omega arith))
    ∙ e

-- The first four bytes of a frame are its length, if that fits in a u32.
pub encode_framed :
    (n : Notification) → frame_size n < 2 ^ 32 → (read_le 4 (encode n)).0 ≡ length (encode n)
unfolding encode
encode_framed (inval_inode inode) l =
    out_header-len 40 2 (inval_inode_out inode) l ∙ sym (length-encode (inval_inode inode))
encode_framed (inval_entry parent name) l =
    let e : 32 + length name + 1 ≡ 33 + length name = omega arith in
    out_header-len (32 + length name + 1) 3
      (inval_entry_out parent (length name) ++ (name ++ 0 ∷ [])) (omega arith)
    ∙ (e ∙ sym (length-encode (inval_entry parent name)))
