-- ===== src/NotifyInvalidate/Frame.antt =====
-- src/notify_invalidate/notifier.rs, `Notification::encode`, with the structures of src/fuse.rs: the
-- bytes of a notification, in the little-endian order of the hosts that the daemon runs on.
pub mod Layout
use virtiofsd.Common.{ℕ, zero, suc, ◌+◌, ◌-◌, ◌/◌, ◌%◌, ◌^◌, List, [], ◌∷◌, ◌++◌, length}
use virtiofsd.Fuse.Bytes.{le_bytes}
use virtiofsd.NotifyInvalidate.Notifier.{Notification, inval_inode, inval_entry}

-- NotifyOpcode
abbrev pub inval_inode_opcode : ℕ
inval_inode_opcode = 2

abbrev pub inval_entry_opcode : ℕ
inval_entry_opcode = 3

-- `-(opcode as i32)`, in two's complement
abbrev pub negated_i32 : ℕ → ℕ
negated_i32 opcode = 2 ^ 32 - opcode

-- `OutHeader`: a u32, an i32 and a u64
unfoldable pub out_header : ℕ → ℕ → List ℕ
out_header len opcode =
    le_bytes 4 (len % 2 ^ 32) ++ (le_bytes 4 (negated_i32 opcode) ++ le_bytes 8 0)

abbrev pub out_header_size : ℕ
out_header_size = 16

-- `NotifyInvalInodeOut`: a u64 and two i64, of which the length is -1
unfoldable pub inval_inode_out : ℕ → List ℕ
inval_inode_out inode = le_bytes 8 inode ++ le_bytes 8 0 ++ le_bytes 8 (2 ^ 64 - 1)

abbrev pub inval_inode_out_size : ℕ
inval_inode_out_size = 24

-- `NotifyInvalEntryOut`: a u64 and two u32
unfoldable pub inval_entry_out : ℕ → ℕ → List ℕ
inval_entry_out parent name_len =
    le_bytes 8 parent ++ le_bytes 4 (name_len % 2 ^ 32) ++ le_bytes 4 0

abbrev pub inval_entry_out_size : ℕ
inval_entry_out_size = 16

unfoldable pub encode : Notification → List ℕ
encode (inval_inode inode) =
    out_header (out_header_size + inval_inode_out_size) inval_inode_opcode ++ inval_inode_out inode
encode (inval_entry parent name) =
    out_header (out_header_size + inval_entry_out_size + length name + 1) inval_entry_opcode
    ++ (inval_entry_out parent (length name) ++ (name ++ 0 ∷ []))
