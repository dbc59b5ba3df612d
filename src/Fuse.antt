-- ===== src/Fuse.antt =====
-- src/fuse.rs: the messages of the FUSE protocol, as the bytes that stand in the guest's memory.
pub mod Bytes
pub mod Opcode
pub mod Replies
pub mod Requests
