-- ===== src/InodeStore.antt =====
-- src/passthrough/inode_store.rs: the inodes that the guest or the server refers to.
pub mod Types
pub mod Inner
pub mod Later
pub mod Store
pub mod History
pub mod Tests
