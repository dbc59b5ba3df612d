-- ===== src/Server.antt =====
-- src/server.rs: FUSE requests read from the guest's buffers, given to a file system, and answered.
pub mod Errno
pub mod Writer
pub mod Result
pub mod Reply
pub mod Options
pub mod Extensions
pub mod Names
pub mod Create
pub mod Files
pub mod Handles
pub mod Limits
pub mod Xattrs
pub mod Init
pub mod Directories
pub mod Readdirplus
pub mod Dirents
pub mod Messages
pub mod Parts
pub mod Framing
pub mod Added
pub mod Delivered
pub mod Lookups
pub mod Sent
pub mod ExtensionBytes
pub mod ExtensionPayloads
pub mod ExtensionTrip
pub mod Tests
