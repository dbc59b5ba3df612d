-- ===== src/Lib.antt =====
-- virtiofsd: the protocol and the bookkeeping of the file-system daemon.
--
-- A request of the guest comes in a descriptor chain, the server decodes it and calls the file
-- system, and the reply goes back through the chain. The file system keeps tables. The guest
-- sees inodes, names, extended attributes and IDs; the host has files, paths and IDs of its own.
-- These tables keep the two in step. This library models the way and the tables.
--
-- InodeStore, src/passthrough/inode_store.rs. The inodes that the guest may still name, with their
-- refcounts, and the references to parents that a migration keeps. `InodeStoreInner` is the record
-- `InodeStore` of InodeStore/Types.antt; its methods are in InodeStore/Inner.antt, and those of
-- `InodeStore`, `StrongInodeReference` and `InodeIterator` in InodeStore/Store.antt. An
-- `Arc<InodeData>` is an address with the fields that never change; the refcount and the migration
-- info are cells at the address. Taking the store's lock is a step, and so is a reference taken
-- through an `Arc` without the lock, by `get_strong`'s second half or by `clone`, which may panic;
-- InodeStore/History.antt runs any sequence of them.
--
-- DentryIndex, src/passthrough/dentry_index.rs. Which names the guest has cached, forward from a
-- parent and a name to an inode, and back. DentryIndex/Inner.antt has the two maps,
-- DentryIndex.antt the methods.
--
-- NotifyInvalidate, src/notify_invalidate/translate.rs and notifier.rs. What the guest is told
-- when the host changes a file. `Translator` reads the dentry index, and sends through any
-- `Notifier`, which is a record with the state of the sink and the step that a send makes.
--
-- SoftIdmap, src/soft_idmap/mod.rs. The maps between guest and host UIDs and GIDs, over any map of
-- ranges: the crate that the code uses is an interface with its documented laws, and a list fills
-- it in the tests.
--
-- XattrMap, src/passthrough/xattrmap.rs. The rules that translate the names of extended attributes
-- from the client to the host and back, in XattrMap.antt, and their parser, in XattrMap/Parse.antt,
-- which reads the text as a list of code points.
--
-- GuestFds, src/passthrough/guest_fd_limit.rs. The semaphore that limits the files that the guest
-- keeps open, with the files that it holds.
--
-- Beside the translator, NotifyInvalidate/Watcher.antt has the classification and the queue of
-- src/notify_invalidate/watcher.rs, over any channel whose `try_send` never blocks, and
-- NotifyInvalidate/Frame.antt the bytes of a notification. SoftIdmap/Cmdline.antt has the text of the
-- ID map's entries, of src/soft_idmap/cmdline.rs, over any tables of alphanumeric characters and of
-- lower case.
--
-- Server, src/server.rs. Each request, from the bytes of the guest's buffers through a file system to
-- the bytes of the reply. A handler is a function of the server and of a writer; `?` is the bind of
-- Server/Reply.antt, and the handlers `handle_*` are in the modules beside it, with the `match` of
-- `handle_message` in Server/Messages.antt. The messages of src/fuse.rs are in Fuse, and the trait
-- of src/filesystem.rs is the record of FileSystem.antt, over which the server is generic. The
-- host's page size and platform are parameters, and the error numbers are those of the platform.
--
-- DescriptorChain, src/descriptor_utils.rs. The slices of a descriptor chain behind the readers and
-- the writer of the server: DescriptorChain/Agreement.antt relates the two.
-- DescriptorChain/ZeroCopy.antt has the loops of `ZcReader` and `ZcWriter` of src/server.rs, with
-- any file.
--
-- ReadDir, src/read_dir.rs. The entries that getdents64 writes, and the walk to an offset that the
-- kernel refuses to seek to, over any directory: `next` and `move_past` are in ReadDir.antt, `new` and
-- `new_walk_to` in ReadDir/Seek.antt. The buffer is a list of bytes with the two positions of the code.
--
-- The standard library's B-tree maps are ordered association lists (BTreeMap.antt), with the laws
-- that the rest relies on. Results are in Common/Io.antt: `IoResult` for `io::Result`, `Outcome` for
-- code that may panic. Numbers are natural, with the wrap-around of u32 and u64, as in a release
-- build, written out; the numbers on the command line are read and printed as the standard library
-- does it.
--
-- Fuel: `forget_one` of the inode store takes fuel, since a removal may drop the last reference to a
-- parent; a removal shrinks the store, so one more than the number of entries is enough. The loops
-- of a chain's reader and of a directory's reader take the bytes that are wanted or that remain, and
-- the walk through a directory one round more than there are batches. A transfer between a file and
-- a chain takes its count.
--
-- Not modelled: system calls and what the kernel answers, how guest addresses become slices,
-- the passthrough file system itself, migration streams, and process setup. A step of the model is
-- atomic where the code holds a lock or retries a compare-and-swap.
pub mod Common
pub mod BTreeMap
pub mod DentryIndex
pub mod InodeStore
pub mod SoftIdmap
pub mod NotifyInvalidate
pub mod XattrMap
pub mod GuestFds
pub mod Fuse
pub mod FileSystem
pub mod Server
pub mod DescriptorChain
pub mod ReadDir
