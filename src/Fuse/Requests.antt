-- ===== src/Fuse/Requests.antt =====
-- The structures of src/fuse.rs that requests hold, and their readers.
use virtiofsd.Common.{ℕ, List}
use virtiofsd.Fuse.Bytes.{Decode, ◌>>=◌, pure, u16, u32, u64, bytes_of}

pub record InHeader : Type 0 where
  pub len : ℕ
  pub opcode : ℕ
  pub unique : ℕ
  pub nodeid : ℕ
  pub uid : ℕ
  pub gid : ℕ
  pub pid : ℕ
  pub total_extlen : ℕ
  pub padding : ℕ

unfoldable pub read_in_header : Decode InHeader
read_in_header = do
  len ← u32
  opcode ← u32
  unique ← u64
  nodeid ← u64
  uid ← u32
  gid ← u32
  pid ← u32
  total_extlen ← u16
  padding ← u16
  pure (record {
    len = len;
    opcode = opcode;
    unique = unique;
    nodeid = nodeid;
    uid = uid;
    gid = gid;
    pid = pid;
    total_extlen = total_extlen;
    padding = padding;
  })

pub record ForgetIn : Type 0 where
  pub nlookup : ℕ

unfoldable pub read_forget_in : Decode ForgetIn
read_forget_in = do nlookup ← u64; pure (record { nlookup = nlookup })

pub record ForgetOne : Type 0 where
  pub nodeid : ℕ
  pub nlookup : ℕ

unfoldable pub read_forget_one : Decode ForgetOne
read_forget_one = do
  nodeid ← u64
  nlookup ← u64
  pure (record { nodeid = nodeid; nlookup = nlookup })

pub record BatchForgetIn : Type 0 where
  pub count : ℕ
  pub dummy : ℕ

unfoldable pub read_batch_forget_in : Decode BatchForgetIn
read_batch_forget_in = do count ← u32; dummy ← u32; pure (record { count = count; dummy = dummy })

pub record GetattrIn : Type 0 where
  pub flags : ℕ
  pub dummy : ℕ
  pub fh : ℕ

unfoldable pub read_getattr_in : Decode GetattrIn
read_getattr_in = do
  flags ← u32
  dummy ← u32
  fh ← u64
  pure (record { flags = flags; dummy = dummy; fh = fh })

pub record SetattrIn : Type 0 where
  pub valid : ℕ
  pub padding : ℕ
  pub fh : ℕ
  pub size : ℕ
  pub lock_owner : ℕ
  pub atime : ℕ
  pub mtime : ℕ
  pub ctime : ℕ
  pub atimensec : ℕ
  pub mtimensec : ℕ
  pub ctimensec : ℕ
  pub mode : ℕ
  pub unused4 : ℕ
  pub uid : ℕ
  pub gid : ℕ
  pub unused5 : ℕ

unfoldable pub read_setattr_in : Decode SetattrIn
read_setattr_in = do
  valid ← u32
  padding ← u32
  fh ← u64
  size ← u64
  lock_owner ← u64
  atime ← u64
  mtime ← u64
  ctime ← u64
  atimensec ← u32
  mtimensec ← u32
  ctimensec ← u32
  mode ← u32
  unused4 ← u32
  uid ← u32
  gid ← u32
  unused5 ← u32
  pure (record {
    valid = valid;
    padding = padding;
    fh = fh;
    size = size;
    lock_owner = lock_owner;
    atime = atime;
    mtime = mtime;
    ctime = ctime;
    atimensec = atimensec;
    mtimensec = mtimensec;
    ctimensec = ctimensec;
    mode = mode;
    unused4 = unused4;
    uid = uid;
    gid = gid;
    unused5 = unused5;
  })

pub record MknodIn : Type 0 where
  pub mode : ℕ
  pub rdev : ℕ
  pub umask : ℕ
  pub padding : ℕ

unfoldable pub read_mknod_in : Decode MknodIn
read_mknod_in = do
  mode ← u32
  rdev ← u32
  umask ← u32
  padding ← u32
  pure (record { mode = mode; rdev = rdev; umask = umask; padding = padding })

pub record MkdirIn : Type 0 where
  pub mode : ℕ
  pub umask : ℕ

unfoldable pub read_mkdir_in : Decode MkdirIn
read_mkdir_in = do mode ← u32; umask ← u32; pure (record { mode = mode; umask = umask })

pub record RenameIn : Type 0 where
  pub newdir : ℕ

unfoldable pub read_rename_in : Decode RenameIn
read_rename_in = do newdir ← u64; pure (record { newdir = newdir })

pub record Rename2In : Type 0 where
  pub newdir : ℕ
  pub flags : ℕ
  pub padding : ℕ

unfoldable pub read_rename2_in : Decode Rename2In
read_rename2_in = do
  newdir ← u64
  flags ← u32
  padding ← u32
  pure (record { newdir = newdir; flags = flags; padding = padding })

pub record LinkIn : Type 0 where
  pub oldnodeid : ℕ

unfoldable pub read_link_in : Decode LinkIn
read_link_in = do oldnodeid ← u64; pure (record { oldnodeid = oldnodeid })

pub record OpenIn : Type 0 where
  pub flags : ℕ
  pub open_flags : ℕ

unfoldable pub read_open_in : Decode OpenIn
read_open_in = do
  flags ← u32
  open_flags ← u32
  pure (record { flags = flags; open_flags = open_flags })

pub record CreateIn : Type 0 where
  pub flags : ℕ
  pub mode : ℕ
  pub umask : ℕ
  pub open_flags : ℕ

unfoldable pub read_create_in : Decode CreateIn
read_create_in = do
  flags ← u32
  mode ← u32
  umask ← u32
  open_flags ← u32
  pure (record { flags = flags; mode = mode; umask = umask; open_flags = open_flags })

pub record ReleaseIn : Type 0 where
  pub fh : ℕ
  pub flags : ℕ
  pub release_flags : ℕ
  pub lock_owner : ℕ

unfoldable pub read_release_in : Decode ReleaseIn
read_release_in = do
  fh ← u64
  flags ← u32
  release_flags ← u32
  lock_owner ← u64
  pure (record { fh = fh; flags = flags; release_flags = release_flags; lock_owner = lock_owner })

pub record FlushIn : Type 0 where
  pub fh : ℕ
  pub unused : ℕ
  pub padding : ℕ
  pub lock_owner : ℕ

unfoldable pub read_flush_in : Decode FlushIn
read_flush_in = do
  fh ← u64
  unused ← u32
  padding ← u32
  lock_owner ← u64
  pure (record { fh = fh; unused = unused; padding = padding; lock_owner = lock_owner })

pub record ReadIn : Type 0 where
  pub fh : ℕ
  pub offset : ℕ
  pub size : ℕ
  pub read_flags : ℕ
  pub lock_owner : ℕ
  pub flags : ℕ
  pub padding : ℕ

unfoldable pub read_read_in : Decode ReadIn
read_read_in = do
  fh ← u64
  offset ← u64
  size ← u32
  read_flags ← u32
  lock_owner ← u64
  flags ← u32
  padding ← u32
  pure (record {
    fh = fh;
    offset = offset;
    size = size;
    read_flags = read_flags;
    lock_owner = lock_owner;
    flags = flags;
    padding = padding;
  })

pub record WriteIn : Type 0 where
  pub fh : ℕ
  pub offset : ℕ
  pub size : ℕ
  pub write_flags : ℕ
  pub lock_owner : ℕ
  pub flags : ℕ
  pub padding : ℕ

unfoldable pub read_write_in : Decode WriteIn
read_write_in = do
  fh ← u64
  offset ← u64
  size ← u32
  write_flags ← u32
  lock_owner ← u64
  flags ← u32
  padding ← u32
  pure (record {
    fh = fh;
    offset = offset;
    size = size;
    write_flags = write_flags;
    lock_owner = lock_owner;
    flags = flags;
    padding = padding;
  })

pub record FsyncIn : Type 0 where
  pub fh : ℕ
  pub fsync_flags : ℕ
  pub padding : ℕ

unfoldable pub read_fsync_in : Decode FsyncIn
read_fsync_in = do
  fh ← u64
  fsync_flags ← u32
  padding ← u32
  pure (record { fh = fh; fsync_flags = fsync_flags; padding = padding })

pub record SetxattrIn : Type 0 where
  pub size : ℕ
  pub flags : ℕ
  pub setxattr_flags : ℕ
  pub padding : ℕ

unfoldable pub read_setxattr_in : Decode SetxattrIn
read_setxattr_in = do
  size ← u32
  flags ← u32
  setxattr_flags ← u32
  padding ← u32
  pure (record { size = size; flags = flags; setxattr_flags = setxattr_flags; padding = padding })

pub record SetxattrInCompat : Type 0 where
  pub size : ℕ
  pub flags : ℕ

unfoldable pub read_setxattr_in_compat : Decode SetxattrInCompat
read_setxattr_in_compat = do size ← u32; flags ← u32; pure (record { size = size; flags = flags })

pub record GetxattrIn : Type 0 where
  pub size : ℕ
  pub padding : ℕ

unfoldable pub read_getxattr_in : Decode GetxattrIn
read_getxattr_in = do size ← u32; padding ← u32; pure (record { size = size; padding = padding })

pub record AccessIn : Type 0 where
  pub mask : ℕ
  pub padding : ℕ

unfoldable pub read_access_in : Decode AccessIn
read_access_in = do mask ← u32; padding ← u32; pure (record { mask = mask; padding = padding })

pub record InitInCompat : Type 0 where
  pub major : ℕ
  pub minor : ℕ
  pub max_readahead : ℕ
  pub flags : ℕ

unfoldable pub read_init_in_compat : Decode InitInCompat
read_init_in_compat = do
  major ← u32
  minor ← u32
  max_readahead ← u32
  flags ← u32
  pure (record { major = major; minor = minor; max_readahead = max_readahead; flags = flags })

pub record InitInExt : Type 0 where
  pub flags2 : ℕ
  pub unused : List ℕ

unfoldable pub read_init_in_ext : Decode InitInExt
read_init_in_ext = do
  flags2 ← u32
  unused ← bytes_of 44
  pure (record { flags2 = flags2; unused = unused })

pub record FallocateIn : Type 0 where
  pub fh : ℕ
  pub offset : ℕ
  pub length : ℕ
  pub mode : ℕ
  pub padding : ℕ

unfoldable pub read_fallocate_in : Decode FallocateIn
read_fallocate_in = do
  fh ← u64
  offset ← u64
  length ← u64
  mode ← u32
  padding ← u32
  pure (record { fh = fh; offset = offset; length = length; mode = mode; padding = padding })

pub record LseekIn : Type 0 where
  pub fh : ℕ
  pub offset : ℕ
  pub whence : ℕ
  pub padding : ℕ

unfoldable pub read_lseek_in : Decode LseekIn
read_lseek_in = do
  fh ← u64
  offset ← u64
  whence ← u32
  padding ← u32
  pure (record { fh = fh; offset = offset; whence = whence; padding = padding })

pub record CopyfilerangeIn : Type 0 where
  pub fh_in : ℕ
  pub off_in : ℕ
  pub nodeid_out : ℕ
  pub fh_out : ℕ
  pub off_out : ℕ
  pub len : ℕ
  pub flags : ℕ

unfoldable pub read_copyfilerange_in : Decode CopyfilerangeIn
read_copyfilerange_in = do
  fh_in ← u64
  off_in ← u64
  nodeid_out ← u64
  fh_out ← u64
  off_out ← u64
  len ← u64
  flags ← u64
  pure (record {
    fh_in = fh_in;
    off_in = off_in;
    nodeid_out = nodeid_out;
    fh_out = fh_out;
    off_out = off_out;
    len = len;
    flags = flags;
  })

pub record ExtHeader : Type 0 where
  pub size : ℕ
  pub ext_type : ℕ

unfoldable pub read_ext_header : Decode ExtHeader
read_ext_header = do size ← u32; ext_type ← u32; pure (record { size = size; ext_type = ext_type })

pub record Secctx : Type 0 where
  pub size : ℕ
  pub padding : ℕ

unfoldable pub read_secctx : Decode Secctx
read_secctx = do size ← u32; padding ← u32; pure (record { size = size; padding = padding })

pub record SuppGroups : Type 0 where
  pub nr_groups : ℕ

unfoldable pub read_supp_groups : Decode SuppGroups
read_supp_groups = do nr_groups ← u32; pure (record { nr_groups = nr_groups })
