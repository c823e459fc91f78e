-- ===== src/Door.antt =====
-- The messages of usr/src/uts/common/sys/fs/fuse_door.h and fuse_ktypes.h between the kernel module
-- and the FUSE daemon. A buffer is the list of the bytes that were written to it.
pub mod Errno
pub mod Samples
use illumos_fuse.Hash.{Bytes}
use illumos_fuse.Prelude.{ℕ}

-- Values of the system's headers, and FUSE_MAX_IOSIZE.
abbrev pub maxpathlen : ℕ
maxpathlen = 1024

abbrev pub maxnamelen : ℕ
maxnamelen = 256

abbrev pub fuse_max_iosize : ℕ
fuse_max_iosize = 8192

-- fuse_opcode_t
pub data Opcode : Type 0 where
  op_init op_destroy op_statvfs op_fgetattr op_getattr op_opendir op_closedir op_readdir : Opcode
  op_open op_close op_read op_write op_flush op_create op_ftrunc op_utimes op_chmod : Opcode
  op_chown op_delete op_rename op_mkdir op_rmdir : Opcode

-- The argument structs. Fields that a caller leaves zero are not shown; `pathlen` is arg_pathlen
-- and `path` what is copied to arg_path.
pub data DoorArg : Type 0 where
  generic_arg : Opcode → (flags : ℕ) → DoorArg
  fid_arg : Opcode → (fid : ℕ) → DoorArg
  path_arg : Opcode → (val₀ val₁ pathlen : ℕ) → (path : Bytes) → DoorArg
  path2_arg : Opcode → (p1len p2len : ℕ) → (path1 path2 : Bytes) → DoorArg
  read_arg : Opcode → (fid offset len pathlen : ℕ) → (path : Bytes) → DoorArg
  write_arg : Opcode → (fid offset len pathlen : ℕ) → (path content : Bytes) → DoorArg
  ftrunc_arg : (fid offset pathlen : ℕ) → (path : Bytes) → DoorArg
  utimes_arg : (atime mtime atime_ns mtime_ns pathlen : ℕ) → (path : Bytes) → DoorArg

-- struct fuse_stat, the attributes of a file
pub record FuseStat : Type 0 where
  pub st_ino : ℕ
  pub st_size : ℕ
  pub st_blocks : ℕ
  pub st_atime_sec : ℕ
  pub st_mtime_sec : ℕ
  pub st_ctime_sec : ℕ
  pub st_atime_ns : ℕ
  pub st_mtime_ns : ℕ
  pub st_ctime_ns : ℕ
  pub st_mode : ℕ
  pub st_nlink : ℕ
  pub st_uid : ℕ
  pub st_gid : ℕ
  pub st_rdev : ℕ
  pub st_blksize : ℕ

-- struct fuse_statvfs
pub record FuseStatvfs : Type 0 where
  pub f_blocks : ℕ
  pub f_bfree : ℕ
  pub f_bavail : ℕ
  pub f_files : ℕ
  pub f_ffree : ℕ
  pub f_favail : ℕ
  pub f_bsize : ℕ
  pub f_frsize : ℕ
  pub f_namemax : ℕ
  pub f_flag : ℕ

-- struct fuse_dirent, with d_name and the bytes that follow it
pub record FuseDirent : Type 0 where
  pub d_ino : ℕ
  pub d_off : ℕ
  pub d_nmlen : ℕ
  pub d_name : Bytes

-- What the reply buffer holds, through the fields of all the reply structs; each call reads those
-- of its own.
pub record DoorRet : Type 0 where
  pub ret_err : ℕ
  pub ret_flags : ℕ
  pub ret_fid : ℕ
  pub ret_stvfs : FuseStatvfs
  pub ret_st : FuseStat
  pub ret_de : FuseDirent
  pub ret_length : ℕ
  pub ret_content : Bytes

-- door_ki_upcall on the session's door, with `D` what lies behind the door: the return code, the
-- reply, and the daemon afterwards.
abbrev pub Door : Type 0 → Type 0
Door D = DoorArg → D → ℕ × DoorRet × D
