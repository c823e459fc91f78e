-- ===== src/Daemon.antt =====
-- The daemon's side of the door: usr/src/lib/libfuse/common/fuse_ll_doorsvc.c, whose handlers turn the
-- messages of the kernel module into calls of the FUSE library.
pub mod Library
pub mod Handlers
pub mod Directories
pub mod Dispatch
pub mod Paths
pub mod Refine
pub mod Handles
pub mod Examples
use illumos_fuse.Hash.{Bytes}
use illumos_fuse.Door.{FuseStat, FuseStatvfs, FuseDirent, DoorRet}
use illumos_fuse.Prelude.{ℕ, Bool, Option, [], ◌∷◌, ◌==◌, if◌then◌else◌}

-- A string in a buffer: the bytes before the first NUL.
unfoldable pub c_string : Bytes → Bytes
c_string [] = []
c_string (c ∷ cs) = if c == 0 then [] else c ∷ c_string cs

-- `struct fuse_xxx_ret ret = {0};`
abbrev pub zero_stat : FuseStat
zero_stat = record {
  st_ino = 0;
  st_size = 0;
  st_blocks = 0;
  st_atime_sec = 0;
  st_mtime_sec = 0;
  st_ctime_sec = 0;
  st_atime_ns = 0;
  st_mtime_ns = 0;
  st_ctime_ns = 0;
  st_mode = 0;
  st_nlink = 0;
  st_uid = 0;
  st_gid = 0;
  st_rdev = 0;
  st_blksize = 0;
}

abbrev pub zero_ret : DoorRet
zero_ret = record {
  ret_err = 0;
  ret_flags = 0;
  ret_fid = 0;
  ret_stvfs = record {
    f_blocks = 0;
    f_bfree = 0;
    f_bavail = 0;
    f_files = 0;
    f_ffree = 0;
    f_favail = 0;
    f_bsize = 0;
    f_frsize = 0;
    f_namemax = 0;
    f_flag = 0;
  };
  ret_st = zero_stat;
  ret_de = record { d_ino = 0; d_off = 0; d_nmlen = 0; d_name = [] };
  ret_length = 0;
  ret_content = [];
}

-- `ret.ret_err = -err;` with `e` for -err
abbrev pub err_ret : ℕ → DoorRet
err_ret e = record zero_ret { ret_err = e }

unfoldable pub convert_stat : FuseStat → FuseStat
convert_stat st = record st { st_ino = if st.st_ino == 0xffffffff then 0 else st.st_ino }

-- struct fuse_dh, the handle of an open directory. `entry_at` reads an entry of `contents` at a
-- position.
pub record FuseDh : Type 0 where
  pub fh : ℕ
  pub path : Bytes
  pub pathlen : ℕ
  pub filled : Bool
  pub len : ℕ
  pub entry_at : ℕ → FuseDirent

-- The state of the daemon: the file system behind the library, got_destroy of struct fuse_ll, and the
-- directory handles that are allocated, by address.
pub record SolLl (F : Type 0) : Type 0 where
  pub userdata : F
  pub got_destroy : Bool
  pub handles : ℕ → Option FuseDh
