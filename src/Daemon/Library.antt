-- ===== src/Daemon/Library.antt =====
-- What the handlers call of the FUSE library (usr/src/lib/libfuse/common/fuse.c) and of malloc.
use illumos_fuse.Hash.{Bytes}
use illumos_fuse.Door.{FuseStat, FuseStatvfs, FuseDirent}
use illumos_fuse.Calls.{CallResult}
use illumos_fuse.Calls.Files.{Timespec}
use illumos_fuse.Daemon.{FuseDh}
use illumos_fuse.Prelude.{ℕ, ◌≡◌, Bool, Option, none, some}

-- What fuse_fs_readdir leaves in the handle, through its callback fuse_fill_dir.
pub record Filling : Type 0 where
  pub filling_filled : Bool
  pub filling_len : ℕ
  pub filling_at : ℕ → FuseDirent

-- The fuse_fs_ functions, on the state `F` of a file system. They return 0 or a negated error number;
-- the first result is that number without its sign, and the second what the call gives besides.
-- fuse_fs_read and fuse_fs_write return a count or a negated error number.
pub record FuseFs (F : Type 0) : Type 0 where
  pub fuse_fs_init : F → F
  pub fuse_fs_destroy : F → F
  pub fuse_fs_statfs : Bytes → F → ℕ × FuseStatvfs × F
  pub fuse_fs_fgetattr : (fh : ℕ) → F → ℕ × FuseStat × F
  pub fuse_fs_getattr : Bytes → F → ℕ × FuseStat × F
  pub fuse_fs_opendir : Bytes → F → ℕ × ℕ × F
  pub fuse_fs_releasedir : (fh : ℕ) → F → F
  pub fuse_fs_readdir : Bytes → (fh offset : ℕ) → F → ℕ × Filling × F
  pub fuse_fs_open : Bytes → (flags : ℕ) → F → ℕ × ℕ × F
  pub fuse_fs_release : (fh : ℕ) → F → ℕ × F
  pub fuse_fs_read : Bytes → (fh size offset : ℕ) → F → CallResult (ℕ × Bytes) × F
  pub fuse_fs_write : Bytes → Bytes → (fh size offset : ℕ) → F → CallResult ℕ × F
  pub fuse_fs_flush : (fh : ℕ) → F → ℕ × F
  pub fuse_fs_create : Bytes → (mode : ℕ) → F → ℕ × ℕ × F
  pub fuse_fs_mknod : Bytes → (mode : ℕ) → F → ℕ × F
  pub fuse_fs_unlink : Bytes → F → ℕ × F
  pub fuse_fs_ftruncate : Bytes → (fh size : ℕ) → F → ℕ × F
  pub fuse_fs_truncate : Bytes → (size : ℕ) → F → ℕ × F
  pub fuse_fs_utimens : Bytes → (atime mtime : Timespec) → F → ℕ × F
  pub fuse_fs_chmod : Bytes → (mode : ℕ) → F → ℕ × F
  pub fuse_fs_chown : Bytes → (uid gid : ℕ) → F → ℕ × F
  pub fuse_fs_rename : Bytes → Bytes → F → ℕ × F
  pub fuse_fs_mkdir : Bytes → (mode : ℕ) → F → ℕ × F
  pub fuse_fs_rmdir : Bytes → F → ℕ × F

-- malloc of a directory handle, and of a buffer of bytes while a handle is being made or read.
pub record Malloc : Type 0 where
  pub new_handle : (ℕ → Option FuseDh) → Option ℕ
  pub new_buffer : (ℕ → Option FuseDh) → (size : ℕ) → Bool

-- A new block is not one that is in use.
pub record MallocLaws (m : Malloc) : Type 0 where
  pub new_handle-fresh :
      (handles : ℕ → Option FuseDh) (p : ℕ) → m.new_handle handles ≡ some p → handles p ≡ none
