-- ===== src/Daemon/Handlers.antt =====
-- The handlers for files. Each gives its reply and the daemon after it.
use illumos_fuse.Hash.{Bytes}
use illumos_fuse.Door.{FuseStat, DoorRet}
use illumos_fuse.Door.Errno.{enosys}
use illumos_fuse.Calls.{CallResult, ok, err}
use illumos_fuse.Calls.Files.{Timespec}
use illumos_fuse.Daemon.{SolLl, zero_ret, err_ret, convert_stat, c_string}
use illumos_fuse.Daemon.Library.{FuseFs}
use illumos_fuse.Prelude.{ℕ, ◌+◌, ◌/◌, ◌%◌, ◌^◌, true, [], ◌∷◌, ◌==◌, if◌then◌else◌}

-- O_RDWR is 2 and O_RDONLY 0; S_IFREG is 0x8000 and S_IRUSR 0x100.
abbrev pub o_rdwr : ℕ
o_rdwr = 2

-- `arg->arg_val[0] & FWRITE`
abbrev pub open_flags : ℕ → ℕ
open_flags val = if val / 2 % 2 == 1 then o_rdwr else 0

-- `arg->arg_val[0] | S_IFREG | S_IRUSR`
abbrev pub create_mode : ℕ → ℕ
create_mode val =
    let regular = if val / 2 ^ 15 % 2 == 1 then val else val + 2 ^ 15 in
    if regular / 2 ^ 8 % 2 == 1 then regular else regular + 2 ^ 8

module _ {F : Type 0} (fs : FuseFs F) where
  -- A handler whose library call gives nothing but its error.
  unfoldable pub reply_err : SolLl F → ℕ × F → DoorRet × SolLl F
  reply_err ll (e, f) = (err_ret e, record ll { userdata = f })

  unfoldable pub do_init : SolLl F → DoorRet × SolLl F
  do_init ll = (zero_ret, record ll { userdata = fs.fuse_fs_init ll.userdata })

  unfoldable pub do_destroy : SolLl F → DoorRet × SolLl F
  do_destroy ll =
      (zero_ret, record ll { got_destroy = true; userdata = fs.fuse_fs_destroy ll.userdata })

  unfoldable pub do_statfs : SolLl F → DoorRet × SolLl F
  do_statfs ll =
      let (e, stvfs, f) = fs.fuse_fs_statfs (b'/' ∷ []) ll.userdata in
      (
        if e == 0 then record zero_ret { ret_stvfs = stvfs } else err_ret e,
        record ll { userdata = f },
      )

  unfoldable pub stat_reply : SolLl F → ℕ × FuseStat × F → DoorRet × SolLl F
  unfolding convert_stat
  stat_reply ll (e, st, f) = (
    if e == 0 then record zero_ret { ret_st = convert_stat st } else err_ret e,
    record ll { userdata = f },
  )

  unfoldable pub do_fgetattr : ℕ → SolLl F → DoorRet × SolLl F
  unfolding stat_reply
  do_fgetattr fid ll = stat_reply ll (fs.fuse_fs_fgetattr fid ll.userdata)

  unfoldable pub do_getattr : Bytes → SolLl F → DoorRet × SolLl F
  unfolding stat_reply
  do_getattr path ll = stat_reply ll (fs.fuse_fs_getattr (c_string path) ll.userdata)

  unfoldable pub fid_reply : SolLl F → ℕ × ℕ × F → DoorRet × SolLl F
  fid_reply ll (e, fh, f) =
      (if e == 0 then record zero_ret { ret_fid = fh } else err_ret e, record ll { userdata = f })

  unfoldable pub do_open : (val : ℕ) → Bytes → SolLl F → DoorRet × SolLl F
  unfolding fid_reply
  do_open val path ll = fid_reply ll (fs.fuse_fs_open (c_string path) (open_flags val) ll.userdata)

  unfoldable pub do_close : ℕ → SolLl F → DoorRet × SolLl F
  do_close fid ll = (zero_ret, record ll { userdata = (fs.fuse_fs_release fid ll.userdata).1 })

  unfoldable pub read_reply : SolLl F → CallResult (ℕ × Bytes) × F → DoorRet × SolLl F
  read_reply ll (err e, f) = (err_ret e, record ll { userdata = f })
  read_reply ll (ok (res, bytes), f) =
      (record zero_ret { ret_length = res; ret_content = bytes }, record ll { userdata = f })

  unfoldable pub do_read : (fid offset len : ℕ) → Bytes → SolLl F → DoorRet × SolLl F
  unfolding read_reply
  do_read fid offset len path ll =
      read_reply ll (fs.fuse_fs_read (c_string path) fid len offset ll.userdata)

  unfoldable pub write_reply : SolLl F → CallResult ℕ × F → DoorRet × SolLl F
  write_reply ll (err e, f) = (err_ret e, record ll { userdata = f })
  write_reply ll (ok res, f) = (record zero_ret { ret_length = res }, record ll { userdata = f })

  unfoldable pub do_write : (fid offset len : ℕ) → Bytes → Bytes → SolLl F → DoorRet × SolLl F
  unfolding write_reply
  do_write fid offset len path content ll =
      write_reply ll (fs.fuse_fs_write (c_string path) content fid len offset ll.userdata)

  -- The result of the flush is not looked at.
  unfoldable pub do_flush : ℕ → SolLl F → DoorRet × SolLl F
  do_flush fid ll = (zero_ret, record ll { userdata = (fs.fuse_fs_flush fid ll.userdata).1 })

  -- After mknod: the handle that the open gives is not put into the reply.
  unfoldable pub create_open : Bytes → SolLl F → ℕ × ℕ × F → DoorRet × SolLl F
  create_open path ll (e, fh, f) =
      if e == 0
      then (zero_ret, record ll { userdata = f })
      else (err_ret e, record ll { userdata = (fs.fuse_fs_unlink path f).1 })

  unfoldable pub create_mknod : Bytes → SolLl F → ℕ × F → DoorRet × SolLl F
  unfolding create_open
  create_mknod path ll (e, f) =
      if e == 0
      then create_open path ll (fs.fuse_fs_open path 0 f)
      else (err_ret e, record ll { userdata = f })

  unfoldable pub create_reply : (mode : ℕ) → Bytes → SolLl F → ℕ × ℕ × F → DoorRet × SolLl F
  unfolding create_mknod
  create_reply mode path ll (e, fh, f) =
      if e == 0
      then (record zero_ret { ret_fid = fh }, record ll { userdata = f })
      else if e == enosys
      then create_mknod path ll (fs.fuse_fs_mknod path mode f)
      else (err_ret e, record ll { userdata = f })

  unfoldable pub do_create : (val : ℕ) → Bytes → SolLl F → DoorRet × SolLl F
  unfolding create_reply
  do_create val path ll =
      create_reply (create_mode val) (c_string path) ll
        (fs.fuse_fs_create (c_string path) (create_mode val) ll.userdata)

  unfoldable pub do_ftruncate : (fid offset : ℕ) → Bytes → SolLl F → DoorRet × SolLl F
  unfolding reply_err
  do_ftruncate fid offset path ll =
      if fid == 0
      then reply_err ll (fs.fuse_fs_truncate (c_string path) offset ll.userdata)
      else reply_err ll (fs.fuse_fs_ftruncate (c_string path) fid offset ll.userdata)

  unfoldable pub do_utimes : Timespec → Timespec → Bytes → SolLl F → DoorRet × SolLl F
  unfolding reply_err
  do_utimes atime mtime path ll =
      reply_err ll (fs.fuse_fs_utimens (c_string path) atime mtime ll.userdata)

  unfoldable pub do_chmod : (mode : ℕ) → Bytes → SolLl F → DoorRet × SolLl F
  unfolding reply_err
  do_chmod mode path ll = reply_err ll (fs.fuse_fs_chmod (c_string path) mode ll.userdata)

  unfoldable pub do_chown : (uid gid : ℕ) → Bytes → SolLl F → DoorRet × SolLl F
  unfolding reply_err
  do_chown uid gid path ll = reply_err ll (fs.fuse_fs_chown (c_string path) uid gid ll.userdata)

  unfoldable pub do_delete : Bytes → SolLl F → DoorRet × SolLl F
  unfolding reply_err
  do_delete path ll = reply_err ll (fs.fuse_fs_unlink (c_string path) ll.userdata)

  unfoldable pub do_rename : Bytes → Bytes → SolLl F → DoorRet × SolLl F
  unfolding reply_err
  do_rename path1 path2 ll =
      reply_err ll (fs.fuse_fs_rename (c_string path1) (c_string path2) ll.userdata)

  -- The mode is 0700.
  unfoldable pub do_mkdir : Bytes → SolLl F → DoorRet × SolLl F
  unfolding reply_err
  do_mkdir path ll = reply_err ll (fs.fuse_fs_mkdir (c_string path) 448 ll.userdata)

  unfoldable pub do_rmdir : Bytes → SolLl F → DoorRet × SolLl F
  unfolding reply_err
  do_rmdir path ll = reply_err ll (fs.fuse_fs_rmdir (c_string path) ll.userdata)
