-- ===== src/Daemon/Handles.antt =====
-- The directory handles of the daemon, over the messages of the kernel module: the handles that are
-- allocated, against the ledger of what the kernel module has open.
pub mod Files
pub mod Dirs
pub mod Session
use illumos_fuse.Hash.{Bytes}
use illumos_fuse.Door.{
  Opcode, op_init, op_destroy, op_statvfs, op_fgetattr, op_getattr, op_opendir, op_closedir,
  op_readdir, op_open, op_close, op_read, op_write, op_flush, op_create, op_chmod, op_chown,
  op_delete, op_rename, op_mkdir, op_rmdir, DoorArg, generic_arg, fid_arg, path_arg, path2_arg,
  read_arg, write_arg, ftrunc_arg, utimes_arg, DoorRet, Door,
}
use illumos_fuse.Daemon.{SolLl, FuseDh, err_ret, c_string}
use illumos_fuse.Daemon.Library.{FuseFs, Malloc, MallocLaws, Filling}
use illumos_fuse.Daemon.Handlers.{
  do_init, do_destroy, do_statfs, do_fgetattr, do_getattr, do_open, do_close, do_read, do_write,
  do_flush, do_create, do_ftruncate, do_utimes, do_chmod, do_chown, do_delete, do_rename, do_mkdir,
  do_rmdir, reply_err, stat_reply, fid_reply, read_reply, write_reply, create_reply, create_mknod,
  create_open,
}
use illumos_fuse.Daemon.Directories.{
  enomem, opendir_reply, do_opendir, do_closedir, entry_reply, readdir_at, readdir_filled,
  readdir_fill, do_readdir,
}
use illumos_fuse.Daemon.Dispatch.{handle, sol_dispatch, daemon_door}
use illumos_fuse.File.Open.Ledger.{Open, same_open, remove_open, note, ledger}
use illumos_fuse.Prelude.{ℕ, ◌+◌, ◌≡◌, true, Option, none, some, List, [], ◌∷◌, if◌then◌else◌}

-- How often an open stands in the ledger, and whether a handle is allocated.
unfoldable pub count_open : Open → List Open → ℕ
count_open o [] = 0
count_open o (x ∷ xs) = let rest = count_open o xs in if same_open o x then rest + 1 else rest

abbrev pub allocated : Option FuseDh → ℕ
allocated none = 0
allocated (some dh) = 1

-- The handles that are allocated are the directories that the ledger has open, each once.
abbrev pub Tracks : (ℕ → Option FuseDh) → List Open → Type 0
Tracks handles live = (p : ℕ) → count_open (true, p) live ≡ allocated (handles p)
