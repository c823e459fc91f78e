-- ===== src/Daemon/Dispatch.antt =====
-- sol_dispatch, and the daemon as what lies behind the kernel's door.
use illumos_fuse.Door.{
  op_init, op_destroy, op_statvfs, op_fgetattr, op_getattr, op_opendir, op_closedir, op_readdir,
  op_open, op_close, op_read, op_write, op_flush, op_create, op_chmod, op_chown, op_delete,
  op_rename, op_mkdir, op_rmdir, DoorArg, generic_arg, fid_arg, path_arg, path2_arg, read_arg,
  write_arg, ftrunc_arg, utimes_arg, DoorRet, Door,
}
use illumos_fuse.Door.Errno.{einval, esrch}
use illumos_fuse.Daemon.{SolLl, zero_ret, err_ret}
use illumos_fuse.Daemon.Library.{FuseFs, Malloc}
use illumos_fuse.Daemon.Handlers.{
  do_init, do_destroy, do_statfs, do_fgetattr, do_getattr, do_open, do_close, do_read, do_write,
  do_flush, do_create, do_ftruncate, do_utimes, do_chmod, do_chown, do_delete, do_rename, do_mkdir,
  do_rmdir,
}
use illumos_fuse.Daemon.Directories.{do_opendir, do_closedir, do_readdir}
use illumos_fuse.Prelude.{ℕ, Option, none, some, if◌then◌else◌}

module _ {F : Type 0} (fs : FuseFs F) (m : Malloc) where
  -- The switch on the opcode. A message whose shape is not that of its operation gets EINVAL, as from
  -- the size checks of the handlers; fusefs_calls.c sends none.
  unfoldable pub handle : DoorArg → SolLl F → Option (DoorRet × SolLl F)
  handle (generic_arg op_init flags) ll = some (do_init fs ll)
  handle (generic_arg op_destroy flags) ll = some (do_destroy fs ll)
  handle (generic_arg op_statvfs flags) ll = some (do_statfs fs ll)
  handle (fid_arg op_fgetattr fid) ll = some (do_fgetattr fs fid ll)
  handle (fid_arg op_closedir fid) ll = do_closedir fs m fid ll
  handle (fid_arg op_close fid) ll = some (do_close fs fid ll)
  handle (fid_arg op_flush fid) ll = some (do_flush fs fid ll)
  handle (path_arg op_getattr a b pathlen path) ll = some (do_getattr fs path ll)
  handle (path_arg op_opendir a b pathlen path) ll = some (do_opendir fs m pathlen path ll)
  handle (path_arg op_open a b pathlen path) ll = some (do_open fs a path ll)
  handle (path_arg op_create a b pathlen path) ll = some (do_create fs a path ll)
  handle (path_arg op_chmod a b pathlen path) ll = some (do_chmod fs a path ll)
  handle (path_arg op_chown a b pathlen path) ll = some (do_chown fs a b path ll)
  handle (path_arg op_delete a b pathlen path) ll = some (do_delete fs path ll)
  handle (path_arg op_mkdir a b pathlen path) ll = some (do_mkdir fs path ll)
  handle (path_arg op_rmdir a b pathlen path) ll = some (do_rmdir fs path ll)
  handle (path2_arg op_rename l₁ l₂ path1 path2) ll = some (do_rename fs path1 path2 ll)
  handle (read_arg op_readdir fid offset len pathlen path) ll = do_readdir fs m fid offset ll
  handle (read_arg op_read fid offset len pathlen path) ll =
      some (do_read fs fid offset len path ll)
  handle (write_arg op_write fid offset len pathlen path content) ll =
      some (do_write fs fid offset len path content ll)
  handle (ftrunc_arg fid offset pathlen path) ll = some (do_ftruncate fs fid offset path ll)
  handle (utimes_arg a t a_ns t_ns pathlen path) ll = some (
      do_utimes fs (record { tv_sec = a; tv_nsec = a_ns }) (record { tv_sec = t; tv_nsec = t_ns })
        path ll)
  handle arg ll = some (err_ret einval, ll)

  unfoldable pub sol_dispatch : DoorArg → SolLl F → Option (DoorRet × SolLl F)
  sol_dispatch arg ll = if ll.got_destroy then some (err_ret esrch, ll) else handle arg ll

  -- The door. A daemon that faults answers no more, and the upcall fails with `crash`.
  unfoldable pub daemon_door : (crash : ℕ) → Door (SolLl F)
  daemon_door crash arg ll = elim (sol_dispatch arg ll) [
    | none ↦ (crash, zero_ret, ll)
    | some (ret, ll') ↦ (0, ret, ll')
  ]
