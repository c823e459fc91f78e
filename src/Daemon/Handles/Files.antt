-- ===== src/Daemon/Handles/Files.antt =====
-- Messages that are not about directories leave the directory handles alone.
use illumos_fuse.Door.{
  op_init, op_destroy, op_statvfs, op_fgetattr, op_getattr, op_opendir, op_closedir, op_readdir,
  op_open, op_close, op_read, op_write, op_flush, op_create, op_chmod, op_chown, op_delete,
  op_rename, op_mkdir, op_rmdir, DoorArg, generic_arg, fid_arg, path_arg, path2_arg, read_arg,
  write_arg, ftrunc_arg, utimes_arg, DoorRet,
}
use illumos_fuse.Daemon.{SolLl}
use illumos_fuse.Daemon.Library.{FuseFs, Malloc}
use illumos_fuse.Daemon.Handlers.{
  do_init, do_destroy, do_statfs, do_fgetattr, do_getattr, do_open, do_close, do_read, do_write,
  do_flush, do_create, do_ftruncate, do_utimes, do_chmod, do_chown, do_delete, do_rename, do_mkdir,
  do_rmdir, reply_err, stat_reply, fid_reply, read_reply, write_reply, create_reply, create_mknod,
  create_open,
}
use illumos_fuse.Daemon.Dispatch.{handle}
use illumos_fuse.File.Open.Ledger.{Open, remove_open, note}
use illumos_fuse.Prelude.{
  ℕ, ◌-◌, ◌≡◌, refl, ◌≢◌, true, false, Option, none, some, List, [], ◌∷◌, arith,
}
use illumos_fuse.Daemon.Handles.{count_open}

pub count-remove_open-same :
    (p : ℕ) (live : List Open)
    → count_open (true, p) (remove_open (true, p) live) ≡ count_open (true, p) live - 1
unfolding count_open remove_open
count-remove_open-same p [] = refl
count-remove_open-same p ((true, q) ∷ live) = ground (arith, count-remove_open-same p live)
count-remove_open-same p ((false, q) ∷ live) = ground (arith, count-remove_open-same p live)

count-remove_open-file :
    (p q : ℕ) (live : List Open)
    → count_open (true, p) (remove_open (false, q) live) ≡ count_open (true, p) live
unfolding count_open remove_open
count-remove_open-file p q [] = refl
count-remove_open-file p q ((true, x) ∷ live) = ground (arith, count-remove_open-file p q live)
count-remove_open-file p q ((false, x) ∷ live) = ground (arith, count-remove_open-file p q live)

pub count-remove_open-other :
    (p q : ℕ) (live : List Open)
    → p ≢ q
    → count_open (true, p) (remove_open (true, q) live) ≡ count_open (true, p) live
unfolding count_open remove_open
count-remove_open-other p q [] n = refl
count-remove_open-other p q ((true, x) ∷ live) n =
    ground (arith, count-remove_open-other p q live n)
count-remove_open-other p q ((false, x) ∷ live) n =
    ground (arith, count-remove_open-other p q live n)

module _ {F : Type 0} (fs : FuseFs F) (m : Malloc) where
  -- A handler that answers and leaves the directory handles alone.
  abbrev pub Keeps : SolLl F → Option (DoorRet × SolLl F) → Type 0
  Keeps ll none = ⊥
  Keeps ll (some r) = (r.1.handles ≡ ll.handles)

  -- Messages that are not about directories.
  abbrev pub IsFileArg : DoorArg → Type 0
  IsFileArg (fid_arg op_closedir _) = ⊥
  IsFileArg (path_arg op_opendir _ _ _ _) = ⊥
  IsFileArg (read_arg op_readdir _ _ _ _ _) = ⊥
  IsFileArg _ = Unit {0}

  pub handle-Keeps : (arg : DoorArg) (ll : SolLl F) → IsFileArg arg → Keeps ll (handle fs m arg ll)
  unfolding handle
  handle-Keeps (generic_arg op_init flags) ll h = unfold do_init in refl
  handle-Keeps (generic_arg op_destroy flags) ll h = unfold do_destroy in refl
  handle-Keeps (generic_arg op_statvfs flags) ll h = unfold do_statfs in refl
  handle-Keeps (fid_arg op_fgetattr fid) ll h = unfold do_fgetattr stat_reply in refl
  handle-Keeps (fid_arg op_closedir fid) ll h = absurd h
  handle-Keeps (fid_arg op_close fid) ll h = unfold do_close in refl
  handle-Keeps (fid_arg op_flush fid) ll h = unfold do_flush in refl
  handle-Keeps (path_arg op_getattr a b pathlen path) ll h = unfold do_getattr stat_reply in refl
  handle-Keeps (path_arg op_opendir a b pathlen path) ll h = absurd h
  handle-Keeps (path_arg op_open a b pathlen path) ll h = unfold do_open fid_reply in refl
  handle-Keeps (path_arg op_create a b pathlen path) ll h =
      unfold do_create create_reply create_mknod create_open in ground arith
  handle-Keeps (path_arg op_chmod a b pathlen path) ll h = unfold do_chmod reply_err in refl
  handle-Keeps (path_arg op_chown a b pathlen path) ll h = unfold do_chown reply_err in refl
  handle-Keeps (path_arg op_delete a b pathlen path) ll h = unfold do_delete reply_err in refl
  handle-Keeps (path_arg op_mkdir a b pathlen path) ll h = unfold do_mkdir reply_err in refl
  handle-Keeps (path_arg op_rmdir a b pathlen path) ll h = unfold do_rmdir reply_err in refl
  handle-Keeps (path2_arg op_rename l₁ l₂ path1 path2) ll h = unfold do_rename reply_err in refl
  handle-Keeps (read_arg op_readdir fid offset len pathlen path) ll h = absurd h
  handle-Keeps (read_arg op_read fid offset len pathlen path) ll h =
      unfold do_read read_reply in ground arith
  handle-Keeps (write_arg op_write fid offset len pathlen path content) ll h =
      unfold do_write write_reply in ground arith
  handle-Keeps (ftrunc_arg fid offset pathlen path) ll h =
      unfold do_ftruncate reply_err in ground arith
  handle-Keeps (utimes_arg a t a_ns t_ns pathlen path) ll h = unfold do_utimes reply_err in refl
  handle-Keeps arg ll h = refl

  pub note-Keeps :
      (arg : DoorArg) (r : ℕ × DoorRet) (live : List Open) (p : ℕ)
      → IsFileArg arg
      → count_open (true, p) (note arg r live) ≡ count_open (true, p) live
  unfolding note count_open
  note-Keeps (path_arg op_open a b pathlen path) r live p h = ground arith
  note-Keeps (path_arg op_opendir a b pathlen path) r live p h = absurd h
  note-Keeps (fid_arg op_close fid) r live p h = count-remove_open-file p fid live
  note-Keeps (fid_arg op_closedir fid) r live p h = absurd h
  note-Keeps arg r live p h = refl
