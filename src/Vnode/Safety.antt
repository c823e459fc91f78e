-- ===== src/Vnode/Safety.antt =====
-- The vnode operations return, with the locks that they were called with.
pub mod Names
pub mod Changes
pub mod Renames
pub mod Listing
pub mod Others
pub mod Opened
use illumos_fuse.Hash.{Bytes}
use illumos_fuse.Calls.Transfer.{Uio, Uiomove}
use illumos_fuse.File.Data.{IoFlag}
use illumos_fuse.File.Open.{OpenFlag}
use illumos_fuse.Vnode.Opened.{
  open_file, close_file, read_file, write_file, inactive_file, with_rwlock,
}
use illumos_fuse.Calls.{CallResult, ok, err}
use illumos_fuse.File.Attr.{Vattr}
use illumos_fuse.File.Setattr.{SetVattr}
use illumos_fuse.Vnode.{
  Lock, Held, World, Env, Op, ret, attempt, from_result, ◌>>=◌, ◌>>◌, enter_lock, exit_lock,
}
use illumos_fuse.Vnode.Access.{fusefs_access}
use illumos_fuse.Vnode.Lookup.{fusefs_lookup}
use illumos_fuse.Vnode.Create.{fusefs_create, fusefs_mkdir}
use illumos_fuse.Vnode.Remove.{fusefs_remove, fusefs_rmdir}
use illumos_fuse.Vnode.Rename.{fusefs_rename}
use illumos_fuse.Vnode.Readdir.{DirUio, DirLoop, Copyout, fusefs_readdir}
use illumos_fuse.Vnode.Other.{
  PathconfCmd, fusefs_getattr, fusefs_setattr, fusefs_fsync, fusefs_rwlock, fusefs_rwunlock,
  fusefs_seek, fusefs_frlock, fusefs_space, fusefs_pathconf,
}
use illumos_fuse.Vnode.Keeps.{Moved, Keeps}
use illumos_fuse.Vnode.Safety.Changes.{TimesTogether}
use illumos_fuse.Prelude.{ℕ, ◌≡◌, refl, Bool, true, false, Option, none, some, ℤ}

-- A call of a function of fusefs_vnodeops_template other than fusefs_rwlock and fusefs_rwunlock, with its arguments
-- and the answers that the system gives in it. `vop_readdir`, `vop_read` and `vop_write` are the calls with
-- VOP_RWLOCK and VOP_RWUNLOCK around them.
pub data VnodeOp : Type 0 where
  vop_open : (flag : OpenFlag) → (np : ℕ) → VnodeOp
  vop_close : (count np : ℕ) → VnodeOp
  vop_read : (uio : Uio) → (np : ℕ) → VnodeOp
  vop_write : (ioflag : IoFlag) → (llimit : ℕ) → (uio : Uio) → (np : ℕ) → VnodeOp
  vop_inactive : (np : ℕ) → VnodeOp
  vop_shrlock : (fs_shrlock : CallResult (Unit {0})) → VnodeOp
  vop_getattr : (attr_hint : Bool) → (va_mask np : ℕ) → VnodeOp
  vop_setattr :
      (noset : Bool)
      → (policy : SetVattr → Vattr → (ℕ → ℕ) → ℕ) → (a : SetVattr) → (np : ℕ) → VnodeOp
  vop_access : (mode np : ℕ) → VnodeOp
  vop_lookup : (xattr : Bool) → (dnp : ℕ) → (nm : Bytes) → VnodeOp
  vop_create :
      (va_type : ℕ) → (exclusive truncates : Bool) → (mode dnp : ℕ) → (nm : Bytes) → VnodeOp
  vop_remove : (dnp : ℕ) → (nm : Bytes) → VnodeOp
  vop_rename : (unset odnp : ℕ) → (onm : Bytes) → (ndnp : ℕ) → (nnm : Bytes) → VnodeOp
  vop_mkdir : (dnp : ℕ) → (nm : Bytes) → VnodeOp
  vop_rmdir : (cdir dnp : ℕ) → (nm : Bytes) → VnodeOp
  vop_readdir : (np : ℕ) → (uio : DirUio) → VnodeOp
  vop_fsync : (nodsync sync : Bool) → (np : ℕ) → VnodeOp
  vop_seek : (noff : ℤ) → (np : ℕ) → VnodeOp
  vop_frlock : (fs_frlock : CallResult (Unit {0})) → VnodeOp
  vop_space : (f_freesp : Bool) → (convoff l_start l_len np : ℕ) → VnodeOp
  vop_pathconf : (fs_pathconf : CallResult ℕ) → (cmd : PathconfCmd) → VnodeOp

-- The times of a request are set both or neither: with one alone fusefs_setattr reads through NULL.
abbrev pub Ready : VnodeOp → Type 0
Ready (vop_setattr noset policy a np) = TimesTogether a
Ready _ = Unit {0}

module _ {D : Type 0} where
  -- An operation without its result.
  abbrev pub done : {A : Type 0} → Op D A → Op D (Unit {0})
  done m = m >>= λ _. ret tt

  module _ (env : Env D) (uiomove : Copyout) (u : Uiomove) where
    -- "getdents, before/after VOP_READDIR"
    unfoldable pub getdents : ℕ → DirUio → Op D (ℕ × DirLoop)
    unfolding fusefs_rwlock fusefs_rwunlock fusefs_readdir
    getdents np uio = do
      write_lock ← fusefs_rwlock env false np
      r ← attempt (fusefs_readdir env uiomove np uio)
      fusefs_rwunlock env np
      from_result r

    unfoldable pub run_op : VnodeOp → Op D (Unit {0})
    unfolding getdents fusefs_access fusefs_getattr fusefs_setattr fusefs_lookup fusefs_create
        fusefs_remove fusefs_rename fusefs_mkdir fusefs_rmdir fusefs_fsync fusefs_seek fusefs_frlock
        fusefs_space fusefs_pathconf open_file close_file read_file write_file inactive_file
        with_rwlock
    run_op (vop_open flag np) = open_file env flag np
    run_op (vop_close count np) = close_file env count np
    run_op (vop_read uio np) = with_rwlock env false np (read_file env u uio np)
    run_op (vop_write ioflag llimit uio np) =
        with_rwlock env true np (write_file env u ioflag llimit uio np)
    run_op (vop_inactive np) = inactive_file env np
    run_op (vop_shrlock fs_shrlock) = fusefs_frlock env fs_shrlock
    run_op (vop_getattr attr_hint va_mask np) = done (fusefs_getattr env attr_hint va_mask np)
    run_op (vop_setattr noset policy a np) = fusefs_setattr env noset policy a np
    run_op (vop_access mode np) = fusefs_access env np mode
    run_op (vop_lookup xattr dnp nm) = done (fusefs_lookup env xattr dnp nm)
    run_op (vop_create va_type exclusive truncates mode dnp nm) =
        done (fusefs_create env va_type exclusive truncates mode dnp nm)
    run_op (vop_remove dnp nm) = fusefs_remove env dnp nm
    run_op (vop_rename unset odnp onm ndnp nnm) = fusefs_rename env unset odnp onm ndnp nnm
    run_op (vop_mkdir dnp nm) = done (fusefs_mkdir env dnp nm)
    run_op (vop_rmdir cdir dnp nm) = fusefs_rmdir env cdir dnp nm
    run_op (vop_readdir np uio) = done (getdents np uio)
    run_op (vop_fsync nodsync sync np) = fusefs_fsync env nodsync sync np
    run_op (vop_seek noff np) = fusefs_seek env noff np
    run_op (vop_frlock fs_frlock) = fusefs_frlock env fs_frlock
    run_op (vop_space f_freesp convoff l_start l_len np) =
        fusefs_space env f_freesp convoff l_start l_len np
    run_op (vop_pathconf fs_pathconf cmd) = done (fusefs_pathconf env fs_pathconf cmd)

module _ {D A : Type 0} {held : Held} where
  returned :
      (o : Option (CallResult A × World D))
      → Moved held held o
      → (r : CallResult A) × (w : World D) × (o ≡ some (r, w)) × (w.held ≡ held)
  returned none h = absurd h
  returned (some (ok a, w)) h = (ok a, w, refl, h)
  returned (some (err e, w)) h = (err e, w, refl, h)
