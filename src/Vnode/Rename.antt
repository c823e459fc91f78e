-- ===== src/Vnode/Rename.antt =====
-- fusefs_rename and fusefsrename of usr/src/uts/common/fs/fusefs/fusefs_vnops.c, within one mount.
pub mod Target
use illumos_fuse.Hash.{Bytes}
use illumos_fuse.Door.Errno.{eperm, eintr, enoent, enotdir, eisdir, einval}
use illumos_fuse.Calls.{CallResult, ok, err}
use illumos_fuse.Calls.Files.{fusefs_call_delete, fusefs_call_rename}
use illumos_fuse.File.{vdir}
use illumos_fuse.RwLock.{writer}
use illumos_fuse.Vnode.{
  Lock, rwlock, World, Env, Op, ret, raise, gets, attempt, call, from_result, fail_if, enter_sig,
  exit_lock, check_mount, ◌>>=◌, ◌>>◌,
}
use illumos_fuse.Vnode.Access.{vwrite, fusefs_access}
use illumos_fuse.Vnode.Steps.{v_type_of, n_rpath_of, attrcache_remove, prune, with_rele}
use illumos_fuse.Vnode.Lookup.{is_dot, is_dotdot, fusefslookup}
use illumos_fuse.Vnode.Remove.{ebusy, vwrite_vexec, is_open, vfs_locked}
use illumos_fuse.Vnode.Create.{eexist}
use illumos_fuse.Prelude.{ℕ, Bool, true, false, not, ◌||◌, ltb, ◌==◌, if◌then◌else◌}

module _ {D : Type 0} (env : Env D) where
  -- `if (error == 0) fusefs_attrcache_prune(onp)`
  unfoldable pub after_rename : ℕ → CallResult (Unit {0}) → Op D (Unit {0})
  unfolding prune
  after_rename onp (ok _) = prune env onp
  after_rename onp (err e) = ret tt

  unfoldable pub rename_wire : (onp nnp : ℕ) → Bytes → Op D (Unit {0})
  unfolding attrcache_remove after_rename
  rename_wire onp nnp nnm = do
    attrcache_remove env onp
    opath ← n_rpath_of onp
    npath ← n_rpath_of nnp
    error ← attempt (call (fusefs_call_rename env.door opath npath nnm))
    after_rename onp error
    from_result error

  unfoldable pub after_target : ℕ → CallResult (Unit {0}) → Op D (Unit {0})
  unfolding prune
  after_target nnp (ok _) = prune env nnp
  after_target nnp (err e) = if (e == enoent) || (e == enotdir) then prune env nnp else ret tt

  unfoldable pub delete_target : ℕ → Op D (Unit {0})
  unfolding attrcache_remove after_target is_open
  delete_target nnp = do
    mounted ← gets (env.vn_mountedvfs nnp)
    fail_if mounted ebusy
    vtype ← v_type_of nnp
    fail_if (vtype == vdir) eexist
    busy ← gets (is_open env 2 nnp)
    fail_if busy ebusy
    attrcache_remove env nnp
    rpath ← n_rpath_of nnp
    error ← attempt (call (fusefs_call_delete env.door rpath))
    after_target nnp error
    from_result error

  -- "Check that it has the same type as the source."
  unfoldable pub same_types : (otype ntype : ℕ) → Op D (Unit {0})
  same_types otype ntype =
      if otype == vdir
      then fail_if (not (ntype == vdir)) enotdir
      else fail_if (ntype == vdir) eisdir

  -- "Target (nvp) already exists." The answer: both are the same file, and nothing is to be done.
  unfoldable pub clear_target : (ovp nvp : ℕ) → Op D Bool
  unfolding same_types vfs_locked delete_target
  clear_target ovp nvp = do
    otype ← v_type_of ovp
    ntype ← v_type_of nvp
    same_types otype ntype
    if ovp == nvp then ret true else (vfs_locked env nvp (delete_target nvp) >> ret false)

  -- `nnp` is set where the target exists; otherwise it has what stood there, `unset`.
  unfoldable pub rename_target : (unset ovp : ℕ) → Bytes → CallResult ℕ → Op D (Unit {0})
  unfolding rename_wire clear_target with_rele
  rename_target unset ovp nnm (err e) = rename_wire ovp unset nnm
  rename_target unset ovp nnm (ok nvp) = do
    same ← with_rele env nvp (clear_target ovp nvp)
    if same then ret tt else rename_wire ovp nvp nnm

  unfoldable pub rename_found : (unset ndnp ovp : ℕ) → Bytes → Op D (Unit {0})
  unfolding rename_target fusefslookup
  rename_found unset ndnp ovp nnm = do
    target ← attempt (fusefslookup env false ndnp nnm)
    rename_target unset ovp nnm target

  unfoldable pub rename_locked :
      (unset : ℕ) → (odnp : ℕ) → Bytes → (ndnp : ℕ) → Bytes → Op D (Unit {0})
  unfolding rename_found fusefs_access fusefslookup with_rele
  rename_locked unset odnp onm ndnp nnm = do
    fusefs_access env odnp vwrite_vexec
    if odnp == ndnp then ret tt else fusefs_access env ndnp vwrite
    ovp ← fusefslookup env false odnp onm
    with_rele env ovp (rename_found unset ndnp ovp nnm)

  unfoldable pub or_exit : Lock → CallResult (Unit {0}) → Op D (Unit {0})
  unfolding exit_lock
  or_exit first (ok _) = ret tt
  or_exit first (err e) = exit_lock first >> raise eintr

  -- Both locks, the second only with the first.
  unfoldable pub enter_two : (first second : Lock) → Op D (Unit {0})
  unfolding or_exit enter_sig
  enter_two first second = do
    enter_sig env first writer
    entered ← attempt (enter_sig env second writer)
    or_exit first entered

  -- "always taking the locks in order of address"
  unfoldable pub enter_both : (odnp ndnp : ℕ) → Op D (Unit {0})
  unfolding enter_two
  enter_both odnp ndnp =
      if ltb odnp ndnp
      then enter_two (rwlock odnp) (rwlock ndnp)
      else enter_two (rwlock ndnp) (rwlock odnp)

  unfoldable pub fusefsrename :
      (unset : ℕ) → (odnp : ℕ) → Bytes → (ndnp : ℕ) → Bytes → Op D (Unit {0})
  unfolding enter_both rename_locked exit_lock is_dot is_dotdot
  fusefsrename unset odnp onm ndnp nnm = do
    fail_if (is_dot onm || (is_dotdot onm || (is_dot nnm || is_dotdot nnm))) einval
    enter_both odnp ndnp
    r ← attempt (rename_locked unset odnp onm ndnp nnm)
    exit_lock (rwlock odnp)
    exit_lock (rwlock ndnp)
    from_result r

  unfoldable pub fusefs_rename :
      (unset : ℕ) → (odnp : ℕ) → Bytes → (ndnp : ℕ) → Bytes → Op D (Unit {0})
  unfolding fusefsrename check_mount
  fusefs_rename unset odnp onm ndnp nnm = do
    check_mount env eperm
    fusefsrename unset odnp onm ndnp nnm
