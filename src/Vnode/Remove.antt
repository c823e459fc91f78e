-- ===== src/Vnode/Remove.antt =====
-- fusefs_remove and fusefs_rmdir of usr/src/uts/common/fs/fusefs/fusefs_vnops.c.
pub mod Removed
use illumos_fuse.Hash.{Bytes}
use illumos_fuse.Door.Errno.{eperm, enoent, enotdir, einval}
use illumos_fuse.Calls.{CallResult, ok, err}
use illumos_fuse.Calls.Files.{fusefs_call_delete, fusefs_call_rmdir}
use illumos_fuse.File.{vdir}
use illumos_fuse.RwLock.{reader, writer}
use illumos_fuse.Vnode.{
  Lock, rwlock, vfslock, World, Env, Op, file, ret, raise, gets, attempt, call, from_result,
  fail_if, in_lock, with_lock, check_mount, ◌>>=◌, ◌>>◌,
}
use illumos_fuse.Vnode.Access.{fusefs_access}
use illumos_fuse.Vnode.Steps.{
  v_type_of, n_rpath_of, attrcache_remove, touchdir, prune, is_shared, rmhash, vn_rele, with_rele,
}
use illumos_fuse.Vnode.Lookup.{is_root, fusefslookup}
use illumos_fuse.Prelude.{ℕ, Bool, false, not, ◌&&◌, ◌||◌, ltb, ◌==◌, if◌then◌else◌}

-- VWRITE|VEXEC, and EBUSY
abbrev pub vwrite_vexec : ℕ
vwrite_vexec = 192

abbrev pub ebusy : ℕ
ebusy = 16

module _ {D : Type 0} (env : Env D) where
  -- "Do we have the file open?"
  unfoldable pub is_open : (count : ℕ) → ℕ → World D → Bool
  unfolding is_shared
  is_open count np w = is_shared env count np w && ltb 0 (file w np).n_fidrefs

  -- The `switch (error)` after the call.
  unfoldable pub after_delete : (dnp np : ℕ) → CallResult (Unit {0}) → Op D (Unit {0})
  unfolding touchdir prune rmhash
  after_delete dnp np (ok _) = touchdir env dnp >> (prune env np >> rmhash env np)
  after_delete dnp np (err e) = if e == enoent then (prune env np >> rmhash env np) else ret tt

  unfoldable pub delete_file : (dnp np : ℕ) → Op D (Unit {0})
  unfolding attrcache_remove after_delete
  delete_file dnp np = do
    attrcache_remove env np
    rpath ← n_rpath_of np
    error ← attempt (call (fusefs_call_delete env.door rpath))
    after_delete dnp np error
    from_result error

  unfoldable pub remove_found : (dnp np : ℕ) → Op D (Unit {0})
  unfolding delete_file is_open
  remove_found dnp np = do
    vtype ← v_type_of np
    fail_if (vtype == vdir) eperm
    busy ← gets (is_open 1 np)
    if busy then raise ebusy else delete_file dnp np

  unfoldable pub remove_locked : ℕ → Bytes → Op D (Unit {0})
  unfolding remove_found fusefs_access fusefslookup with_rele
  remove_locked dnp nm = do
    fusefs_access env dnp vwrite_vexec
    np ← fusefslookup env false dnp nm
    with_rele env np (remove_found dnp np)

  unfoldable pub fusefs_remove : ℕ → Bytes → Op D (Unit {0})
  unfolding remove_locked check_mount with_lock
  fusefs_remove dnp nm = do
    check_mount env eperm
    with_lock env (rwlock dnp) writer (remove_locked dnp nm)

  unfoldable pub after_rmdir : (dnp np : ℕ) → CallResult (Unit {0}) → Op D (Unit {0})
  unfolding touchdir prune rmhash
  after_rmdir dnp np (ok _) = touchdir env dnp >> (prune env np >> rmhash env np)
  after_rmdir dnp np (err e) =
      if (e == enoent) || (e == enotdir) then (prune env np >> rmhash env np) else ret tt

  unfoldable pub rmdir_unmounted : (dnp np : ℕ) → Op D (Unit {0})
  unfolding attrcache_remove after_rmdir
  rmdir_unmounted dnp np = do
    mounted ← gets (env.vn_mountedvfs np)
    fail_if mounted ebusy
    attrcache_remove env np
    rpath ← n_rpath_of np
    error ← attempt (call (fusefs_call_rmdir env.door rpath))
    after_rmdir dnp np error
    from_result error

  -- vn_vfsrlock, and the body with the lock.
  unfoldable pub vfs_locked : ℕ → Op D (Unit {0}) → Op D (Unit {0})
  unfolding in_lock
  vfs_locked np body = do
    fails ← gets (env.vn_vfsrlock np)
    fail_if fails ebusy
    in_lock (vfslock np) reader body

  -- `cdir`: the current directory of the caller
  unfoldable pub rmdir_found : (cdir dnp np : ℕ) → Op D (Unit {0})
  unfolding rmdir_unmounted vfs_locked
  rmdir_found cdir dnp np = do
    fail_if ((np == dnp) || ((np == cdir) || is_root env np)) einval
    vtype ← v_type_of np
    fail_if (not (vtype == vdir)) enotdir
    vfs_locked np (rmdir_unmounted dnp np)

  unfoldable pub rmdir_locked : (cdir : ℕ) → ℕ → Bytes → Op D (Unit {0})
  unfolding rmdir_found fusefs_access fusefslookup with_rele
  rmdir_locked cdir dnp nm = do
    fusefs_access env dnp vwrite_vexec
    np ← fusefslookup env false dnp nm
    with_rele env np (rmdir_found cdir dnp np)

  unfoldable pub fusefs_rmdir : (cdir : ℕ) → ℕ → Bytes → Op D (Unit {0})
  unfolding rmdir_locked check_mount with_lock
  fusefs_rmdir cdir dnp nm = do
    check_mount env eperm
    with_lock env (rwlock dnp) writer (rmdir_locked cdir dnp nm)
