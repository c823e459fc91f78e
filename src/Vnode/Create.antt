-- ===== src/Vnode/Create.antt =====
-- fusefs_create and fusefs_mkdir of usr/src/uts/common/fs/fusefs/fusefs_vnops.c.
pub mod Search
use illumos_fuse.Hash.{Bytes}
use illumos_fuse.Door.Errno.{eperm, eintr, einval, eisdir}
use illumos_fuse.Calls.{CallResult, ok, err, fusefs_call_close}
use illumos_fuse.Calls.Files.{fusefs_call_getattr2, fusefs_call_create, fusefs_call_mkdir}
use illumos_fuse.File.{vreg}
use illumos_fuse.File.Setattr.{SetVattr, SetState, fusefssetattr}
use illumos_fuse.RwLock.{writer}
use illumos_fuse.Vnode.{
  Lock, rwlock, lkserlock, World, Env, Op, file, ret, raise, gets, attempt, call, from_result,
  fail_if, fail_code, with_lock, check_mount, ◌>>=◌, ◌>>◌,
}
use illumos_fuse.Vnode.Access.{vwrite, fusefs_access_rwx, fusefs_access}
use illumos_fuse.Vnode.Steps.{set_file, held_vnode, n_rpath_of, touchdir, vn_rele, nget}
use illumos_fuse.Vnode.Lookup.{is_dot, is_dotdot, fusefslookup}
use illumos_fuse.Prelude.{
  ℕ, Bool, false, not, ◌||◌, Option, none, some, ◌==◌, if◌then◌else◌, length,
}

abbrev pub eexist : ℕ
eexist = 17

-- `vattr.va_mask = AT_SIZE`, for a size of 0
abbrev pub truncation : SetVattr
truncation = record {
  va_size = some 0;
  va_atime = none;
  va_mtime = none;
  va_mode = none;
  va_uid = none;
  va_gid = none;
}

module _ {D : Type 0} (env : Env D) where
  unfoldable pub set_done :
      ℕ → World D → Option (SetState D) → Option (CallResult (Unit {0}) × World D)
  unfolding set_file
  set_done np w none = none
  set_done np w (some st) = some (
    if st.error == 0 then ok tt else err st.error,
    record (set_file w np st.node) { daemon = st.daemon },
  )

  unfoldable pub setattr : SetVattr → ℕ → Op D (Unit {0})
  unfolding set_done
  setattr a np w = set_done np w (
      fusefssetattr env.door env.ssn (env.interrupted (lkserlock np) w) (env.gethrtime w) a
        (file w np) w.daemon)

  unfoldable pub or_rele : ℕ → CallResult (Unit {0}) → Op D (Unit {0})
  unfolding vn_rele
  or_rele vp (ok _) = ret tt
  or_rele vp (err e) = vn_rele env vp >> raise e

  -- "The file already exists." `truncates`: a size is given, and is 0.
  unfoldable pub create_existing : (exclusive truncates : Bool) → (mode : ℕ) → ℕ → Op D ℕ
  unfolding or_rele fusefs_access setattr vn_rele
  create_existing exclusive truncates mode vp =
      if exclusive then vn_rele env vp >> raise eexist else do
        access ← attempt (fusefs_access env vp mode)
        or_rele vp access
        sized ← attempt (if truncates then setattr truncation vp else ret tt)
        or_rele vp sized
        ret vp

  -- The attributes and the node of what was made.
  unfoldable pub made_node : ℕ → Bytes → Op D ℕ
  unfolding touchdir nget
  made_node dnp nm = do
    touchdir env dnp
    rpath ← n_rpath_of dnp
    fa ← call (fusefs_call_getattr2 env.door rpath nm)
    nget env dnp nm fa

  -- "The file did not exist." The error of the close is only logged.
  unfoldable pub create_new : (mode : ℕ) → ℕ → Bytes → Op D ℕ
  unfolding made_node fusefs_access fusefs_access_rwx
  create_new mode dnp nm = do
    fusefs_access env dnp vwrite
    fail_code (fusefs_access_rwx env vreg mode)
    rpath ← n_rpath_of dnp
    fid ← call (fusefs_call_create env.door rpath nm mode)
    cerror ← attempt (call (fusefs_call_close env.door fid))
    made_node dnp nm

  unfoldable pub create_found :
      (exclusive truncates : Bool) → (mode : ℕ) → ℕ → Bytes → CallResult ℕ → Op D ℕ
  unfolding create_existing create_new
  create_found exclusive truncates mode dnp nm (ok vp) = create_existing exclusive truncates mode vp
  create_found exclusive truncates mode dnp nm (err e) = create_new mode dnp nm

  unfoldable pub create_locked : (exclusive truncates : Bool) → (mode : ℕ) → ℕ → Bytes → Op D ℕ
  unfolding create_found fusefslookup
  create_locked exclusive truncates mode dnp nm = do
    found ← attempt (fusefslookup env false dnp nm)
    create_found exclusive truncates mode dnp nm found

  unfoldable pub create_named : (exclusive truncates : Bool) → (mode : ℕ) → ℕ → Bytes → Op D ℕ
  unfolding create_locked with_lock is_dot is_dotdot
  create_named exclusive truncates mode dnp nm = do
    fail_if (is_dot nm || is_dotdot nm) eisdir
    with_lock env (rwlock dnp) writer (create_locked exclusive truncates mode dnp nm)

  unfoldable pub fusefs_create :
      (va_type : ℕ) → (exclusive truncates : Bool) → (mode : ℕ) → ℕ → Bytes → Op D ℕ
  unfolding create_named check_mount held_vnode
  fusefs_create va_type exclusive truncates mode dnp nm = do
    check_mount env eperm
    fail_if (not (va_type == vreg)) einval
    if length nm == 0 then held_vnode dnp else create_named exclusive truncates mode dnp nm

  unfoldable pub mkdir_locked : ℕ → Bytes → Op D ℕ
  unfolding made_node fusefs_access
  mkdir_locked dnp nm = do
    fusefs_access env dnp vwrite
    rpath ← n_rpath_of dnp
    call (fusefs_call_mkdir env.door rpath nm)
    made_node dnp nm

  unfoldable pub fusefs_mkdir : ℕ → Bytes → Op D ℕ
  unfolding mkdir_locked check_mount with_lock is_dot is_dotdot
  fusefs_mkdir dnp nm = do
    check_mount env eperm
    fail_if (is_dot nm || is_dotdot nm) eexist
    with_lock env (rwlock dnp) writer (mkdir_locked dnp nm)
