-- ===== src/Vnode/Other.antt =====
-- The remaining vnode operations of usr/src/uts/common/fs/fusefs/fusefs_vnops.c: fusefs_getattr, fusefs_setattr,
-- fusefs_fsync, fusefs_rwlock, fusefs_rwunlock, fusefs_seek, fusefs_frlock, fusefs_space, fusefs_pathconf and
-- fusefs_shrlock. What the system's fs_frlock, fs_shrlock, fs_pathconf, convoff and secpolicy_vnode_setattr
-- answer is an argument.
use illumos_fuse.Door.Errno.{eperm, eio, einval, enosys}
use illumos_fuse.Calls.{CallResult, ok, fusefs_call_flush}
use illumos_fuse.File.{vdir}
use illumos_fuse.File.Attr.{Vattr}
use illumos_fuse.File.Setattr.{SetVattr}
use illumos_fuse.RwLock.{Krw, reader, writer}
use illumos_fuse.Vnode.{
  rwlock, lkserlock, Env, Op, file, ret, raise, gets, call, from_result, fail_if, fail_code,
  enter_lock, exit_lock, with_lock, check_mount, ◌>>=◌, ◌>>◌,
}
use illumos_fuse.Vnode.Access.{erofs, fusefs_access_rwx}
use illumos_fuse.Vnode.Steps.{v_type_of, getattr}
use illumos_fuse.Vnode.Create.{truncation, setattr}
use illumos_fuse.Prelude.{
  ℕ, bit_and, Bool, true, false, not, ◌&&◌, ◌||◌, some, ltb, ◌==◌, if◌then◌else◌, ℤ, pos, ltb_ℤ,
}

-- AT_SIZE|AT_FSID|AT_RDEV
abbrev pub hint_mask : ℕ
hint_mask = 0x0890

-- What fusefs_getattr fills in: all the attributes, or for a hint the size (and the numbers of the file system
-- and the device).
pub data Filled : Type 0 where
  filled_all : Vattr → Filled
  filled_hint : (va_size : ℕ) → Filled

pub data PathconfCmd : Type 0 where
  pc_filesizebits pc_link_max pc_symlink_max pc_timestamp_resolution pc_other : PathconfCmd

module _ {D : Type 0} (env : Env D) where
  unfoldable pub fusefs_getattr : (attr_hint : Bool) → (va_mask : ℕ) → ℕ → Op D Filled
  unfolding check_mount getattr
  fusefs_getattr attr_hint va_mask np = do
    check_mount env eio
    if attr_hint && bit_and va_mask hint_mask == va_mask
        then gets (λ w. filled_hint (file w np).r_size)
        else (getattr env np >>= λ va. ret (filled_all va))

  -- `noset`: va_mask has a bit of AT_NOSET. The policy is asked with the mount's owner in place of the file's, and
  -- with fusefs_accessx, which is fusefs_access_rwx for the type of the vnode.
  unfoldable pub fusefs_setattr :
      (noset : Bool)
      → (secpolicy_vnode_setattr : SetVattr → Vattr → (ℕ → ℕ) → ℕ) → SetVattr
      → ℕ
      → Op D (Unit {0})
  unfolding check_mount getattr setattr fusefs_access_rwx
  fusefs_setattr noset secpolicy_vnode_setattr a np = do
    check_mount env eio
    fail_if noset einval
    fail_if env.vfs_rdonly erofs
    va ← getattr env np
    let oldva : Vattr = record va { va_uid = env.fmi_uid; va_gid = env.fmi_gid }
    vtype ← v_type_of np
    fail_code (secpolicy_vnode_setattr a oldva (fusefs_access_rwx env vtype))
    setattr env a np

  unfoldable pub flush_open : ℕ → Op D (Unit {0})
  flush_open np = do
    np_file ← gets (λ w. file w np)
    if ltb 0 np_file.n_fidrefs then call (fusefs_call_flush env.door np_file.n_fid) else ret tt

  -- `nodsync`: FNODSYNC is set, or the vnode is a swap file; `sync`: FSYNC or FDSYNC is set.
  unfoldable pub fusefs_fsync : (nodsync sync : Bool) → ℕ → Op D (Unit {0})
  unfolding flush_open check_mount with_lock
  fusefs_fsync nodsync sync np = do
    check_mount env eio
    if nodsync || not sync then ret tt else with_lock env (lkserlock np) reader (flush_open np)

  abbrev pub rwlock_kind : Bool → Krw
  rwlock_kind true = writer
  rwlock_kind false = reader

  -- No signal ends the wait. The answer is V_WRITELOCK_TRUE or V_WRITELOCK_FALSE.
  unfoldable pub fusefs_rwlock : (write_lock : Bool) → ℕ → Op D Bool
  unfolding enter_lock
  fusefs_rwlock write_lock np = enter_lock (rwlock np) (rwlock_kind write_lock) >> ret write_lock

  unfoldable pub fusefs_rwunlock : ℕ → Op D (Unit {0})
  unfolding exit_lock
  fusefs_rwunlock np = exit_lock (rwlock np)

  unfoldable pub fusefs_seek : (noff : ℤ) → ℕ → Op D (Unit {0})
  unfolding check_mount
  fusefs_seek noff np = do
    check_mount env eperm
    vtype ← v_type_of np
    fail_if (not (vtype == vdir) && ltb_ℤ noff (pos 0)) einval

  -- fusefs_shrlock too
  unfoldable pub fusefs_frlock : {A : Type 0} → (fs_frlock : CallResult A) → Op D A
  fusefs_frlock fs_frlock = do
    fail_if env.wrong_zone eio
    fail_if (not env.fmi_llock) enosys
    from_result fs_frlock

  unfoldable pub truncate_to : (l_start : ℕ) → ℕ → Op D (Unit {0})
  unfolding getattr setattr
  truncate_to l_start np = do
    va ← getattr env np
    if va.va_size == l_start
        then ret tt
        else setattr env (record truncation { va_size = some l_start }) np

  unfoldable pub fusefs_space :
      (f_freesp : Bool) → (convoff l_start l_len : ℕ) → ℕ → Op D (Unit {0})
  unfolding check_mount truncate_to
  fusefs_space f_freesp convoff l_start l_len np = do
    check_mount env eio
    fail_if (not f_freesp) einval
    fail_code convoff
    if l_len == 0 then truncate_to l_start np else raise einval

  unfoldable pub pathconf_value : (fs_pathconf : CallResult ℕ) → PathconfCmd → CallResult ℕ
  pathconf_value fs_pathconf pc_filesizebits = ok (if env.fmi_largef then 64 else 32)
  pathconf_value fs_pathconf pc_link_max = ok 1
  pathconf_value fs_pathconf pc_symlink_max = ok 0
  pathconf_value fs_pathconf pc_timestamp_resolution = ok 1000
  pathconf_value fs_pathconf pc_other = fs_pathconf

  unfoldable pub fusefs_pathconf : (fs_pathconf : CallResult ℕ) → PathconfCmd → Op D ℕ
  unfolding check_mount pathconf_value
  fusefs_pathconf fs_pathconf cmd = do
    check_mount env eio
    from_result (pathconf_value fs_pathconf cmd)
