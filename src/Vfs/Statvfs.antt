-- ===== src/Vfs/Statvfs.antt =====
-- fusefs_statvfs of usr/src/uts/common/fs/fusefs/fusefs_vfsops.c. It holds fmi_lock except while it waits in
-- cv_wait_sig, and except from the up-call to the end of the two stores that keep its answer; so it is cut
-- there: the part up to a wait or to the up-call, the store of the time, the store of the answer, and
-- the end.
pub mod Threads
pub mod Invariant
pub mod Safety
pub mod Stale
pub mod Examples
use illumos_fuse.Door.{FuseStatvfs}
use illumos_fuse.Calls.{CallResult, ok, err}
use illumos_fuse.Hash.{Bytes}
use illumos_fuse.Door.Errno.{eperm, eio, eintr}
use illumos_fuse.Vnode.Lookup.{fuse_maxfnamelen}
use illumos_fuse.Prelude.{
  ℕ, ◌+◌, ◌*◌, Bool, true, false, not, ◌||◌, [], ◌∷◌, ltb, ◌==◌, if◌then◌else◌,
}

-- statvfs64_t: what the daemon answers, and what it does not
pub record Statvfs64 : Type 0 where
  pub answered : FuseStatvfs
  pub f_fsid : ℕ
  pub f_basetype : Bytes

-- What statvfs reads and writes of fusemntinfo_t; busy and want are SM_STATUS_STATFS_BUSY and _WANT of fmi_status.
pub record Mnt : Type 0 where
  pub fmi_statfstime : ℕ
  pub busy : Bool
  pub want : Bool
  pub fmi_statvfsbuf : Statvfs64

-- What it reads of the mount and the vfs_t, and the caller's zone: vfs_stf is vf_to_stf of its flags.
pub record Vfs : Type 0 where
  pub same_zone : Bool
  pub dead : Bool
  pub unmounted : Bool
  pub vfs_fsid : ℕ
  pub vfs_stf : ℕ

-- SM_MAX_STATFSTIME * NANOSEC
abbrev pub statfs_lifetime : ℕ
statfs_lifetime = 2 * 1000000000

abbrev pub fs_type_name : Bytes
fs_type_name = 102 ∷ 117 ∷ 115 ∷ 101 ∷ 102 ∷ 115 ∷ []

-- "Set a few things the OTW call didn't get."
unfoldable pub with_rest : Vfs → FuseStatvfs → Statvfs64
with_rest vfs st = record {
  answered = record st { f_flag = vfs.vfs_stf; f_namemax = fuse_maxfnamelen };
  f_fsid = vfs.vfs_fsid;
  f_basetype = fs_type_name;
}

-- Where a call stands when it gives up fmi_lock: in the wait, at the up-call, or at its end with
-- the error number or what was copied to the caller.
pub data Turn : Type 0 where
  must_wait : Turn
  must_call : Turn
  answer : CallResult Statvfs64 → Turn

-- From `recheck` on, at the time `now`
unfoldable pub recheck : (now : ℕ) → Mnt → Turn × Mnt
recheck now m =
    if ltb now m.fmi_statfstime
    then (answer (ok m.fmi_statvfsbuf), m)
    else if m.busy
    then (must_wait, record m { want = true })
    else (must_call, record m { busy = true })

unfoldable pub statvfs_start : Vfs → (now : ℕ) → Mnt → Turn × Mnt
unfolding recheck
statvfs_start vfs now m =
    if not vfs.same_zone
    then (answer (err eperm), m)
    else if vfs.dead || vfs.unmounted
    then (answer (err eio), m)
    else recheck now m

-- After a wait: a signal ends the call.
unfoldable pub statvfs_woken : (signal : Bool) → (now : ℕ) → Mnt → Turn × Mnt
unfolding recheck
statvfs_woken true now m = (answer (err eintr), m)
statvfs_woken false now m = recheck now m

-- The first store, of the answer's lifetime
unfoldable pub store_time : (now : ℕ) → Mnt → Mnt
store_time now m = record m { fmi_statfstime = now + statfs_lifetime }

-- The second store, of the answer
unfoldable pub store_answer : Statvfs64 → Mnt → Mnt
store_answer stvfs m = record m { fmi_statvfsbuf = stvfs }

-- From the second mutex_enter on: the result, whether cv_broadcast is called, and the mount.
unfoldable pub statvfs_end : (error : ℕ) → Mnt → CallResult Statvfs64 × Bool × Mnt
statvfs_end error m = (
  if error == 0 then ok m.fmi_statvfsbuf else err error,
  m.want,
  record m { busy = false; want = false },
)
