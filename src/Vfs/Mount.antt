-- ===== src/Vfs/Mount.antt =====
-- fusefs_mount, fusefs_root and fusefs_freevfs of
-- usr/src/uts/common/fs/fusefs/fusefs_vfsops.c for one vfs_t, with the holds and the memory that they account
-- for. hold_ssn and rele_ssn count the sessions of fusefs_ssn_create and fusefs_ssn_rele of fusefs_calls.c. A
-- zone is a number.
pub mod Times
pub mod Minor
pub mod Holds
pub mod Examples
use illumos_fuse.Door.Errno.{eperm, eio, efault, enotdir, einval}
use illumos_fuse.File.{Mount, vdir}
use illumos_fuse.Calls.{CallResult, ok, err}
use illumos_fuse.Vnode.Remove.{ebusy}
use illumos_fuse.Prelude.{
  ℕ, zero, suc, ◌+◌, ◌-◌, ◌*◌, ◌%◌, ◌^◌, Bool, true, false, not, ◌&&◌, ◌||◌, Option, none, some,
  ltb, ◌==◌, if◌then◌else◌, update, ℤ, pos, negsuc,
}

abbrev enotsup : ℕ
enotsup = 48

-- struct fusefs_args; an option of the attribute cache is there when its flag is set.
pub record FusefsArgs : Type 0 where
  pub version : ℕ
  pub noac : Bool
  pub uid : ℕ
  pub gid : ℕ
  pub file_mode : ℕ
  pub dir_mode : ℕ
  pub acregmin : Option ℤ
  pub acregmax : Option ℤ
  pub acdirmin : Option ℤ
  pub acdirmax : Option ℤ

-- fusemntinfo_t, what fusefs_mount sets of it
pub record Fmi : Type 0 where
  pub fmi_mount : Mount
  pub fmi_int : Bool
  pub fmi_uid : ℕ
  pub fmi_gid : ℕ
  pub fmi_fmode : ℕ
  pub fmi_dmode : ℕ
  pub fmi_zone : ℕ
  pub fmi_root : Bool
  pub dead : Bool

-- What the system answers and what the caller is.
pub record MountCall : Type 0 where
  pub secpolicy : ℕ
  pub mvp_type : ℕ
  pub mvp_count : ℕ
  pub mvp_root : Bool
  pub copyin : Option FusefsArgs
  pub remount : Bool
  pub overlay : Bool
  -- door_ki_lookup finds a door, and what fusefs_call_init returns through it
  pub is_door : Bool
  pub init_error : ℕ
  pub zone : ℕ
  pub in_global_zone : Bool
  pub path_zone : ℕ
  pub shutting_down : ℕ → Bool
  pub intr : Bool
  pub devismounted : ℕ → Bool

-- The holds on zones, the sessions and the mount records allocated, the mounts that prevent an unload, the
-- last minor number, the mounts in the list of the zones, and vfs_data.
pub record Kernel : Type 0 where
  pub zone_holds : ℕ → ℕ
  pub ssns : ℕ
  pub fmis : ℕ
  pub mountcount : ℕ
  pub minor : ℕ
  pub listed : ℕ
  pub vfs_data : Option Fmi

abbrev pub zone_hold : ℕ → Kernel → Kernel
zone_hold z w = record w { zone_holds = update w.zone_holds z (w.zone_holds z + 1) }

abbrev pub zone_rele : ℕ → Kernel → Kernel
zone_rele z w = record w { zone_holds = update w.zone_holds z (w.zone_holds z - 1) }

-- The session is allocated, and freed again when the daemon does not answer.
unfoldable pub rele_ssn : Kernel → Kernel
rele_ssn w = record w { ssns = w.ssns - 1 }

unfoldable pub hold_ssn : MountCall → Kernel → ℕ × Kernel
unfolding rele_ssn
hold_ssn env w =
    let made = record w { ssns = w.ssns + 1 } in
    if not env.is_door
    then (einval, w)
    else if env.init_error == 0
    then (0, made)
    else (env.init_error, rele_ssn made)

-- SEC2HR
abbrev pub sec2hr : ℕ → ℕ
sec2hr sec = sec * 1000000000

-- `sec < 0 || sec > most`
unfoldable pub limited : (most : ℕ) → ℤ → ℕ
limited most (pos sec) = if ltb most sec then most else sec
limited most (negsuc n) = most

unfoldable pub cache_time : (preset most : ℕ) → Option ℤ → ℕ
unfolding limited
cache_time preset most none = sec2hr preset
cache_time preset most (some sec) = sec2hr (limited most sec)

-- The option defaults and the FUSEFS_MF_xxx flags
unfoldable pub mount_options : FusefsArgs → Mount
unfolding cache_time
mount_options args = record {
  fmi_noac = args.noac;
  fmi_acregmin = cache_time 3 600 args.acregmin;
  fmi_acregmax = cache_time 60 3600 args.acregmax;
  fmi_acdirmin = cache_time 30 600 args.acdirmin;
  fmi_acdirmax = cache_time 60 3600 args.acdirmax;
}

abbrev pub minors : ℕ
minors = 2 ^ 18

-- "Assign a unique device id to the mount": the loop, on fuel; `& MAXMIN32` keeps the low 18 bits.
unfoldable pub next_minor : (devismounted : ℕ → Bool) → (fuel : ℕ) → (minor : ℕ) → Option ℕ
next_minor devismounted zero minor = none
next_minor devismounted (suc fuel) minor =
    let minor' = (minor + 1) % minors in
    let rest = next_minor devismounted fuel minor' in
    if devismounted minor' then rest else some minor'

-- From errout on, with no mount record: the hold on mntzone, if there is one, and the session
unfoldable pub errout : (mntzone : ℕ) → Kernel → Kernel
unfolding rele_ssn
errout mntzone w = rele_ssn (zone_rele mntzone (record w { vfs_data = none }))

unfoldable pub new_fmi : MountCall → FusefsArgs → (mntzone : ℕ) → Fmi
unfolding mount_options
new_fmi env args mntzone = record {
  fmi_mount = mount_options args;
  fmi_int = env.intr;
  fmi_uid = args.uid;
  fmi_gid = args.gid;
  fmi_fmode = args.file_mode % 512;
  fmi_dmode = args.dir_mode % 512;
  fmi_zone = mntzone;
  fmi_root = true;
  dead = false;
}

-- From "Prevent unload" on, when the loop has a minor number
unfoldable pub attached : MountCall → FusefsArgs → (mntzone m : ℕ) → Kernel → Kernel
unfolding new_fmi
attached env args mntzone m w = record w {
  fmis = w.fmis + 1;
  mountcount = (w.mountcount + 1) % 2 ^ 32;
  minor = m;
  listed = w.listed + 1;
  vfs_data = some (new_fmi env args mntzone);
}

unfoldable pub attach :
    MountCall → FusefsArgs → (mntzone : ℕ) → Kernel → Option ℕ → Option (ℕ × Kernel)
unfolding attached
attach env args mntzone w none = none
attach env args mntzone w (some m) = some (0, attached env args mntzone m w)

unfoldable pub check_zone : MountCall → FusefsArgs → (mntzone : ℕ) → Kernel → Option (ℕ × Kernel)
unfolding errout next_minor attach
check_zone env args mntzone w =
    if env.shutting_down mntzone
    then some (ebusy, errout mntzone w)
    else attach env args mntzone w (next_minor env.devismounted minors w.minor)

-- "Determine the zone we're being mounted into."
unfoldable pub mount_zone : MountCall → FusefsArgs → Kernel → Option (ℕ × Kernel)
unfolding check_zone errout
mount_zone env args w =
    let held = zone_hold env.zone w in
    let found = zone_hold env.path_zone (zone_rele env.zone held) in
    if env.in_global_zone
    then if env.path_zone == env.zone
      then check_zone env args env.path_zone found
      else some (ebusy, errout env.path_zone found)
    else check_zone env args env.zone held

unfoldable pub with_ssn : MountCall → FusefsArgs → ℕ × Kernel → Option (ℕ × Kernel)
unfolding mount_zone
with_ssn env args (zero, w) = mount_zone env args w
with_ssn env args (suc e, w) = some (suc e, w)

-- From the check of the version on
unfoldable pub mount_args : MountCall → Kernel → Option FusefsArgs → Option (ℕ × Kernel)
unfolding with_ssn hold_ssn
mount_args env w none = some (efault, w)
mount_args env w (some args) =
    if not (args.version == 1)
    then some (einval, w)
    else if env.remount
    then some (enotsup, w)
    else if not env.overlay && (not (env.mvp_count == 1) || env.mvp_root)
    then some (ebusy, w)
    else with_ssn env args (hold_ssn env w)

unfoldable pub fusefs_mount : MountCall → Kernel → Option (ℕ × Kernel)
unfolding mount_args
fusefs_mount env w =
    if not (env.secpolicy == 0)
    then some (env.secpolicy, w)
    else if not (env.mvp_type == vdir)
    then some (enotdir, w)
    else mount_args env w env.copyin

-- fusefs_free_fmi, for the record of a mount
unfoldable pub fusefs_free_fmi : Fmi → Kernel → Kernel
unfolding rele_ssn
fusefs_free_fmi fmi w =
    let w' = rele_ssn (zone_rele fmi.fmi_zone w) in record w' { fmis = w'.fmis - 1 }

unfoldable pub fusefs_freevfs : Fmi → Kernel → Kernel
unfolding fusefs_free_fmi
fusefs_freevfs fmi w =
    let w' = fusefs_free_fmi fmi (record w { listed = w.listed - 1 }) in
    record w' { mountcount = (w'.mountcount + (2 ^ 32 - 1)) % 2 ^ 32 }

-- fusefs_root: whether it holds the root vnode and returns it
unfoldable pub fusefs_root : (curzone : ℕ) → Fmi → (unmounted : Bool) → ℕ
fusefs_root curzone fmi unmounted =
    if not (curzone == fmi.fmi_zone)
    then eperm
    else if fmi.dead || unmounted
    then eio
    else if not fmi.fmi_root
    then eio
    else 0
