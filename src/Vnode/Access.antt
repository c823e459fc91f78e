-- ===== src/Vnode/Access.antt =====
-- fusefs_access_rwx and fusefs_access of usr/src/uts/common/fs/fusefs/fusefs_vnops.c.
pub mod Classes
use illumos_fuse.Door.Errno.{eio, eacces}
use illumos_fuse.File.{vreg, vdir}
use illumos_fuse.Vnode.{Env, Op, file, gets, fail_code, check_mount, ◌>>=◌, ◌>>◌}
use illumos_fuse.Prelude.{ℕ, ◌*◌, ◌/◌, ◌%◌, ◌^◌, Bool, not, ◌&&◌, ◌||◌, ◌==◌, if◌then◌else◌}

-- Bits of an access mode, further values of enum vtype, and EROFS.
abbrev pub vexec : ℕ
vexec = 64

abbrev pub vwrite : ℕ
vwrite = 128

abbrev pub vread : ℕ
vread = 256

abbrev pub vblk : ℕ
vblk = 3

abbrev pub vchr : ℕ
vchr = 4

abbrev pub vfifo : ℕ
vfifo = 8

abbrev pub erofs : ℕ
erofs = 30

abbrev pub wants : ℕ → ℕ → Bool
wants bit mode = mode / bit % 2 == 1

-- MANDMODE: the set-gid bit without the group's execute bit
unfoldable pub mandmode : ℕ → Bool
mandmode mode = mode / 1024 % 2 == 1 && mode / 8 % 2 == 0

module _ {D : Type 0} (env : Env D) where
  -- The fabricated va_mode.
  abbrev pub mount_mode : ℕ → ℕ
  mount_mode vtype = if vtype == vdir then env.fmi_dmode else env.fmi_fmode

  unfoldable pub read_only : ℕ → ℕ → Bool
  read_only vtype mode =
      wants vwrite mode
      && (env.vfs_rdonly && not ((vtype == vchr) || ((vtype == vblk) || (vtype == vfifo))))

  unfoldable pub mandatory_lock : ℕ → ℕ → Bool
  unfolding mandmode
  mandatory_lock vtype mode =
      (wants vwrite mode || (wants vread mode || wants vexec mode))
      && (vtype == vreg && mandmode (mount_mode vtype))

  -- "Access check is based on only one of owner, group, public."
  unfoldable pub class_shift : ℕ
  class_shift =
      if env.crgetuid == env.fmi_uid then 0 else if env.groupmember env.fmi_gid then 3 else 6

  unfoldable pub fusefs_access_rwx : (vtype mode : ℕ) → ℕ
  unfolding read_only mandatory_lock class_shift
  fusefs_access_rwx vtype mode =
      if read_only vtype mode
      then erofs
      else if mandatory_lock vtype mode
      then eacces
      else env.secpolicy_vnode_access2 (vtype == vdir) env.fmi_uid
          (mount_mode vtype * 2 ^ class_shift % 2 ^ 32) mode

  unfoldable pub fusefs_access : ℕ → (mode : ℕ) → Op D (Unit {0})
  unfolding fusefs_access_rwx check_mount
  fusefs_access np mode = do
    check_mount env eio
    vtype ← gets (λ w. (file w np).v_type)
    fail_code (fusefs_access_rwx vtype mode)
