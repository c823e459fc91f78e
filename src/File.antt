-- ===== src/File.antt =====
-- The state of a file: the fields of fusenode_t in usr/src/uts/common/fs/fusefs/fusefs_node.h that
-- the attribute cache and the open files use, with those of its vnode and its mount.
pub mod Samples
pub mod Attr
pub mod Open
pub mod Data
pub mod Setattr
use illumos_fuse.Hash.{Bytes}
use illumos_fuse.Door.{FuseStat}
use illumos_fuse.Calls.{Ssn}
use illumos_fuse.Prelude.{ℕ, ◌-◌, ◌^◌, Bool, not, ◌&&◌, ltb, ◌==◌}

-- Values of enum vtype, and FUSE_FID_UNUSED.
abbrev pub vnon : ℕ
vnon = 0

abbrev pub vreg : ℕ
vreg = 1

abbrev pub vdir : ℕ
vdir = 2

abbrev pub fid_unused : ℕ
fid_unused = 2 ^ 64 - 1

-- The flags FREAD and FWRITE of n_rights.
pub record Rights : Type 0 where
  pub fread : Bool
  pub fwrite : Bool

pub record FuseNode : Type 0 where
  pub n_rpath : Bytes
  pub n_ino : ℕ
  pub n_fid : ℕ
  pub n_fidrefs : ℕ
  pub n_ovtype : ℕ
  pub n_rights : Rights
  pub n_ssgenid : ℕ
  pub nattrchanged : Bool
  pub r_attr : FuseStat
  pub r_attrtime : ℕ
  pub r_mtime : ℕ
  pub r_size : ℕ
  pub v_type : ℕ
  pub vnocache : Bool

-- fusefs_mntinfo, for what depends on the mount; times are in nanoseconds.
pub record Mount : Type 0 where
  pub fmi_noac : Bool
  pub fmi_acregmin : ℕ
  pub fmi_acregmax : ℕ
  pub fmi_acdirmin : ℕ
  pub fmi_acdirmax : ℕ

-- "Make sure fid is valid."
unfoldable pub fid_valid : FuseNode → Ssn → Bool
fid_valid np ssn =
    ltb 0 np.n_fidrefs && (not (np.n_fid == fid_unused) && (np.n_ssgenid == ssn.ss_genid))
