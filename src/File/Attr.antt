-- ===== src/File/Attr.antt =====
-- The attribute cache of usr/src/uts/common/fs/fusefs/fusefs_client.c. `now` is what gethrtime gives;
-- IFTOVT of the system's vnode.h is a parameter. Data caches are not built, so that their purge does
-- nothing.
pub mod Window
pub mod Wire
pub mod Staleness
pub mod Examples
use illumos_fuse.Door.{FuseStat, Door}
use illumos_fuse.Door.Errno.{eintr, enoent, enotdir, enosys}
use illumos_fuse.Calls.{CallResult, ok, err, Ssn, fusefs_call_fgetattr}
use illumos_fuse.Calls.Files.{Timespec, fusefs_call_getattr}
use illumos_fuse.File.{vdir, FuseNode, Mount, fid_valid}
use illumos_fuse.Prelude.{
  ℕ, ◌+◌, ◌-◌, ◌*◌, ◌/◌, ◌%◌, Bool, true, false, not, ◌&&◌, ◌||◌, ltb, leb, ◌==◌, if◌then◌else◌,
}

-- The test of fusefs_cache_check and of fusefs_attrcache_fa for a change of the file.
unfoldable pub attr_changed : FuseNode → FuseStat → Bool
attr_changed np fap = not (
    (np.r_attr.st_mtime_sec == fap.st_mtime_sec)
    && ((np.r_attr.st_mtime_ns == fap.st_mtime_ns) && (np.r_attr.st_size == fap.st_size)))

-- Whether the data caches are purged.
unfoldable pub fusefs_cache_check : FuseNode → FuseStat → Bool
unfolding attr_changed
fusefs_cache_check np fap = attr_changed np fap

unfoldable pub clamp : ℕ → ℕ → ℕ → ℕ
clamp lo hi delta = if ltb delta lo then lo else if ltb hi delta then hi else delta

-- "the number of nanoseconds that we will cache the attributes". A clock that ran backwards would
-- make the difference negative, which has the result that 0 has.
unfoldable pub cache_delta : Mount → (vnocache : Bool) → (vtype now r_mtime : ℕ) → ℕ
unfolding clamp
cache_delta fmi vnocache vtype now r_mtime =
    if fmi.fmi_noac || vnocache
    then 0
    else if vtype == vdir
    then clamp fmi.fmi_acdirmin fmi.fmi_acdirmax (now - r_mtime)
    else clamp fmi.fmi_acregmin fmi.fmi_acregmax (now - r_mtime)

module _ (iftovt : ℕ → ℕ) where
  unfoldable pub fusefs_attrcache_fa : Mount → ℕ → FuseStat → FuseNode → FuseNode
  unfolding cache_delta attr_changed
  fusefs_attrcache_fa fmi now fap np =
      let mtime = if attr_changed np fap then now else np.r_mtime in
      let vtype = iftovt fap.st_mode in
      record np {
        r_mtime = mtime;
        r_attrtime = now + cache_delta fmi np.vnocache vtype now mtime;
        r_attr = fap;
        v_type = vtype;
        r_size = fap.st_size;
        nattrchanged = false;
      }

unfoldable pub fusefs_getattr_cache : ℕ → FuseNode → CallResult FuseStat
fusefs_getattr_cache now np = if leb np.r_attrtime now then err enoent else ok np.r_attr

-- fusefs_attrcache_rm_locked too
unfoldable pub fusefs_attrcache_remove : ℕ → FuseNode → FuseNode
fusefs_attrcache_remove now np = record np { r_attrtime = now }

-- The clock is read twice, for the modification and for the removal.
unfoldable pub fusefs_attr_touchdir : (modified removed : ℕ) → FuseNode → FuseNode
unfolding fusefs_attrcache_remove
fusefs_attr_touchdir modified removed dnp =
    fusefs_attrcache_remove removed (record dnp { r_mtime = modified })

-- vattr_t, less the fields that fattr_to_vattr fills from outside the attributes (va_fsid, va_rdev,
-- va_blksize, va_seq)
pub record Vattr : Type 0 where
  pub va_type : ℕ
  pub va_mode : ℕ
  pub va_uid : ℕ
  pub va_gid : ℕ
  pub va_nodeid : ℕ
  pub va_nlink : ℕ
  pub va_size : ℕ
  pub va_atime : Timespec
  pub va_mtime : Timespec
  pub va_ctime : Timespec
  pub va_nblocks : ℕ

-- `fa->st_mode & ~S_IFMT` clears the four bits from 2 ^ 12 on.
unfoldable pub fattr_to_vattr : (ℕ → ℕ) → FuseNode → FuseStat → Vattr
fattr_to_vattr iftovt np fa = record {
  va_type = iftovt fa.st_mode;
  va_mode = fa.st_mode - fa.st_mode / 4096 % 16 * 4096;
  va_uid = fa.st_uid;
  va_gid = fa.st_gid;
  va_nodeid = np.n_ino;
  va_nlink = fa.st_nlink;
  va_size = fa.st_size;
  va_atime = record { tv_sec = fa.st_atime_sec; tv_nsec = fa.st_atime_ns };
  va_mtime = record { tv_sec = fa.st_mtime_sec; tv_nsec = fa.st_mtime_ns };
  va_ctime = record { tv_sec = fa.st_ctime_sec; tv_nsec = fa.st_ctime_ns };
  va_nblocks = fa.st_blocks;
}

-- What fusefs_getattr_otw leaves. `pruned`: it called fusefs_attrcache_prune on the node.
pub record Otw (A D : Type 0) : Type 0 where
  pub answer : CallResult A
  pub node : FuseNode
  pub pruned : Bool
  pub daemon : D

module _ {D : Type 0} (door : Door D) (iftovt : ℕ → ℕ) (fmi : Mount) (ssn : Ssn) where
  -- `if (error == ENOSYS) error = fusefs_call_getattr(...)`
  unfoldable pub getattr_by_path : FuseNode → CallResult FuseStat × D → CallResult FuseStat × D
  getattr_by_path np (ok fa, d) = (ok fa, d)
  getattr_by_path np (err e, d) =
      if e == enosys then fusefs_call_getattr door np.n_rpath d else (err e, d)

  -- "Try to use the FID if we have one."
  unfoldable pub getattr_calls : FuseNode → D → CallResult FuseStat × D
  unfolding getattr_by_path fid_valid
  getattr_calls np d =
      getattr_by_path np
        (if fid_valid np ssn then fusefs_call_fgetattr door np.n_fid d else (err enosys, d))

  unfoldable pub otw_result : ℕ → FuseNode → CallResult FuseStat × D → Otw FuseStat D
  otw_result now np (err e, d) = record {
    answer = err e;
    node = fusefs_attrcache_remove now np;
    pruned = (e == enoent) || (e == enotdir);
    daemon = d;
  }
  otw_result now np (ok fa, d) = record {
    answer = ok fa;
    node = fusefs_attrcache_fa iftovt fmi now fa np;
    pruned = false;
    daemon = d;
  }

  -- `interrupted`: the wait for r_lkserlock ended with a signal.
  unfoldable pub fusefs_getattr_otw : (interrupted : Bool) → ℕ → FuseNode → D → Otw FuseStat D
  unfolding getattr_calls otw_result
  fusefs_getattr_otw true now np d = record {
    answer = err eintr;
    node = np;
    pruned = false;
    daemon = d;
  }
  fusefs_getattr_otw false now np d = otw_result now np (getattr_calls np d)

  unfoldable pub vattr_answer : FuseNode → CallResult FuseStat → CallResult Vattr
  vattr_answer np (err e) = err e
  vattr_answer np (ok fa) = ok (fattr_to_vattr iftovt np fa)

  unfoldable pub getattr_vattr : Otw FuseStat D → Otw Vattr D
  unfolding vattr_answer
  getattr_vattr o = record {
    answer = vattr_answer o.node o.answer;
    node = o.node;
    pruned = o.pruned;
    daemon = o.daemon;
  }

  unfoldable pub cached_or_otw :
      CallResult FuseStat → (interrupted : Bool) → ℕ → FuseNode → D → Otw FuseStat D
  cached_or_otw (ok fa) interrupted now np d = record {
    answer = ok fa;
    node = np;
    pruned = false;
    daemon = d;
  }
  cached_or_otw (err e) interrupted now np d = fusefs_getattr_otw interrupted now np d

  -- The clock is read for the test of the cache, and again when an answer is there.
  unfoldable pub fusefsgetattr : (interrupted : Bool) → (now later : ℕ) → FuseNode → D → Otw Vattr D
  unfolding cached_or_otw getattr_vattr fusefs_getattr_cache
  fusefsgetattr interrupted now later np d =
      getattr_vattr (cached_or_otw (fusefs_getattr_cache now np) interrupted later np d)
