-- ===== src/File/Setattr.antt =====
-- Setting attributes: fusefssetattr of usr/src/uts/common/fs/fusefs/fusefs_vnops.c.
pub mod Laws
pub mod Expired
pub mod Examples
use illumos_fuse.Door.{Door}
use illumos_fuse.Door.Errno.{eintr, ebadf}
use illumos_fuse.Calls.{CallResult, ok, err, Ssn}
use illumos_fuse.Calls.Files.{
  Timespec, fusefs_call_ftruncate, fusefs_call_utimes, fusefs_call_chmod, fusefs_call_chown,
}
use illumos_fuse.File.{FuseNode, fid_valid}
use illumos_fuse.File.Attr.{fusefs_attrcache_remove}
use mathlib.Core.Option
use illumos_fuse.Prelude.{
  ℕ, ◌-◌, ◌^◌, Bool, true, false, ◌&&◌, Option, none, some, map, ◌==◌, if◌then◌else◌,
}

-- The attributes to set: `some` for those whose bits are in va_mask.
pub record SetVattr : Type 0 where
  pub va_size : Option ℕ
  pub va_atime : Option Timespec
  pub va_mtime : Option Timespec
  pub va_mode : Option ℕ
  pub va_uid : Option ℕ
  pub va_gid : Option ℕ

-- The variables `error` and `modified`, the node and the daemon.
pub record SetState (D : Type 0) : Type 0 where
  pub error : ℕ
  pub modified : Bool
  pub node : FuseNode
  pub daemon : D

-- `(uid_t)-1` where no owner is given
abbrev pub owner_or_none : Option ℕ → ℕ
owner_or_none none = 2 ^ 32 - 1
owner_or_none (some id) = id

module _ {D : Type 0} (door : Door D) (ssn : Ssn) where
  -- `if (error == EBADF)` the call is tried again without a FID.
  unfoldable pub truncate_again :
      ℕ → FuseNode → CallResult (Unit {0}) × D → CallResult (Unit {0}) × D
  truncate_again size np (ok r, d) = (ok r, d)
  truncate_again size np (err e, d) =
      if e == ebadf then fusefs_call_ftruncate door 0 size np.n_rpath d else (err e, d)

  -- "Use the FID if we have one with VWRITE."
  unfoldable pub truncate_calls : ℕ → FuseNode → D → CallResult (Unit {0}) × D
  unfolding truncate_again fid_valid
  truncate_calls size np d = truncate_again size np (
      if fid_valid np ssn && np.n_rights.fwrite
      then fusefs_call_ftruncate door np.n_fid size np.n_rpath d
      else (err ebadf, d))

  -- An error does not end the request here.
  unfoldable pub sized : ℕ → SetState D → CallResult (Unit {0}) × D → SetState D
  sized size st (err e, d) = record st { error = e; daemon = d }
  sized size st (ok _, d) = record {
    error = 0;
    modified = true;
    node = record st.node { r_size = size; nattrchanged = true };
    daemon = d;
  }

  unfoldable pub set_size : Option ℕ → SetState D → SetState D
  unfolding sized truncate_calls
  set_size none st = st
  set_size (some size) st = sized size st (truncate_calls size st.node st.daemon)

  -- `if (error) goto out; modified = 1;` — true: goes out
  unfoldable pub stepped : SetState D → CallResult (Unit {0}) × D → Bool × SetState D
  stepped st (err e, d) = (true, record st { error = e; daemon = d })
  stepped st (ok _, d) = (false, record st { error = 0; modified = true; daemon = d })

  -- `none`: a NULL time is read through.
  unfoldable pub set_times :
      Option Timespec → Option Timespec → SetState D → Option (Bool × SetState D)
  unfolding stepped
  set_times none none st = some (false, st)
  set_times atime mtime st =
      Option.map (stepped st) (fusefs_call_utimes door st.node.n_rpath atime mtime st.daemon)

  unfoldable pub set_mode : Option ℕ → SetState D → Bool × SetState D
  unfolding stepped
  set_mode none st = (false, st)
  set_mode (some mode) st = stepped st (fusefs_call_chmod door st.node.n_rpath mode st.daemon)

  unfoldable pub set_owner : Option ℕ → Option ℕ → SetState D → Bool × SetState D
  unfolding stepped
  set_owner none none st = (false, st)
  set_owner uid gid st =
      stepped st
        (fusefs_call_chown door st.node.n_rpath (owner_or_none uid) (owner_or_none gid) st.daemon)

  unfoldable pub set_rest : SetVattr → Bool × SetState D → SetState D
  unfolding set_mode set_owner
  set_rest a (out, st) =
      let moded = set_mode a.va_mode st in
      if out then st else if moded.0 then moded.1 else (set_owner a.va_uid a.va_gid moded.1).1

  -- From `out:` on
  unfoldable pub set_out : ℕ → SetState D → SetState D
  set_out now st =
      if st.modified then record st { node = fusefs_attrcache_remove now st.node } else st

  -- `modified = 0`, `error = 0`
  abbrev pub set_start : FuseNode → D → SetState D
  set_start np d = record { error = 0; modified = false; node = np; daemon = d }

  unfoldable pub fusefssetattr :
      (interrupted : Bool) → ℕ → SetVattr → FuseNode → D → Option (SetState D)
  unfolding set_size set_times set_rest set_out
  fusefssetattr true now a np d =
      some (record { error = eintr; modified = false; node = np; daemon = d })
  fusefssetattr false now a np d =
      Option.map (λ r. set_out now (set_rest a r))
        (set_times a.va_atime a.va_mtime (set_size a.va_size (set_start np d)))
