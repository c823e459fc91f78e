-- ===== src/File/Open.antt =====
-- Opening and closing of files: fusefs_open, fusefs_close, fusefs_rele_fid and fusefs_inactive of
-- usr/src/uts/common/fs/fusefs/fusefs_vnops.c. They hold r_lkserlock as writers where they work on
-- the FID, so that each is one step of the file. Credentials and local record locks are left out, and
-- n_fidrefs does not overflow.
pub mod Ledger
pub mod Held
pub mod Leaks
pub mod Examples
use illumos_fuse.Door.{Door}
use illumos_fuse.Door.Errno.{eio, eacces, eintr}
use illumos_fuse.Calls.{CallResult, ok, err, Ssn, fusefs_call_close, fusefs_call_closedir}
use illumos_fuse.Calls.Files.{fusefs_call_open, fusefs_call_opendir}
use illumos_fuse.File.{vnon, vreg, vdir, fid_unused, Rights, FuseNode}
use illumos_fuse.File.Attr.{fusefs_attrcache_remove}
use illumos_fuse.Prelude.{ℕ, ◌+◌, ◌-◌, Bool, true, false, not, ◌&&◌, ◌||◌, ltb, ◌==◌, if◌then◌else◌}

-- What the caller and the mount bring: a process of another zone, a mount that is dead or unmounted,
-- a signal during the wait for r_lkserlock.
pub record Caller : Type 0 where
  pub wrong_zone : Bool
  pub dead : Bool
  pub interrupted : Bool

-- The bits FREAD, FWRITE and FTRUNC of `flag`.
pub record OpenFlag : Type 0 where
  pub o_fread : Bool
  pub o_fwrite : Bool
  pub o_ftrunc : Bool

-- FREAD is 1 and FWRITE 2.
abbrev pub rights_bits : Rights → ℕ
rights_bits r = (if r.fread then 1 else 0) + (if r.fwrite then 2 else 0)

-- FWRITE, "to drive successful setattr(size=0) after open" set with FTRUNC
abbrev pub wants_write : OpenFlag → Bool
wants_write flag = flag.o_fwrite || flag.o_ftrunc

-- "the existing open is good enough"
unfoldable pub reuses_fid : Ssn → OpenFlag → FuseNode → Bool
reuses_fid ssn flag np =
    ltb 0 np.n_fidrefs
    && ((np.n_ssgenid == ssn.ss_genid)
        && ((not (wants_write flag) || np.n_rights.fwrite)
            && (not flag.o_fread || np.n_rights.fread)))

-- "we always ask for at least READ"
unfoldable pub asked_rights : OpenFlag → FuseNode → Rights
asked_rights flag np =
    if np.v_type == vdir then record { fread = true; fwrite = false } else record {
      fread = true;
      fwrite = (ltb 0 np.n_fidrefs && np.n_rights.fwrite) || wants_write flag;
    }

-- "Keep track of the vnode type at first open."
unfoldable pub have_fid : FuseNode → FuseNode
have_fid np = record np { n_ovtype = if np.n_ovtype == vnon then np.v_type else np.n_ovtype }

module _ {D : Type 0} (door : Door D) (ssn : Ssn) where
  -- A close for the type that was opened. Its error is only logged.
  unfoldable pub close_wire : (vtype fid : ℕ) → D → D
  close_wire vtype fid d =
      if vtype == vdir
      then (fusefs_call_closedir door fid d).1
      else (fusefs_call_close door fid d).1

  -- "We have a new FID and access rights."
  unfoldable pub new_fid : Rights → FuseNode → CallResult ℕ × D → ℕ × FuseNode × D
  unfolding close_wire have_fid
  new_fid rights np (err e, d) = (e, np, d)
  new_fid rights np (ok fid, d) = (
    0,
    have_fid (record np {
      n_fid = fid;
      n_ssgenid = ssn.ss_genid;
      n_rights = rights;
      n_fidrefs = np.n_fidrefs + 1;
    }),
    if ltb 0 np.n_fidrefs && (np.n_ssgenid == ssn.ss_genid)
        then close_wire np.v_type np.n_fid d
        else d,
  )

  unfoldable pub call_open : Rights → FuseNode → D → CallResult ℕ × D
  call_open rights np d =
      if np.v_type == vdir
      then fusefs_call_opendir door np.n_rpath d
      else fusefs_call_open door np.n_rpath (rights_bits rights) d

  -- With r_lkserlock held.
  unfoldable pub open_locked : OpenFlag → FuseNode → D → ℕ × FuseNode × D
  unfolding reuses_fid asked_rights have_fid new_fid call_open
  open_locked flag np d =
      if not (np.n_ovtype == vnon) && not (np.n_ovtype == np.v_type)
      then (eacces, np, d)
      else if reuses_fid ssn flag np
      then (0, have_fid (record np { n_fidrefs = np.n_fidrefs + 1 }), d)
      else new_fid (asked_rights flag np) np (call_open (asked_rights flag np) np d)

  unfoldable pub fusefs_open : Caller → OpenFlag → FuseNode → D → ℕ × FuseNode × D
  unfolding open_locked
  fusefs_open c flag np d =
      if c.wrong_zone
      then (eio, np, d)
      else if c.dead
      then (eio, np, d)
      else if not (np.v_type == vreg) && not (np.v_type == vdir)
      then (eacces, np, d)
      else if c.interrupted
      then (eintr, np, d)
      else open_locked flag np d

  -- "Other last close stuff": the attributes of a file that was written are invalidated.
  unfoldable pub last_close : ℕ → FuseNode → FuseNode
  last_close now np = if np.nattrchanged then fusefs_attrcache_remove now np else np

  unfoldable pub fusefs_rele_fid : ℕ → FuseNode → D → FuseNode × D
  unfolding last_close close_wire
  fusefs_rele_fid now np d =
      if ltb 1 np.n_fidrefs then (record np { n_fidrefs = np.n_fidrefs - 1 }, d) else (
        last_close now (record np { n_fidrefs = 0; n_fid = fid_unused; n_ovtype = vnon }),
        if not (np.n_fid == fid_unused) && (np.n_ssgenid == ssn.ss_genid)
            then close_wire np.n_ovtype np.n_fid d
            else d,
      )

  -- `count`: the references of the caller's open file, this one included.
  unfoldable pub fusefs_close : Caller → (count now : ℕ) → FuseNode → D → ℕ × FuseNode × D
  unfolding fusefs_rele_fid
  fusefs_close c count now np d =
      if c.wrong_zone
      then (eio, np, d)
      else if ltb 1 count
      then (0, np, d)
      else (0, (fusefs_rele_fid now np d).0, (fusefs_rele_fid now np d).1)

  -- fusefs_inactive, up to fusefs_addfree
  unfoldable pub fusefs_inactive : ℕ → FuseNode → D → FuseNode × D
  unfolding fusefs_rele_fid
  fusefs_inactive now np d =
      if np.n_fidrefs == 0 then (np, d) else fusefs_rele_fid now (record np { n_fidrefs = 1 }) d
