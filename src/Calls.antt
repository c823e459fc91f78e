-- ===== src/Calls.antt =====
-- The up-calls of usr/src/uts/common/fs/fusefs/fusefs_calls.c, and the session that they are made in.
-- The door and the daemon behind it are parameters.
pub mod Paths
pub mod Files
pub mod Transfer
pub mod Ops
use illumos_fuse.Hash.{Bytes}
use illumos_fuse.Door.{
  Opcode, op_init, op_destroy, op_statvfs, op_fgetattr, op_closedir, op_readdir, op_close, op_flush,
  DoorArg, generic_arg, fid_arg, read_arg, FuseStat, FuseStatvfs, FuseDirent, DoorRet, Door,
  maxnamelen, fuse_max_iosize,
}
use illumos_fuse.Door.Errno.{eio, einval}
use illumos_fuse.Prelude.{ℕ, ◌+◌, ◌%◌, ◌^◌, Bool, [], leb, ◌==◌, if◌then◌else◌, take}

-- What a call returns: 0 and its results, or an error number.
pub data CallResult (A : Type 0) : Type 0 where
  ok : A → CallResult A
  err : ℕ → CallResult A

-- struct fusefs_ssn, without the handle of its door
pub record Ssn : Type 0 where
  pub ss_genid : ℕ
  pub ss_max_iosize : ℕ
  pub ss_opts : ℕ

abbrev pub on_ok : {A B D : Type 0} → (A → B) → CallResult A × D → CallResult B × D
on_ok f (ok a, d) = (ok (f a), d)
on_ok f (err e, d) = (err e, d)

module _ {D : Type 0} (door_ki_upcall : Door D) where
  -- The end of every call: `if (rc != 0) return (rc); if (ret.ret_err != 0) return (ret.ret_err);`
  unfoldable pub door_call : DoorArg → D → CallResult DoorRet × D
  door_call arg d =
      let (rc, ret, d') = door_ki_upcall arg d in
      if rc == 0
      then if ret.ret_err == 0 then (ok ret, d') else (err ret.ret_err, d')
      else (err rc, d')

  unfoldable pub fusefs_call_init : Ssn → ℕ → D → CallResult Ssn × D
  fusefs_call_init ssn want d =
      on_ok (λ ret. record ssn { ss_opts = ret.ret_flags }) (door_call (generic_arg op_init want) d)

  unfoldable pub fusefs_call_statvfs : D → CallResult FuseStatvfs × D
  fusefs_call_statvfs d = on_ok (λ ret. ret.ret_stvfs) (door_call (generic_arg op_statvfs 0) d)

  unfoldable pub fusefs_call_fgetattr : ℕ → D → CallResult FuseStat × D
  fusefs_call_fgetattr fid d = on_ok (λ ret. ret.ret_st) (door_call (fid_arg op_fgetattr fid) d)

  -- A call that takes a FID and gives nothing back.
  unfoldable pub fid_call : Opcode → ℕ → D → CallResult (Unit {0}) × D
  fid_call op fid d = on_ok (λ ret. tt) (door_call (fid_arg op fid) d)

  unfoldable pub fusefs_call_closedir : ℕ → D → CallResult (Unit {0}) × D
  unfolding fid_call
  fusefs_call_closedir fid d = fid_call op_closedir fid d

  unfoldable pub fusefs_call_close : ℕ → D → CallResult (Unit {0}) × D
  unfolding fid_call
  fusefs_call_close fid d = fid_call op_close fid d

  unfoldable pub fusefs_call_flush : ℕ → D → CallResult (Unit {0}) × D
  unfolding fid_call
  fusefs_call_flush fid d = fid_call op_flush fid d

  -- What fusefs_call_readdir gives: the attributes, the entry with the name's length in d_nmlen, and
  -- whether it sets the EOF flag.
  unfoldable pub readdir_entry : DoorRet × D → CallResult (FuseStat × FuseDirent × Bool) × D
  readdir_entry (ret, d) =
      let de = ret.ret_de in
      if leb maxnamelen de.d_nmlen then (err eio, d) else (
        ok (
          ret.ret_st,
          record de { d_name = take (de.d_nmlen + 1) de.d_name },
          ret.ret_flags % 2 == 1,
        ),
        d,
      )

  unfoldable pub readdir_result :
      CallResult DoorRet × D → CallResult (FuseStat × FuseDirent × Bool) × D
  unfolding readdir_entry
  readdir_result (err e, d) = (err e, d)
  readdir_result (ok ret, d) = readdir_entry (ret, d)

  unfoldable pub fusefs_call_readdir : ℕ → ℕ → D → CallResult (FuseStat × FuseDirent × Bool) × D
  unfolding readdir_result
  fusefs_call_readdir fid offset d =
      readdir_result (door_call (read_arg op_readdir fid offset 0 0 []) d)

  -- The result of the upcall is ignored.
  unfoldable pub fusefs_ssn_kill : D → D
  fusefs_ssn_kill d = (door_ki_upcall (generic_arg op_destroy 0) d).2

  -- The end of fusefs_ssn_create. The last two results are fusefs_genid and the references that the
  -- module holds on the door; fusefs_ssn_rele gives one back.
  ssn_created : ℕ → CallResult Ssn × D → CallResult Ssn × ℕ × ℕ × D
  ssn_created genid (ok ssn, d) = (ok ssn, genid, 1, d)
  ssn_created genid (err e, d) = (err e, genid, 0, d)

  -- `found`: door_ki_lookup knows the descriptor, and takes a reference on its door.
  unfoldable pub fusefs_ssn_create : Bool → ℕ → D → CallResult Ssn × ℕ × ℕ × D
  unfolding ssn_created
  fusefs_ssn_create found fusefs_genid d =
      let genid = (fusefs_genid + 1) % 2 ^ 32 in
      let ssn : Ssn = record { ss_genid = genid; ss_max_iosize = fuse_max_iosize; ss_opts = 0 } in
      if found
      then ssn_created genid (fusefs_call_init ssn 0 d)
      else (err einval, fusefs_genid, 0, d)
