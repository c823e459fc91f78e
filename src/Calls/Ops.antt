-- ===== src/Calls/Ops.antt =====
-- All up-calls of fusefs_calls.c together.
pub mod Bounds
pub mod Examples
use illumos_fuse.Hash.{Bytes}
use illumos_fuse.Door.{Door}
use illumos_fuse.Calls.{
  CallResult, ok, err, Ssn, fusefs_call_init, fusefs_call_statvfs, fusefs_call_fgetattr,
  fusefs_call_closedir, fusefs_call_close, fusefs_call_flush, fusefs_call_readdir,
}
use illumos_fuse.Calls.Files.{
  Timespec, fusefs_call_getattr, fusefs_call_opendir, fusefs_call_open, fusefs_call_getattr2,
  fusefs_call_create, fusefs_call_mkdir, fusefs_call_chmod, fusefs_call_chown, fusefs_call_delete,
  fusefs_call_rmdir, fusefs_call_ftruncate, fusefs_call_rename, fusefs_call_utimes,
}
use illumos_fuse.Calls.Transfer.{Uio, Uiomove, Transfer, fusefs_call_read, fusefs_call_write}
use illumos_fuse.Prelude.{ℕ, Option, none, some}

-- A call with its arguments.
pub data FuseCall : Type 0 where
  calls_init : Ssn → (want : ℕ) → FuseCall
  calls_statvfs : FuseCall
  calls_fgetattr calls_closedir calls_close calls_flush : (fid : ℕ) → FuseCall
  calls_readdir : (fid offset : ℕ) → FuseCall
  calls_getattr calls_opendir calls_delete calls_rmdir : (rpath : Bytes) → FuseCall
  calls_open calls_chmod : (rpath : Bytes) (val : ℕ) → FuseCall
  calls_chown : (rpath : Bytes) (uid gid : ℕ) → FuseCall
  calls_getattr2 calls_mkdir : (dname cname : Bytes) → FuseCall
  calls_create : (dname cname : Bytes) (mode : ℕ) → FuseCall
  calls_rename : (oldpath dname cname : Bytes) → FuseCall
  calls_ftruncate : (fid off : ℕ) (rpath : Bytes) → FuseCall
  calls_utimes : (rpath : Bytes) (atime mtime : Timespec) → FuseCall
  calls_read calls_write : (fid rlen : ℕ) (uio : Uio) (rpath : Bytes) → FuseCall

module _ {D : Type 0} where
  -- The error number of a call, and the daemon after it.
  abbrev pub outcome : {A : Type 0} → CallResult A × D → ℕ × D
  outcome (ok a, d) = (0, d)
  outcome (err e, d) = (e, d)

  abbrev pub transfer_outcome : Transfer D → ℕ × D
  transfer_outcome t = (t.error, t.daemon)

  abbrev pub utimes_outcome : Option (CallResult (Unit {0}) × D) → D → ℕ × D
  utimes_outcome none d = (0, d)
  utimes_outcome (some r) d = outcome r

module _ {D : Type 0} (door : Door D) (uiomove : Uiomove) where
  unfoldable pub run_call : FuseCall → D → ℕ × D
  run_call (calls_init ssn want) d = outcome (fusefs_call_init door ssn want d)
  run_call calls_statvfs d = outcome (fusefs_call_statvfs door d)
  run_call (calls_fgetattr fid) d = outcome (fusefs_call_fgetattr door fid d)
  run_call (calls_closedir fid) d = outcome (fusefs_call_closedir door fid d)
  run_call (calls_close fid) d = outcome (fusefs_call_close door fid d)
  run_call (calls_flush fid) d = outcome (fusefs_call_flush door fid d)
  run_call (calls_readdir fid offset) d = outcome (fusefs_call_readdir door fid offset d)
  run_call (calls_getattr rpath) d = outcome (fusefs_call_getattr door rpath d)
  run_call (calls_opendir rpath) d = outcome (fusefs_call_opendir door rpath d)
  run_call (calls_delete rpath) d = outcome (fusefs_call_delete door rpath d)
  run_call (calls_rmdir rpath) d = outcome (fusefs_call_rmdir door rpath d)
  run_call (calls_open rpath oflags) d = outcome (fusefs_call_open door rpath oflags d)
  run_call (calls_chmod rpath mode) d = outcome (fusefs_call_chmod door rpath mode d)
  run_call (calls_chown rpath uid gid) d = outcome (fusefs_call_chown door rpath uid gid d)
  run_call (calls_getattr2 dname cname) d = outcome (fusefs_call_getattr2 door dname cname d)
  run_call (calls_mkdir dname cname) d = outcome (fusefs_call_mkdir door dname cname d)
  run_call (calls_create dname cname mode) d = outcome (fusefs_call_create door dname cname mode d)
  run_call (calls_rename oldpath dname cname) d =
      outcome (fusefs_call_rename door oldpath dname cname d)
  run_call (calls_ftruncate fid off rpath) d = outcome (fusefs_call_ftruncate door fid off rpath d)
  run_call (calls_utimes rpath a t) d =
      utimes_outcome (fusefs_call_utimes door rpath (some a) (some t) d) d
  run_call (calls_read fid rlen uio rpath) d =
      transfer_outcome (fusefs_call_read door uiomove fid rlen uio rpath d)
  run_call (calls_write fid rlen uio rpath) d =
      transfer_outcome (fusefs_call_write door uiomove fid rlen uio rpath d)
