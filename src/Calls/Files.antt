-- ===== src/Calls/Files.antt =====
-- The up-calls of fusefs_calls.c that name files by path.
pub mod Cut
use illumos_fuse.Hash.{Bytes}
use illumos_fuse.Door.{
  op_getattr, op_opendir, op_open, op_create, op_chmod, op_chown, op_delete, op_rename, op_mkdir,
  op_rmdir, Opcode, path_arg, path2_arg, ftrunc_arg, utimes_arg, FuseStat, DoorRet, Door,
  maxpathlen,
}
use illumos_fuse.Door.Errno.{enametoolong}
use illumos_fuse.Calls.{CallResult, err, on_ok, door_call}
use illumos_fuse.Calls.Paths.{memcpy_string, clip_pathlen, two_part_len, two_part_path}
use illumos_fuse.Prelude.{ℕ, ◌+◌, Option, none, some, leb, if◌then◌else◌, length}

-- timespec_t
pub record Timespec : Type 0 where
  pub tv_sec : ℕ
  pub tv_nsec : ℕ

module _ {D : Type 0} (door_ki_upcall : Door D) where
  -- Calls that refuse a long path.
  unfoldable pub whole_path_call : Opcode → ℕ → Bytes → D → CallResult DoorRet × D
  whole_path_call op val rpath d =
      if leb maxpathlen (length rpath)
      then (err enametoolong, d)
      else door_call door_ki_upcall (path_arg op val 0 (length rpath) rpath) d

  unfoldable pub fusefs_call_getattr : Bytes → D → CallResult FuseStat × D
  unfolding whole_path_call
  fusefs_call_getattr rpath d = on_ok (λ ret. ret.ret_st) (whole_path_call op_getattr 0 rpath d)

  unfoldable pub fusefs_call_opendir : Bytes → D → CallResult ℕ × D
  unfolding whole_path_call
  fusefs_call_opendir rpath d = on_ok (λ ret. ret.ret_fid) (whole_path_call op_opendir 0 rpath d)

  unfoldable pub fusefs_call_open : Bytes → ℕ → D → CallResult ℕ × D
  unfolding whole_path_call
  fusefs_call_open rpath oflags d =
      on_ok (λ ret. ret.ret_fid) (whole_path_call op_open oflags rpath d)

  -- Calls whose path comes in two parts.
  unfoldable pub two_part_call : Opcode → ℕ → Bytes → Bytes → D → CallResult DoorRet × D
  two_part_call op val dname cname d =
      if leb maxpathlen (two_part_len dname cname)
      then (err enametoolong, d)
      else door_call door_ki_upcall
          (path_arg op val 0 (two_part_len dname cname) (two_part_path dname cname)) d

  unfoldable pub fusefs_call_getattr2 : Bytes → Bytes → D → CallResult FuseStat × D
  unfolding two_part_call
  fusefs_call_getattr2 dname cname d =
      on_ok (λ ret. ret.ret_st) (two_part_call op_getattr 0 dname cname d)

  unfoldable pub fusefs_call_create : Bytes → Bytes → ℕ → D → CallResult ℕ × D
  unfolding two_part_call
  fusefs_call_create dname cname mode d =
      on_ok (λ ret. ret.ret_fid) (two_part_call op_create mode dname cname d)

  unfoldable pub fusefs_call_mkdir : Bytes → Bytes → D → CallResult (Unit {0}) × D
  unfolding two_part_call
  fusefs_call_mkdir dname cname d = on_ok (λ _. tt) (two_part_call op_mkdir 0 dname cname d)

  -- Calls that cut a long path: rplen + 1 bytes are copied.
  cut_path_call : Opcode → ℕ → ℕ → Bytes → D → CallResult (Unit {0}) × D
  cut_path_call op val₀ val₁ rpath d =
      let rplen = clip_pathlen (length rpath) in
      on_ok (λ _. tt)
        (door_call door_ki_upcall (path_arg op val₀ val₁ rplen (memcpy_string (rplen + 1) rpath)) d)

  unfoldable pub fusefs_call_chmod : Bytes → ℕ → D → CallResult (Unit {0}) × D
  unfolding cut_path_call
  fusefs_call_chmod rpath mode d = cut_path_call op_chmod mode 0 rpath d

  unfoldable pub fusefs_call_chown : Bytes → ℕ → ℕ → D → CallResult (Unit {0}) × D
  unfolding cut_path_call
  fusefs_call_chown rpath uid gid d = cut_path_call op_chown uid gid rpath d

  unfoldable pub fusefs_call_delete : Bytes → D → CallResult (Unit {0}) × D
  unfolding cut_path_call
  fusefs_call_delete rpath d = cut_path_call op_delete 0 0 rpath d

  unfoldable pub fusefs_call_rmdir : Bytes → D → CallResult (Unit {0}) × D
  unfolding cut_path_call
  fusefs_call_rmdir rpath d = cut_path_call op_rmdir 0 0 rpath d

  unfoldable pub fusefs_call_ftruncate : ℕ → ℕ → Bytes → D → CallResult (Unit {0}) × D
  fusefs_call_ftruncate fid off rpath d =
      let rplen = clip_pathlen (length rpath) in
      on_ok (λ _. tt)
        (door_call door_ki_upcall (ftrunc_arg fid off rplen (memcpy_string (rplen + 1) rpath)) d)

  unfoldable pub fusefs_call_rename : Bytes → Bytes → Bytes → D → CallResult (Unit {0}) × D
  fusefs_call_rename oldpath dname cname d =
      let oldplen = clip_pathlen (length oldpath) in
      if leb maxpathlen (two_part_len dname cname)
      then (err enametoolong, d)
      else on_ok (λ _. tt)
          (door_call door_ki_upcall
            (path2_arg op_rename oldplen (two_part_len dname cname)
              (memcpy_string (oldplen + 1) oldpath) (two_part_path dname cname))
            d)

  send_times : Timespec → Timespec → Bytes → D → CallResult (Unit {0}) × D
  send_times a m rpath d =
      let rplen = clip_pathlen (length rpath) in
      on_ok (λ _. tt)
        (door_call door_ki_upcall
          (utimes_arg a.tv_sec m.tv_sec a.tv_nsec m.tv_nsec rplen (memcpy_string (rplen + 1) rpath))
          d)

  -- A NULL time is read through: `none` is that fault.
  unfoldable pub fusefs_call_utimes :
      Bytes → Option Timespec → Option Timespec → D → Option (CallResult (Unit {0}) × D)
  unfolding send_times
  fusefs_call_utimes rpath none mtime d = none
  fusefs_call_utimes rpath (some a) none d = none
  fusefs_call_utimes rpath (some a) (some t) d = some (send_times a t rpath d)
