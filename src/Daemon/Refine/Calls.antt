-- ===== src/Daemon/Refine/Calls.antt =====
-- The calls on files and names refine the operations of the file system.
use illumos_fuse.Hash.{Bytes}
use illumos_fuse.Door.{DoorArg, DoorRet, Door, maxpathlen, path_arg, Opcode}
use illumos_fuse.Calls.{
  CallResult, ok, err, on_ok, door_call, fusefs_call_statvfs, fusefs_call_fgetattr,
  fusefs_call_close, fusefs_call_flush,
}
use illumos_fuse.Calls.Paths.{two_part_len, two_part_path}
use illumos_fuse.Calls.Files.{
  whole_path_call, two_part_call, fusefs_call_getattr, fusefs_call_open, fusefs_call_getattr2,
  fusefs_call_mkdir, fusefs_call_chmod, fusefs_call_chown, fusefs_call_delete, fusefs_call_rmdir,
  fusefs_call_ftruncate, fusefs_call_rename, fusefs_call_utimes,
}
use illumos_fuse.Node.Order.Laws.{IsName}
use illumos_fuse.Daemon.{SolLl, convert_stat}
use illumos_fuse.Daemon.Library.{FuseFs, Malloc}
use illumos_fuse.Daemon.Handlers.{
  open_flags, do_statfs, stat_reply, do_fgetattr, do_getattr, fid_reply, do_open, do_close,
  reply_err, do_flush, do_ftruncate, do_utimes, do_chmod, do_chown, do_delete, do_rename, do_mkdir,
  do_rmdir,
}
use illumos_fuse.Daemon.Dispatch.{handle, sol_dispatch, daemon_door}
use illumos_fuse.Daemon.Paths.{c_string-IsName, c_string-sent, c_string-two_part_path}
use illumos_fuse.Daemon.Refine.{
  NameCall, name_statvfs, name_fgetattr, name_close, name_flush, name_getattr, name_delete,
  name_rmdir, name_open, name_chmod, name_chown, name_getattr2, name_mkdir, name_rename,
  name_ftruncate, name_utimes, send, full_path, gives, does, perform, told,
}
use illumos_fuse.Prelude.{
  ℕ, ◌≤◌, ◌<◌, ◌≡◌, refl, ap, ◌∙◌, false, some, arith, leb, ◌==◌, if◌then◌else◌, length, ◌∙◌,
}

-- A path without NUL bytes that fits the message whole, and a name in a directory likewise.
abbrev pub IsPath : Bytes → Type 0
IsPath rpath = IsName rpath × (length rpath < maxpathlen)

abbrev pub IsPath2 : Bytes → Bytes → Type 0
IsPath2 dname cname =
    IsName dname × IsName cname × (1 ≤ length dname) × (two_part_len dname cname < maxpathlen)

abbrev pub PathsFit : NameCall → Type 0
PathsFit (name_getattr rpath) = IsPath rpath
PathsFit (name_delete rpath) = IsPath rpath
PathsFit (name_rmdir rpath) = IsPath rpath
PathsFit (name_open rpath val) = IsPath rpath
PathsFit (name_chmod rpath val) = IsPath rpath
PathsFit (name_chown rpath uid gid) = IsPath rpath
PathsFit (name_getattr2 dname cname) = IsPath2 dname cname
PathsFit (name_mkdir dname cname) = IsPath2 dname cname
PathsFit (name_rename oldpath dname cname) = IsPath oldpath × IsPath2 dname cname
PathsFit (name_ftruncate fid off rpath) = IsPath rpath
PathsFit (name_utimes rpath a t) = IsPath rpath
PathsFit _ = Unit {0}

module _ {F : Type 0} (fs : FuseFs F) (m : Malloc) (crash : ℕ) where
  abbrev door : Door (SolLl F)
  door = daemon_door fs m crash

  -- What a reply becomes behind the door.
  abbrev pub result : {A : Type 0} → (DoorRet → A) → DoorRet × SolLl F → CallResult A × SolLl F
  result f (ret, ll) = (if ret.ret_err == 0 then ok (f ret) else err ret.ret_err, ll)

  pub dispatched :
      (arg : DoorArg) (ll : SolLl F)
      → ll.got_destroy ≡ false
      → sol_dispatch fs m arg ll ≡ handle fs m arg ll
  unfolding sol_dispatch
  dispatched arg ll alive = ground arith

  -- A message that the daemon answers.
  pub answered :
      {A : Type 0} (f : DoorRet → A) (arg : DoorArg) (ll : SolLl F) {r : DoorRet × SolLl F}
      → ll.got_destroy ≡ false
      → handle fs m arg ll ≡ some r
      → on_ok f (door_call door arg ll) ≡ result f r
  unfolding door_call daemon_door
  answered f arg ll {r} alive h = rw (daemon_door, dispatched arg ll alive ∙ h) (ground arith)

  -- The replies, as results.
  result-gives-fid :
      (ll : SolLl F) (r : ℕ × ℕ × F)
      → result (λ ret. ret.ret_fid) (fid_reply fs ll r) ≡ gives fs (λ fh. fh) ll r
  unfolding fid_reply
  result-gives-fid ll (e, fh, f) = ground arith

  result-gives-stat :
      (ll : SolLl F) (r : ℕ × _ × F)
      → result (λ ret. ret.ret_st) (stat_reply fs ll r) ≡ gives fs convert_stat ll r
  unfolding stat_reply
  result-gives-stat ll (e, st, f) = ground arith

  result-does : (ll : SolLl F) (r : ℕ × F) → result (λ _. tt) (reply_err fs ll r) ≡ does fs ll r
  unfolding reply_err
  result-does ll (e, f) = ground arith

  -- The three ways in which a path goes into a message.
  pub whole :
      {A : Type 0} (f : DoorRet → A) (op : Opcode) (val : ℕ) (rpath : Bytes) (ll : SolLl F)
      {r : DoorRet × SolLl F}
      → ll.got_destroy ≡ false
      → length rpath < maxpathlen
      → handle fs m (path_arg op val 0 (length rpath) rpath) ll ≡ some r
      → on_ok f (whole_path_call door op val rpath ll) ≡ result f r
  unfolding whole_path_call
  whole f op val rpath ll {r} alive fits h =
      let short : leb maxpathlen (length rpath) ≡ false = ground arith in
      rw (short) (answered f _ ll alive h)

  pub two_part :
      {A : Type 0} (f : DoorRet → A) (op : Opcode) (val : ℕ) (dname cname : Bytes) (ll : SolLl F)
      {r : DoorRet × SolLl F}
      → ll.got_destroy ≡ false
      → two_part_len dname cname < maxpathlen
      → handle fs m (path_arg op val 0 (two_part_len dname cname) (two_part_path dname cname)) ll
        ≡ some r
      → on_ok f (two_part_call door op val dname cname ll) ≡ result f r
  unfolding two_part_call
  two_part f op val dname cname ll {r} alive fits h =
      let short : leb maxpathlen (two_part_len dname cname) ≡ false = ground arith in
      rw (short) (answered f _ ll alive h)

  rename-perform :
      (oldpath dname cname : Bytes) (ll : SolLl F)
      → ll.got_destroy ≡ false
      → IsPath oldpath
      → IsPath2 dname cname
      → fusefs_call_rename door oldpath dname cname ll
        ≡ perform fs (name_rename oldpath dname cname) ll
  unfolding fusefs_call_rename perform handle
  rename-perform oldpath dname cname ll alive p q =
      let short : leb maxpathlen (two_part_len dname cname) ≡ false = ground arith in
      rw (short) (
        answered _ _ ll alive refl
        ∙ (unfold do_rename in
            rw (c_string-sent oldpath p.0 p.1, c_string-two_part_path dname cname q.0 q.1 q.2)
              (result-does ll _)))

  -- While the daemon has not been told to go, a call on a file or a name, whose paths hold no NUL byte and
  -- fit the messages whole, performs the operation of the file system at the full path, once, leaves the state
  -- that it leaves, and does not fault. Its result is the answer or the error number of the operation, except
  -- that a flush and a close succeed whatever the file system answers.
  pub send-perform :
      (c : NameCall) (ll : SolLl F)
      → ll.got_destroy ≡ false
      → PathsFit c
      → send door c ll ≡ some (told c (perform fs c ll))
  unfolding send perform handle
  send-perform name_statvfs ll alive p =
      ap some (
        unfold fusefs_call_statvfs in answered _ _ ll alive refl ∙ unfold do_statfs in ground arith)
  send-perform (name_fgetattr fid) ll alive p = ap some (
      unfold fusefs_call_fgetattr in
      answered _ _ ll alive refl
      ∙ (unfold do_fgetattr in result-gives-stat ll (fs.fuse_fs_fgetattr fid ll.userdata)))
  send-perform (name_close fid) ll alive p =
      ap some (unfold fusefs_call_close in answered _ _ ll alive refl ∙ unfold do_close in refl)
  send-perform (name_flush fid) ll alive p =
      ap some (unfold fusefs_call_flush in answered _ _ ll alive refl ∙ unfold do_flush in refl)
  send-perform (name_getattr rpath) ll alive p = ap some (
      unfold fusefs_call_getattr in
      whole _ _ _ rpath ll alive p.1 refl
      ∙ (unfold do_getattr in
          rw (c_string-IsName rpath p.0)
            (result-gives-stat ll (fs.fuse_fs_getattr rpath ll.userdata))))
  send-perform (name_delete rpath) ll alive p = ap some (
      unfold fusefs_call_delete in
      answered _ _ ll alive refl
      ∙ (unfold do_delete in rw (c_string-sent rpath p.0 p.1) (result-does ll _)))
  send-perform (name_rmdir rpath) ll alive p = ap some (
      unfold fusefs_call_rmdir in
      answered _ _ ll alive refl
      ∙ (unfold do_rmdir in rw (c_string-sent rpath p.0 p.1) (result-does ll _)))
  send-perform (name_open rpath val) ll alive p = ap some (
      unfold fusefs_call_open in
      whole _ _ _ rpath ll alive p.1 refl
      ∙ (unfold do_open in
          rw (c_string-IsName rpath p.0)
            (result-gives-fid ll (fs.fuse_fs_open rpath (open_flags val) ll.userdata))))
  send-perform (name_chmod rpath val) ll alive p = ap some (
      unfold fusefs_call_chmod in
      answered _ _ ll alive refl
      ∙ (unfold do_chmod in rw (c_string-sent rpath p.0 p.1) (result-does ll _)))
  send-perform (name_chown rpath uid gid) ll alive p = ap some (
      unfold fusefs_call_chown in
      answered _ _ ll alive refl
      ∙ (unfold do_chown in rw (c_string-sent rpath p.0 p.1) (result-does ll _)))
  send-perform (name_getattr2 dname cname) ll alive p = ap some (
      unfold fusefs_call_getattr2 in
      two_part _ _ _ dname cname ll alive p.3 refl
      ∙ (unfold do_getattr in
          rw (c_string-two_part_path dname cname p.0 p.1 p.2)
            (result-gives-stat ll (fs.fuse_fs_getattr (full_path dname cname) ll.userdata))))
  send-perform (name_mkdir dname cname) ll alive p = ap some (
      unfold fusefs_call_mkdir in
      two_part _ _ _ dname cname ll alive p.3 refl
      ∙ (unfold do_mkdir in rw (c_string-two_part_path dname cname p.0 p.1 p.2) (result-does ll _)))
  send-perform (name_rename oldpath dname cname) ll alive p =
      ap some (rename-perform oldpath dname cname ll alive p.0 p.1)
  send-perform (name_ftruncate fid off rpath) ll alive p = ap some (
      unfold fusefs_call_ftruncate in
      answered _ _ ll alive refl
      ∙ (unfold do_ftruncate in rw (c_string-sent rpath p.0 p.1) (ground (arith, result-does ll))))
  send-perform (name_utimes rpath a t) ll alive p =
      unfold fusefs_call_utimes in
      ap some (
        answered _ _ ll alive refl
        ∙ (unfold do_utimes in rw (c_string-sent rpath p.0 p.1) (result-does ll _)))
