-- ===== src/Daemon/Refine/Create.antt =====
-- fusefs_call_create and do_create, for a file system without the create operation.
use illumos_fuse.Hash.{Bytes}
use illumos_fuse.Door.{DoorRet, op_create}
use illumos_fuse.Door.Errno.{enosys}
use illumos_fuse.Calls.{ok}
use illumos_fuse.Calls.Files.{fusefs_call_create}
use illumos_fuse.Daemon.{SolLl}
use illumos_fuse.Daemon.Library.{FuseFs, Malloc}
use illumos_fuse.Daemon.Handlers.{create_mode, do_create, create_reply, create_mknod, create_open}
use illumos_fuse.Daemon.Dispatch.{handle, daemon_door}
use illumos_fuse.Daemon.Paths.{c_string-two_part_path}
use illumos_fuse.Daemon.Refine.{full_path}
use illumos_fuse.Daemon.Refine.Calls.{IsPath2, result, two_part}
use illumos_fuse.Prelude.{ℕ, ◌≡◌, refl, sym, ◌∙◌, false, arith, ◌∙◌}

module _ {F : Type 0} (fs : FuseFs F) (m : Malloc) (crash : ℕ) where
  abbrev fid_of : DoorRet → ℕ
  fid_of ret = ret.ret_fid

  create-daemon :
      (dname cname : Bytes) (mode : ℕ) (ll : SolLl F)
      → ll.got_destroy ≡ false
      → IsPath2 dname cname
      → fusefs_call_create (daemon_door fs m crash) dname cname mode ll
        ≡ result fs m crash fid_of (
            create_reply fs
              (create_mode mode)
              (full_path dname cname)
              ll
              (fs.fuse_fs_create (full_path dname cname) (create_mode mode) ll.userdata))
  unfolding fusefs_call_create handle do_create
  create-daemon dname cname mode ll alive p =
      rw⁻¹ (c_string-two_part_path dname cname p.0 p.1 p.2)
        (two_part fs m crash fid_of op_create mode dname cname ll alive p.3 refl)

  -- The reply of the fallback.
  mknod_reply-fid :
      (path : Bytes) (mode : ℕ) (ll : SolLl F) (f : F) (fid : ℕ) (ll' : SolLl F)
      → result fs m crash fid_of (create_mknod fs path ll (fs.fuse_fs_mknod path mode f))
        ≡ (ok fid, ll')
      → (fid ≡ 0)
        × (ll'
            ≡ record ll { userdata = (fs.fuse_fs_open path 0 (fs.fuse_fs_mknod path mode f).1).2 })
  unfolding create_mknod create_open
  mknod_reply-fid path mode ll f fid ll' h = ground arith

  create_reply-fid :
      (path : Bytes) (mode : ℕ) (ll : SolLl F) (r : ℕ × ℕ × F) (fid : ℕ) (ll' : SolLl F)
      → r.0 ≡ enosys
      → result fs m crash fid_of (create_reply fs mode path ll r) ≡ (ok fid, ll')
      → (fid ≡ 0)
        × (ll' ≡ record ll {
          userdata = (fs.fuse_fs_open path 0 (fs.fuse_fs_mknod path mode r.2).1).2;
        })
  unfolding create_reply
  create_reply-fid path mode ll (e, fh, f) fid ll' h =
      rw (h) (mknod_reply-fid path mode ll f fid ll')

  -- When the file system has no create operation, a fusefs_call_create that succeeds, for a path that fits and
  -- a daemon that has not been told to go, has opened the file, and gives the FID 0 whatever handle the open
  -- gave.
  pub create-no_fid :
      (dname cname : Bytes) (mode : ℕ) (ll : SolLl F) (fid : ℕ) (ll' : SolLl F)
      → ll.got_destroy ≡ false
      → IsPath2 dname cname
      → let path = full_path dname cname in
        let (e, _, f) = fs.fuse_fs_create path (create_mode mode) ll.userdata in
        e ≡ enosys
        → fusefs_call_create (daemon_door fs m crash) dname cname mode ll ≡ (ok fid, ll')
        → (fid ≡ 0)
          × (ll' ≡ record ll {
            userdata = (fs.fuse_fs_open path 0 (fs.fuse_fs_mknod path (create_mode mode) f).1).2;
          })
  create-no_fid dname cname mode ll fid ll' alive p refused h =
      create_reply-fid _ _ ll _ fid ll' refused
        (sym (create-daemon dname cname mode ll alive p) ∙ h)
