-- ===== src/Daemon/Refine/Transfer.antt =====
-- Reading back what was written, through both ends of the door.
use illumos_fuse.Hash.{Bytes}
use illumos_fuse.Door.{DoorRet, op_read, op_write, read_arg, write_arg, fuse_max_iosize}
use illumos_fuse.Calls.{CallResult, ok, err, on_ok, door_call}
use illumos_fuse.Calls.Paths.{clip_pathlen, memcpy_string}
use illumos_fuse.Calls.Transfer.{
  Uio, Uiomove, Transfer, finish_read, finish_write, fusefs_call_read, fusefs_call_write,
}
use illumos_fuse.Daemon.{SolLl}
use illumos_fuse.Daemon.Library.{FuseFs, Malloc}
use illumos_fuse.Daemon.Handlers.{do_read, read_reply, do_write, write_reply}
use illumos_fuse.Daemon.Dispatch.{handle, daemon_door}
use illumos_fuse.Daemon.Paths.{c_string-sent}
use illumos_fuse.Daemon.Refine.Calls.{IsPath, result, answered}
use illumos_fuse.Prelude.{
  ℕ, ◌+◌, ◌≤◌, ◌<◌, ◌≡◌, refl, sym, ap, ◌∙◌, false, arith, ltb, ◌==◌, length, ◌∙◌, if_branches,
}

-- A file system that stores: what a complete write put at an offset, a read of as many bytes there gives.
pub record Stores {F : Type 0} (fs : FuseFs F) : Type 0 where
  pub read-write :
      (path content : Bytes) (fh size offset : ℕ) (f : F)
      → (fs.fuse_fs_write path content fh size offset f).0 ≡ ok size
      → (fs.fuse_fs_read path fh size offset (fs.fuse_fs_write path content fh size offset f).1).0
        ≡ ok (size, content)

module _ {F : Type 0} (fs : FuseFs F) (m : Malloc) (crash : ℕ) (uiomove : Uiomove) where
  abbrev whole_ret : DoorRet → DoorRet
  whole_ret ret = ret

  on_ok-same : (r : CallResult DoorRet × SolLl F) → on_ok whole_ret r ≡ r
  on_ok-same (ok a, d) = refl
  on_ok-same (err e, d) = refl

  write_answered :
      (fid offset len : ℕ) (rpath content : Bytes) (ll : SolLl F)
      → ll.got_destroy ≡ false
      → IsPath rpath
      → let n = clip_pathlen (length rpath) in
        door_call
          (daemon_door fs m crash)
          (write_arg op_write fid offset len n (memcpy_string (n + 1) rpath) content)
          ll
        ≡ result fs m crash whole_ret
            (write_reply fs ll (fs.fuse_fs_write rpath content fid len offset ll.userdata))
  unfolding handle do_write
  write_answered fid offset len rpath content ll alive p =
      sym (on_ok-same _)
      ∙ answered fs m crash whole_ret _ ll alive refl
      ∙ rw (c_string-sent rpath p.0 p.1) refl

  read_answered :
      (fid offset len : ℕ) (rpath : Bytes) (ll : SolLl F)
      → ll.got_destroy ≡ false
      → IsPath rpath
      → let n = clip_pathlen (length rpath) in
        door_call
          (daemon_door fs m crash)
          (read_arg op_read fid offset len n (memcpy_string (n + 1) rpath))
          ll
        ≡ result fs m crash whole_ret
            (read_reply fs ll (fs.fuse_fs_read rpath fid len offset ll.userdata))
  unfolding handle do_read
  read_answered fid offset len rpath ll alive p =
      sym (on_ok-same _)
      ∙ answered fs m crash whole_ret _ ll alive refl
      ∙ rw (c_string-sent rpath p.0 p.1) refl

  -- A complete write is one at the file system, and leaves the daemon alive.
  complete_write :
      (rlen : ℕ) (uio : Uio) (ll : SolLl F) (r : CallResult ℕ × F)
      → 0 < rlen
      → let w =
          finish_write
            (daemon_door fs m crash)
            uiomove
            rlen
            uio
            (result fs m crash whole_ret (write_reply fs ll r)) in
        w.error ≡ 0 → w.rlen ≡ rlen → (r.0 ≡ ok rlen) × (w.daemon ≡ record ll { userdata = r.1 })
  unfolding finish_write write_reply
  complete_write rlen uio ll (ok res, f) positive e n = (ap ok n, refl)
  complete_write rlen uio ll (err x, f) positive e n = ground arith

  read_back :
      (rlen : ℕ) (uio : Uio) (ll : SolLl F) (content : Bytes) (r : CallResult (ℕ × Bytes) × F)
      → r.0 ≡ ok (rlen, content)
      → let t =
          finish_read
            (daemon_door fs m crash)
            uiomove
            rlen
            uio
            (result fs m crash whole_ret (read_reply fs ll r)) in
        ((t.error, t.uio) ≡ uiomove.move_in content rlen uio) × (t.rlen ≡ rlen)
  unfolding finish_read read_reply
  read_back rlen uio ll content (ok (n, c), f) h = ground (arith, h)
  read_back rlen uio ll content (err x, f) h = absurd (ground (arith, h))

  call_write_complete :
      (fid rlen : ℕ) (uio : Uio) (rpath : Bytes) (ll : SolLl F)
      → ll.got_destroy ≡ false
      → IsPath rpath
      → 0 < rlen
      → rlen ≤ fuse_max_iosize
      → let w = fusefs_call_write (daemon_door fs m crash) uiomove fid rlen uio rpath ll in
        let content = (uiomove.move_out rlen uio).1 in
        let r = fs.fuse_fs_write rpath content fid rlen uio.uio_loffset ll.userdata in
        w.error ≡ 0 → w.rlen ≡ rlen → (r.0 ≡ ok rlen) × (w.daemon ≡ record ll { userdata = r.1 })
  unfolding fusefs_call_write
  call_write_complete fid rlen uio rpath ll alive p positive small =
      let fits : ltb fuse_max_iosize rlen ≡ false = ground arith in
      let (_, content, uio') = uiomove.move_out rlen uio in
      rw (fits, write_answered fid uio.uio_loffset rlen rpath content ll alive p)
        (if_branches
          (λ (w : Transfer (SolLl F)).
            w.error ≡ 0
            → w.rlen ≡ rlen
            → ((fs.fuse_fs_write rpath content fid rlen uio.uio_loffset ll.userdata).0 ≡ ok rlen)
              × (w.daemon ≡ record ll {
                userdata = (fs.fuse_fs_write rpath content fid rlen uio.uio_loffset ll.userdata).1;
              }))
          ((uiomove.move_out rlen uio).0 == 0)
          (finish_write (daemon_door fs m crash) uiomove rlen uio' (
            result fs m crash whole_ret (
              write_reply fs ll
                (fs.fuse_fs_write rpath content fid rlen uio.uio_loffset ll.userdata))))
          (record { error = (uiomove.move_out rlen uio).0; rlen = rlen; uio = uio'; daemon = ll })
          (λ moved.
            complete_write rlen uio' ll
              (fs.fuse_fs_write rpath content fid rlen uio.uio_loffset ll.userdata) positive)
          (λ failed e. absurd (ground (arith, failed, e))))

  -- In a file system that stores, a write that is complete can be read back: while the daemon has not been
  -- told to go, for a path that fits and a transfer of at least one byte and at most FUSE_MAX_IOSIZE,
  -- fusefs_call_read at the place of a fusefs_call_write that succeeded in full hands to uiomove exactly the
  -- bytes that the write took from it, and reports their number.
  pub write-read :
      Stores fs
      → (fid rlen : ℕ) (uio : Uio) (rpath : Bytes) (ll : SolLl F) → ll.got_destroy ≡ false
      → IsPath rpath
      → 0 < rlen
      → rlen ≤ fuse_max_iosize
      → let w = fusefs_call_write (daemon_door fs m crash) uiomove fid rlen uio rpath ll in
        w.error ≡ 0
        → w.rlen ≡ rlen
        → let t = fusefs_call_read (daemon_door fs m crash) uiomove fid rlen uio rpath w.daemon in
          ((t.error, t.uio) ≡ uiomove.move_in (uiomove.move_out rlen uio).1 rlen uio)
          × (t.rlen ≡ rlen)
  unfolding fusefs_call_read
  write-read stores fid rlen uio rpath ll alive p positive small e n =
      let fits : ltb fuse_max_iosize rlen ≡ false = ground arith in
      let (_, content, uio') = uiomove.move_out rlen uio in
      let done = call_write_complete fid rlen uio rpath ll alive p positive small e n in
      let after = record ll {
        userdata = (fs.fuse_fs_write rpath content fid rlen uio.uio_loffset ll.userdata).1;
      } in
      rw (done.1, fits, read_answered fid uio.uio_loffset rlen rpath after alive p)
        (read_back rlen uio after content _
          (stores.read-write rpath content fid rlen uio.uio_loffset ll.userdata done.0))
