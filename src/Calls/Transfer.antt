-- ===== src/Calls/Transfer.antt =====
-- fusefs_call_read and fusefs_call_write of fusefs_calls.c.
use illumos_fuse.Hash.{Bytes}
use illumos_fuse.Door.{read_arg, write_arg, op_read, op_write, DoorRet, Door, fuse_max_iosize}
use illumos_fuse.Door.Errno.{efault}
use illumos_fuse.Calls.{CallResult, ok, err, door_call}
use illumos_fuse.Calls.Paths.{memcpy_string, clip_pathlen}
use illumos_fuse.Prelude.{ℕ, ◌+◌, ◌-◌, ◌≤◌, ◌≡◌, ltb, ◌==◌, if◌then◌else◌, length}

-- struct uio: where the transfer stands, and how much is left. Both are signed in the source; the
-- callers have refused negative values.
pub record Uio : Type 0 where
  pub uio_loffset : ℕ
  pub uio_resid : ℕ

-- uiomove of the kernel. To the user (UIO_READ) it moves bytes of a buffer, from the user it
-- gives the bytes that it put into the buffer; the first result is an error number.
pub record Uiomove : Type 0 where
  pub move_in : (buffer : Bytes) (n : ℕ) → Uio → ℕ × Uio
  pub move_out : (n : ℕ) → Uio → ℕ × Bytes × Uio

-- What uiomove does with the uio: it stops at the residue, a success moves all that it can, and
-- the offset goes on by what the residue falls.
pub record Moves (n : ℕ) (error : ℕ) (before after : Uio) : Type 0 where
  pub moved : after.uio_loffset + after.uio_resid ≡ before.uio_loffset + before.uio_resid
  pub bounded : before.uio_resid ≤ after.uio_resid + n
  pub falls : after.uio_resid ≤ before.uio_resid
  pub complete : error ≡ 0 → after.uio_resid ≡ before.uio_resid - n

pub record UiomoveLaws (u : Uiomove) : Type 0 where
  pub moves_in :
      (buffer : Bytes) (n : ℕ) (uio : Uio)
      → Moves n (u.move_in buffer n uio).0 uio (u.move_in buffer n uio).1
  pub moves_out : (n : ℕ) (uio : Uio) → Moves n (u.move_out n uio).0 uio (u.move_out n uio).2

-- What a transfer leaves: the error number, *rlen, the uio and the daemon.
pub record Transfer (D : Type 0) : Type 0 where
  pub error : ℕ
  pub rlen : ℕ
  pub uio : Uio
  pub daemon : D

module _ {D : Type 0} (door_ki_upcall : Door D) (uiomove : Uiomove) where
  unfoldable pub finish_read : ℕ → Uio → CallResult DoorRet × D → Transfer D
  finish_read rlen uio (err e, d) = record { error = e; rlen = rlen; uio = uio; daemon = d }
  finish_read rlen uio (ok ret, d) =
      let (rc, uio') = uiomove.move_in ret.ret_content ret.ret_length uio in
      record { error = rc; rlen = ret.ret_length; uio = uio'; daemon = d }

  unfoldable pub fusefs_call_read : ℕ → ℕ → Uio → Bytes → D → Transfer D
  unfolding finish_read
  fusefs_call_read fid rlen uio rpath d =
      if ltb fuse_max_iosize rlen
      then record { error = efault; rlen = rlen; uio = uio; daemon = d }
      else let rplen = clip_pathlen (length rpath) in
        finish_read rlen uio (
          door_call door_ki_upcall
            (read_arg op_read fid uio.uio_loffset rlen rplen (memcpy_string (rplen + 1) rpath)) d)

  unfoldable pub finish_write : ℕ → Uio → CallResult DoorRet × D → Transfer D
  finish_write rlen uio (err e, d) = record { error = e; rlen = rlen; uio = uio; daemon = d }
  finish_write rlen uio (ok ret, d) = record {
    error = 0;
    rlen = ret.ret_length;
    uio = uio;
    daemon = d;
  }

  -- The offset that is sent is that from before uiomove.
  unfoldable pub fusefs_call_write : ℕ → ℕ → Uio → Bytes → D → Transfer D
  unfolding finish_write
  fusefs_call_write fid rlen uio rpath d =
      if ltb fuse_max_iosize rlen
      then record { error = efault; rlen = rlen; uio = uio; daemon = d }
      else let rplen = clip_pathlen (length rpath) in
        let (rc, content, uio') = uiomove.move_out rlen uio in
        if rc == 0
        then finish_write rlen uio' (
            door_call door_ki_upcall
              (write_arg op_write fid uio.uio_loffset rlen rplen (memcpy_string (rplen + 1) rpath)
                content)
              d)
        else record { error = rc; rlen = rlen; uio = uio'; daemon = d }
