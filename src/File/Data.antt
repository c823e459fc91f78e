-- ===== src/File/Data.antt =====
-- Reading and writing of files: fusefs_read and fusefs_write of
-- usr/src/uts/common/fs/fusefs/fusefs_vnops.c.
pub mod Loop
pub mod Read
pub mod Eof
pub mod Write
pub mod Examples
use illumos_fuse.Door.{Door}
use illumos_fuse.Door.Errno.{eio, eintr, eisdir, einval, efbig, estale}
use illumos_fuse.Calls.{CallResult, ok, err, Ssn, fusefs_call_flush}
use illumos_fuse.Calls.Transfer.{Uio, Uiomove, Transfer, fusefs_call_read, fusefs_call_write}
use illumos_fuse.File.{vreg, FuseNode, Mount, fid_valid}
use illumos_fuse.File.Attr.{Vattr, Otw, fusefsgetattr, fusefs_attrcache_remove}
use illumos_fuse.Prelude.{
  ℕ, zero, suc, ◌+◌, ◌-◌, ◌%◌, ◌^◌, Bool, true, not, ◌&&◌, ◌||◌, Option, none, some, ltb, leb, ◌==◌,
  if◌then◌else◌,
}

-- Names for the bits FAPPEND, FSYNC and FDSYNC of `ioflag`.
pub record IoFlag : Type 0 where
  pub fappend : Bool
  pub fsync : Bool
  pub fdsync : Bool

-- The error number of an operation, the uio, the node and the daemon after it.
pub record IoResult (D : Type 0) : Type 0 where
  pub error : ℕ
  pub uio : Uio
  pub node : FuseNode
  pub daemon : D

-- The caller and the mount; the waits for r_lkserlock in fusefsgetattr and in the operation itself
-- may both be interrupted. `start` is the time when attributes are removed at the start of
-- a write, `now` and `later` are the times of fusefsgetattr, `end` that of the end.
pub record IoCaller : Type 0 where
  pub wrong_zone : Bool
  pub dead : Bool
  pub attr_interrupted : Bool
  pub interrupted : Bool
  pub start : ℕ
  pub now : ℕ
  pub later : ℕ
  pub end : ℕ

abbrev pub uint32_min : ℕ → ℕ → ℕ
uint32_min maxlen resid = (if ltb maxlen resid then maxlen else resid) % 2 ^ 32

module _ {D : Type 0} (call : (len : ℕ) → Uio → D → Transfer D) where
  -- "Do the I/O in maxlen chunks." The error number, the uio and the daemon after the loop, on fuel.
  unfoldable pub io_loop : ℕ → (maxlen : ℕ) → (error : ℕ) → Uio → D → Option (ℕ × Uio × D)
  io_loop zero maxlen error uio d = none
  io_loop (suc fuel) maxlen error uio d =
      let len = uint32_min maxlen uio.uio_resid in
      let t = call len uio d in
      let rest = io_loop fuel maxlen t.error t.uio t.daemon in
      if uio.uio_resid == 0
      then some (error, uio, d)
      else if not (t.error == 0) || ltb t.rlen len
      then some (t.error, t.uio, t.daemon)
      else rest

-- "Suppress this error" after having transferred data.
unfoldable pub suppress : (save_resid : ℕ) → ℕ → Uio → ℕ
suppress save_resid error uio =
    if not (error == 0) && not (save_resid == uio.uio_resid) then 0 else error

-- How much of a transfer lies beyond a limit, with `endoff` its end.
abbrev pub past : (endoff limit : ℕ) → ℕ
past endoff limit = if ltb limit endoff then endoff - limit else 0

abbrev pub cut_resid : ℕ → Uio → Uio
cut_resid n uio = record uio { uio_resid = uio.uio_resid - n }

-- "undo adjustment of resid"
abbrev pub undo_resid : ℕ → Uio → Uio
undo_resid n uio = record uio { uio_resid = uio.uio_resid + n }

module _ {D : Type 0} (door : Door D) (uiomove : Uiomove) (ssn : Ssn) where
  -- The end of fusefs_read: its loop is over.
  unfoldable pub read_done :
      (save_resid past_eof : ℕ) → FuseNode → Option (ℕ × Uio × D) → Option (IoResult D)
  unfolding suppress
  read_done save_resid past_eof np none = none
  read_done save_resid past_eof np (some (error, uio, d)) = some (record {
    error = suppress save_resid error uio;
    uio = undo_resid past_eof uio;
    node = np;
    daemon = d;
  })

  -- fusefs_read from the lock on; `uio` has its residue cut by past_eof.
  unfoldable pub read_locked :
      ℕ → (interrupted : Bool) → (past_eof : ℕ) → Uio → FuseNode → D → Option (IoResult D)
  unfolding fid_valid io_loop read_done
  read_locked fuel interrupted past_eof uio np d =
      if interrupted
      then some (record { error = eintr; uio = uio; node = np; daemon = d })
      else if fid_valid np ssn
      then read_done uio.uio_resid past_eof np (
          io_loop (λ len u d'. fusefs_call_read door uiomove np.n_fid len u np.n_rpath d') fuel
            ssn.ss_max_iosize 0 uio d)
      else some (record { error = estale; uio = undo_resid past_eof uio; node = np; daemon = d })

  -- With the size of the file.
  unfoldable pub read_sized :
      ℕ → IoCaller → Uio → (va_size : ℕ) → FuseNode → D → Option (IoResult D)
  unfolding read_locked
  read_sized fuel c uio va_size np d =
      let past_eof = past (uio.uio_loffset + uio.uio_resid) va_size in
      if leb va_size uio.uio_loffset
      then some (record { error = 0; uio = uio; node = np; daemon = d })
      else read_locked fuel c.interrupted past_eof (cut_resid past_eof uio) np d

  unfoldable pub read_attr : ℕ → IoCaller → Uio → Otw Vattr D → Option (IoResult D)
  unfolding read_sized
  read_attr fuel c uio o = elim o.answer [
    | err e ↦ some (record { error = e; uio = uio; node = o.node; daemon = o.daemon })
    | ok va ↦ read_sized fuel c uio va.va_size o.node o.daemon
  ]

  -- `endoff < 0`: the sum of two 63-bit numbers does not fit.
  unfoldable pub fusefs_read :
      (ℕ → ℕ) → Mount → ℕ → IoCaller → Uio → FuseNode → D → Option (IoResult D)
  unfolding read_attr
  fusefs_read iftovt fmi fuel c uio np d =
      let stop : ℕ → Option (IoResult D) =
        λ e. some (record { error = e; uio = uio; node = np; daemon = d }) in
      if c.wrong_zone || c.dead
      then stop eio
      else if not (np.v_type == vreg)
      then stop eisdir
      else if uio.uio_resid == 0
      then stop 0
      else if leb (2 ^ 63) (uio.uio_loffset + uio.uio_resid)
      then stop einval
      else read_attr fuel c uio
          (fusefsgetattr door iftovt fmi ssn c.attr_interrupted c.now c.later np d)

-- MAXOFFSET_T. RLIM64_INFINITY is a number above it.
abbrev pub maxoffset : ℕ
maxoffset = 2 ^ 63 - 1

unfoldable pub write_limit : ℕ → ℕ
write_limit llimit = if ltb maxoffset llimit then maxoffset else llimit

-- The first of the ioflag bits.
unfoldable pub write_node : IoFlag → IoCaller → FuseNode → FuseNode
write_node ioflag c np =
    if ioflag.fappend || ioflag.fsync then fusefs_attrcache_remove c.start np else np

-- "Update local notion of file size and invalidate cached attributes."
unfoldable pub wrote : ℕ → Uio → FuseNode → FuseNode
wrote end uio np = record np {
  r_attrtime = end;
  nattrchanged = true;
  r_size = if ltb np.r_size uio.uio_loffset then uio.uio_loffset else np.r_size;
}

module _ {D : Type 0} (door : Door D) (uiomove : Uiomove) (ssn : Ssn) where
  unfoldable pub flush_wire : IoFlag → FuseNode → D → D
  flush_wire ioflag np d =
      if ioflag.fsync || ioflag.fdsync then (fusefs_call_flush door np.n_fid d).1 else d

  -- The end of fusefs_write: its loop is over.
  unfoldable pub write_done :
      IoFlag
      → (end save_resid past_limit : ℕ) → FuseNode
      → Option (ℕ × Uio × D)
      → Option (IoResult D)
  unfolding suppress wrote flush_wire
  write_done ioflag end save_resid past_limit np none = none
  write_done ioflag end save_resid past_limit np (some (error, uio, d)) =
      if suppress save_resid error uio == 0
      then some (record {
        error = 0;
        uio = undo_resid past_limit uio;
        node = wrote end uio np;
        daemon = flush_wire ioflag np d;
      })
      else some (record {
        error = suppress save_resid error uio;
        uio = undo_resid past_limit uio;
        node = np;
        daemon = d;
      })

  -- fusefs_write from the lock on; `uio` has its residue cut by past_limit.
  unfoldable pub write_locked :
      ℕ → IoFlag → IoCaller → (past_limit : ℕ) → Uio → FuseNode → D → Option (IoResult D)
  unfolding fid_valid io_loop write_done
  write_locked fuel ioflag c past_limit uio np d =
      if c.interrupted
      then some (record { error = eintr; uio = uio; node = np; daemon = d })
      else if fid_valid np ssn
      then write_done ioflag c.end uio.uio_resid past_limit np (
          io_loop (λ len u d'. fusefs_call_write door uiomove np.n_fid len u np.n_rpath d') fuel
            ssn.ss_max_iosize 0 uio d)
      else some (record { error = estale; uio = undo_resid past_limit uio; node = np; daemon = d })

  -- With the offset at which the write starts.
  unfoldable pub write_from :
      ℕ → IoFlag → IoCaller → (llimit : ℕ) → Uio → FuseNode → D → Option (IoResult D)
  unfolding write_locked write_limit
  write_from fuel ioflag c llimit uio np d =
      let past_limit = past (uio.uio_loffset + uio.uio_resid) (write_limit llimit) in
      if leb (2 ^ 63) (uio.uio_loffset + uio.uio_resid)
      then some (record { error = einval; uio = uio; node = np; daemon = d })
      else if leb (write_limit llimit) uio.uio_loffset
      then some (record { error = efbig; uio = uio; node = np; daemon = d })
      else write_locked fuel ioflag c past_limit (cut_resid past_limit uio) np d

  -- "File size can be changed by another client": the size of the file becomes the offset.
  unfoldable pub write_append :
      ℕ → IoFlag → IoCaller → (llimit : ℕ) → Uio → Otw Vattr D → Option (IoResult D)
  unfolding write_from
  write_append fuel ioflag c llimit uio o = elim o.answer [
    | err e ↦ some (record { error = e; uio = uio; node = o.node; daemon = o.daemon })
    | ok va ↦
        write_from fuel ioflag c llimit (record uio { uio_loffset = va.va_size }) o.node o.daemon
  ]

  unfoldable pub fusefs_write :
      (ℕ → ℕ)
      → Mount
      → ℕ
      → IoFlag
      → IoCaller
      → (llimit : ℕ) → Uio
      → FuseNode
      → D
      → Option (IoResult D)
  unfolding write_append write_from write_node
  fusefs_write iftovt fmi fuel ioflag c llimit uio np d =
      let stop : ℕ → Option (IoResult D) =
        λ e. some (record { error = e; uio = uio; node = np; daemon = d }) in
      if c.wrong_zone || c.dead
      then stop eio
      else if not (np.v_type == vreg)
      then stop eisdir
      else if uio.uio_resid == 0
      then stop 0
      else if ioflag.fappend
      then write_append fuel ioflag c llimit uio (
          fusefsgetattr door iftovt fmi ssn c.attr_interrupted c.now c.later
            (write_node ioflag c np) d)
      else write_from fuel ioflag c llimit uio (write_node ioflag c np) d
