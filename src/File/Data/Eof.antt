-- ===== src/File/Data/Eof.antt =====
-- A read does not go beyond the end of the file.
use illumos_fuse.Door.{Door}
use illumos_fuse.Calls.{Ssn}
use illumos_fuse.Calls.Transfer.{Uio, Uiomove, UiomoveLaws}
use illumos_fuse.File.{FuseNode, fid_valid}
use illumos_fuse.File.Data.{IoResult, IoCaller, past, cut_resid, read_done, read_locked, read_sized}
use illumos_fuse.File.Data.Loop.{LoopResult, io_loop-LoopResult, call_read-CallLaw}
use illumos_fuse.Prelude.{ℕ, ◌+◌, ◌^◌, ◌≤◌, ◌<◌, Bool, Option, none, some, arith, leb, if_branches}

abbrev pub StopsAt : {D : Type 0} → ℕ → Option (IoResult D) → Type 0
StopsAt va_size none = ⊥
StopsAt va_size (some r) = r.uio.uio_loffset ≤ va_size

module _ {D : Type 0} (door : Door D) (u : Uiomove) (laws : UiomoveLaws u) (ssn : Ssn) where
  read_done-StopsAt :
      (saved past_eof va_size : ℕ) (uio : Uio) (np : FuseNode) (r : Option (ℕ × Uio × D))
      → uio.uio_loffset + uio.uio_resid ≤ va_size
      → LoopResult r uio
      → StopsAt va_size (read_done door u ssn saved past_eof np r)
  unfolding read_done
  read_done-StopsAt saved past_eof va_size uio np none inside h = h
  read_done-StopsAt saved past_eof va_size uio np (some (error, uio', d)) inside (moved, falls) =
      omega (arith, moved, inside)

  module _ (max_positive : 0 < ssn.ss_max_iosize) (max_small : ssn.ss_max_iosize < 2 ^ 32) where
    read_locked-StopsAt :
        (fuel : ℕ) (interrupted : Bool) (past_eof va_size : ℕ) (uio : Uio) (np : FuseNode) (d : D)
        → uio.uio_loffset + uio.uio_resid ≤ va_size
        → uio.uio_resid < fuel
        → StopsAt va_size (read_locked door u ssn fuel interrupted past_eof uio np d)
    unfolding read_locked
    read_locked-StopsAt fuel interrupted past_eof va_size uio np d inside enough =
        if_branches (StopsAt {D = D} va_size) interrupted _ _ (λ _. omega (arith, inside))
          (λ _.
            if_branches (StopsAt {D = D} va_size) (fid_valid np ssn) _ _
              (λ _. read_done-StopsAt uio.uio_resid past_eof va_size uio np _ inside (
                io_loop-LoopResult _ (call_read-CallLaw door u laws np.n_fid np.n_rpath) fuel
                  ssn.ss_max_iosize 0 uio d max_positive max_small enough))
              (λ _. omega (arith, inside)))

    -- With a uiomove that behaves, a transfer size that is positive and fits 32 bits, and more fuel
    -- than there are bytes to read, a read that starts before the end of the file ends with its
    -- offset at most there, whatever lengths the daemon answers and whether or not it is interrupted.
    pub read_sized-StopsAt :
        (fuel : ℕ) (c : IoCaller) (uio : Uio) (va_size : ℕ) (np : FuseNode) (d : D)
        → uio.uio_loffset < va_size
        → uio.uio_resid < fuel
        → StopsAt va_size (read_sized door u ssn fuel c uio va_size np d)
    unfolding read_sized
    read_sized-StopsAt fuel c uio va_size np d before enough =
        if_branches (StopsAt {D = D} va_size) (leb va_size uio.uio_loffset) _ _
          (λ _. omega (arith, before))
          (λ _.
            read_locked-StopsAt fuel c.interrupted (past (uio.uio_loffset + uio.uio_resid) va_size)
              va_size (cut_resid (past (uio.uio_loffset + uio.uio_resid) va_size) uio) np d
              (ground (arith, before)) (omega (arith, enough)))
