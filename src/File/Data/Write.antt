-- ===== src/File/Data/Write.antt =====
-- What fusefs_write leaves of the request and of the file.
use illumos_fuse.Door.{Door}
use illumos_fuse.Door.Errno.{eio, eisdir, einval, efbig}
use illumos_fuse.Calls.{Ssn}
use illumos_fuse.Calls.Transfer.{Uio, Uiomove, UiomoveLaws}
use illumos_fuse.File.{vreg, FuseNode, Mount, fid_valid}
use illumos_fuse.File.Data.{
  IoFlag, IoResult, IoCaller, suppress, past, cut_resid, undo_resid, wrote, write_done,
  write_locked, write_limit, write_from, write_node, fusefs_write,
}
use illumos_fuse.File.Data.Loop.{Advances, LoopResult, io_loop-LoopResult, call_write-CallLaw}
use illumos_fuse.File.Data.Read.{suppress-kept, uio_same}
use illumos_fuse.Prelude.{
  ℕ, ◌+◌, ◌-◌, ◌^◌, ◌≤◌, ◌<◌, ◌≡◌, refl, ap, ◌≢◌, true, false, not, ◌||◌, Option, none, some, arith,
  leb, ◌==◌, if_branches,
}

-- The file after a write that ended at `offset`: the cached attributes are expired, the change is
-- noted for the last close, and the local size reaches the end of what was written.
abbrev pub Invalidated : (end offset : ℕ) → FuseNode → Type 0
Invalidated end offset np = (np.r_attrtime ≡ end) × (np.nattrchanged ≡ true) × (offset ≤ np.r_size)

-- A write that is over: the offset goes on by what the residue falls, an error is returned only when
-- nothing was transferred, and what was transferred invalidates the attributes.
abbrev pub Writes : {D : Type 0} → (end : ℕ) → Uio → Option (IoResult D) → Type 0
Writes end uio none = ⊥
Writes end uio (some r) =
    Advances uio r.uio
    × (r.error ≢ 0 → r.uio ≡ uio)
    × (r.uio.uio_loffset ≢ uio.uio_loffset → Invalidated end r.uio.uio_loffset r.node)

wrote-Invalidated :
    (end : ℕ) (uio : Uio) (np : FuseNode) → Invalidated end uio.uio_loffset (wrote end uio np)
unfolding wrote
wrote-Invalidated end uio np = (refl, refl, ground arith)

module _ {D : Type 0} (door : Door D) (u : Uiomove) (laws : UiomoveLaws u) (ssn : Ssn) where
  stops-Writes :
      (end : ℕ) (uio : Uio) (e : ℕ) (np : FuseNode) (d : D)
      → Writes end uio (some (record { error = e; uio = uio; node = np; daemon = d }))
  stops-Writes end uio e np d = ((refl, omega arith), (λ _. refl), λ moved. absurd (moved refl))

  write_done-Writes :
      (ioflag : IoFlag) (end cut : ℕ) (uio : Uio) (np : FuseNode) (r : Option (ℕ × Uio × D))
      → cut ≤ uio.uio_resid
      → LoopResult r (cut_resid cut uio)
      → Writes end uio (write_done door u ssn ioflag end (uio.uio_resid - cut) cut np r)
  unfolding write_done
  write_done-Writes ioflag end cut uio np none fits h = h
  write_done-Writes ioflag end cut uio np (some (error, uio', d)) fits (moved, falls) =
      if_branches (Writes {D = D} end uio) (suppress (uio.uio_resid - cut) error uio' == 0) _ _
        (λ done. (
          (omega (arith, moved, fits), omega (arith, falls, fits)),
          (λ e. absurd (e refl)),
          λ m. wrote-Invalidated end uio' np,
        ))
        (λ failed.
          let kept = suppress-kept (uio.uio_resid - cut) error uio' (ground (arith, failed)) in
          let same =
            uio_same (undo_resid cut uio') uio (omega (arith, moved, kept, fits))
              (omega (arith, kept, fits)) in
          (
            (omega (arith, moved, fits), omega (arith, falls, fits)),
            (λ e. same),
            λ m. absurd (m (ap (λ x. x.uio_loffset) same)),
          ))

  module _ (max_positive : 0 < ssn.ss_max_iosize) (max_small : ssn.ss_max_iosize < 2 ^ 32) where
    pub write_locked-Writes :
        (fuel : ℕ) (ioflag : IoFlag) (c : IoCaller) (cut : ℕ) (uio : Uio) (np : FuseNode) (d : D)
        → c.interrupted ≡ false
        → cut ≤ uio.uio_resid
        → uio.uio_resid < fuel
        → Writes c.end uio (write_locked door u ssn fuel ioflag c cut (cut_resid cut uio) np d)
    unfolding write_locked
    write_locked-Writes fuel ioflag c cut uio np d calm fits enough = rw calm (
        if_branches (Writes {D = D} c.end uio) (fid_valid np ssn) _ _
          (λ _. write_done-Writes ioflag c.end cut uio np _ fits (
            io_loop-LoopResult _ (call_write-CallLaw door u laws np.n_fid np.n_rpath) fuel
              ssn.ss_max_iosize 0 (cut_resid cut uio) d max_positive max_small
              (omega (arith, enough))))
          (λ _. (
            (omega (arith, fits), omega (arith, fits)),
            (λ _. uio_same _ uio refl (omega (arith, fits))),
            λ m. absurd (m refl),
          )))

    -- From the offset of the uio, with the attributes seen to.
    pub write_from-Writes :
        (fuel : ℕ) (ioflag : IoFlag) (c : IoCaller) (llimit : ℕ) (uio : Uio) (np : FuseNode) (d : D)
        → c.interrupted ≡ false
        → uio.uio_resid < fuel
        → Writes c.end uio (write_from door u ssn fuel ioflag c llimit uio np d)
    unfolding write_from
    write_from-Writes fuel ioflag c llimit uio np d calm enough =
        if_branches (Writes {D = D} c.end uio) (leb (2 ^ 63) (uio.uio_loffset + uio.uio_resid)) _ _
          (λ _. stops-Writes c.end uio einval np d)
          (λ _.
            if_branches (Writes {D = D} c.end uio) (leb (write_limit llimit) uio.uio_loffset) _ _
              (λ _. stops-Writes c.end uio efbig np d)
              (λ inside.
                write_locked-Writes fuel ioflag c
                  (past (uio.uio_loffset + uio.uio_resid) (write_limit llimit)) uio np d calm
                  (ground (arith, inside)) enough))

    -- With a uiomove that behaves and a transfer size that is positive and fits 32 bits, a fusefs_write
    -- that does not append ends when it has more fuel than there are bytes to write. Unless a signal
    -- ends its wait for r_lkserlock, the offset of the uio has gone on by exactly what its residue
    -- fell; when it returns an error, the uio is as it was; and when it has moved anything, the
    -- cached attributes are expired, the change is noted, and the local size reaches the offset.
    pub write-Writes :
        (iftovt : ℕ → ℕ) (fmi : Mount) (fuel : ℕ) (ioflag : IoFlag) (c : IoCaller) (llimit : ℕ)
        (uio : Uio) (np : FuseNode) (d : D)
        → ioflag.fappend ≡ false
        → c.interrupted ≡ false
        → uio.uio_resid < fuel
        → Writes c.end uio (fusefs_write door u ssn iftovt fmi fuel ioflag c llimit uio np d)
    unfolding fusefs_write
    write-Writes iftovt fmi fuel ioflag c llimit uio np d places calm enough =
        if_branches (Writes {D = D} c.end uio) (c.wrong_zone || c.dead) _ _
          (λ _. stops-Writes c.end uio eio np d)
          (λ _.
            if_branches (Writes {D = D} c.end uio) (not (np.v_type == vreg)) _ _
              (λ _. stops-Writes c.end uio eisdir np d)
              (λ _.
                if_branches (Writes {D = D} c.end uio) (uio.uio_resid == 0) _ _
                  (λ _. stops-Writes c.end uio 0 np d)
                  (λ _.
                    if_branches (Writes {D = D} c.end uio) ioflag.fappend _ _
                      (λ appends. absurd (ground (arith, places, appends)))
                      (λ _.
                        write_from-Writes fuel ioflag c llimit uio (write_node ioflag c np) d calm
                          enough))))
