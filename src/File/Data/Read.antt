-- ===== src/File/Data/Read.antt =====
-- What fusefs_read leaves of the request.
use illumos_fuse.Door.{Door}
use illumos_fuse.Door.Errno.{eio, eisdir, einval}
use illumos_fuse.Calls.{CallResult, ok, err, Ssn}
use illumos_fuse.Calls.Transfer.{Uio, Uiomove, UiomoveLaws}
use illumos_fuse.File.{vreg, FuseNode, Mount, fid_valid}
use illumos_fuse.File.Attr.{Vattr, Otw, fusefsgetattr}
use illumos_fuse.File.Data.{
  IoResult, IoCaller, suppress, past, cut_resid, read_done, read_locked, read_sized, read_attr,
  fusefs_read,
}
use illumos_fuse.File.Data.Loop.{Advances, LoopResult, io_loop-LoopResult, call_read-CallLaw}
use illumos_fuse.Prelude.{
  ℕ, ◌+◌, ◌-◌, ◌^◌, ◌≤◌, ◌<◌, ◌≡◌, refl, ◌≢◌, false, not, ◌||◌, Option, none, some, arith, leb,
  ◌==◌, if_branches,
}

-- A read that is over: the offset goes on by what the residue falls, and an error is returned only
-- when nothing was transferred.
abbrev pub Reads : {D : Type 0} → Uio → Option (IoResult D) → Type 0
Reads uio none = ⊥
Reads uio (some r) = Advances uio r.uio × (r.error ≢ 0 → r.uio ≡ uio)

pub suppress-kept :
    (save error : ℕ) (uio : Uio) → (suppress save error uio ≢ 0) → save ≡ uio.uio_resid
unfolding suppress
suppress-kept save error uio h = ground (arith, h)

pub uio_same : (a b : Uio) → a.uio_loffset ≡ b.uio_loffset → a.uio_resid ≡ b.uio_resid → a ≡ b
uio_same a b p q = ground (arith, p, q)

module _ {D : Type 0} (door : Door D) (u : Uiomove) (laws : UiomoveLaws u) (ssn : Ssn) where
  -- `cut` of the request were taken off before the loop.
  read_done-Reads :
      (cut : ℕ) (uio : Uio) (np : FuseNode) (r : Option (ℕ × Uio × D))
      → cut ≤ uio.uio_resid
      → LoopResult r (cut_resid cut uio)
      → Reads uio (read_done door u ssn (uio.uio_resid - cut) cut np r)
  unfolding read_done suppress
  read_done-Reads cut uio np none fits h = h
  read_done-Reads cut uio np (some (error, uio', d)) fits (moved, falls) = (
    (omega (arith, moved, fits), omega (arith, falls, fits)),
    λ e.
        let kept = suppress-kept (uio.uio_resid - cut) error uio' e in
        uio_same _ uio (omega (arith, moved, kept, fits)) (omega (arith, kept, fits)),
  )

  stops-Reads :
      (uio : Uio) (e : ℕ) (np : FuseNode) (d : D)
      → Reads uio (some (record { error = e; uio = uio; node = np; daemon = d }))
  stops-Reads uio e np d = ((refl, omega arith), λ _. refl)

  module _ (max_positive : 0 < ssn.ss_max_iosize) (max_small : ssn.ss_max_iosize < 2 ^ 32) where
    pub read_locked-Reads :
        (fuel cut : ℕ) (uio : Uio) (np : FuseNode) (d : D)
        → cut ≤ uio.uio_resid
        → uio.uio_resid < fuel
        → Reads uio (read_locked door u ssn fuel false cut (cut_resid cut uio) np d)
    unfolding read_locked
    read_locked-Reads fuel cut uio np d fits enough =
        if_branches (Reads {D = D} uio) (fid_valid np ssn) _ _
          (λ _. read_done-Reads cut uio np _ fits (
            io_loop-LoopResult _ (call_read-CallLaw door u laws np.n_fid np.n_rpath) fuel
              ssn.ss_max_iosize 0 (cut_resid cut uio) d max_positive max_small
              (omega (arith, enough))))
          (λ _. (
            (omega (arith, fits), omega (arith, fits)),
            λ _. uio_same _ uio refl (omega (arith, fits)),
          ))

    read_sized-Reads :
        (fuel : ℕ) (c : IoCaller) (uio : Uio) (va_size : ℕ) (np : FuseNode) (d : D)
        → c.interrupted ≡ false
        → uio.uio_resid < fuel
        → Reads uio (read_sized door u ssn fuel c uio va_size np d)
    unfolding read_sized
    read_sized-Reads fuel c uio va_size np d calm enough =
        if_branches (Reads {D = D} uio) (leb va_size uio.uio_loffset) _ _
          (λ _. stops-Reads uio 0 np d)
          (λ inside. rw calm (
            read_locked-Reads fuel (past (uio.uio_loffset + uio.uio_resid) va_size) uio np d
              (ground (arith, inside)) enough))

    read_attr-Reads :
        (fuel : ℕ) (c : IoCaller) (uio : Uio) (answer : CallResult Vattr) (o : Otw Vattr D)
        → o.answer ≡ answer
        → c.interrupted ≡ false
        → uio.uio_resid < fuel
        → Reads uio (read_attr door u ssn fuel c uio o)
    unfolding read_attr
    read_attr-Reads fuel c uio (err e) o is calm enough = rw is (stops-Reads uio e o.node o.daemon)
    read_attr-Reads fuel c uio (ok va) o is calm enough =
        rw is (read_sized-Reads fuel c uio va.va_size o.node o.daemon calm enough)

    -- With a uiomove that behaves and a transfer size that is positive and fits 32 bits, fusefs_read
    -- ends when it has more fuel than there are bytes to read. Unless a signal ends its wait for
    -- r_lkserlock, the offset of the uio has gone on by exactly what its residue fell, and when it
    -- returns an error, the uio is as it was.
    pub read-Reads :
        (iftovt : ℕ → ℕ) (fmi : Mount) (fuel : ℕ) (c : IoCaller) (uio : Uio) (np : FuseNode) (d : D)
        → c.interrupted ≡ false
        → uio.uio_resid < fuel
        → Reads uio (fusefs_read door u ssn iftovt fmi fuel c uio np d)
    unfolding fusefs_read
    read-Reads iftovt fmi fuel c uio np d calm enough =
        if_branches (Reads {D = D} uio) (c.wrong_zone || c.dead) _ _ (λ _. stops-Reads uio eio np d)
          (λ _.
            if_branches (Reads {D = D} uio) (not (np.v_type == vreg)) _ _
              (λ _. stops-Reads uio eisdir np d)
              (λ _.
                if_branches (Reads {D = D} uio) (uio.uio_resid == 0) _ _
                  (λ _. stops-Reads uio 0 np d)
                  (λ _.
                    if_branches (Reads {D = D} uio) (leb (2 ^ 63) (uio.uio_loffset + uio.uio_resid))
                      _ _ (λ _. stops-Reads uio einval np d)
                      (λ _.
                        read_attr-Reads fuel c uio _
                          (fusefsgetattr door iftovt fmi ssn c.attr_interrupted c.now c.later np d)
                          refl calm enough))))
