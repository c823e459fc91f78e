-- ===== src/File/Data/Loop.antt =====
-- The loop of reads and writes: it ends, and keeps the books of the uio.
use illumos_fuse.Hash.{Bytes}
use illumos_fuse.Door.{Door, DoorRet, DoorArg, fuse_max_iosize}
use illumos_fuse.Calls.{CallResult, ok, err, door_call}
use illumos_fuse.Calls.Transfer.{
  Uio, Uiomove, UiomoveLaws, Transfer, fusefs_call_read, fusefs_call_write, finish_read,
  finish_write,
}
use illumos_fuse.File.Data.{io_loop, uint32_min}
use illumos_fuse.Prelude.{
  ℕ, zero, suc, ◌+◌, ◌-◌, ◌^◌, ◌≤◌, ◌<◌, ◌≡◌, refl, ◌∙◌, ◌≢◌, not, ◌||◌, Option, none, some, arith,
  ltb, ◌==◌, ◌∙◌, if_branches,
}

-- The uio after a transfer: the offset goes on by what the residue falls.
abbrev pub Advances : Uio → Uio → Type 0
Advances before after =
    (after.uio_loffset + after.uio_resid ≡ before.uio_loffset + before.uio_resid)
    × (after.uio_resid ≤ before.uio_resid)

-- What the loop relies on in a call.
pub record CallLaw {D : Type 0} (call : (len : ℕ) → Uio → D → Transfer D) : Type 0 where
  pub advances : (len : ℕ) (uio : Uio) (d : D) → Advances uio (call len uio d).uio
  pub progress :
      (len : ℕ) (uio : Uio) (d : D)
      → (call len uio d).error ≡ 0
      → len ≤ (call len uio d).rlen
      → (call len uio d).uio.uio_resid ≤ uio.uio_resid - len

abbrev pub LoopResult : {D : Type 0} → Option (ℕ × Uio × D) → Uio → Type 0
LoopResult none uio = ⊥
LoopResult (some r) uio = Advances uio r.1

LoopResult-after :
    {D : Type 0} (r : Option (ℕ × Uio × D)) (before between : Uio)
    → Advances before between
    → LoopResult r between
    → LoopResult r before
LoopResult-after none before between step h = h
LoopResult-after (some r) before between step h = (h.0 ∙ step.0, omega (arith, h.1, step.1))

min-bounds :
    (maxlen resid : ℕ)
    → 0 < maxlen
    → maxlen < 2 ^ 32
    → 0 < resid
    → (0 < uint32_min maxlen resid) × (uint32_min maxlen resid ≤ resid)
min-bounds maxlen resid positive small more = (ground arith, ground arith)

module _ {D : Type 0} (call : (len : ℕ) → Uio → D → Transfer D) (law : CallLaw call) where
  -- A loop with more fuel than there are bytes to move ends, and keeps the books of the uio.
  pub io_loop-LoopResult :
      (fuel maxlen error : ℕ) (uio : Uio) (d : D)
      → 0 < maxlen
      → maxlen < 2 ^ 32
      → uio.uio_resid < fuel
      → LoopResult (io_loop call fuel maxlen error uio d) uio
  unfolding io_loop
  io_loop-LoopResult zero maxlen error uio d positive small enough = absurd (omega (arith, enough))
  io_loop-LoopResult (suc fuel) maxlen error uio d positive small enough =
      if_branches (λ r. LoopResult {D = D} r uio) (uio.uio_resid == 0) _ _
        (λ _. (refl, omega arith))
        (λ more.
          if_branches (λ r. LoopResult {D = D} r uio)
            (not ((call (uint32_min maxlen uio.uio_resid) uio d).error == 0)
              || ltb (call (uint32_min maxlen uio.uio_resid) uio d).rlen
                  (uint32_min maxlen uio.uio_resid))
            _ _ (λ _. law.advances (uint32_min maxlen uio.uio_resid) uio d)
            (λ full.
              let len = uint32_min maxlen uio.uio_resid in
              let bounds = min-bounds maxlen uio.uio_resid positive small (ground (arith, more)) in
              let progress = law.progress len uio d (ground (arith, full)) (ground (arith, full)) in
              LoopResult-after _ uio (call len uio d).uio (law.advances len uio d) (
                io_loop-LoopResult fuel maxlen _ (call len uio d).uio _ positive small
                  (omega (arith, bounds, progress, enough)))))

-- The calls of fusefs_read and of fusefs_write have what the loop relies on, with a uiomove that
-- behaves.
module _ {D : Type 0} (door : Door D) (u : Uiomove) (laws : UiomoveLaws u) where
  -- A failed upcall has an error number.
  RealError : CallResult DoorRet × D → Type 0
  RealError (ok ret, d) = Unit {0}
  RealError (err e, d) = e ≢ 0

  door_call-RealError : (arg : DoorArg) (d : D) → RealError (door_call door arg d)
  unfolding door_call RealError
  door_call-RealError arg d = ground arith

  abbrev StepLaw : ℕ → Uio → Transfer D → Type 0
  StepLaw len uio t =
      Advances uio t.uio × (t.error ≡ 0 → len ≤ t.rlen → t.uio.uio_resid ≤ uio.uio_resid - len)

  finish_read-law :
      (len : ℕ) (uio : Uio) (r : CallResult DoorRet × D)
      → RealError r
      → StepLaw len uio (finish_read door u len uio r)
  unfolding finish_read RealError
  finish_read-law len uio (err e, d) real = ((refl, omega arith), λ h l. absurd (real h))
  finish_read-law len uio (ok ret, d) real =
      let m = laws.moves_in ret.ret_content ret.ret_length uio in
      ((m.moved, m.falls), λ h l. omega (arith, m.complete h, l))

  finish_write-uio :
      (len : ℕ) (uio : Uio) (r : CallResult DoorRet × D) → (finish_write door u len uio r).uio ≡ uio
  unfolding finish_write
  finish_write-uio len uio (err e, d) = refl
  finish_write-uio len uio (ok ret, d) = refl

  written-law :
      (len : ℕ) (uio : Uio) (r : CallResult DoorRet × D)
      → (u.move_out len uio).0 ≡ 0
      → StepLaw len uio (finish_write door u len (u.move_out len uio).2 r)
  written-law len uio r rc =
      let m = laws.moves_out len uio in
      let same = finish_write-uio len (u.move_out len uio).2 r in
      rw same ((m.moved, m.falls), λ h l. omega (arith, m.complete rc))

  refused-law :
      (len e : ℕ) (uio uio' : Uio) (d : D)
      → (e ≢ 0)
      → Advances uio uio'
      → StepLaw len uio (record { error = e; rlen = len; uio = uio'; daemon = d })
  refused-law len e uio uio' d real advances = (advances, λ h l. absurd (real h))

  call_read-law :
      (fid len : ℕ) (rpath : Bytes) (uio : Uio) (d : D)
      → StepLaw len uio (fusefs_call_read door u fid len uio rpath d)
  unfolding fusefs_call_read
  call_read-law fid len rpath uio d =
      if_branches (StepLaw len uio) (ltb fuse_max_iosize len) _ _
        (λ _. refused-law len _ uio uio d (ground arith) (refl, omega arith))
        (λ _. finish_read-law len uio _ (door_call-RealError _ d))

  call_write-law :
      (fid len : ℕ) (rpath : Bytes) (uio : Uio) (d : D)
      → StepLaw len uio (fusefs_call_write door u fid len uio rpath d)
  unfolding fusefs_call_write
  call_write-law fid len rpath uio d =
      let m = laws.moves_out len uio in
      if_branches (StepLaw len uio) (ltb fuse_max_iosize len) _ _
        (λ _. refused-law len _ uio uio d (ground arith) (refl, omega arith))
        (λ _.
          if_branches (StepLaw len uio) ((u.move_out len uio).0 == 0) _ _
            (λ rc. written-law len uio _ (ground (arith, rc)))
            (λ rc. refused-law len _ uio _ d (ground (arith, rc)) (m.moved, m.falls)))

  pub call_read-CallLaw :
      (fid : ℕ) (rpath : Bytes) → CallLaw (λ len uio d. fusefs_call_read door u fid len uio rpath d)
  call_read-CallLaw fid rpath = record {
    advances = λ len uio d. (call_read-law fid len rpath uio d).0;
    progress = λ len uio d. (call_read-law fid len rpath uio d).1;
  }

  pub call_write-CallLaw :
      (fid : ℕ) (rpath : Bytes)
      → CallLaw (λ len uio d. fusefs_call_write door u fid len uio rpath d)
  call_write-CallLaw fid rpath = record {
    advances = λ len uio d. (call_write-law fid len rpath uio d).0;
    progress = λ len uio d. (call_write-law fid len rpath uio d).1;
  }
