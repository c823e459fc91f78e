-- ===== src/Vnode/Safety/Opened.antt =====
-- The operations on open files return, and keep the locks.
use illumos_fuse.Door.Errno.{eio, einval, eisdir, efbig}
use illumos_fuse.Calls.{CallResult}
use illumos_fuse.Calls.Transfer.{Uio, Uiomove, UiomoveLaws}
use illumos_fuse.File.{vreg, FuseNode}
use illumos_fuse.File.Data.{IoFlag, IoResult, past, write_limit}
use illumos_fuse.File.Data.Read.{Reads, read_locked-Reads}
use illumos_fuse.File.Data.Write.{Writes, write_locked-Writes}
use illumos_fuse.File.Open.{OpenFlag}
use illumos_fuse.RwLock.{reader, writer}
use illumos_fuse.Vnode.{
  rwlock, lkserlock, Held, holds_reader, holds_writer, World, Env, Op, locked, ret, modify,
}
use illumos_fuse.Vnode.Opened.{
  store_file, open_body, open_file, rele_fid, close_file, last_rele, inactive_file, io_done,
  io_body, no_wait, read_within, read_file, write_within, write_at, append_file, write_file,
  with_rwlock,
}
use illumos_fuse.Vnode.Keeps.{
  Moved, Keeps, Keeps-bind, Keeps-modify, Keeps-assert, Keeps-test, Keeps-ret, Keeps-raise,
  Moves-bind, Moves-enter, Moves-locked, Keeps-with_lock, Keeps-fail_if, Keeps-gets, Keeps-if,
  Keeps-in_lock, Keeps-check_mount,
}
use illumos_fuse.Vnode.Steps.{set_file, set_cache}
use illumos_fuse.Vnode.Keeps.Steps.{step_rules, Keeps-getattr, Keeps-v_type, Keeps-attrcache_remove}
use illumos_fuse.Vnode.Other.{fusefs_rwlock, fusefs_rwunlock, rwlock_kind}
use illumos_fuse.Vnode.Safety.Listing.{holds-writer}
use illumos_fuse.Prelude.{
  ℕ, suc, ◌+◌, ◌^◌, ◌<◌, ◌≡◌, refl, ◌≢◌, Bool, true, not, ◌||◌, Option, none, some, ◌∷◌, arith, ltb,
  leb, ◌==◌, if_branches,
}

module _ {D : Type 0} (env : Env D) {held : Held} where
  Keeps-store : (np : ℕ) (r : FuseNode × D) → Keeps held (modify (store_file env np r))
  unfolding set_file
  Keeps-store np r = Keeps-modify (store_file env np r) (λ w. refl)

  Keeps-open_body : (flag : OpenFlag) (np : ℕ) → Keeps held (open_body env flag np)
  unfolding open_body
  Keeps-open_body flag np = search (step_rules, Keeps-store) depth 12

module _ {D : Type 0} (env : Env D) (held : Held) where
  pub Keeps-open : (flag : OpenFlag) (np : ℕ) → Keeps held (open_file env flag np)
  unfolding open_file
  Keeps-open flag np = search (step_rules, Keeps-open_body) depth 16

module _ {D : Type 0} (env : Env D) (held : Held) (np : ℕ)
    (locked_fid : holds_writer (lkserlock np) held ≡ true) where
  Keeps-rele_fid : Keeps held (rele_fid env np)
  unfolding rele_fid
  Keeps-rele_fid =
      Keeps-bind _ _ (Keeps-assert (holds_writer (lkserlock np)) locked_fid)
        (λ _. search (step_rules, Keeps-store) depth 12)

  Keeps-last_rele : Keeps held (last_rele env np)
  unfolding last_rele set_file
  Keeps-last_rele = Keeps-bind _ _ (Keeps-gets _) (λ refs.
      Keeps-if (refs == 0) _ _ (Keeps-ret tt)
        (Keeps-bind _ _ (Keeps-modify _ (λ w. refl)) (λ _. Keeps-rele_fid)))

module _ {D : Type 0} (env : Env D) (held : Held) (np : ℕ) where
  pub Keeps-close : (count : ℕ) → Keeps held (close_file env count np)
  unfolding close_file
  Keeps-close count = Keeps-bind _ _ (Keeps-fail_if env.wrong_zone eio) (λ _.
      Keeps-if (ltb 1 count) _ _ (Keeps-ret tt) (
        Keeps-in_lock (lkserlock np) writer (rele_fid env np)
          (Keeps-rele_fid env _ np (holds-writer (lkserlock np) held))))

  pub Keeps-inactive_file : Keeps held (inactive_file env np)
  unfolding inactive_file set_cache
  Keeps-inactive_file =
      Keeps-bind _ _
        (Keeps-in_lock (lkserlock np) writer (last_rele env np)
          (Keeps-last_rele env _ np (holds-writer (lkserlock np) held)))
        (λ _. Keeps-modify _ (λ w. refl))

-- A read or a write of the file that ends, with any locks
io_done-Moved :
    {D : Type 0} (env : Env D) (held : Held) (np : ℕ) (w : World D) (o : Option (IoResult D))
    → (o ≢ none)
    → w.held ≡ held
    → Moved held held (io_done env np w o)
unfolding io_done set_file
io_done-Moved env held np w none ends h = absurd (ends refl)
io_done-Moved env held np w (some r) ends h =
    if_branches {X = CallResult (Unit {0})}
      (λ x. Moved held held (some (x, store_file env np (r.node, r.daemon) w))) (r.error == 0) _ _
      (λ _. h) (λ _. h)

Keeps-io_body :
    {D : Type 0} (env : Env D) (held : Held) (io : ℕ → FuseNode → D → Option (IoResult D)) (np : ℕ)
    → ((now : ℕ) (file : FuseNode) (d : D) → io now file d ≢ none)
    → Keeps held (io_body env io np)
unfolding io_body
Keeps-io_body env held io np ends = record {
  at = λ w h. io_done-Moved env held np w _ (ends _ _ _) h;
}

Reads-ends : {D : Type 0} (uio : Uio) (o : Option (IoResult D)) → Reads uio o → o ≢ none
Reads-ends uio none h = absurd h
Reads-ends uio (some r) h = λ e. absurd (ground (arith, e))

Writes-ends :
    {D : Type 0} (end : ℕ) (uio : Uio) (o : Option (IoResult D)) → Writes end uio o → o ≢ none
Writes-ends end uio none h = absurd h
Writes-ends end uio (some r) h = λ e. absurd (ground (arith, e))

module _ {D : Type 0} (env : Env D) (u : Uiomove) (laws : UiomoveLaws u)
    (positive : 0 < env.ssn.ss_max_iosize) (small : env.ssn.ss_max_iosize < 2 ^ 32)
    {held : Held} where
  Keeps-read_within : (uio : Uio) (va_size np : ℕ) → Keeps held (read_within env u uio va_size np)
  unfolding read_within
  Keeps-read_within uio va_size np =
      Keeps-test (leb va_size uio.uio_loffset) _ _ (λ _. Keeps-ret tt)
        (λ inside. Keeps-with_lock env (lkserlock np) reader _ (
          Keeps-io_body env _ _ np (λ now file d. Reads-ends uio _ (
            read_locked-Reads env.door u laws env.ssn positive small (suc uio.uio_resid)
              (past (uio.uio_loffset + uio.uio_resid) va_size) uio file d (ground (arith, inside))
              (omega arith)))))

  Keeps-write_within :
      (ioflag : IoFlag) (llimit : ℕ) (uio : Uio) (np : ℕ)
      → Keeps held (write_within env u ioflag llimit uio np)
  unfolding write_within
  Keeps-write_within ioflag llimit uio np =
      Keeps-test (leb (write_limit llimit) uio.uio_loffset) _ _ (λ _. Keeps-raise efbig)
        (λ inside. Keeps-with_lock env (lkserlock np) reader _ (
          Keeps-io_body env _ _ np (λ now file d. Writes-ends now uio _ (
            write_locked-Writes env.door u laws env.ssn positive small (suc uio.uio_resid) ioflag
              (no_wait env now) (past (uio.uio_loffset + uio.uio_resid) (write_limit llimit)) uio
              file d refl (ground (arith, inside)) (omega arith)))))

  Keeps-write_at :
      (ioflag : IoFlag) (llimit : ℕ) (uio : Uio) (np : ℕ)
      → Keeps held (write_at env u ioflag llimit uio np)
  unfolding write_at
  Keeps-write_at ioflag llimit uio np =
      Keeps-bind _ _ (Keeps-fail_if _ einval) (λ _. Keeps-write_within ioflag llimit uio np)

  Keeps-append :
      (ioflag : IoFlag) (llimit : ℕ) (uio : Uio) (np : ℕ)
      → Keeps held (append_file env u ioflag llimit uio np)
  unfolding append_file
  Keeps-append ioflag llimit uio np =
      Keeps-bind _ _ (Keeps-getattr env np)
        (λ va. Keeps-write_at ioflag llimit (record uio { uio_loffset = va.va_size }) np)

  pub Keeps-read :
      (uio : Uio) (np : ℕ)
      → holds_reader (rwlock np) held ≡ true
      → Keeps held (read_file env u uio np)
  unfolding read_file
  Keeps-read uio np locked_file = Keeps-bind _ _ (Keeps-check_mount env eio) (λ _.
      Keeps-bind _ _ (Keeps-assert (holds_reader (rwlock np)) locked_file) (λ _.
        Keeps-bind _ _ (Keeps-v_type np) (λ vtype.
          Keeps-bind _ _ (Keeps-fail_if (not (vtype == vreg)) eisdir) (λ _.
            Keeps-if (uio.uio_resid == 0) _ _ (Keeps-ret tt) (
              Keeps-bind _ _ (Keeps-fail_if _ einval) (λ _.
                Keeps-bind _ _ (Keeps-getattr env np)
                  (λ va. Keeps-read_within uio va.va_size np)))))))

  pub Keeps-write :
      (ioflag : IoFlag) (llimit : ℕ) (uio : Uio) (np : ℕ)
      → holds_writer (rwlock np) held ≡ true
      → Keeps held (write_file env u ioflag llimit uio np)
  unfolding write_file
  Keeps-write ioflag llimit uio np locked_file = Keeps-bind _ _ (Keeps-check_mount env eio) (λ _.
      Keeps-bind _ _ (Keeps-assert (holds_writer (rwlock np)) locked_file) (λ _.
        Keeps-bind _ _ (Keeps-v_type np) (λ vtype.
          Keeps-bind _ _ (Keeps-fail_if (not (vtype == vreg)) eisdir) (λ _.
            Keeps-if (uio.uio_resid == 0) _ _ (Keeps-ret tt) (
              Keeps-bind _ _
                (Keeps-if (ioflag.fappend || ioflag.fsync) _ _ (Keeps-attrcache_remove env np)
                  (Keeps-ret tt))
                (λ _.
                  Keeps-if ioflag.fappend _ _ (Keeps-append ioflag llimit uio np)
                    (Keeps-write_at ioflag llimit uio np)))))))

-- VOP_RWLOCK, a body that keeps the locks, and VOP_RWUNLOCK
pub with_rwlock-Keeps :
    {D : Type 0} (env : Env D) (held : Held) (write_lock : Bool) (np : ℕ) (body : Op D (Unit {0}))
    → Keeps ((rwlock np, rwlock_kind env write_lock) ∷ held) body
    → Keeps held (with_rwlock env write_lock np body)
unfolding with_rwlock fusefs_rwlock fusefs_rwunlock locked ret
with_rwlock-Keeps env held write_lock np body k =
    Moves-bind held (fusefs_rwlock env write_lock np) _
      (Moves-bind _ _ _ (Moves-enter (rwlock np) (rwlock_kind env write_lock))
        (λ _ w h. (Keeps-ret write_lock).at w h))
      (λ _. Moves-locked (rwlock np) (rwlock_kind env write_lock) body k)
