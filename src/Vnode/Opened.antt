-- ===== src/Vnode/Opened.antt =====
-- The operations on open files of usr/src/uts/common/fs/fusefs/fusefs_vnops.c, as operations of a world with their locks
-- and the assertions on them: fusefs_open, fusefs_close, fusefs_inactive, fusefs_read and fusefs_write. What they do
-- to the file is in File.Open and File.Data, the parts of which run between the locks; what is left of the uio is
-- there too.
use illumos_fuse.Door.Errno.{eio, eacces, einval, eisdir, efbig}
use illumos_fuse.Calls.{CallResult, ok, err}
use illumos_fuse.Calls.Transfer.{Uio, Uiomove}
use illumos_fuse.File.{vreg, vdir, FuseNode}
use illumos_fuse.File.Data.{
  IoFlag, IoResult, IoCaller, past, cut_resid, read_locked, write_locked, write_limit,
}
use illumos_fuse.File.Open.{OpenFlag, open_locked, fusefs_rele_fid}
use illumos_fuse.Node.Cache.{fusefs_addfree}
use illumos_fuse.RwLock.{reader, writer}
use illumos_fuse.Vnode.{
  rwlock, lkserlock, holds_reader, holds_writer, World, Env, Op, file, ret, gets, modify, attempt,
  from_result, fail_if, fail_code, assert, raise, in_lock, with_lock, check_mount, ◌>>=◌, ◌>>◌,
}
use illumos_fuse.Vnode.Other.{fusefs_rwlock, fusefs_rwunlock}
use illumos_fuse.Vnode.Steps.{set_file, set_cache, v_type_of, attrcache_remove, getattr}
use illumos_fuse.Prelude.{
  ℕ, suc, ◌+◌, ◌^◌, Bool, false, not, ◌&&◌, ◌||◌, Option, none, some, ltb, leb, ◌==◌, if◌then◌else◌,
}

module _ {D : Type 0} (env : Env D) where
  abbrev pub store_file : ℕ → FuseNode × D → World D → World D
  store_file np r w = record (set_file w np r.0) { daemon = r.1 }

  -- From the lock to `out:`
  unfoldable pub open_body : OpenFlag → ℕ → Op D (Unit {0})
  unfolding set_file
  open_body flag np = do
    r ← gets (λ w. open_locked env.door env.ssn flag (file w np) w.daemon)
    modify (store_file np (r.1, r.2))
    fail_code r.0

  unfoldable pub open_file : OpenFlag → ℕ → Op D (Unit {0})
  unfolding open_body check_mount with_lock v_type_of
  open_file flag np = do
    check_mount env eio
    vtype ← v_type_of np
    fail_if (not (vtype == vreg) && not (vtype == vdir)) eacces
    with_lock env (lkserlock np) writer (open_body flag np)

  -- fusefs_rele_fid, with its assertion on the lock
  unfoldable pub rele_fid : ℕ → Op D (Unit {0})
  unfolding set_file
  rele_fid np = do
    assert (holds_writer (lkserlock np))
    r ← gets (λ w. fusefs_rele_fid env.door env.ssn (env.gethrtime w) (file w np) w.daemon)
    modify (store_file np r)

  unfoldable pub close_file : (count : ℕ) → ℕ → Op D (Unit {0})
  unfolding rele_fid in_lock
  close_file count np = do
    fail_if env.wrong_zone eio
    if ltb 1 count then ret tt else in_lock (lkserlock np) writer (rele_fid np)

  -- "Force last close."
  unfoldable pub last_rele : ℕ → Op D (Unit {0})
  unfolding rele_fid set_file
  last_rele np = do
    refs ← gets (λ w. (file w np).n_fidrefs)
    if refs == 0
        then ret tt
        else (modify (λ w. set_file w np (record (file w np) { n_fidrefs = 1 })) >> rele_fid np)

  unfoldable pub inactive_file : ℕ → Op D (Unit {0})
  unfolding last_rele in_lock set_cache
  inactive_file np = do
    in_lock (lkserlock np) writer (last_rele np)
    modify (λ w. set_cache w (fusefs_addfree env.nfusenode np w.cache))

  -- What a read or a write does to the file; `none`: its fuel ends.
  unfoldable pub io_done :
      ℕ → World D → Option (IoResult D) → Option (CallResult (Unit {0}) × World D)
  unfolding set_file
  io_done np w none = none
  io_done np w (some r) =
      some (if r.error == 0 then ok tt else err r.error, store_file np (r.node, r.daemon) w)

  unfoldable pub io_body : (ℕ → FuseNode → D → Option (IoResult D)) → ℕ → Op D (Unit {0})
  unfolding io_done
  io_body io np w = io_done np w (io (env.gethrtime w) (file w np) w.daemon)

  -- The wait for the lock is over when the loop runs.
  abbrev pub no_wait : (end : ℕ) → IoCaller
  no_wait end = record {
    wrong_zone = false;
    dead = false;
    attr_interrupted = false;
    interrupted = false;
    start = end;
    now = end;
    later = end;
    end = end;
  }

  module _ (u : Uiomove) where
    unfoldable pub read_within : Uio → (va_size : ℕ) → ℕ → Op D (Unit {0})
    unfolding io_body with_lock
    read_within uio va_size np =
        let past_eof = past (uio.uio_loffset + uio.uio_resid) va_size in
        if leb va_size uio.uio_loffset
        then ret tt
        else with_lock env (lkserlock np) reader (
            io_body
              (λ now file d.
                read_locked env.door u env.ssn (suc uio.uio_resid) false past_eof
                  (cut_resid past_eof uio) file d)
              np)

    unfoldable pub read_file : Uio → ℕ → Op D (Unit {0})
    unfolding read_within check_mount getattr v_type_of
    read_file uio np = do
      check_mount env eio
      assert (holds_reader (rwlock np))
      vtype ← v_type_of np
      fail_if (not (vtype == vreg)) eisdir
      if uio.uio_resid == 0 then ret tt else do
        fail_if (leb (2 ^ 63) (uio.uio_loffset + uio.uio_resid)) einval
        va ← getattr env np
        read_within uio va.va_size np

    unfoldable pub write_within : IoFlag → (llimit : ℕ) → Uio → ℕ → Op D (Unit {0})
    unfolding io_body with_lock
    write_within ioflag llimit uio np =
        let past_limit = past (uio.uio_loffset + uio.uio_resid) (write_limit llimit) in
        if leb (write_limit llimit) uio.uio_loffset
        then raise efbig
        else with_lock env (lkserlock np) reader (
            io_body
              (λ now file d.
                write_locked env.door u env.ssn (suc uio.uio_resid) ioflag (no_wait now) past_limit
                  (cut_resid past_limit uio) file d)
              np)

    -- With the offset at which the write starts
    unfoldable pub write_at : IoFlag → (llimit : ℕ) → Uio → ℕ → Op D (Unit {0})
    unfolding write_within
    write_at ioflag llimit uio np = do
      fail_if (leb (2 ^ 63) (uio.uio_loffset + uio.uio_resid)) einval
      write_within ioflag llimit uio np

    unfoldable pub append_file : IoFlag → (llimit : ℕ) → Uio → ℕ → Op D (Unit {0})
    unfolding write_at getattr
    append_file ioflag llimit uio np = do
      va ← getattr env np
      write_at ioflag llimit (record uio { uio_loffset = va.va_size }) np

    unfoldable pub write_file : IoFlag → (llimit : ℕ) → Uio → ℕ → Op D (Unit {0})
    unfolding append_file write_at check_mount attrcache_remove v_type_of
    write_file ioflag llimit uio np = do
      check_mount env eio
      assert (holds_writer (rwlock np))
      vtype ← v_type_of np
      fail_if (not (vtype == vreg)) eisdir
      if uio.uio_resid == 0 then ret tt else do
        if ioflag.fappend || ioflag.fsync then attrcache_remove env np else ret tt
        if ioflag.fappend then append_file ioflag llimit uio np else write_at ioflag llimit uio np

  -- An operation with VOP_RWLOCK before it and VOP_RWUNLOCK after it
  unfoldable pub with_rwlock : (write_lock : Bool) → ℕ → Op D (Unit {0}) → Op D (Unit {0})
  unfolding fusefs_rwlock fusefs_rwunlock
  with_rwlock write_lock np body = do
    taken ← fusefs_rwlock env write_lock np
    r ← attempt body
    fusefs_rwunlock env np
    from_result r
