-- ===== src/Calls/Ops/Bounds.antt =====
-- No call overruns the buffers of its argument, and none reports success without the daemon's.
use illumos_fuse.Hash.{Bytes}
use illumos_fuse.Door.{
  DoorArg, generic_arg, fid_arg, path_arg, path2_arg, read_arg, write_arg, ftrunc_arg, utimes_arg,
  DoorRet, Door, Opcode, op_rename, maxpathlen, fuse_max_iosize,
}
use illumos_fuse.Door.Errno.{enametoolong, efault}
use illumos_fuse.Calls.{
  CallResult, ok, err, on_ok, door_call, readdir_entry, readdir_result, fusefs_call_init,
  fusefs_call_statvfs, fusefs_call_fgetattr, fusefs_call_closedir, fusefs_call_close,
  fusefs_call_flush, fusefs_call_readdir,
}
use illumos_fuse.Calls.Files.{
  whole_path_call, two_part_call, fusefs_call_getattr, fusefs_call_opendir, fusefs_call_open,
  fusefs_call_getattr2, fusefs_call_create, fusefs_call_mkdir, fusefs_call_chmod, fusefs_call_chown,
  fusefs_call_delete, fusefs_call_rmdir, fusefs_call_ftruncate, fusefs_call_rename,
  fusefs_call_utimes,
}
use illumos_fuse.Calls.Transfer.{
  Uio, Uiomove, finish_read, finish_write, fusefs_call_read, fusefs_call_write,
}
use illumos_fuse.Calls.Paths.{memcpy_string, clip_pathlen, two_part_len, two_part_path}
use illumos_fuse.Calls.Ops.{
  FuseCall, calls_init, calls_statvfs, calls_fgetattr, calls_closedir, calls_close, calls_flush,
  calls_readdir, calls_getattr, calls_opendir, calls_delete, calls_rmdir, calls_open, calls_chmod,
  calls_chown, calls_getattr2, calls_mkdir, calls_create, calls_rename, calls_ftruncate,
  calls_utimes, calls_read, calls_write, outcome, transfer_outcome, run_call,
}
use illumos_fuse.Prelude.{
  ℕ, ◌+◌, ◌≤◌, ◌<◌, ◌≡◌, refl, ◌∙◌, ◌≢◌, ◌⊎◌, inl, inr, false, [], ◌∷◌, ◌++◌, arith, ltb, leb, ◌==◌,
  length, length-append, length-take, ◌∙◌, if_branches,
}

-- A path in a buffer of MAXPATHLEN bytes, with a length below that.
abbrev pub PathFits : ℕ → Bytes → Type 0
PathFits pathlen path = (pathlen < maxpathlen) × (length path ≤ maxpathlen)

abbrev pub ArgFits : DoorArg → Type 0
ArgFits (generic_arg op flags) = Unit {0}
ArgFits (fid_arg op fid) = Unit {0}
ArgFits (path_arg op a b pathlen path) = PathFits pathlen path
ArgFits (path2_arg op l₁ l₂ path1 path2) = PathFits l₁ path1 × PathFits l₂ path2
ArgFits (read_arg op fid offset len pathlen path) = (len ≤ fuse_max_iosize) × PathFits pathlen path
ArgFits (write_arg op fid offset len pathlen path content) =
    (len ≤ fuse_max_iosize) × PathFits pathlen path
ArgFits (ftrunc_arg fid offset pathlen path) = PathFits pathlen path
ArgFits (utimes_arg a b c e pathlen path) = PathFits pathlen path

two_part_path-fits :
    (dname cname : Bytes)
    → leb maxpathlen (two_part_len dname cname) ≡ false
    → PathFits (two_part_len dname cname) (two_part_path dname cname)
unfolding two_part_len two_part_path
two_part_path-fits dname cname h =
    (ground arith, ground (arith, length-append dname cname, length-append dname (b'/' ∷ cname)))

clip_pathlen-lt : (n : ℕ) → clip_pathlen n < maxpathlen
unfolding clip_pathlen
clip_pathlen-lt n = ground arith

memcpy_string-fits :
    (rpath : Bytes)
    → PathFits (clip_pathlen (length rpath)) (memcpy_string (clip_pathlen (length rpath) + 1) rpath)
unfolding memcpy_string
memcpy_string-fits rpath = (
  clip_pathlen-lt (length rpath),
  omega (
    arith,
    length-take (clip_pathlen (length rpath) + 1) (rpath ++ 0 ∷ []),
    clip_pathlen-lt (length rpath),
  ),
)

enametoolong-is_error : enametoolong ≢ 0
enametoolong-is_error = ground arith

efault-is_error : efault ≢ 0
efault-is_error = ground arith

module _ {D : Type 0} (door : Door D) (uiomove : Uiomove) where
  -- A call that fails without asking the daemon, or asks it once, with an argument that fits, and
  -- succeeds only if the upcall and the daemon both do.
  abbrev pub AsksOnce : D → ℕ × D → Type 0
  AsksOnce d r =
      ((r.1 ≡ d) × (r.0 ≢ 0))
      ⊎ ((arg : DoorArg) × ArgFits arg
          × (r.1 ≡ (door arg d).2)
          × (r.0 ≡ 0 → ((door arg d).0 ≡ 0) × ((door arg d).1.ret_err ≡ 0)))

  door_call-daemon : (arg : DoorArg) (d : D) → (door_call door arg d).1 ≡ (door arg d).2
  unfolding door_call
  door_call-daemon arg d = ground arith

  door_call-success :
      (arg : DoorArg) (d : D)
      → (outcome (door_call door arg d)).0 ≡ 0
      → ((door arg d).0 ≡ 0) × ((door arg d).1.ret_err ≡ 0)
  unfolding door_call
  door_call-success arg d h = ground arith

  door_call-AsksOnce :
      {A : Type 0} (arg : DoorArg) (f : DoorRet → A) (d : D)
      → ArgFits arg
      → AsksOnce d (outcome (on_ok f (door_call door arg d)))
  unfolding door_call
  door_call-AsksOnce arg f d fits = inr (arg, fits, ground arith, ground arith)

  whole_path_call-AsksOnce :
      {A : Type 0} (op : Opcode) (val : ℕ) (rpath : Bytes) (f : DoorRet → A) (d : D)
      → AsksOnce d (outcome (on_ok f (whole_path_call door op val rpath d)))
  unfolding whole_path_call
  whole_path_call-AsksOnce op val rpath f d =
      if_branches (λ r. AsksOnce d (outcome (on_ok f r))) (leb maxpathlen (length rpath)) _ _
        (λ _. inl (refl, enametoolong-is_error))
        (λ h. door_call-AsksOnce _ f d (ground arith, ground arith))

  two_part_call-AsksOnce :
      {A : Type 0} (op : Opcode) (val : ℕ) (dname cname : Bytes) (f : DoorRet → A) (d : D)
      → AsksOnce d (outcome (on_ok f (two_part_call door op val dname cname d)))
  unfolding two_part_call
  two_part_call-AsksOnce op val dname cname f d =
      if_branches (λ r. AsksOnce d (outcome (on_ok f r)))
        (leb maxpathlen (two_part_len dname cname)) _ _ (λ _. inl (refl, enametoolong-is_error))
        (λ h. door_call-AsksOnce _ f d (two_part_path-fits dname cname h))

  -- A call that does more with the answer, and keeps the errors.
  called_then-AsksOnce :
      (arg : DoorArg) (then_do : CallResult DoorRet × D → ℕ × D) (d : D)
      → ArgFits arg
      → ((r : CallResult DoorRet × D) → (then_do r).1 ≡ r.1)
      → ((r : CallResult DoorRet × D) → (then_do r).0 ≡ 0 → (outcome r).0 ≡ 0)
      → AsksOnce d (then_do (door_call door arg d))
  called_then-AsksOnce arg then_do d fits same keeps = inr (
    arg,
    fits,
    same (door_call door arg d) ∙ door_call-daemon arg d,
    λ h. door_call-success arg d (keeps (door_call door arg d) h),
  )

  readdir-daemon : (r : CallResult DoorRet × D) → (outcome (readdir_result door r)).1 ≡ r.1
  unfolding readdir_result readdir_entry
  readdir-daemon (ok ret, d) = ground arith
  readdir-daemon (err e, d) = refl

  readdir-error :
      (r : CallResult DoorRet × D) → (outcome (readdir_result door r)).0 ≡ 0 → (outcome r).0 ≡ 0
  unfolding readdir_result readdir_entry
  readdir-error (ok ret, d) h = refl
  readdir-error (err e, d) h = h

  read-daemon :
      (rlen : ℕ) (uio : Uio) (r : CallResult DoorRet × D)
      → (transfer_outcome (finish_read door uiomove rlen uio r)).1 ≡ r.1
  unfolding finish_read
  read-daemon rlen uio (ok ret, d) = refl
  read-daemon rlen uio (err e, d) = refl

  read-error :
      (rlen : ℕ) (uio : Uio) (r : CallResult DoorRet × D)
      → (transfer_outcome (finish_read door uiomove rlen uio r)).0 ≡ 0
      → (outcome r).0 ≡ 0
  unfolding finish_read
  read-error rlen uio (ok ret, d) h = refl
  read-error rlen uio (err e, d) h = h

  write-daemon :
      (rlen : ℕ) (uio : Uio) (r : CallResult DoorRet × D)
      → (transfer_outcome (finish_write door uiomove rlen uio r)).1 ≡ r.1
  unfolding finish_write
  write-daemon rlen uio (ok ret, d) = refl
  write-daemon rlen uio (err e, d) = refl

  write-error :
      (rlen : ℕ) (uio : Uio) (r : CallResult DoorRet × D)
      → (transfer_outcome (finish_write door uiomove rlen uio r)).0 ≡ 0
      → (outcome r).0 ≡ 0
  unfolding finish_write
  write-error rlen uio (ok ret, d) h = refl
  write-error rlen uio (err e, d) h = h

  rename_arg : Bytes → Bytes → Bytes → DoorArg
  rename_arg oldpath dname cname =
      path2_arg op_rename (clip_pathlen (length oldpath)) (two_part_len dname cname)
        (memcpy_string (clip_pathlen (length oldpath) + 1) oldpath) (two_part_path dname cname)

  rename-AsksOnce :
      (oldpath dname cname : Bytes) (d : D)
      → AsksOnce d (outcome (fusefs_call_rename door oldpath dname cname d))
  unfolding fusefs_call_rename rename_arg
  rename-AsksOnce oldpath dname cname d =
      if_branches {X = CallResult (Unit {0}) × D} (λ r. AsksOnce d (outcome r))
        (leb maxpathlen (two_part_len dname cname)) (err enametoolong, d)
        (on_ok (λ ret. tt) (door_call door (rename_arg oldpath dname cname) d))
        (λ _. inl (refl, enametoolong-is_error))
        (λ h.
          door_call-AsksOnce (rename_arg oldpath dname cname) _ d
            (memcpy_string-fits oldpath, two_part_path-fits dname cname h))

  read-AsksOnce :
      (fid rlen : ℕ) (uio : Uio) (rpath : Bytes) (d : D)
      → AsksOnce d (transfer_outcome (fusefs_call_read door uiomove fid rlen uio rpath d))
  unfolding fusefs_call_read
  read-AsksOnce fid rlen uio rpath d =
      if_branches (λ r. AsksOnce d (transfer_outcome r)) (ltb fuse_max_iosize rlen) _ _
        (λ _. inl (refl, efault-is_error))
        (λ h.
          called_then-AsksOnce _ (λ r. transfer_outcome (finish_read door uiomove rlen uio r)) d
            (ground arith, memcpy_string-fits rpath) (read-daemon rlen uio) (read-error rlen uio))

  write-AsksOnce :
      (fid rlen : ℕ) (uio : Uio) (rpath : Bytes) (d : D)
      → AsksOnce d (transfer_outcome (fusefs_call_write door uiomove fid rlen uio rpath d))
  unfolding fusefs_call_write
  write-AsksOnce fid rlen uio rpath d =
      if_branches (λ r. AsksOnce d (transfer_outcome r)) (ltb fuse_max_iosize rlen) _ _
        (λ _. inl (refl, efault-is_error))
        (λ large.
          if_branches (λ r. AsksOnce d (transfer_outcome r)) ((uiomove.move_out rlen uio).0 == 0) _
            _
            (λ moved.
              called_then-AsksOnce _
                (λ r.
                  transfer_outcome (finish_write door uiomove rlen (uiomove.move_out rlen uio).2 r))
                d (ground arith, memcpy_string-fits rpath)
                (write-daemon rlen (uiomove.move_out rlen uio).2)
                (write-error rlen (uiomove.move_out rlen uio).2))
            (λ failed. inl (refl, ground arith)))

  -- For every door, every call either refuses with an error and leaves the daemon alone, or makes
  -- exactly one upcall. The lengths in the argument of that upcall fit its buffers: a path takes at
  -- most MAXPATHLEN bytes, a transfer at most FUSE_MAX_IOSIZE. The call reports success only if the
  -- upcall and the daemon's answer were both free of errors.
  pub run_call-AsksOnce : (c : FuseCall) (d : D) → AsksOnce d (run_call door uiomove c d)
  unfolding run_call
  run_call-AsksOnce (calls_init ssn want) d = unfold fusefs_call_init in door_call-AsksOnce _ _ d tt
  run_call-AsksOnce calls_statvfs d = unfold fusefs_call_statvfs in door_call-AsksOnce _ _ d tt
  run_call-AsksOnce (calls_fgetattr fid) d =
      unfold fusefs_call_fgetattr in door_call-AsksOnce _ _ d tt
  run_call-AsksOnce (calls_closedir fid) d =
      unfold fusefs_call_closedir in door_call-AsksOnce _ _ d tt
  run_call-AsksOnce (calls_close fid) d = unfold fusefs_call_close in door_call-AsksOnce _ _ d tt
  run_call-AsksOnce (calls_flush fid) d = unfold fusefs_call_flush in door_call-AsksOnce _ _ d tt
  run_call-AsksOnce (calls_readdir fid offset) d =
      unfold fusefs_call_readdir in
      called_then-AsksOnce _ (λ r. outcome (readdir_result door r)) d
        (ground arith, (ground arith, ground arith)) readdir-daemon readdir-error
  run_call-AsksOnce (calls_getattr rpath) d =
      unfold fusefs_call_getattr in whole_path_call-AsksOnce _ _ rpath _ d
  run_call-AsksOnce (calls_opendir rpath) d =
      unfold fusefs_call_opendir in whole_path_call-AsksOnce _ _ rpath _ d
  run_call-AsksOnce (calls_delete rpath) d =
      unfold fusefs_call_delete in door_call-AsksOnce _ _ d (memcpy_string-fits rpath)
  run_call-AsksOnce (calls_rmdir rpath) d =
      unfold fusefs_call_rmdir in door_call-AsksOnce _ _ d (memcpy_string-fits rpath)
  run_call-AsksOnce (calls_open rpath oflags) d =
      unfold fusefs_call_open in whole_path_call-AsksOnce _ _ rpath _ d
  run_call-AsksOnce (calls_chmod rpath mode) d =
      unfold fusefs_call_chmod in door_call-AsksOnce _ _ d (memcpy_string-fits rpath)
  run_call-AsksOnce (calls_chown rpath uid gid) d =
      unfold fusefs_call_chown in door_call-AsksOnce _ _ d (memcpy_string-fits rpath)
  run_call-AsksOnce (calls_getattr2 dname cname) d =
      unfold fusefs_call_getattr2 in two_part_call-AsksOnce _ _ dname cname _ d
  run_call-AsksOnce (calls_mkdir dname cname) d =
      unfold fusefs_call_mkdir in two_part_call-AsksOnce _ _ dname cname _ d
  run_call-AsksOnce (calls_create dname cname mode) d =
      unfold fusefs_call_create in two_part_call-AsksOnce _ _ dname cname _ d
  run_call-AsksOnce (calls_rename oldpath dname cname) d = rename-AsksOnce oldpath dname cname d
  run_call-AsksOnce (calls_ftruncate fid off rpath) d =
      unfold fusefs_call_ftruncate in door_call-AsksOnce _ _ d (memcpy_string-fits rpath)
  run_call-AsksOnce (calls_utimes rpath a t) d =
      unfold fusefs_call_utimes in door_call-AsksOnce _ _ d (memcpy_string-fits rpath)
  run_call-AsksOnce (calls_read fid rlen uio rpath) d = read-AsksOnce fid rlen uio rpath d
  run_call-AsksOnce (calls_write fid rlen uio rpath) d = write-AsksOnce fid rlen uio rpath d
