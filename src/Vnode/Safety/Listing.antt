-- ===== src/Vnode/Safety/Listing.antt =====
-- fusefs_readdir ends, and keeps the locks.
use illumos_fuse.Hash.{Bytes}
use illumos_fuse.Door.{FuseStat, FuseDirent}
use illumos_fuse.Calls.{CallResult, ok, err, fusefs_call_readdir}
use illumos_fuse.RwLock.{reader, writer}
use illumos_fuse.Vnode.{
  Lock, rwlock, lkserlock, same_lock, Held, holds, holds_reader, holds_writer, Env, Op, file, gets,
  attempt, call, ret, ◌>>=◌,
}
use illumos_fuse.Vnode.Lookup.{fuse_maxfnamelen, fusefslookup}
use illumos_fuse.Vnode.Readdir.{
  DirUio, Copyout, DirLoop, dirent64_reclen, made_dirent, copied, entry_out, found_ino, entry_node,
  entry_ino, go_on, round_entry, loop_ends, readvdir_loop, readvdir_room, fusefs_readvdir,
  fusefs_readdir, int_u64,
}
use illumos_fuse.Door.Errno.{eio}
use illumos_fuse.Vnode.Access.{vread}
use illumos_fuse.Vnode.Keeps.{
  Keeps-fail_if, Keeps-check_mount, Keeps, Keeps-bind, Keeps-assert, Keeps-if, Keeps-test,
  Keeps-ret, Keeps-gets, same_lock_refl,
}
use illumos_fuse.Vnode.Keeps.Steps.{step_rules}
use illumos_fuse.Vnode.Safety.Names.{Keeps-access, Keeps-fusefslookup}
use illumos_fuse.Prelude.{
  ℕ, zero, suc, ◌≤◌, ◌<◌, ◌≡◌, inl, inr, Bool, true, false, [], ◌∷◌, arith, ◌==◌, Bool-cases, take,
  pos_part,
}

reader-held : (l : Lock) (held : Held) → holds_reader l held ≡ true → holds l held ≡ true
unfolding holds holds_reader
reader-held l [] h = h
reader-held l ((k, rw) ∷ held) h = ground (arith, h, reader-held l held)

pub holds-writer : (l : Lock) (held : Held) → holds_writer l ((l, writer) ∷ held) ≡ true
unfolding holds_writer
holds-writer l held = ground (arith, same_lock_refl l)

-- An entry that is moved out takes at least 24 bytes of the buffer.
pub reclen-pos : (n : ℕ) → 24 ≤ dirent64_reclen n
unfolding dirent64_reclen
reclen-pos n = omega arith

-- An entry that was copied out without an error has less room behind it.
entry-shorter :
    (uiomove : Copyout) (ino : ℕ) (de : FuseDirent) (eof : Bool) (st : DirLoop)
    → 0 < st.uio.uio_resid
    → (entry_out uiomove ino de eof st).0 ≡ 0
    → (entry_out uiomove ino de eof st).1.uio.uio_resid < st.uio.uio_resid
unfolding entry_out copied made_dirent
entry-shorter uiomove ino de eof st room done = ground (arith, done, room, reclen-pos de.d_nmlen)

module _ {D : Type 0} (env : Env D) (uiomove : Copyout) {held : Held} where
  Keeps-found_ino :
      (np : ℕ) (name : Bytes) (r : CallResult ℕ) → Keeps held (found_ino env uiomove np name r)
  unfolding found_ino
  Keeps-found_ino np name (ok vp) = search step_rules depth 12
  Keeps-found_ino np name (err e) = search step_rules depth 12

module _ {D : Type 0} (env : Env D) (uiomove : Copyout) (held : Held) (np : ℕ)
    (locked_dir : holds (rwlock np) held ≡ true) where
  find_dot : (name : Bytes) → Keeps held (fusefslookup env true np name)
  find_dot name = Keeps-fusefslookup env true np name locked_dir

  Keeps-entry_ino : (name : Bytes) (fa : FuseStat) → Keeps held (entry_ino env uiomove np name fa)
  unfolding entry_ino entry_node
  Keeps-entry_ino name fa = search (step_rules, find_dot, Keeps-found_ino) depth 12

  Keeps-go_on :
      (next : DirLoop → Op D (ℕ × DirLoop)) (r : ℕ × DirLoop)
      → (r.0 ≡ 0 → Keeps held (next r.1))
      → Keeps held (go_on env uiomove next r)
  unfolding go_on
  Keeps-go_on next (e, st) k =
      Keeps-test (e == 0) (next st) (ret (e, st)) (λ done. k (ground (arith, done)))
        (λ _. Keeps-ret (e, st))

  -- A round, when the rounds after it keep the locks.
  Keeps-round :
      (next : DirLoop → Op D (ℕ × DirLoop)) (st : DirLoop)
      → 0 < st.uio.uio_resid
      → ((st' : DirLoop) → st'.uio.uio_resid < st.uio.uio_resid → Keeps held (next st'))
      → (r : CallResult (FuseStat × FuseDirent × Bool))
      → Keeps held (round_entry env uiomove next np st r)
  unfolding round_entry
  Keeps-round next st room k (err e) = Keeps-ret (e, st)
  Keeps-round next st room k (ok (fa, de, eof)) = Keeps-if _ _ _ (Keeps-ret _) (
      Keeps-bind _ _ (Keeps-entry_ino (take de.d_nmlen de.d_name) fa) (λ ino.
        Keeps-go_on next (entry_out uiomove ino de eof st) (λ done.
          k (entry_out uiomove ino de eof st).1 (entry-shorter uiomove ino de eof st room done))))

  round_then :
      (fuel : ℕ) (st : DirLoop)
      → ((r : CallResult (FuseStat × FuseDirent × Bool))
          → Keeps held (round_entry env uiomove (readvdir_loop env uiomove fuel np) np st r))
      → Keeps held (do
        fid ← gets (λ w. (file w np).n_fid)
        entry ← attempt (call (fusefs_call_readdir env.door fid (int_u64 st.offset)))
        round_entry env uiomove (readvdir_loop env uiomove fuel np) np st entry)
  round_then fuel st k =
      Keeps-bind _ _ (Keeps-gets _) (λ fid. Keeps-bind _ _ (search step_rules depth 12) k)

  -- With more rounds than bytes, the loop ends by its test or by an error.
  Keeps-loop :
      (fuel : ℕ) (st : DirLoop)
      → st.uio.uio_resid < fuel
      → Keeps held (readvdir_loop env uiomove fuel np st)
  unfolding readvdir_loop
  Keeps-loop zero st h = absurd (omega (arith, h))
  Keeps-loop (suc fuel) st h = record {
    at = λ w at_call. elim (Bool-cases (loop_ends env uiomove st)) [
      | inl ends ↦ rw (ends) ((Keeps-ret (0, st)).at w at_call)
      | inr more ↦
          let room : 0 < st.uio.uio_resid = ground (arith, more, reclen-pos fuse_maxfnamelen) in
          rw (more) (
            (round_then fuel st (
                Keeps-round (readvdir_loop env uiomove fuel np) st room
                  (λ st' less. Keeps-loop fuel st' (omega (arith, h, less))))).at
              w at_call)
    ];
  }

  Keeps-readvdir_room : (uio : DirUio) → Keeps held (readvdir_room env uiomove np uio)
  unfolding readvdir_room
  Keeps-readvdir_room uio =
      let looped =
        Keeps-loop (suc uio.uio_resid)
          (record { offset = pos_part uio.uio_loffset; eof = false; uio = uio }) (omega arith) in
      Keeps-bind _ _ (Keeps-fail_if _ _) (λ _. Keeps-bind _ _ (Keeps-fail_if _ _) (λ _. looped))

  Keeps-readvdir :
      (uio : DirUio)
      → holds_writer (lkserlock np) held ≡ true
      → Keeps held (fusefs_readvdir env uiomove np uio)
  unfolding fusefs_readvdir
  Keeps-readvdir uio h =
      Keeps-bind _ _ (Keeps-assert _ h) (λ _. search (step_rules, Keeps-readvdir_room) depth 12)

-- For a thread that has the lock of the directory as a reader.
module _ {D : Type 0} (env : Env D) (uiomove : Copyout) (held : Held) (np : ℕ)
    (reading : holds_reader (rwlock np) held ≡ true) where
  readdir_inside :
      (uio : DirUio) → Keeps ((lkserlock np, writer) ∷ held) (fusefs_readvdir env uiomove np uio)
  unfolding holds same_lock
  readdir_inside uio =
      Keeps-readvdir env uiomove ((lkserlock np, writer) ∷ held) np
        (reader-held (rwlock np) held reading) uio (holds-writer (lkserlock np) held)

  pub Keeps-readdir : (uio : DirUio) → Keeps held (fusefs_readdir env uiomove np uio)
  unfolding fusefs_readdir
  Keeps-readdir uio = Keeps-bind _ _ (Keeps-check_mount env eio) (λ _.
      Keeps-bind _ _ (Keeps-access env np vread) (λ _.
        Keeps-bind _ _ (Keeps-assert _ reading)
          (λ _. search (step_rules, readdir_inside) depth 12)))

pub holds_reader-here : (l : Lock) (held : Held) → holds_reader l ((l, reader) ∷ held) ≡ true
unfolding holds_reader
holds_reader-here l held = ground (arith, same_lock_refl l)
