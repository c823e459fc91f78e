-- ===== src/Vnode/Safety/Changes.antt =====
-- fusefs_create, fusefs_mkdir, fusefs_remove and fusefs_rmdir keep the locks.
use illumos_fuse.Hash.{Bytes}
use illumos_fuse.Calls.{CallResult, ok, err}
use illumos_fuse.File.Setattr.{SetVattr, SetState, fusefssetattr}
use illumos_fuse.File.Setattr.Laws.{setattr-faults}
use illumos_fuse.RwLock.{reader, writer}
use illumos_fuse.Vnode.{rwlock, lkserlock, vfslock, Held, World, Env, Op, file}
use illumos_fuse.Vnode.Steps.{set_file}
use illumos_fuse.Vnode.Lookup.{fusefslookup}
use illumos_fuse.Vnode.Create.{
  set_done, setattr, or_rele, create_existing, made_node, create_new, create_found, create_locked,
  create_named, fusefs_create, mkdir_locked, fusefs_mkdir, truncation,
}
use illumos_fuse.Vnode.Remove.{
  after_delete, delete_file, remove_found, remove_locked, fusefs_remove, after_rmdir,
  rmdir_unmounted, vfs_locked, rmdir_found, rmdir_locked, fusefs_rmdir,
}
use illumos_fuse.Vnode.Keeps.{Moved, Keeps}
use illumos_fuse.Vnode.Keeps.Steps.{step_rules}
use illumos_fuse.Vnode.Safety.Names.{holds-rwlock, Keeps-access, Keeps-fusefslookup}
use illumos_fuse.Prelude.{
  ℕ, ◌≡◌, refl, ap, inl, inr, Bool, true, false, Option, none, some, ◌∷◌, arith, ◌==◌,
  if◌then◌else◌, Option-cases, is_some,
}

-- The times are set both or neither.
abbrev pub TimesTogether : SetVattr → Type 0
TimesTogether a = is_some a.va_atime ≡ is_some a.va_mtime

module _ {D : Type 0} (env : Env D) where
  set_some :
      (stop : Bool) (a : SetVattr) (np : ℕ) (w : World D)
      → TimesTogether a
      → is_some (fusefssetattr env.door env.ssn stop (env.gethrtime w) a (file w np) w.daemon)
        ≡ true
  unfolding fusefssetattr
  set_some true a np w h = refl
  set_some false a np w h =
      let o = fusefssetattr env.door env.ssn false (env.gethrtime w) a (file w np) w.daemon in
      let faults = setattr-faults env.door env.ssn (env.gethrtime w) a (file w np) w.daemon in
      elim (Option-cases o) [
        | inl fault ↦ absurd (faults.0 fault h)
        | inr (st, done) ↦ ap is_some done
      ]

module _ {D : Type 0} (env : Env D) {held : Held} where
  set_error :
      (b : Bool) (e np : ℕ) (w : World D) (st : SetState D)
      → w.held ≡ held
      → Moved {A = Unit {0}} held held
          (some (if b then ok tt else err e, record (set_file w np st.node) { daemon = st.daemon }))
  unfolding set_file
  set_error true e np w st h = h
  set_error false e np w st h = h

  set_result :
      (np : ℕ) (w : World D) (o : Option (SetState D))
      → is_some o ≡ true
      → w.held ≡ held
      → Moved held held (set_done env np w o)
  unfolding set_done set_file
  set_result np w none there h = absurd (ground (arith, there))
  set_result np w (some st) there h = set_error (st.error == 0) st.error np w st h

  pub Keeps-setattr : (a : SetVattr) (np : ℕ) → TimesTogether a → Keeps held (setattr env a np)
  unfolding setattr
  Keeps-setattr a np together = record {
    at = λ w h.
        set_result np w
          (fusefssetattr env.door env.ssn (env.interrupted (lkserlock np) w) (env.gethrtime w) a
            (file w np) w.daemon)
          (set_some env (env.interrupted (lkserlock np) w) a np w together) h;
  }

  Keeps-truncate : (np : ℕ) → Keeps held (setattr env truncation np)
  Keeps-truncate np = Keeps-setattr truncation np refl

  Keeps-or_rele : (vp : ℕ) (r : CallResult (Unit {0})) → Keeps held (or_rele env vp r)
  unfolding or_rele
  Keeps-or_rele vp (ok _) = search step_rules depth 12
  Keeps-or_rele vp (err e) = search step_rules depth 12

  Keeps-create_existing :
      (exclusive truncates : Bool) (mode vp : ℕ)
      → Keeps held (create_existing env exclusive truncates mode vp)
  unfolding create_existing
  Keeps-create_existing exclusive truncates mode vp =
      search (step_rules, Keeps-or_rele, Keeps-access, Keeps-truncate) depth 12

  Keeps-made_node : (dnp : ℕ) (nm : Bytes) → Keeps held (made_node env dnp nm)
  unfolding made_node
  Keeps-made_node dnp nm = search step_rules depth 12

  Keeps-create_new : (mode dnp : ℕ) (nm : Bytes) → Keeps held (create_new env mode dnp nm)
  unfolding create_new
  Keeps-create_new mode dnp nm = search (step_rules, Keeps-made_node, Keeps-access) depth 12

  Keeps-create_found :
      (exclusive truncates : Bool) (mode dnp : ℕ) (nm : Bytes) (r : CallResult ℕ)
      → Keeps held (create_found env exclusive truncates mode dnp nm r)
  unfolding create_found
  Keeps-create_found exclusive truncates mode dnp nm (ok vp) =
      Keeps-create_existing exclusive truncates mode vp
  Keeps-create_found exclusive truncates mode dnp nm (err e) = Keeps-create_new mode dnp nm

  Keeps-mkdir_locked : (dnp : ℕ) (nm : Bytes) → Keeps held (mkdir_locked env dnp nm)
  unfolding mkdir_locked
  Keeps-mkdir_locked dnp nm = search (step_rules, Keeps-made_node, Keeps-access) depth 12

  Keeps-after_delete :
      (dnp np : ℕ) (r : CallResult (Unit {0})) → Keeps held (after_delete env dnp np r)
  unfolding after_delete
  Keeps-after_delete dnp np (ok _) = search step_rules depth 12
  Keeps-after_delete dnp np (err e) = search step_rules depth 12

  Keeps-remove_found : (dnp np : ℕ) → Keeps held (remove_found env dnp np)
  unfolding remove_found delete_file
  Keeps-remove_found dnp np = search (step_rules, Keeps-after_delete) depth 12

  Keeps-after_rmdir :
      (dnp np : ℕ) (r : CallResult (Unit {0})) → Keeps held (after_rmdir env dnp np r)
  unfolding after_rmdir
  Keeps-after_rmdir dnp np (ok _) = search step_rules depth 12
  Keeps-after_rmdir dnp np (err e) = search step_rules depth 12

  Keeps-rmdir_unmounted : (dnp np : ℕ) → Keeps held (rmdir_unmounted env dnp np)
  unfolding rmdir_unmounted
  Keeps-rmdir_unmounted dnp np = search (step_rules, Keeps-after_rmdir) depth 12

module _ {D : Type 0} (env : Env D) {held : Held} where
  -- With the lock that keeps mounts away.
  pub Keeps-vfs_locked :
      (np : ℕ) (body : Op D (Unit {0}))
      → Keeps ((vfslock np, reader) ∷ held) body
      → Keeps held (vfs_locked env np body)
  unfolding vfs_locked
  Keeps-vfs_locked np body k = search step_rules depth 12

  Keeps-rmdir_found : (cdir dnp np : ℕ) → Keeps held (rmdir_found env cdir dnp np)
  unfolding rmdir_found
  Keeps-rmdir_found cdir dnp np =
      search (step_rules, Keeps-vfs_locked, Keeps-rmdir_unmounted) depth 12

-- What runs with the lock of the directory.
module _ {D : Type 0} (env : Env D) (held : Held) (dnp : ℕ) (nm : Bytes) where
  found : Keeps ((rwlock dnp, writer) ∷ held) (fusefslookup env false dnp nm)
  found = Keeps-fusefslookup env false dnp nm (holds-rwlock (rwlock dnp) writer held)

  create_inside :
      (exclusive truncates : Bool) (mode : ℕ)
      → Keeps ((rwlock dnp, writer) ∷ held) (create_locked env exclusive truncates mode dnp nm)
  unfolding create_locked
  create_inside exclusive truncates mode = search (step_rules, found, Keeps-create_found) depth 12

  create_named-Keeps :
      (exclusive truncates : Bool) (mode : ℕ)
      → Keeps held (create_named env exclusive truncates mode dnp nm)
  unfolding create_named
  create_named-Keeps exclusive truncates mode = search (step_rules, create_inside) depth 12

  pub Keeps-create :
      (va_type : ℕ) (exclusive truncates : Bool) (mode : ℕ)
      → Keeps held (fusefs_create env va_type exclusive truncates mode dnp nm)
  unfolding fusefs_create
  Keeps-create va_type exclusive truncates mode = search (step_rules, create_named-Keeps) depth 12

  pub Keeps-mkdir : Keeps held (fusefs_mkdir env dnp nm)
  unfolding fusefs_mkdir
  Keeps-mkdir = search (step_rules, Keeps-mkdir_locked) depth 12

  remove_inside : Keeps ((rwlock dnp, writer) ∷ held) (remove_locked env dnp nm)
  unfolding remove_locked
  remove_inside = search (step_rules, found, Keeps-access, Keeps-remove_found) depth 12

  pub Keeps-remove : Keeps held (fusefs_remove env dnp nm)
  unfolding fusefs_remove
  Keeps-remove = search (step_rules, remove_inside) depth 12

  rmdir_inside : (cdir : ℕ) → Keeps ((rwlock dnp, writer) ∷ held) (rmdir_locked env cdir dnp nm)
  unfolding rmdir_locked
  rmdir_inside cdir = search (step_rules, found, Keeps-access, Keeps-rmdir_found) depth 12

  pub Keeps-rmdir : (cdir : ℕ) → Keeps held (fusefs_rmdir env cdir dnp nm)
  unfolding fusefs_rmdir
  Keeps-rmdir cdir = search (step_rules, rmdir_inside) depth 12
