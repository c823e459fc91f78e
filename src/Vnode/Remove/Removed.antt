-- ===== src/Vnode/Remove/Removed.antt =====
-- What fusefs_remove does with the file that it found.
use illumos_fuse.Door.Errno.{eperm, enoent}
use illumos_fuse.Calls.{CallResult, ok, err}
use illumos_fuse.Calls.Files.{fusefs_call_delete}
use illumos_fuse.File.{vdir}
use illumos_fuse.File.Attr.{fusefs_attrcache_remove}
use illumos_fuse.Node.Cache.{fusefs_rmhash}
use illumos_fuse.Node.Cache.Invariant.{same_path_refl}
use illumos_fuse.Vnode.{
  World, Env, file, ret, raise, gets, attempt, call, from_result, modify, fail_if, ◌>>=◌, ◌>>◌,
}
use illumos_fuse.Vnode.Steps.{
  set_file, set_cache, prune_world, attrcache_remove, touchdir, prune, rmhash, n_rpath_of,
  v_type_of,
}
use illumos_fuse.Vnode.Remove.{ebusy, is_open, after_delete, delete_file, remove_found}
use illumos_fuse.Vnode.Runs.{bind-ok, bind-err, gets-run}
use illumos_fuse.Prelude.{
  ℕ, ◌≡◌, refl, ◌∙◌, ◌≢◌, ◌⊎◌, inl, inr, true, false, none, some, arith, ◌==◌, if◌then◌else◌,
  Bool-cases, update, ◌∙◌,
}

module _ {D : Type 0} (env : Env D) (dnp np : ℕ) where
  -- The node is out of the tree: the file is gone.
  abbrev pub Gone : CallResult (Unit {0}) → (w w' : World D) → Type 0
  Gone r w w' =
      ((r ≡ ok tt) ⊎ (r ≡ err enoent))
      × (w'.cache.fmi_hash (w.cache.node_at np).n_rpath ≡ none)
      × ((w'.cache.node_at np).r_hashed ≡ false)

  -- The daemon refused, and the cache is as it was.
  abbrev pub Stays : CallResult (Unit {0}) → (w w' : World D) → Type 0
  Stays r w w' = ((e : ℕ) × (e ≢ enoent) × (r ≡ err e)) × (w'.cache ≡ w.cache)

  abbrev Deleted : CallResult (Unit {0}) → World D → World D → Type 0
  Deleted r w w' = (w'.daemon ≡ w.daemon) × (Gone r w w' ⊎ Stays r w w')

  end_delete :
      (r : CallResult (Unit {0})) (w : World D)
      → (w' : World D) × ((after_delete env dnp np r >>= λ _. from_result r) w ≡ some (r, w'))
        × Deleted r w w'
  unfolding after_delete ◌>>=◌ from_result touchdir prune prune_world rmhash set_file set_cache
      modify ret fusefs_rmhash
  end_delete (ok _) w =
      let path = same_path_refl (w.cache.node_at np).n_rpath in
      (_, refl, (refl, inl (inl refl, rw (path) refl, ground arith)))
  end_delete (err e) w =
      let path = same_path_refl (w.cache.node_at np).n_rpath in
      elim (Bool-cases (e == enoent)) [
        | inl missing ↦
            rw (missing)
              (_, refl, (refl, inl (inr (ground (arith, missing)), rw (path) refl, ground arith)))
        | inr other ↦ rw (other) (w, refl, (refl, inr ((e, ground (arith, other), refl), refl)))
      ]

  -- The request that fusefs_remove makes of the daemon.
  abbrev pub sent : World D → CallResult (Unit {0}) × D
  sent w = fusefs_call_delete env.door (w.cache.node_at np).n_rpath w.daemon

  deleted :
      (w : World D)
      → (w' : World D) × (delete_file env dnp np w ≡ some ((sent w).0, w'))
        × (w'.daemon ≡ (sent w).1)
        × (Gone (sent w).0 w w' ⊎ Stays (sent w).0 w w')
  unfolding delete_file attrcache_remove modify ◌>>=◌ n_rpath_of gets attempt call set_file
  deleted w =
      let w₁ : World D = record w {
        file_at = update w.file_at np (fusefs_attrcache_remove (env.gethrtime w) (file w np));
        daemon = (sent w).1;
      } in
      let (w', answer, rest) = end_delete (sent w).0 w₁ in (w', answer, rest.0, rest.1)

  -- fusefs_remove, with the node of the name, does exactly one of three things. A directory is refused with EPERM,
  -- and a file that is no directory, that others hold and that is open with EBUSY, in both cases with nothing
  -- changed and nothing asked. For a file that is neither, the daemon is asked to delete the path of the node, and
  -- its answer returned; on success and on ENOENT the tree no longer has the path and the node is marked so,
  -- and on any other error the cache is as it was.
  pub remove_found-outcome :
      (w : World D)
      → (((file w np).v_type ≡ vdir) × (remove_found env dnp np w ≡ some (err eperm, w)))
        ⊎ (((file w np).v_type ≢ vdir)
            × (is_open env 1 np w ≡ true)
            × (remove_found env dnp np w ≡ some (err ebusy, w)))
        ⊎ (((file w np).v_type ≢ vdir)
            × (is_open env 1 np w ≡ false)
            × (w' : World D) × (remove_found env dnp np w ≡ some ((sent w).0, w'))
            × (w'.daemon ≡ (sent w).1)
            × (Gone (sent w).0 w w' ⊎ Stays (sent w).0 w w'))
  unfolding remove_found v_type_of fail_if raise ret
  remove_found-outcome w =
      let vtype =
        bind-ok (gets (λ v. (file v np).v_type))
          (λ vtype.
            fail_if (vtype == vdir) eperm
            >> (gets (is_open env 1 np) >>= λ busy.
                if busy then raise ebusy else delete_file env dnp np))
          ((file w np).v_type) (gets-run _ w) in
      elim (Bool-cases ((file w np).v_type == vdir)) [
        | inl dir ↦ inl (
          ground (arith, dir),
          vtype ∙ bind-err (fail_if ((file w np).v_type == vdir) eperm) _ eperm (rw (dir) refl),
        )
        | inr plain ↦
            let test =
              vtype
              ∙ bind-ok (fail_if ((file w np).v_type == vdir) eperm) _ tt (rw (plain) refl)
              ∙ bind-ok (gets (is_open env 1 np)) _ _ (gets-run _ w) in
            elim (Bool-cases (is_open env 1 np w)) [
              | inl busy ↦ inr (inl (ground (arith, plain), busy, test ∙ rw (busy) refl))
              | inr idle ↦
                  let (w', answer, asked, after) = deleted w in
                  inr (inr (ground (arith, plain), idle, w', test ∙ rw (idle) answer, asked, after))
            ]
      ]
