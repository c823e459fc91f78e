-- ===== src/Vnode/Rename/Target.antt =====
-- Which paths fusefsrename sends.
use illumos_fuse.Hash.{Bytes}
use illumos_fuse.Calls.{CallResult, ok, err}
use illumos_fuse.Calls.Files.{fusefs_call_rename}
use illumos_fuse.Vnode.{World, Env, ret, gets, attempt, call, from_result, modify, ◌>>=◌}
use illumos_fuse.Vnode.Steps.{set_file, prune_world, attrcache_remove, prune, n_rpath_of}
use illumos_fuse.Vnode.Lookup.{fusefslookup}
use illumos_fuse.Vnode.Rename.{after_rename, rename_wire, rename_target, rename_found}
use illumos_fuse.Vnode.Runs.{bind-ok, attempt-some}
use illumos_fuse.Prelude.{ℕ, ◌≡◌, refl, ◌∙◌, false, some, ◌∙◌}

module _ {D : Type 0} (env : Env D) where
  end_rename :
      (onp : ℕ) (r : CallResult (Unit {0})) (w : World D)
      → (w' : World D) × ((after_rename env onp r >>= λ _. from_result r) w ≡ some (r, w'))
        × (w'.daemon ≡ w.daemon)
  unfolding after_rename ◌>>=◌ from_result prune prune_world modify ret
  end_rename onp (ok _) w = (prune_world env onp w, refl, refl)
  end_rename onp (err e) w = (w, refl, refl)

  wire-paths :
      (onp nnp : ℕ) (nnm : Bytes) (w : World D)
      → let sent =
          fusefs_call_rename env.door
            (w.cache.node_at onp).n_rpath
            (w.cache.node_at nnp).n_rpath
            nnm
            w.daemon in
        (w' : World D) × (rename_wire env onp nnp nnm w ≡ some (sent.0, w')) × (w'.daemon ≡ sent.1)
  unfolding rename_wire ◌>>=◌ attrcache_remove modify n_rpath_of gets attempt call set_file
  wire-paths onp nnp nnm w =
      let sent =
        fusefs_call_rename env.door (w.cache.node_at onp).n_rpath (w.cache.node_at nnp).n_rpath nnm
          w.daemon in
      end_rename onp sent.0 (record w { file_at = _; daemon = sent.1 })

  -- Where the lookup of the new name fails, as for a name that does not exist, fusefsrename asks the daemon to
  -- rename the file into the directory whose path is that of the node that the variable nnp has, which was never
  -- set; the path of the new directory, `ndnp`, is not sent. The answer is that of the daemon.
  pub rename-unset_target :
      (unset ndnp ovp e : ℕ) (nnm : Bytes) (w w' : World D)
      → fusefslookup env false ndnp nnm w ≡ some (err e, w')
      → let sent =
          fusefs_call_rename env.door
            (w'.cache.node_at ovp).n_rpath
            (w'.cache.node_at unset).n_rpath
            nnm
            w'.daemon in
        (w'' : World D) × (rename_found env unset ndnp ovp nnm w ≡ some (sent.0, w''))
        × (w''.daemon ≡ sent.1)
  unfolding rename_found rename_target
  rename-unset_target unset ndnp ovp e nnm w w' missing =
      let (w'', answer, daemon) = wire-paths ovp unset nnm w' in
      (
        w'',
        bind-ok (attempt (fusefslookup env false ndnp nnm)) _ (err e)
              (attempt-some (fusefslookup env false ndnp nnm) (err e) missing)
            ∙ answer,
        daemon,
      )
