-- ===== src/Vnode/Create/Search.antt =====
-- fusefs_create without permission to search the directory.
use illumos_fuse.Hash.{Bytes}
use illumos_fuse.Calls.{err, fusefs_call_close}
use illumos_fuse.Calls.Files.{fusefs_call_create}
use illumos_fuse.File.{vreg, vdir}
use illumos_fuse.Vnode.{
  rwlock, holds, World, Env, Op, file, ret, gets, attempt, call, fail_if, fail_code, assert, ◌>>=◌,
}
use illumos_fuse.Vnode.Access.{vexec, vwrite, fusefs_access_rwx, fusefs_access}
use illumos_fuse.Vnode.Steps.{v_type_of, n_rpath_of, held_vnode}
use illumos_fuse.Vnode.Lookup.{fusefslookup, lookup_checked}
use illumos_fuse.Vnode.Create.{made_node, create_new, create_found, create_locked}
use illumos_fuse.Vnode.Runs.{
  Alive, bind-ok, bind-err, attempt-some, gets-run, access-granted, access-denied,
}
use illumos_fuse.Prelude.{
  ℕ, suc, ◌≡◌, refl, ap, ◌∙◌, Bool, true, false, not, some, ◌∷◌, arith, ◌==◌, if◌then◌else◌, length,
  ◌∙◌,
}

module _ {D : Type 0} (env : Env D) (w : World D) (dnp : ℕ) where
  -- What goes to the daemon for a new file: the creation, a close, and the attributes of what was made.
  abbrev pub create_calls : (mode : ℕ) → Bytes → Op D ℕ
  create_calls mode nm =
      call (fusefs_call_create env.door (w.cache.node_at dnp).n_rpath nm mode) >>= λ fid.
      attempt (call (fusefs_call_close env.door fid)) >>= λ cerror. made_node env dnp nm

  module _ (alive : Alive env w) (is_dir : (file w dnp).v_type ≡ vdir) where
    checked-denied :
        (e : ℕ) (nm : Bytes)
        → fusefs_access_rwx env vdir vexec ≡ suc e
        → lookup_checked env false dnp nm w ≡ some (err (suc e), w)
    unfolding lookup_checked v_type_of fail_if ret
    checked-denied e nm no_search =
        let dir : not ((file w dnp).v_type == vdir) ≡ false = ground (arith, is_dir) in
        bind-ok (gets (λ v. (file v dnp).v_type)) _ _ (gets-run _ w)
        ∙ bind-ok (fail_if (not ((file w dnp).v_type == vdir)) _) _ tt (rw (dir) refl)
        ∙ bind-err (fusefs_access env dnp vexec) _ (suc e)
            (access-denied env w alive dnp vexec e (rw (is_dir) no_search))

    lookup-denied :
        (e c : ℕ) (nm : Bytes)
        → holds (rwlock dnp) w.held ≡ true
        → fusefs_access_rwx env vdir vexec ≡ suc e
        → fusefslookup env false dnp (c ∷ nm) w ≡ some (err (suc e), w)
    unfolding fusefslookup assert
    lookup-denied e c nm locked_dir no_search =
        let long : (length (c ∷ nm) == 0) ≡ false = ground arith in
        bind-ok (assert (holds (rwlock dnp))) _ tt (rw (locked_dir) refl)
        ∙ ap (λ b. (if b then held_vnode dnp else lookup_checked env false dnp (c ∷ nm)) w) long
        ∙ checked-denied e (c ∷ nm) no_search

    new-asks :
        (mode : ℕ) (nm : Bytes)
        → fusefs_access_rwx env vdir vwrite ≡ 0
        → fusefs_access_rwx env vreg mode ≡ 0
        → create_new env mode dnp nm w ≡ create_calls mode nm w
    unfolding create_new fail_code ret n_rpath_of
    new-asks mode nm may_write may_open =
        bind-ok (fusefs_access env dnp vwrite) _ tt
          (access-granted env w alive dnp vwrite (rw (is_dir) may_write))
        ∙ bind-ok (fail_code (fusefs_access_rwx env vreg mode)) _ tt (rw (may_open) refl)
        ∙ bind-ok (gets (λ v. (v.cache.node_at dnp).n_rpath)) _ _ (gets-run _ w)

-- A caller who may write in a directory but not search it, with the directory's lock: his lookup of the name
-- fails, and fusefs_create takes this for a file that does not exist. It asks the daemon to create the file,
-- also where an exclusive creation is asked for, when he may open a file of the mount in the mode.
pub create-unsearched :
    {D : Type 0} (env : Env D) (w : World D) (exclusive truncates : Bool) (mode dnp e c : ℕ)
    (nm : Bytes)
    → Alive env w
    → (file w dnp).v_type ≡ vdir
    → holds (rwlock dnp) w.held ≡ true
    → fusefs_access_rwx env vdir vexec ≡ suc e
    → fusefs_access_rwx env vdir vwrite ≡ 0
    → fusefs_access_rwx env vreg mode ≡ 0
    → create_locked env exclusive truncates mode dnp (c ∷ nm) w
      ≡ create_calls env w dnp mode (c ∷ nm) w
unfolding create_locked create_found
create-unsearched env w exclusive truncates mode dnp e c nm alive is_dir locked_dir no_search
      may_write may_open =
    bind-ok (attempt (fusefslookup env false dnp (c ∷ nm))) _ (err (suc e)) (
      attempt-some (fusefslookup env false dnp (c ∷ nm)) (err (suc e))
        (lookup-denied env w dnp alive is_dir e c nm locked_dir no_search))
    ∙ new-asks env w dnp alive is_dir mode (c ∷ nm) may_write may_open
