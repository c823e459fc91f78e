-- ===== src/Vnode/Safety/Renames.antt =====
-- fusefs_rename keeps the locks, and takes them in the order of the nodes' addresses.
use illumos_fuse.Hash.{Bytes}
use illumos_fuse.Calls.{CallResult, ok, err}
use illumos_fuse.RwLock.{writer}
use illumos_fuse.Vnode.{
  Lock, rwlock, same_lock, Held, holds, release, World, Env, ret, raise, attempt, from_result,
  exit_lock, modify, enter_sig, and_then, ◌>>=◌,
}
use illumos_fuse.Vnode.Lookup.{fusefslookup}
use illumos_fuse.Vnode.Rename.{
  after_rename, rename_wire, after_target, delete_target, same_types, clear_target, rename_target,
  rename_found, rename_locked, or_exit, enter_two, enter_both, fusefsrename, fusefs_rename,
}
use illumos_fuse.Vnode.Keeps.{
  Moved, Moves, Keeps, Keeps-bind, Keeps-fail_if, Moves-bind, Moves-enter_sig, release-enter,
}
use illumos_fuse.Vnode.Keeps.Steps.{step_rules}
use illumos_fuse.Vnode.Safety.Names.{Keeps-access, Keeps-fusefslookup}
use illumos_fuse.Vnode.Safety.Changes.{Keeps-vfs_locked}
use mathlib.Core.Option
use illumos_fuse.Prelude.{
  ℕ, ◌≡◌, ap, ◌∙◌, inl, inr, true, false, Option, none, some, ◌∷◌, arith, ltb, if◌then◌else◌,
  Bool-cases, ◌∙◌,
}

module _ {D : Type 0} (env : Env D) {held : Held} where
  Keeps-after_rename : (onp : ℕ) (r : CallResult (Unit {0})) → Keeps held (after_rename env onp r)
  unfolding after_rename
  Keeps-after_rename onp (ok _) = search step_rules depth 12
  Keeps-after_rename onp (err e) = search step_rules depth 12

  Keeps-rename_wire : (onp nnp : ℕ) (nnm : Bytes) → Keeps held (rename_wire env onp nnp nnm)
  unfolding rename_wire
  Keeps-rename_wire onp nnp nnm = search (step_rules, Keeps-after_rename) depth 12

  Keeps-after_target : (nnp : ℕ) (r : CallResult (Unit {0})) → Keeps held (after_target env nnp r)
  unfolding after_target
  Keeps-after_target nnp (ok _) = search step_rules depth 12
  Keeps-after_target nnp (err e) = search step_rules depth 12

  Keeps-delete_target : (nnp : ℕ) → Keeps held (delete_target env nnp)
  unfolding delete_target
  Keeps-delete_target nnp = search (step_rules, Keeps-after_target) depth 16

  Keeps-same_types : (otype ntype : ℕ) → Keeps held (same_types env otype ntype)
  unfolding same_types
  Keeps-same_types otype ntype = search step_rules depth 12

module _ {D : Type 0} (env : Env D) {held : Held} where
  Keeps-clear_target : (ovp nvp : ℕ) → Keeps held (clear_target env ovp nvp)
  unfolding clear_target
  Keeps-clear_target ovp nvp =
      search (step_rules, Keeps-same_types, Keeps-vfs_locked, Keeps-delete_target) depth 12

  Keeps-rename_target :
      (unset ovp : ℕ) (nnm : Bytes) (r : CallResult ℕ)
      → Keeps held (rename_target env unset ovp nnm r)
  unfolding rename_target
  Keeps-rename_target unset ovp nnm (err e) = Keeps-rename_wire env ovp unset nnm
  Keeps-rename_target unset ovp nnm (ok nvp) =
      search (step_rules, Keeps-clear_target, Keeps-rename_wire) depth 12

module _ {D : Type 0} (env : Env D) (held : Held) (unset odnp ndnp : ℕ) (onm nnm : Bytes) where
  -- With both locks held.
  module _ (old : holds (rwlock odnp) held ≡ true) (new : holds (rwlock ndnp) held ≡ true) where
    find_source : Keeps held (fusefslookup env false odnp onm)
    find_source = Keeps-fusefslookup env false odnp onm old

    find_target : Keeps held (fusefslookup env false ndnp nnm)
    find_target = Keeps-fusefslookup env false ndnp nnm new

    Keeps-rename_found : (ovp : ℕ) → Keeps held (rename_found env unset ndnp ovp nnm)
    unfolding rename_found
    Keeps-rename_found ovp =
        Keeps-bind _ _ (search (step_rules, find_target) depth 12)
          (λ target. search Keeps-rename_target)

    Keeps-rename_locked : Keeps held (rename_locked env unset odnp onm ndnp nnm)
    unfolding rename_locked
    Keeps-rename_locked =
        search (step_rules, find_source, Keeps-access, Keeps-rename_found) depth 12

  -- The end of fusefsrename, with a result of its body.
  left :
      (stack : Held) (r : CallResult (Unit {0})) (w : World D)
      → release (rwlock ndnp) (release (rwlock odnp) stack) ≡ held
      → w.held ≡ stack
      → Moved held held
          ((exit_lock (rwlock odnp) >>= λ _. exit_lock (rwlock ndnp) >>= λ _. from_result r) w)
  unfolding ◌>>=◌ exit_lock modify from_result
  left stack (ok _) w empty h = ap (λ k. release (rwlock ndnp) (release (rwlock odnp) k)) h ∙ empty
  left stack (err e) w empty h = ap (λ k. release (rwlock ndnp) (release (rwlock odnp) k)) h ∙ empty

  left_body :
      (stack : Held) (o : Option (CallResult (Unit {0}) × World D))
      → release (rwlock ndnp) (release (rwlock odnp) stack) ≡ held
      → Moved stack stack o
      → Moved held held (
          and_then
            (λ r. exit_lock (rwlock odnp) >>= λ _. exit_lock (rwlock ndnp) >>= λ _. from_result r)
            (Option.map (λ r. (ok r.0, r.1)) o))
  left_body stack none empty h = h
  left_body stack (some (ok a, w)) empty h = left stack (ok a) w empty h
  left_body stack (some (err e, w)) empty h = left stack (err e) w empty h

-- The second lock of two, after the first.
module _ {D : Type 0} (env : Env D) (held : Held) (first second : Lock) where
  entered :
      (o : Option (CallResult (Unit {0}) × World D))
      → Moved ((first, writer) ∷ held) ((second, writer) ∷ (first, writer) ∷ held) o
      → Moved held
          ((second, writer) ∷ (first, writer) ∷ held)
          (and_then (or_exit env first) (Option.map (λ r. (ok r.0, r.1)) o))
  unfolding or_exit ◌>>=◌ exit_lock modify raise ret
  entered none h = h
  entered (some (ok a, w)) h = h
  entered (some (err e, w)) h = ap (release first) h ∙ release-enter first writer held

  Moves-enter_two :
      Moves held ((second, writer) ∷ (first, writer) ∷ held) (enter_two env first second)
  unfolding enter_two ◌>>=◌ attempt
  Moves-enter_two =
      Moves-bind ((second, writer) ∷ (first, writer) ∷ held) (enter_sig env first writer) _
        (Moves-enter_sig env first writer)
        (λ _ w h.
          entered (enter_sig env second writer w) ((Moves-enter_sig env second writer).at w h))

-- Both locks, that of the lower address taken first.
abbrev ordered : (odnp ndnp : ℕ) → Held → Held
ordered odnp ndnp held =
    if ltb odnp ndnp
    then (rwlock ndnp, writer) ∷ (rwlock odnp, writer) ∷ held
    else (rwlock odnp, writer) ∷ (rwlock ndnp, writer) ∷ held

holds-old : (odnp ndnp : ℕ) (held : Held) → holds (rwlock odnp) (ordered odnp ndnp held) ≡ true
unfolding holds same_lock
holds-old odnp ndnp held = ground arith

holds-new : (odnp ndnp : ℕ) (held : Held) → holds (rwlock ndnp) (ordered odnp ndnp held) ≡ true
unfolding holds same_lock
holds-new odnp ndnp held = ground arith

release-both :
    (odnp ndnp : ℕ) (held : Held)
    → release (rwlock ndnp) (release (rwlock odnp) (ordered odnp ndnp held)) ≡ held
unfolding release same_lock
release-both odnp ndnp held = ground arith

module _ {D : Type 0} (env : Env D) (held : Held) (unset odnp ndnp : ℕ) (onm nnm : Bytes) where
  -- fusefsrename takes the locks of both directories in the order of the nodes' addresses, or none of them.
  Moves-enter_both : Moves held (ordered odnp ndnp held) (enter_both env odnp ndnp)
  unfolding enter_both
  Moves-enter_both = elim (Bool-cases (ltb odnp ndnp)) [
    | inl lower ↦ rw (lower) (Moves-enter_two env held (rwlock odnp) (rwlock ndnp))
    | inr higher ↦ rw (higher) (Moves-enter_two env held (rwlock ndnp) (rwlock odnp))
  ]

  rename_body :
      (w : World D)
      → w.held ≡ ordered odnp ndnp held
      → Moved held held (
          (attempt (rename_locked env unset odnp onm ndnp nnm) >>= λ r.
          exit_lock (rwlock odnp) >>= λ _. exit_lock (rwlock ndnp) >>= λ _. from_result r)
            w)
  rename_body w h =
      let stack = ordered odnp ndnp held in
      let k =
        Keeps-rename_locked env stack unset odnp ndnp onm nnm (holds-old odnp ndnp held)
          (holds-new odnp ndnp held) in
      unfold ◌>>=◌ in
      unfold attempt in
      left_body env held unset odnp ndnp onm nnm stack (rename_locked env unset odnp onm ndnp nnm w)
        (release-both odnp ndnp held) (k.at w h)

  Keeps-fusefsrename : Keeps held (fusefsrename env unset odnp onm ndnp nnm)
  unfolding fusefsrename
  Keeps-fusefsrename = Keeps-bind _ _ (Keeps-fail_if _ _) (λ _.
      Moves-bind held (enter_both env odnp ndnp) _ Moves-enter_both (λ _ w h. rename_body w h))

  pub Keeps-rename : Keeps held (fusefs_rename env unset odnp onm ndnp nnm)
  unfolding fusefs_rename
  Keeps-rename = search (step_rules, Keeps-fusefsrename) depth 12
