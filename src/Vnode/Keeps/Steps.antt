-- ===== src/Vnode/Keeps/Steps.antt =====
-- The calls on the node cache and on a node keep the locks.
use illumos_fuse.Hash.{Bytes}
use illumos_fuse.Door.{FuseStat}
use illumos_fuse.Calls.{CallResult, ok, err}
use illumos_fuse.File.Attr.{fusefsgetattr}
use illumos_fuse.Node.Cache.{Cache}
use illumos_fuse.Node.Cache.Find.Total.{findcreate-some, nget-some}
use illumos_fuse.RwLock.{writer}
use illumos_fuse.Vnode.{
  lkserlock, Held, release, World, Env, Op, file, modify, ◌>>=◌, enter_lock, exit_lock,
}
use illumos_fuse.Vnode.Steps.{
  set_file, set_cache, held_vnode, v_type_of, n_rpath_of, attrcache_remove, touchdir, prune_world,
  prune, otw_world, getattr, inactive_fid, inactive, vn_rele, rmhash, apply_attrs, started,
  with_file, findcreate, with_nget, nget, look, with_rele, rounds,
}
use illumos_fuse.Vnode.Keeps.{
  Moved, Moves, Keeps, Keeps-ret, Keeps-raise, Keeps-gets, Keeps-if, Keeps-bind, Keeps-attempt,
  Keeps-result, Keeps-modify, Moves-bind, Moves-enter, release-enter, keeps_rules,
}
use illumos_fuse.Prelude.{
  ℕ, ◌≡◌, refl, ap, ◌∙◌, Bool, true, false, Option, none, some, ◌∷◌, arith, if◌then◌else◌, ◌∙◌,
}

module _ {D : Type 0} (env : Env D) where
  otw-held :
      (np : ℕ) (w : World D) (pruned : Bool)
      → (if pruned then prune_world env np w else w).held ≡ w.held
  unfolding prune_world
  otw-held np w true = refl
  otw-held np w false = refl

  attrs-held :
      (fa : Option FuseStat) (np : ℕ) (w : World D) → (apply_attrs env fa np w).held ≡ w.held
  unfolding apply_attrs set_file
  attrs-held none np w = refl
  attrs-held (some fa) np w = refl

  started-held : (newnode : Bool) (np : ℕ) (w : World D) → (started env newnode np w).held ≡ w.held
  unfolding set_file
  started-held true np w = refl
  started-held false np w = refl

module _ {D : Type 0} {held : Held} where
  pub Keeps-held_vnode : (np : ℕ) → Keeps {D = D} held (held_vnode np)
  unfolding held_vnode set_cache
  Keeps-held_vnode np = record { at = λ w h. h }

  pub Keeps-v_type : (np : ℕ) → Keeps {D = D} held (v_type_of np)
  unfolding v_type_of
  Keeps-v_type np = Keeps-gets _

  pub Keeps-n_rpath : (np : ℕ) → Keeps {D = D} held (n_rpath_of np)
  unfolding n_rpath_of
  Keeps-n_rpath np = Keeps-gets _

  module _ (env : Env D) where
    pub Keeps-attrcache_remove : (np : ℕ) → Keeps held (attrcache_remove env np)
    unfolding attrcache_remove set_file
    Keeps-attrcache_remove np = Keeps-modify _ (λ w. refl)

    pub Keeps-touchdir : (np : ℕ) → Keeps held (touchdir env np)
    unfolding touchdir set_file
    Keeps-touchdir np = Keeps-modify _ (λ w. refl)

    pub Keeps-prune : (np : ℕ) → Keeps held (prune env np)
    unfolding prune prune_world
    Keeps-prune np = Keeps-modify _ (λ w. refl)

    pub Keeps-rmhash : (np : ℕ) → Keeps held (rmhash env np)
    unfolding rmhash set_cache
    Keeps-rmhash np = Keeps-modify _ (λ w. refl)

    pub Keeps-look :
        (dirnm : Bytes) (sep : Option ℕ) (name : Bytes) → Keeps held (look env dirnm sep name)
    unfolding look set_cache
    Keeps-look dirnm sep name = record { at = λ w h. h }

    either :
        {A : Type 0} (r : CallResult A) (w : World D)
        → w.held ≡ held
        → Moved held held (some (r, w))
    either (ok a) w h = h
    either (err e) w h = h

    pub Keeps-getattr : (np : ℕ) → Keeps held (getattr env np)
    unfolding getattr otw_world set_file
    Keeps-getattr np = record {
      at = λ w h.
          let o =
            fusefsgetattr env.door env.iftovt env.mount env.ssn (env.interrupted (lkserlock np) w)
              (env.gethrtime w) (env.gethrtime w) (file w np) w.daemon in
          either o.answer (otw_world env np w o)
            (otw-held env np (record (set_file w np o.node) { daemon = o.daemon }) o.pruned ∙ h);
    }

    nget_result :
        (fa : FuseStat) (w : World D) (r : CallResult (ℕ × Bool) × Cache)
        → w.held ≡ held
        → Moved held held (with_nget env fa w (some r))
    unfolding with_nget set_cache
    nget_result fa w (ok (np, newnode), c) h =
        attrs-held env (some fa) np (started env newnode np (set_cache w c))
        ∙ started-held env newnode np (set_cache w c)
        ∙ h
    nget_result fa w (err e, c) h = h

    pub Keeps-nget : (dnp : ℕ) (name : Bytes) (fa : FuseStat) → Keeps held (nget env dnp name fa)
    unfolding nget
    Keeps-nget dnp name fa = record {
      at = λ w h.
          let (r, made) =
            nget-some env.nfusenode env.kmem_cache_alloc env.others (rounds env w)
              (w.cache.node_at dnp).n_rpath name w.cache (omega arith) in
          rw (made) (nget_result fa w r h);
    }

    findcreate_result :
        (fa : Option FuseStat) (w : World D) (r : ℕ × Bool × Cache)
        → w.held ≡ held
        → Moved held held (with_file env fa w (some r))
    unfolding with_file set_cache
    findcreate_result fa w (np, newnode, c) h =
        attrs-held env fa np (started env newnode np (set_cache w c))
        ∙ started-held env newnode np (set_cache w c)
        ∙ h

    pub Keeps-findcreate :
        (dirnm : Bytes) (sep : Option ℕ) (name : Bytes) (fa : Option FuseStat)
        → Keeps held (findcreate env dirnm sep name fa)
    unfolding findcreate
    Keeps-findcreate dirnm sep name fa = record {
      at = λ w h.
          let (r, made) =
            findcreate-some env.nfusenode env.kmem_cache_alloc env.others (rounds env w) dirnm sep
              name w.cache (omega arith) in
          rw (made) (findcreate_result fa w r h);
    }

    pub Keeps-inactive : (np : ℕ) → Keeps held (inactive env np)
    unfolding inactive inactive_fid set_file set_cache ◌>>=◌ enter_lock exit_lock modify
    Keeps-inactive np = record {
      at = λ w h.
          ap (λ k. release (lkserlock np) ((lkserlock np, writer) ∷ k)) h
          ∙ release-enter (lkserlock np) writer held;
    }

    pub Keeps-vn_rele : (np : ℕ) → Keeps held (vn_rele env np)
    unfolding vn_rele set_cache
    Keeps-vn_rele np =
        Keeps-bind _ _ (Keeps-gets _)
          (λ shared. Keeps-if shared _ _ (Keeps-modify _ (λ w. refl)) (Keeps-inactive np))

    pub Keeps-with_rele :
        {A : Type 0} (np : ℕ) (body : Op D A) → Keeps held body → Keeps held (with_rele env np body)
    unfolding with_rele
    Keeps-with_rele np body k =
        Keeps-bind _ _ (Keeps-attempt held body k)
          (λ r. Keeps-bind _ _ (Keeps-vn_rele np) (λ _. Keeps-result r))

pub ruleset step_rules = (
  keeps_rules, Keeps-held_vnode, Keeps-v_type, Keeps-n_rpath, Keeps-attrcache_remove,
  Keeps-touchdir, Keeps-prune, Keeps-rmhash, Keeps-look, Keeps-getattr, Keeps-nget,
  Keeps-findcreate, Keeps-vn_rele, Keeps-with_rele,
)
