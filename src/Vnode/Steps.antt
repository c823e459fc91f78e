-- ===== src/Vnode/Steps.antt =====
-- The calls that the vnode operations make on the node cache, on the attributes of a node and on its
-- FID, as steps on the world.
use illumos_fuse.Hash.{Bytes}
use illumos_fuse.Door.{FuseStat}
use illumos_fuse.Calls.{CallResult, ok, err}
use illumos_fuse.File.{vnon, fid_unused, FuseNode}
use illumos_fuse.File.Attr.{
  Otw, Vattr, fusefs_attrcache_fa, fusefs_attrcache_remove, fusefs_attr_touchdir, fusefsgetattr,
}
use illumos_fuse.File.Open.{fusefs_inactive}
use illumos_fuse.Node.Cache.{Cache, vn_hold, drop_hold, fusefs_addfree, fusefs_rmhash}
use illumos_fuse.Node.Cache.Find.{node_look, node_findcreate, fusefs_nget}
use illumos_fuse.Node.Prune.Walk.{is_under}
use illumos_fuse.RwLock.{writer}
use illumos_fuse.Vnode.{
  lkserlock, World, Env, Op, file, gets, attempt, from_result, modify, enter_lock, exit_lock, ◌>>=◌,
  ◌>>◌,
}
use illumos_fuse.Prelude.{
  ℕ, suc, Bool, false, ◌&&◌, Option, none, some, [], ltb, if◌then◌else◌, length, update,
}

abbrev zero_stat : FuseStat
zero_stat = record {
  st_ino = 0;
  st_size = 0;
  st_blocks = 0;
  st_atime_sec = 0;
  st_mtime_sec = 0;
  st_ctime_sec = 0;
  st_atime_ns = 0;
  st_mtime_ns = 0;
  st_ctime_ns = 0;
  st_mode = 0;
  st_nlink = 0;
  st_uid = 0;
  st_gid = 0;
  st_rdev = 0;
  st_blksize = 0;
}

-- "Initialize fusenode_t", for the fields that the cache does not keep.
unfoldable pub new_file : FuseNode
new_file = record {
  n_rpath = [];
  n_ino = 0;
  n_fid = fid_unused;
  n_fidrefs = 0;
  n_ovtype = 0;
  n_rights = record { fread = false; fwrite = false };
  n_ssgenid = 0;
  nattrchanged = false;
  r_attr = zero_stat;
  r_attrtime = 0;
  r_mtime = 0;
  r_size = 0;
  v_type = vnon;
  vnocache = false;
}

module _ {D : Type 0} where
  unfoldable pub set_file : World D → ℕ → FuseNode → World D
  set_file w np f = record w { file_at = update w.file_at np f }

  unfoldable pub set_cache : World D → Cache → World D
  set_cache w c = record w { cache = c }

  -- VN_HOLD, for an operation that gives the vnode to its caller
  unfoldable pub held_vnode : ℕ → Op D ℕ
  unfolding set_cache
  held_vnode np w = some (ok np, set_cache w (vn_hold w.cache np))

  unfoldable pub v_type_of : ℕ → Op D ℕ
  v_type_of np = gets (λ w. (file w np).v_type)

  unfoldable pub n_rpath_of : ℕ → Op D Bytes
  n_rpath_of np = gets (λ w. (w.cache.node_at np).n_rpath)

  module _ (env : Env D) where
    unfoldable pub attrcache_remove : ℕ → Op D (Unit {0})
    unfolding set_file
    attrcache_remove np =
        modify (λ w. set_file w np (fusefs_attrcache_remove (env.gethrtime w) (file w np)))

    unfoldable pub touchdir : ℕ → Op D (Unit {0})
    unfolding set_file
    touchdir np =
        modify (λ w.
          set_file w np (fusefs_attr_touchdir (env.gethrtime w) (env.gethrtime w) (file w np)))

    -- fusefs_attrcache_prune, on the nodes that its walk reaches: those in the tree whose path lies under that
    -- of the node.
    unfoldable pub pruned_file : World D → ℕ → ℕ → FuseNode
    pruned_file w np m =
        if (w.cache.node_at m).r_hashed
          && is_under (w.cache.node_at np).n_rpath (w.cache.node_at m).n_rpath
        then fusefs_attrcache_remove (env.gethrtime w) (file w m)
        else w.file_at m

    unfoldable pub prune_world : ℕ → World D → World D
    unfolding pruned_file
    prune_world np w = record w { file_at = pruned_file w np }

    unfoldable pub prune : ℕ → Op D (Unit {0})
    unfolding prune_world
    prune np = modify (prune_world np)

    unfoldable pub otw_world : ℕ → World D → Otw Vattr D → World D
    unfolding set_file prune_world
    otw_world np w o =
        let w' = record (set_file w np o.node) { daemon = o.daemon } in
        if o.pruned then prune_world np w' else w'

    -- fusefsgetattr; the clock stands still in it.
    unfoldable pub getattr : ℕ → Op D Vattr
    unfolding otw_world
    getattr np w =
        let o =
          fusefsgetattr env.door env.iftovt env.mount env.ssn (env.interrupted (lkserlock np) w)
            (env.gethrtime w) (env.gethrtime w) (file w np) w.daemon in
        some (o.answer, otw_world np w o)

    -- From the writer's lock to its release in fusefs_inactive.
    unfoldable pub inactive_fid : ℕ → World D → World D
    unfolding set_file
    inactive_fid np w =
        let r = fusefs_inactive env.door env.ssn (env.gethrtime w) (file w np) w.daemon in
        record (set_file w np r.0) { daemon = r.1 }

    unfoldable pub inactive : ℕ → Op D (Unit {0})
    unfolding inactive_fid set_cache
    inactive np = do
      enter_lock (lkserlock np) writer
      modify (inactive_fid np)
      exit_lock (lkserlock np)
      modify (λ w. set_cache w (fusefs_addfree env.nfusenode np w.cache))

    unfoldable pub is_shared : (count : ℕ) → ℕ → World D → Bool
    is_shared count np w = ltb count (w.cache.node_at np).v_count

    -- VN_RELE: the last hold makes the vnode inactive.
    unfoldable pub vn_rele : ℕ → Op D (Unit {0})
    unfolding is_shared inactive set_cache
    vn_rele np = do
      shared ← gets (is_shared 1 np)
      if shared then modify (λ w. set_cache w (drop_hold w.cache np)) else inactive np

    unfoldable pub rmhash : ℕ → Op D (Unit {0})
    unfolding set_cache
    rmhash np = modify (λ w. set_cache w (fusefs_rmhash np w.cache))

    -- What fusefs_node_findcreate does to the file of the node that it found or made; `none` stands for
    -- &fusefs_fattr0.
    abbrev pub started : Bool → ℕ → World D → World D
    started newnode np w = if newnode then set_file w np new_file else w

    unfoldable pub apply_attrs : Option FuseStat → ℕ → World D → World D
    unfolding set_file
    apply_attrs none np w = w
    apply_attrs (some fa) np w =
        set_file w np (fusefs_attrcache_fa env.iftovt env.mount (env.gethrtime w) fa (file w np))

    -- One round for each free node, and one more.
    abbrev pub rounds : World D → ℕ
    rounds w = suc (length w.cache.free_queue)

    unfoldable pub with_file :
        Option FuseStat → World D → Option (ℕ × Bool × Cache) → Option (CallResult ℕ × World D)
    unfolding apply_attrs set_cache
    with_file fa w none = none
    with_file fa w (some (np, newnode, c)) =
        some (ok np, apply_attrs fa np (started newnode np (set_cache w c)))

    -- fusefs_node_findcreate with attributes, or with &fusefs_fattr0
    unfoldable pub findcreate : Bytes → Option ℕ → Bytes → Option FuseStat → Op D ℕ
    unfolding with_file
    findcreate dirnm sep name fa w = with_file fa w (
        node_findcreate env.nfusenode env.kmem_cache_alloc env.others (rounds w) dirnm sep name
          w.cache)

    unfoldable pub with_nget :
        FuseStat
        → World D
        → Option (CallResult (ℕ × Bool) × Cache)
        → Option (CallResult ℕ × World D)
    unfolding apply_attrs set_cache
    with_nget fa w none = none
    with_nget fa w (some (err e, c)) = some (err e, set_cache w c)
    with_nget fa w (some (ok (np, newnode), c)) =
        some (ok np, apply_attrs (some fa) np (started newnode np (set_cache w c)))

    unfoldable pub nget : ℕ → Bytes → FuseStat → Op D ℕ
    unfolding with_nget
    nget dnp name fa w = with_nget fa w (
        fusefs_nget env.nfusenode env.kmem_cache_alloc env.others (rounds w)
          (w.cache.node_at dnp).n_rpath name w.cache)

    unfoldable pub look : Bytes → Option ℕ → Bytes → Op D (Option ℕ)
    unfolding set_cache
    look dirnm sep name w =
        let r = node_look dirnm sep name w.cache in some (ok r.0, set_cache w r.1)

    -- VN_RELE at the end of a body, whatever it returns.
    unfoldable pub with_rele : {A : Type 0} → ℕ → Op D A → Op D A
    unfolding vn_rele
    with_rele np body = do r ← attempt body; vn_rele np; from_result r
