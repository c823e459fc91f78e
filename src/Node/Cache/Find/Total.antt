-- ===== src/Node/Cache/Find/Total.antt =====
-- make_fusenode ends: each restart has taken a node off the free list.
use illumos_fuse.Hash.{Bytes, dnp_sep, search_path}
use illumos_fuse.Door.Errno.{einval}
use illumos_fuse.Calls.{CallResult, ok, err}
use illumos_fuse.Node.Cache.{
  Cache, remove_free, take_free, drop_hold, sn_hashfind, sn_rmhash_locked, sn_inactive,
}
use illumos_fuse.Node.Cache.Find.{
  Attempt, restart, built, recycle_inactive, recycle, alloc_node, get_memory, make_node,
  make_unless_found, make_fusenode, node_findcreate, is_dot_name, fusefs_nget,
}
use illumos_fuse.Prelude.{
  ℕ, zero, suc, ◌<◌, ◌≡◌, refl, ap, inl, inr, Bool, Option, none, some, List, ◌∷◌, arith, ltb, leb,
  if◌then◌else◌, Bool-cases, Option-cases, length, if_branches, List-cases,
}

-- A restart leaves fewer than `k` free nodes.
Shrinks : ℕ → Attempt → Type 0
Shrinks k (restart c) = length c.free_queue < k
Shrinks k (built np c) = Unit {0}

Shrinks-restart : (k : ℕ) (c : Cache) → length c.free_queue < k → Shrinks k (restart c)
unfolding Shrinks
Shrinks-restart k c h = h

Shrinks-built : (k np : ℕ) (c : Cache) → Shrinks k (built np c)
unfolding Shrinks
Shrinks-built k np c = tt

remove_first : (np : ℕ) (q : List ℕ) → remove_free np (np ∷ q) ≡ q
unfolding remove_free
remove_first np q = ground arith

module _ (nfusenode : ℕ) (kmem_cache_alloc : Cache → ℕ) (others : ℕ → Cache → Cache) where
  recycle_inactive-Shrinks :
      (k np : ℕ) (c : Cache)
      → length c.free_queue < k
      → Shrinks k (recycle_inactive nfusenode kmem_cache_alloc others np c)
  unfolding recycle_inactive sn_inactive
  recycle_inactive-Shrinks k np c h =
      let c' = sn_inactive np c in
      if_branches (Shrinks k) (ltb 1 (c'.node_at np).v_count) (restart (drop_hold c' np))
        (built np c') (λ _. Shrinks-restart k (drop_hold c' np) h) (λ _. Shrinks-built k np c')

  recycle-Shrinks :
      (k np : ℕ) (c : Cache)
      → length c.free_queue < k
      → Shrinks k (recycle nfusenode kmem_cache_alloc others np c)
  unfolding recycle sn_rmhash_locked
  recycle-Shrinks k np c h =
      let inactive = recycle_inactive nfusenode kmem_cache_alloc others np in
      if_branches (Shrinks k) (c.node_at np).r_hashed
        (if ltb 1 (c.node_at np).v_count
          then restart (drop_hold c np)
          else inactive (sn_rmhash_locked np c))
        (inactive c)
        (λ _.
          if_branches (Shrinks k) (ltb 1 (c.node_at np).v_count) (restart (drop_hold c np))
            (inactive (sn_rmhash_locked np c)) (λ _. Shrinks-restart k (drop_hold c np) h)
            (λ _. recycle_inactive-Shrinks k np (sn_rmhash_locked np c) h))
        (λ _. recycle_inactive-Shrinks k np c h)

  get_memory-Shrinks :
      (k : ℕ) (c : Cache)
      → length c.free_queue ≡ k
      → Shrinks k (get_memory nfusenode kmem_cache_alloc others c)
  unfolding get_memory
  get_memory-Shrinks k c e = elim (List-cases c.free_queue) [
    | inl empty ↦ rw (get_memory, empty) (Shrinks-built k _ _)
    | inr (np, rest, first) ↦
        let fewer : length (take_free c np).free_queue < k =
          rw (first, remove_first) (omega (arith, e, ap length first)) in
        rw (get_memory, first)
          (if_branches (Shrinks k) (leb nfusenode c.fusenodenew)
            (recycle nfusenode kmem_cache_alloc others np (take_free c np))
            (alloc_node nfusenode kmem_cache_alloc others c)
            (λ _. recycle-Shrinks k np (take_free c np) fewer) (λ _. Shrinks-built k _ _))
  ]

  abbrev Makes : Option (ℕ × Bool × Cache) → Type 0
  Makes none = ⊥
  Makes (some _) = Unit {0}

  make_node-Makes :
      (start : Cache → Option (ℕ × Bool × Cache)) (rpath : Bytes) (k : ℕ) (a : Attempt)
      → ((c : Cache) → length c.free_queue < k → Makes (start c))
      → Shrinks k a
      → Makes (make_node nfusenode kmem_cache_alloc others start rpath a)
  unfolding make_node Shrinks
  make_node-Makes start rpath k (restart c) ends h = ends c h
  make_node-Makes start rpath k (built np c) ends h = tt

  -- With more rounds than there are free nodes, make_fusenode gives a node, whatever the cache is and whatever
  -- the other threads do.
  make-Makes :
      (fuel : ℕ) (rpath : Bytes) (c : Cache)
      → length c.free_queue < fuel
      → Makes (make_fusenode nfusenode kmem_cache_alloc others fuel rpath c)
  unfolding make_fusenode make_unless_found sn_hashfind
  make-Makes zero rpath c h = absurd (omega (arith, h))
  make-Makes (suc fuel) rpath c h = elim (Option-cases (c.fmi_hash rpath)) [
    | inl free ↦
        rw (make_fusenode, make_unless_found, sn_hashfind, free)
          (make_node-Makes (make_fusenode nfusenode kmem_cache_alloc others fuel rpath) rpath
            (length c.free_queue) (get_memory nfusenode kmem_cache_alloc others c)
            (λ c' fewer. make-Makes fuel rpath c' (omega (arith, h, fewer)))
            (get_memory-Shrinks (length c.free_queue) c refl))
    | inr (np, at) ↦ rw (make_fusenode, make_unless_found, sn_hashfind, at) tt
  ]

  Makes-some : (o : Option (ℕ × Bool × Cache)) → Makes o → (r : ℕ × Bool × Cache) × (o ≡ some r)
  Makes-some none h = absurd h
  Makes-some (some r) h = (r, refl)

  pub findcreate-some :
      (fuel : ℕ) (dirnm : Bytes) (sep : Option ℕ) (name : Bytes) (c : Cache)
      → length c.free_queue < fuel
      → (r : ℕ × Bool × Cache) × (node_findcreate nfusenode kmem_cache_alloc others fuel dirnm sep
            name c
          ≡ some r)
  unfolding node_findcreate
  findcreate-some fuel dirnm sep name c h =
      Makes-some _ (make-Makes fuel (search_path dirnm sep name) c h)

  pub nget-some :
      (fuel : ℕ) (n_rpath name : Bytes) (c : Cache)
      → length c.free_queue < fuel
      → (r : CallResult (ℕ × Bool) × Cache) × (fusefs_nget nfusenode kmem_cache_alloc others fuel
            n_rpath name c
          ≡ some r)
  unfolding fusefs_nget
  nget-some fuel n_rpath name c h = elim (Bool-cases (is_dot_name name)) [
    | inl dots ↦ ((err einval, c), rw (dots) refl)
    | inr plain ↦
        let (r, made) = findcreate-some fuel n_rpath (dnp_sep n_rpath) name c h in
        ((ok (r.0, r.1), r.2), rw (plain, fusefs_nget, made) refl)
  ]
