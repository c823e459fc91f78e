-- ===== src/Node/Cache/Find/Nget.antt =====
-- fusefs_nget gives each path one node.
use illumos_fuse.Hash.{Bytes, dnp_sep, search_path}
use illumos_fuse.Calls.{ok}
use illumos_fuse.Node.Cache.{Cache, hold_found, sn_hashfind}
use illumos_fuse.Node.Cache.Invariant.{IsCache}
use illumos_fuse.Node.Cache.Find.{
  built, get_memory, init_node, make_node, make_unless_found, make_fusenode, node_findcreate,
  is_dot_name, fusefs_nget,
}
use illumos_fuse.Node.Cache.Find.Make.{
  OthersKeep, NewMemory, IsNodeOf, found-IsNodeOf, init-IsNodeOf,
}
use illumos_fuse.Node.Cache.Find.Memory.{IsBuilt, get_memory-IsBuilt}
use illumos_fuse.Prelude.{
  ℕ, suc, ◌≡◌, refl, ap, ◌∙◌, inl, inr, Bool, false, Option, none, some, Option-cases, ◌∙◌,
}

module _ (nfusenode : ℕ) (kmem_cache_alloc : Cache → ℕ) (others : ℕ → Cache → Cache) where
  hashfind-found :
      (rpath : Bytes) (c : Cache) (np : ℕ)
      → c.fmi_hash rpath ≡ some np
      → sn_hashfind rpath c ≡ (some np, hold_found c np)
  unfolding sn_hashfind
  hashfind-found rpath c np h = rw (sn_hashfind, h) refl

  hashfind-free :
      (rpath : Bytes) (c : Cache) → c.fmi_hash rpath ≡ none → sn_hashfind rpath c ≡ (none, c)
  unfolding sn_hashfind
  hashfind-free rpath c h = rw (sn_hashfind, h) refl

  round : ℕ → Bytes → Option ℕ × Cache → Option (ℕ × Bool × Cache)
  round fuel rpath found =
      make_unless_found nfusenode kmem_cache_alloc others
        (make_fusenode nfusenode kmem_cache_alloc others fuel rpath) rpath found

  pub make_found :
      (fuel : ℕ) (rpath : Bytes) (c : Cache) (np : ℕ)
      → c.fmi_hash rpath ≡ some np
      → make_fusenode nfusenode kmem_cache_alloc others (suc fuel) rpath c
        ≡ some (np, false, hold_found c np)
  unfolding make_fusenode round make_unless_found
  make_found fuel rpath c np h = ap (round fuel rpath) (hashfind-found rpath c np h)

  make_built :
      (fuel : ℕ) (rpath : Bytes) (c : Cache) (np : ℕ) (c' : Cache)
      → c.fmi_hash rpath ≡ none
      → get_memory nfusenode kmem_cache_alloc others c ≡ built np c'
      → make_fusenode nfusenode kmem_cache_alloc others (suc fuel) rpath c
        ≡ some (init_node nfusenode kmem_cache_alloc others rpath np c')
  unfolding make_fusenode round make_unless_found make_node
  make_built fuel rpath c np c' free found =
      ap (round fuel rpath) (hashfind-free rpath c free)
      ∙ ap
          (make_node nfusenode kmem_cache_alloc others
            (make_fusenode nfusenode kmem_cache_alloc others fuel rpath) rpath)
          found

  make-IsNodeOf :
      OthersKeep others
      → (fuel : ℕ) (rpath : Bytes) (c : Cache) → NewMemory kmem_cache_alloc c
      → IsCache c
      → (r : ℕ × Bool × Cache) × (make_fusenode nfusenode kmem_cache_alloc others (suc fuel) rpath c
          ≡ some r)
        × IsNodeOf rpath r.0 r.2
  unfolding IsBuilt make_fusenode
  make-IsNodeOf keep fuel rpath c fresh w = elim (Option-cases (c.fmi_hash rpath)) [
    | inl free ↦
        let (np, c', found, w', unused) =
          get_memory-IsBuilt nfusenode kmem_cache_alloc others c fresh w in
        (
          init_node nfusenode kmem_cache_alloc others rpath np c',
          make_built fuel rpath c np c' free found,
          init-IsNodeOf nfusenode kmem_cache_alloc others rpath np c' keep w' unused,
        )
    | inr (np, at) ↦ (
      (np, false, hold_found c np),
      make_found fuel rpath c np at,
      found-IsNodeOf rpath np c w at,
    )
  ]

  -- With a cache that is well-formed, other threads that keep it so and leave the node being made alone, and new
  -- memory for new nodes, fusefs_nget of a name that is not "", "." or ".." ends in the first round. It gives a
  -- node that the caller holds, that the tree has under the full path of the name, in a cache that is
  -- well-formed; and the same call made again gives the same node.
  pub nget-IsNodeOf :
      OthersKeep others
      → (fuel : ℕ) (n_rpath name : Bytes) (c : Cache) → NewMemory kmem_cache_alloc c
      → IsCache c
      → is_dot_name name ≡ false
      → (np : ℕ) × (newnode : Bool) × (c' : Cache) × (fusefs_nget nfusenode kmem_cache_alloc others
            (suc fuel)
            n_rpath
            name
            c
          ≡ some (ok (np, newnode), c'))
        × IsNodeOf (search_path n_rpath (dnp_sep n_rpath) name) np c'
        × (fusefs_nget nfusenode kmem_cache_alloc others (suc fuel) n_rpath name c'
            ≡ some (ok (np, false), hold_found c' np))
  unfolding fusefs_nget node_findcreate
  nget-IsNodeOf keep fuel n_rpath name c fresh w plain =
      let path = search_path n_rpath (dnp_sep n_rpath) name in
      let ((np, newnode, c'), made, node) = make-IsNodeOf keep fuel path c fresh w in
      (
        np,
        newnode,
        c',
        rw (plain, fusefs_nget, node_findcreate, made) refl,
        node,
        rw (plain, fusefs_nget, node_findcreate, make_found fuel path c' np node.1) refl,
      )
