-- ===== src/Node/Cache/Find/Make.antt =====
-- A node that is found or made is the node of its path.
use illumos_fuse.Hash.{Bytes, fusefs_gethash}
use illumos_fuse.Node.Cache.{
  CacheNode, Cache, count_free, set_node, hold_found, sn_hashfind, sn_addhash_locked,
  sn_rmhash_locked, sn_inactive, sn_destroy_node, destroy_unhashed, try_destroy, no_value,
  fusefs_addfree,
}
use illumos_fuse.Node.Cache.Invariant.{
  IsCache, same_path_refl, count-remove_free, count-remove_free-other, hold_found-IsCache,
  addhash-IsCache,
}
use illumos_fuse.Node.Cache.Addfree.{Held, addfree-IsCache}
use illumos_fuse.Node.Cache.Find.{new_fusenode, link_new, init_node}
use illumos_fuse.Prelude.{
  ℕ, ◌≡◌, refl, ◌∙◌, ◌≢◌, inl, inr, false, none, some, arith, Option-cases, ◌∙◌,
}

-- A node that is nowhere: not linked and not on the free list.
abbrev pub Unused : Cache → ℕ → Type 0
Unused c np = ((c.node_at np).r_hashed ≡ false) × (count_free np c.free_queue ≡ 0)

-- The caller has a hold on the node, which the tree has under the path.
abbrev pub IsNodeOf : Bytes → ℕ → Cache → Type 0
IsNodeOf rpath np c = IsCache c × (c.fmi_hash rpath ≡ some np) × Held c np

pub found-IsNodeOf :
    (rpath : Bytes) (np : ℕ) (c : Cache)
    → IsCache c
    → c.fmi_hash rpath ≡ some np
    → IsNodeOf rpath np (hold_found c np)
unfolding hold_found
found-IsNodeOf rpath np c w h = (
  hold_found-IsCache c np w,
  ground (arith, h),
  record {
    not_free = ground (arith, count-remove_free np c.free_queue, w.once np);
    alive = ground (arith, w.linked rpath np h);
    counted = ground (arith, w.waiting np);
  },
)

-- A new node is written over an unused one.
pub new-IsCache :
    (c : Cache) (np : ℕ) (r : CacheNode)
    → IsCache c
    → Unused c np
    → r.r_hashed ≡ false
    → IsCache (set_node c np r)
new-IsCache c np r w (plain, off) new_plain = record {
  linked = λ p n h. ground (arith, plain, h, w.linked p n);
  marked = λ n h. ground (arith, new_plain, h, w.marked n);
  once = w.once;
  waiting = λ n h. ground (arith, off, h, w.waiting n);
}

-- What other threads do while a node is made keeps the cache well-formed and leaves the node to its maker.
pub record OthersKeep (others : ℕ → Cache → Cache) : Type 0 where
  pub keep_cache : (np : ℕ) (c : Cache) → IsCache c → IsCache (others np c)
  pub keep_node :
      (np : ℕ) (c : Cache)
      → Unused c np
      → ((others np c).node_at np ≡ c.node_at np) × (count_free np (others np c).free_queue ≡ 0)

-- New memory is not that of a node.
abbrev pub NewMemory : (Cache → ℕ) → Cache → Type 0
NewMemory kmem_cache_alloc c = (c.node_at (kmem_cache_alloc c)).in_memory ≡ false

module _ (nfusenode : ℕ) (kmem_cache_alloc : Cache → ℕ) (others : ℕ → Cache → Cache) where
  -- The new node has no value.
  lost-keeps :
      (np : ℕ) (c : Cache)
      → c.node_at np ≡ new_fusenode
      → let after = fusefs_addfree nfusenode np c in
        (after.fmi_hash ≡ c.fmi_hash)
        × (after.free_queue ≡ c.free_queue)
        × ((m : ℕ) → m ≢ np → after.node_at m ≡ c.node_at m)
  unfolding fusefs_addfree no_value try_destroy destroy_unhashed sn_rmhash_locked sn_inactive
      sn_destroy_node
  lost-keeps np c made =
      (ground (arith, made), ground (arith, made), λ m other. ground (arith, made, other))

  -- "Lost the race": the node that was being made is destroyed.
  lost-IsNodeOf :
      (rpath : Bytes) (np tnp : ℕ) (c : Cache)
      → IsNodeOf rpath tnp c
      → c.node_at np ≡ new_fusenode
      → count_free np c.free_queue ≡ 0
      → IsNodeOf rpath tnp (fusefs_addfree nfusenode np c)
  lost-IsNodeOf rpath np tnp c (w, at, h) made off =
      let mine : Held c np = record {
        not_free = off;
        alive = ground (arith, made);
        counted = ground (arith, made);
      } in
      let (same_hash, same_queue, same_nodes) = lost-keeps np c made in
      let same_node = same_nodes tnp (ground (arith, made, w.linked rpath tnp at)) in
      (
        addfree-IsCache nfusenode c np w mine,
        rw (same_hash) at,
        record {
          not_free = rw (same_queue) h.not_free;
          alive = rw (same_node) h.alive;
          counted = rw (same_node) h.counted;
        },
      )

  linked-IsNodeOf :
      (rpath : Bytes) (np : ℕ) (c : Cache)
      → IsCache c
      → c.fmi_hash rpath ≡ none
      → c.node_at np ≡ new_fusenode
      → count_free np c.free_queue ≡ 0
      → let r = link_new nfusenode kmem_cache_alloc others rpath np (none, c) in
        IsNodeOf rpath r.0 r.2
  unfolding link_new
  linked-IsNodeOf rpath np c w free made off =
      let r = record (c.node_at np) { n_rpath = rpath; n_ino = fusefs_gethash rpath } in
      let c' = set_node c np r in
      let w' = new-IsCache c np r w (ground (arith, made), off) (ground (arith, made)) in
      (
        addhash-IsCache c' np w' (ground (arith, free)) (ground (arith, made)),
        ground (arith, same_path_refl rpath),
        record {
          not_free = unfold sn_addhash_locked in off;
          alive = unfold sn_addhash_locked in ground (arith, made);
          counted = unfold sn_addhash_locked in ground (arith, made);
        },
      )

  -- A hold on another node.
  hold_found-other :
      (c : Cache) (np tnp : ℕ)
      → np ≢ tnp
      → ((hold_found c tnp).node_at np ≡ c.node_at np)
        × (count_free np (hold_found c tnp).free_queue ≡ count_free np c.free_queue)
  unfolding hold_found
  hold_found-other c np tnp other = (
    ground (arith, other),
    ground (arith, other, count-remove_free-other np tnp c.free_queue other),
  )

  pub init-IsNodeOf :
      (rpath : Bytes) (np : ℕ) (c : Cache)
      → OthersKeep others
      → IsCache c
      → Unused c np
      → let r = init_node nfusenode kmem_cache_alloc others rpath np c in IsNodeOf rpath r.0 r.2
  unfolding init_node sn_hashfind
  init-IsNodeOf rpath np c keep w unused =
      let c' = set_node c np new_fusenode in
      let c'' = others np c' in
      let (made, off) = keep.keep_node np c' (ground arith, unused.1) in
      let made' : c''.node_at np ≡ new_fusenode = made ∙ ground arith in
      let w'' = keep.keep_cache np c' (new-IsCache c np new_fusenode w unused refl) in
      elim (Option-cases (c''.fmi_hash rpath)) [
        | inl free ↦ rw (sn_hashfind, free) (linked-IsNodeOf rpath np c'' w'' free made' off)
        | inr (tnp, at) ↦
            let other : np ≢ tnp = ground (arith, made', w''.linked rpath tnp at) in
            let (same_node, same_count) = hold_found-other c'' np tnp other in
            rw (sn_hashfind, at)
              (lost-IsNodeOf rpath np tnp (hold_found c'' tnp) (found-IsNodeOf rpath tnp c'' w'' at)
                (same_node ∙ made') (same_count ∙ off))
      ]
