-- ===== src/Node/Cache/Find/Memory.antt =====
-- The memory for a new node, from the free list or from kmem_cache_alloc.
use illumos_fuse.Node.Cache.{Cache, count_free, take_free, sn_rmhash_locked, sn_inactive}
use illumos_fuse.Node.Cache.Invariant.{
  IsCache, count-remove_free, take_free-IsCache, rmhash-IsCache, inactive-IsCache,
}
use illumos_fuse.Node.Cache.Find.{Attempt, built, recycle_inactive, recycle, alloc_node, get_memory}
use illumos_fuse.Prelude.{
  ℕ, ◌+◌, ◌<◌, ◌≡◌, refl, inl, inr, false, arith, ltb, leb, if_branches, List-cases,
}
use illumos_fuse.Node.Cache.Find.Make.{Unused, NewMemory}

module _ (nfusenode : ℕ) (kmem_cache_alloc : Cache → ℕ) (others : ℕ → Cache → Cache) where
  -- Memory for a node, from the free list or new.
  unfoldable pub IsBuilt : Attempt → Type 0
  IsBuilt a = (np : ℕ) × (c : Cache) × (a ≡ built np c) × IsCache c × Unused c np

  recycle_inactive-IsBuilt :
      (np : ℕ) (c : Cache)
      → IsCache c
      → Unused c np
      → (c.node_at np).v_count ≡ 1
      → IsBuilt (recycle_inactive nfusenode kmem_cache_alloc others np c)
  unfolding IsBuilt recycle_inactive sn_inactive
  recycle_inactive-IsBuilt np c w (plain, off) one = (
    np,
    sn_inactive np c,
    ground (arith, one),
    inactive-IsCache c np w plain,
    (ground (arith, plain), off),
  )

  recycle-IsBuilt :
      (np : ℕ) (c : Cache)
      → IsCache c
      → count_free np c.free_queue ≡ 0
      → (c.node_at np).v_count ≡ 1
      → IsBuilt (recycle nfusenode kmem_cache_alloc others np c)
  unfolding recycle
  recycle-IsBuilt np c w off one =
      let single : ltb 1 (c.node_at np).v_count ≡ false = ground (arith, one) in
      if_branches IsBuilt (c.node_at np).r_hashed _ _
        (λ hashed. rw (single) (
          recycle_inactive-IsBuilt np (sn_rmhash_locked np c) (rmhash-IsCache c np w hashed)
            (unfold sn_rmhash_locked in ground arith, unfold sn_rmhash_locked in off)
            (unfold sn_rmhash_locked in ground (arith, one))))
        (λ plain. recycle_inactive-IsBuilt np c w (plain, off) one)

  alloc-IsBuilt :
      (c : Cache)
      → NewMemory kmem_cache_alloc c
      → IsCache c
      → IsBuilt (alloc_node nfusenode kmem_cache_alloc others c)
  unfolding IsBuilt
  alloc-IsBuilt c fresh w =
      let np = kmem_cache_alloc c in
      let new = fresh in
      (
        np,
        record c { fusenodenew = c.fusenodenew + 1 },
        refl,
        record { linked = w.linked; marked = w.marked; once = w.once; waiting = w.waiting },
        (
          ground (arith, new, w.marked np, w.linked (c.node_at np).n_rpath np),
          ground (arith, new, w.waiting np),
        ),
      )

  pub get_memory-IsBuilt :
      (c : Cache)
      → NewMemory kmem_cache_alloc c
      → IsCache c
      → IsBuilt (get_memory nfusenode kmem_cache_alloc others c)
  unfolding get_memory count_free
  get_memory-IsBuilt c fresh w = elim (List-cases c.free_queue) [
    | inl empty ↦ rw (get_memory, empty) (alloc-IsBuilt c fresh w)
    | inr (np, rest, first) ↦
        let there : 0 < count_free np c.free_queue = rw (first) (ground arith) in
        rw (get_memory, first)
          (if_branches IsBuilt (leb nfusenode c.fusenodenew)
            (recycle nfusenode kmem_cache_alloc others np (take_free c np))
            (alloc_node nfusenode kmem_cache_alloc others c)
            (λ _.
              recycle-IsBuilt np (take_free c np) (take_free-IsCache c np w)
                (ground (arith, count-remove_free np c.free_queue, w.once np))
                (w.waiting np there).0)
            (λ _. alloc-IsBuilt c fresh w))
  ]
