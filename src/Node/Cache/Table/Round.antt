-- ===== src/Node/Cache/Table/Round.antt =====
-- One round of fusefs_node_reclaim destroys a node.
use illumos_fuse.Node.Cache.{
  Cache, sn_rmhash_locked, sn_inactive, sn_destroy_node, destroy_unhashed, try_destroy, no_value,
  fusefs_addfree,
}
use illumos_fuse.Node.Cache.Invariant.{IsCache, rmhash-IsCache}
use illumos_fuse.Node.Cache.Addfree.{Held, addfree-IsCache}
use illumos_fuse.Node.Cache.Table.{reclaim_node}
use illumos_fuse.Prelude.{ℕ, ◌≡◌, ◌∙◌, ◌≢◌, true, false, arith, ltb, ◌∙◌, if_branches}

-- A node that one caller holds and that is not in the tree is destroyed, and nothing else changes.
pub addfree_unhashed :
    (nfusenode np : ℕ) (c : Cache)
    → (c.node_at np).r_hashed ≡ false
    → (c.node_at np).r_count ≡ 0
    → (c.node_at np).v_count ≡ 1
    → let after = fusefs_addfree nfusenode np c in
      ((after.node_at np).in_memory ≡ false)
      × (after.fmi_hash ≡ c.fmi_hash)
      × (after.free_queue ≡ c.free_queue)
      × ((m : ℕ) → m ≢ np → after.node_at m ≡ c.node_at m)
unfolding fusefs_addfree no_value try_destroy destroy_unhashed sn_inactive sn_destroy_node
addfree_unhashed nfusenode np c plain unused one = (
  ground (arith, plain, unused, one),
  ground (arith, plain, unused, one),
  ground (arith, plain, unused, one),
  λ m other. ground (arith, plain, unused, one, other),
)

-- A node that was taken from the free list.
unfoldable pub Reclaims : ℕ → Cache → Cache → Type 0
Reclaims np c after =
    IsCache after
    × ((after.node_at np).in_memory ≡ false)
    × (after.free_queue ≡ c.free_queue)
    × ((m : ℕ) → m ≢ np → after.node_at m ≡ c.node_at m)

module _ (nfusenode : ℕ) where
  unhashed-Reclaims :
      (np : ℕ) (c : Cache)
      → IsCache c
      → Held c np
      → (c.node_at np).r_hashed ≡ false
      → (c.node_at np).r_count ≡ 0
      → (c.node_at np).v_count ≡ 1
      → Reclaims np c (fusefs_addfree nfusenode np c)
  unfolding Reclaims
  unhashed-Reclaims np c w h plain unused one =
      let (gone, _, same_queue, same_nodes) = addfree_unhashed nfusenode np c plain unused one in
      (addfree-IsCache nfusenode c np w h, gone, same_queue, same_nodes)

  hashed-Reclaims :
      (np : ℕ) (c : Cache)
      → IsCache c
      → Held c np
      → (c.node_at np).r_hashed ≡ true
      → (c.node_at np).r_count ≡ 0
      → (c.node_at np).v_count ≡ 1
      → Reclaims np c (fusefs_addfree nfusenode np (sn_rmhash_locked np c))
  unfolding Reclaims sn_rmhash_locked
  hashed-Reclaims np c w h hashed unused one =
      let held : Held (sn_rmhash_locked np c) np = record {
        not_free = h.not_free;
        alive = ground (arith, h.alive);
        counted = ground (arith, h.counted);
      } in
      let (well, gone, same_queue, same_nodes) =
        unhashed-Reclaims np (sn_rmhash_locked np c) (rmhash-IsCache c np w hashed) held
          (ground arith) (ground (arith, unused)) (ground (arith, one)) in
      (well, gone, same_queue, λ m other. same_nodes m other ∙ ground (arith, other))

  pub reclaim_node-Reclaims :
      (np : ℕ) (c : Cache)
      → IsCache c
      → Held c np
      → (c.node_at np).r_count ≡ 0
      → (c.node_at np).v_count ≡ 1
      → Reclaims np c (reclaim_node nfusenode np c)
  unfolding reclaim_node Reclaims
  reclaim_node-Reclaims np c w h unused one =
      let single : ltb 1 (c.node_at np).v_count ≡ false = ground (arith, one) in
      if_branches (Reclaims np c) (c.node_at np).r_hashed _ _
        (λ hashed. rw (single) (hashed-Reclaims np c w h hashed unused one))
        (λ plain. unhashed-Reclaims np c w h plain unused one)
