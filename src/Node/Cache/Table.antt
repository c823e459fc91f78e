-- ===== src/Node/Cache/Table.antt =====
-- The operations of usr/src/uts/common/fs/fusefs/fusefs_node.c on all nodes: fusefs_check_table,
-- fusefs_destroy_table and fusefs_node_reclaim.
pub mod Round
pub mod Reclaim
pub mod Check
pub mod Sweep
pub mod Destroy
use illumos_fuse.Hash.{Bytes}
use illumos_fuse.Node.Cache.{
  CacheNode, Cache, link, count_free, set_node, take_free, drop_hold, sn_rmhash_locked,
  fusefs_addfree, node_busy,
}
use illumos_fuse.Prelude.{
  ℕ, zero, suc, ◌+◌, Bool, true, false, not, ◌&&◌, Option, none, some, List, [], ◌∷◌, ltb, ◌==◌,
  if◌then◌else◌,
}

-- The loop of fusefs_check_table over the nodes in the order of avl_walk. `debug` is
-- fusefs_check_table_debug.
unfoldable pub check_nodes : (debug : Bool) (root busycnt : ℕ) → List ℕ → Cache → ℕ
unfolding node_busy
check_nodes debug root busycnt [] c = busycnt
check_nodes debug root busycnt (np ∷ nodes) c =
    let busy = busycnt + node_busy root c np in
    let rest = check_nodes debug root busy nodes c in
    if not (np == root) && (ltb 0 busy && not debug) then busy else rest

unfoldable pub fusefs_check_table : (debug : Bool) (root : ℕ) → List ℕ → Cache → ℕ
unfolding check_nodes
fusefs_check_table debug root nodes c = check_nodes debug root 0 nodes c

-- A node on the free list: it leaves the list, and the last part of sn_rmhash_locked.
unfoldable pub take_unlinked : ℕ → Cache → Cache
take_unlinked np c =
    let c' = take_free c np in set_node c' np (record (c'.node_at np) { r_hashed = false })

-- The first loop of fusefs_destroy_table, over the nodes in the order of avl_destroy_nodes: `tmp` is tmp_avl,
-- and the first result is rlist. At its end the new tree is in place.
unfoldable pub sweep : List ℕ → (tmp : Bytes → Option ℕ) → (rlist : List ℕ) → Cache → List ℕ × Cache
unfolding take_unlinked
sweep [] tmp rlist c = (rlist, record c { fmi_hash = tmp })
sweep (np ∷ nodes) tmp rlist c = elim (ltb 0 (count_free np c.free_queue)) [
  | true ↦ sweep nodes tmp (np ∷ rlist) (take_unlinked np c)
  | false ↦ sweep nodes (link tmp (c.node_at np).n_rpath (some np)) rlist c
]

module _ (nfusenode : ℕ) where
  -- The last loop, over rlist.
  unfoldable pub addfree_all : List ℕ → Cache → Cache
  addfree_all [] c = c
  addfree_all (np ∷ rlist) c = addfree_all rlist (fusefs_addfree nfusenode np c)

  unfoldable pub fusefs_destroy_table : List ℕ → Cache → Cache
  unfolding addfree_all sweep
  fusefs_destroy_table nodes c =
      let (rlist, c') = sweep nodes (λ _. none) [] c in addfree_all rlist c'

  -- One round of fusefs_node_reclaim, after sn_rmfree.
  unfoldable pub reclaim_node : ℕ → Cache → Cache
  reclaim_node np c =
      if (c.node_at np).r_hashed
      then if ltb 1 (c.node_at np).v_count
        then drop_hold c np
        else fusefs_addfree nfusenode np (sn_rmhash_locked np c)
      else fusefs_addfree nfusenode np c

  unfoldable pub reclaim_first : (again : Cache → Option Cache) → Cache → List ℕ → Option Cache
  unfolding reclaim_node
  reclaim_first again c [] = some c
  reclaim_first again c (np ∷ _) = again (reclaim_node np (take_free c np))

  -- On fuel: one round for each node on the free list, and one more.
  unfoldable pub fusefs_node_reclaim : (fuel : ℕ) → Cache → Option Cache
  unfolding reclaim_first
  fusefs_node_reclaim zero c = none
  fusefs_node_reclaim (suc fuel) c = reclaim_first (fusefs_node_reclaim fuel) c c.free_queue
