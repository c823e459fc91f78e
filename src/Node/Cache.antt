-- ===== src/Node/Cache.antt =====
-- The node cache of usr/src/uts/common/fs/fusefs/fusefs_node.c: the nodes that the AVL tree of a mount
-- has by path, and those on the free list. A node is its address. The tree is the map that avl_find
-- reads, and the free list the queue that Node.FreeList implements with pointers.
pub mod Invariant
pub mod Addfree
pub mod Find
pub mod Table
pub mod Examples
use illumos_fuse.Hash.{Bytes, fusefs_gethash, dnp_sep, search_path}
use illumos_fuse.Prelude.{
  ℕ, ◌+◌, ◌-◌, Bool, true, false, not, ◌&&◌, ◌||◌, Option, none, some, List, [], ◌∷◌, ◌++◌, ltb,
  ◌==◌, if◌then◌else◌, update,
}

-- What fusenode_t and its vnode hold for the cache. NULL for n_rpath is the empty path.
pub record CacheNode : Type 0 where
  pub n_rpath : Bytes
  pub n_ino : ℕ
  pub r_hashed : Bool
  pub r_count : ℕ
  pub r_error : ℕ
  pub v_count : ℕ
  pub in_memory : Bool

pub record Cache : Type 0 where
  pub node_at : ℕ → CacheNode
  pub fmi_hash : Bytes → Option ℕ
  pub free_queue : List ℕ
  pub fusenodenew : ℕ
  pub vfs_unmounted : Bool

unfoldable pub same_path : Bytes → Bytes → Bool
same_path [] [] = true
same_path [] (y ∷ ys) = false
same_path (x ∷ xs) [] = false
same_path (x ∷ xs) (y ∷ ys) = x == y && same_path xs ys

abbrev pub link : (Bytes → Option ℕ) → Bytes → Option ℕ → Bytes → Option ℕ
link h p v q = if same_path q p then v else h q

-- How often a node is in the queue: 0 or 1, and 1 stands for r_freef != NULL.
unfoldable pub count_free : ℕ → List ℕ → ℕ
count_free n [] = 0
count_free n (x ∷ xs) = let rest = count_free n xs in if n == x then rest + 1 else rest

unfoldable pub remove_free : ℕ → List ℕ → List ℕ
remove_free n [] = []
remove_free n (x ∷ xs) = let rest = remove_free n xs in if n == x then xs else x ∷ rest

abbrev pub set_node : Cache → ℕ → CacheNode → Cache
set_node c np r = record c { node_at = update c.node_at np r }

-- sn_rmfree, on the queue
abbrev pub take_free : Cache → ℕ → Cache
take_free c np = record c { free_queue = remove_free np c.free_queue }

-- VN_HOLD, and `vp->v_count--`
abbrev pub vn_hold : Cache → ℕ → Cache
vn_hold c np = set_node c np (record (c.node_at np) { v_count = (c.node_at np).v_count + 1 })

abbrev pub drop_hold : Cache → ℕ → Cache
drop_hold c np = set_node c np (record (c.node_at np) { v_count = (c.node_at np).v_count - 1 })

-- "If the fusenode is on the freelist, then remove it and use that reference as the new reference."
unfoldable pub hold_found : Cache → ℕ → Cache
hold_found c np = if ltb 0 (count_free np c.free_queue) then take_free c np else vn_hold c np

unfoldable pub sn_hashfind : Bytes → Cache → Option ℕ × Cache
unfolding hold_found
sn_hashfind rpath c = elim (c.fmi_hash rpath) [
  | none ↦ (none, c)
  | some np ↦ (some np, hold_found c np)
]

unfoldable pub sn_addhash_locked : ℕ → Cache → Cache
sn_addhash_locked np c = record (set_node c np (record (c.node_at np) { r_hashed = true })) {
  fmi_hash = link c.fmi_hash (c.node_at np).n_rpath (some np);
}

unfoldable pub sn_rmhash_locked : ℕ → Cache → Cache
sn_rmhash_locked np c = record (set_node c np (record (c.node_at np) { r_hashed = false })) {
  fmi_hash = link c.fmi_hash (c.node_at np).n_rpath none;
}

unfoldable pub sn_inactive : ℕ → Cache → Cache
sn_inactive np c = set_node c np (record (c.node_at np) { n_rpath = [] })

unfoldable pub sn_destroy_node : ℕ → Cache → Cache
sn_destroy_node np c = record (set_node c np (record (c.node_at np) { in_memory = false })) {
  fusenodenew = c.fusenodenew - 1;
}

-- From sn_inactive on.
unfoldable pub destroy_unhashed : ℕ → Cache → Cache
unfolding sn_inactive sn_destroy_node
destroy_unhashed np c =
    let c' = sn_inactive np c in
    if ltb 1 (c'.node_at np).v_count then drop_hold c' np else sn_destroy_node np c'

-- "Try to destroy this node."
unfoldable pub try_destroy : ℕ → Cache → Cache
unfolding sn_rmhash_locked destroy_unhashed
try_destroy np c =
    if (c.node_at np).r_hashed
    then if ltb 1 (c.node_at np).v_count
      then drop_hold c np
      else destroy_unhashed np (sn_rmhash_locked np c)
    else destroy_unhashed np c

-- The condition of fusefs_addfree.
unfoldable pub no_value : (nfusenode : ℕ) → ℕ → Cache → Bool
no_value nfusenode np c =
    (c.node_at np).r_count == 0
    && (not (c.node_at np).r_hashed
        || (not ((c.node_at np).r_error == 0) || (c.vfs_unmounted || ltb nfusenode c.fusenodenew)))

unfoldable pub fusefs_addfree : (nfusenode : ℕ) → ℕ → Cache → Cache
unfolding no_value try_destroy
fusefs_addfree nfusenode np c =
    if no_value nfusenode np c
    then try_destroy np c
    else if ltb 1 (c.node_at np).v_count
    then drop_hold c np
    else record c { free_queue = c.free_queue ++ np ∷ [] }

unfoldable pub fusefs_rmhash : ℕ → Cache → Cache
unfolding sn_rmhash_locked
fusefs_rmhash np c = sn_rmhash_locked np c

-- The root is skipped. Every node is checked, as with fusefs_check_table_debug; dirty pages are left out.
unfoldable pub node_busy : (root : ℕ) → Cache → ℕ → ℕ
node_busy root c np =
    if np == root
    then 0
    else (if ltb 0 (count_free np c.free_queue) then 0 else 1)
      + (if ltb 0 (c.node_at np).r_count then 1 else 0)
