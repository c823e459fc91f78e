-- ===== src/Node/Cache/Find.antt =====
-- make_fusenode, fusefs_node_findcreate and fusefs_nget of
-- usr/src/uts/common/fs/fusefs/fusefs_node.c.
pub mod Make
pub mod Memory
pub mod Nget
pub mod Total
use illumos_fuse.Hash.{Bytes, fusefs_gethash, dnp_sep, search_path}
use illumos_fuse.Door.Errno.{einval}
use illumos_fuse.Calls.{CallResult, ok, err}
use illumos_fuse.Node.Cache.{
  CacheNode, Cache, set_node, take_free, drop_hold, sn_hashfind, sn_addhash_locked,
  sn_rmhash_locked, sn_inactive, fusefs_addfree,
}
use illumos_fuse.Prelude.{
  ℕ, zero, suc, ◌+◌, Bool, true, false, ◌&&◌, Option, none, some, [], ◌∷◌, ltb, leb, ◌==◌,
  if◌then◌else◌,
}

-- A node as bzero and the lines after it leave it.
abbrev pub new_fusenode : CacheNode
new_fusenode = record {
  n_rpath = [];
  n_ino = 0;
  r_hashed = false;
  r_count = 0;
  r_error = 0;
  v_count = 1;
  in_memory = true;
}

-- Where the memory for a node comes from: `restart` is `goto start`.
pub data Attempt : Type 0 where
  restart : Cache → Attempt
  built : ℕ → Cache → Attempt

-- fusefs_node_findcreate with a NULL for the attributes: "just looking".
unfoldable pub node_look :
    (dirnm : Bytes) (sep : Option ℕ) (name : Bytes) → Cache → Option ℕ × Cache
unfolding sn_hashfind search_path
node_look dirnm sep name c = sn_hashfind (search_path dirnm sep name) c

-- "Don't allow "" or "." or ".." here."
unfoldable pub is_dot_name : Bytes → Bool
is_dot_name [] = true
is_dot_name (a ∷ []) = a == b'.'
is_dot_name (a ∷ b ∷ []) = a == b'.' && b == b'.'
is_dot_name (a ∷ b ∷ c ∷ _) = false

-- `kmem_cache_alloc` gives the address of a new node. Other threads act while a node is made and no lock is
-- held: `others np` is what they do then. Between the other locks they do nothing.
module _ (nfusenode : ℕ) (kmem_cache_alloc : Cache → ℕ) (others : ℕ → Cache → Cache) where
  -- After sn_inactive: the last look at the hold count.
  unfoldable pub recycle_inactive : ℕ → Cache → Attempt
  unfolding sn_inactive
  recycle_inactive np c =
      let c' = sn_inactive np c in
      if ltb 1 (c'.node_at np).v_count then restart (drop_hold c' np) else built np c'

  -- A node that was taken from the free list.
  unfoldable pub recycle : ℕ → Cache → Attempt
  unfolding recycle_inactive sn_rmhash_locked
  recycle np c =
      if (c.node_at np).r_hashed
      then if ltb 1 (c.node_at np).v_count
        then restart (drop_hold c np)
        else recycle_inactive np (sn_rmhash_locked np c)
      else recycle_inactive np c

  abbrev pub alloc_node : Cache → Attempt
  alloc_node c = built (kmem_cache_alloc c) (record c { fusenodenew = c.fusenodenew + 1 })

  -- "see if we can find something on the freelist"
  unfoldable pub get_memory : Cache → Attempt
  unfolding recycle
  get_memory c = elim c.free_queue [
    | [] ↦ alloc_node c
    | np ∷ _ ↦ if leb nfusenode c.fusenodenew then recycle np (take_free c np) else alloc_node c
  ]

  -- With the hash lock again: "Lost the race", or the node is linked. The second result is *newnode.
  unfoldable pub link_new : Bytes → ℕ → Option ℕ × Cache → ℕ × Bool × Cache
  unfolding fusefs_addfree sn_addhash_locked fusefs_gethash
  link_new rpath np (some tnp, c) = (tnp, false, fusefs_addfree nfusenode np c)
  link_new rpath np (none, c) = (
    np,
    true,
    sn_addhash_locked np
        (set_node c np (record (c.node_at np) { n_rpath = rpath; n_ino = fusefs_gethash rpath })),
  )

  unfoldable pub init_node : Bytes → ℕ → Cache → ℕ × Bool × Cache
  unfolding link_new sn_hashfind
  init_node rpath np c =
      link_new rpath np (sn_hashfind rpath (others np (set_node c np new_fusenode)))

  unfoldable pub make_node :
      (start : Cache → Option (ℕ × Bool × Cache)) → Bytes → Attempt → Option (ℕ × Bool × Cache)
  unfolding init_node
  make_node start rpath (restart c) = start c
  make_node start rpath (built np c) = some (init_node rpath np c)

  unfoldable pub make_unless_found :
      (start : Cache → Option (ℕ × Bool × Cache))
      → Bytes
      → Option ℕ × Cache
      → Option (ℕ × Bool × Cache)
  unfolding make_node get_memory
  make_unless_found start rpath (some np, c) = some (np, false, c)
  make_unless_found start rpath (none, c) = make_node start rpath (get_memory c)

  -- On fuel: one round for each restart, and one more.
  unfoldable pub make_fusenode : (fuel : ℕ) → Bytes → Cache → Option (ℕ × Bool × Cache)
  unfolding make_unless_found sn_hashfind
  make_fusenode zero rpath c = none
  make_fusenode (suc fuel) rpath c =
      make_unless_found (make_fusenode fuel rpath) rpath (sn_hashfind rpath c)

  -- The caller applies the attributes to the node (fusefs_cache_check and fusefs_attrcache_fa), which does not
  -- touch the cache.
  unfoldable pub node_findcreate :
      (fuel : ℕ) (dirnm : Bytes) (sep : Option ℕ) (name : Bytes) → Cache → Option (ℕ × Bool × Cache)
  unfolding make_fusenode search_path
  node_findcreate fuel dirnm sep name c = make_fusenode fuel (search_path dirnm sep name) c

  unfoldable pub fusefs_nget :
      (fuel : ℕ) (n_rpath name : Bytes) → Cache → Option (CallResult (ℕ × Bool) × Cache)
  unfolding is_dot_name node_findcreate dnp_sep
  fusefs_nget fuel n_rpath name c =
      if is_dot_name name
      then some (err einval, c)
      else elim (node_findcreate fuel n_rpath (dnp_sep n_rpath) name c) [
        | none ↦ none
        | some (np, newnode, c') ↦ some (ok (np, newnode), c')
      ]
