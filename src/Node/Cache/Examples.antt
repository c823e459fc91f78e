-- ===== src/Node/Cache/Examples.antt =====
-- The node cache with one node.
use illumos_fuse.Hash.{Bytes, dnp_sep, search_path}
use illumos_fuse.Calls.{ok}
use illumos_fuse.Node.Cache.{CacheNode, Cache, count_free, set_node, hold_found, sn_addhash_locked}
use illumos_fuse.Node.Cache.Invariant.{IsCache, NoRefs, addhash-IsCache, put-IsCache}
use illumos_fuse.Node.Cache.Addfree.{Held}
use illumos_fuse.Node.Cache.Find.{new_fusenode, fusefs_nget, is_dot_name}
use illumos_fuse.Node.Cache.Find.Make.{OthersKeep, IsNodeOf, new-IsCache}
use illumos_fuse.Node.Cache.Find.Nget.{nget-IsNodeOf}
use illumos_fuse.Node.Cache.Table.{fusefs_node_reclaim, fusefs_destroy_table}
use illumos_fuse.Node.Cache.Table.Reclaim.{Emptied, reclaim-Emptied}
use illumos_fuse.Node.Cache.Table.Destroy.{IsNodes, busy_only, destroy_table-busy}
use illumos_fuse.Prelude.{
  ℕ, ◌<◌, ◌≡◌, refl, ◌⊎◌, Bool, false, none, some, [], ◌∷◌, ◌++◌, arith, length,
}

abbrev no_memory : CacheNode
no_memory = record new_fusenode { in_memory = false }

abbrev empty_cache : Cache
empty_cache = record {
  node_at = λ _. no_memory;
  fmi_hash = λ _. none;
  free_queue = [];
  fusenodenew = 0;
  vfs_unmounted = false;
}

empty_cache-IsCache : IsCache empty_cache
unfolding count_free
empty_cache-IsCache = record {
  linked = λ p n h. absurd (ground (arith, h));
  marked = λ n h. absurd (ground (arith, h));
  once = λ n. omega arith;
  waiting = λ n h. absurd (ground (arith, h));
}

abbrev path : Bytes
path = b'/' ∷ b'a' ∷ []

-- Node 2, under /a.
abbrev made : Cache
made = set_node empty_cache 2 (record new_fusenode { n_rpath = path })

abbrev linked : Cache
linked = sn_addhash_locked 2 made

linked-IsCache : IsCache linked
unfolding count_free
linked-IsCache =
    addhash-IsCache made 2
      (new-IsCache empty_cache 2 (record new_fusenode { n_rpath = path }) empty_cache-IsCache
        (refl, refl) refl)
      refl refl

linked-Held : Held linked 2
unfolding count_free sn_addhash_locked
linked-Held = record { not_free = refl; alive = refl; counted = omega arith }

-- Node 2 on the free list.
abbrev waiting : Cache
waiting = record linked { free_queue = linked.free_queue ++ 2 ∷ [] }

waiting-IsCache : IsCache waiting
unfolding count_free sn_addhash_locked
waiting-IsCache = put-IsCache linked 2 linked-IsCache refl refl refl

waiting-NoRefs : NoRefs waiting
unfolding count_free sn_addhash_locked
waiting-NoRefs n h = ground (arith, h)

two_left : length waiting.free_queue < 2
unfolding sn_addhash_locked
two_left = omega arith

reclaim-Emptied_example :
    (after : Cache) × (fusefs_node_reclaim 10 2 waiting ≡ some after) × Emptied 10 waiting after
reclaim-Emptied_example = reclaim-Emptied 10 2 waiting waiting-IsCache waiting-NoRefs two_left

waiting-IsNodes : IsNodes (2 ∷ []) waiting
unfolding count_free sn_addhash_locked
waiting-IsNodes n = ground arith

destroy_table-busy_example :
    let after = fusefs_destroy_table 10 (2 ∷ []) waiting in
    IsCache after
    × ((p : Bytes) → after.fmi_hash p ≡ busy_only waiting p)
    × ((n : ℕ)
        → (after.node_at n ≡ waiting.node_at n)
          ⊎ ((0 < count_free n waiting.free_queue) × ((after.node_at n).in_memory ≡ false)))
destroy_table-busy_example =
    destroy_table-busy 10 (2 ∷ []) waiting waiting-IsCache waiting-NoRefs waiting-IsNodes

-- The others do nothing.
abbrev alone : ℕ → Cache → Cache
alone np c = c

alone-OthersKeep : OthersKeep alone
alone-OthersKeep = record { keep_cache = λ np c w. w; keep_node = λ np c u. (refl, u.1) }

abbrev root : Bytes
root = b'/' ∷ []

abbrev name : Bytes
name = b'a' ∷ []

plain_name : is_dot_name name ≡ false
unfolding is_dot_name
plain_name = refl

nget-IsNodeOf_example :
    (np : ℕ) × (newnode : Bool) × (c' : Cache) × (fusefs_nget 10
        (λ _. 2)
        alone
        1
        root
        name
        empty_cache
      ≡ some (ok (np, newnode), c'))
    × IsNodeOf (search_path root (dnp_sep root) name) np c'
    × (fusefs_nget 10 (λ _. 2) alone 1 root name c' ≡ some (ok (np, false), hold_found c' np))
nget-IsNodeOf_example =
    nget-IsNodeOf 10 (λ _. 2) alone alone-OthersKeep 0 root name empty_cache refl
      empty_cache-IsCache plain_name
