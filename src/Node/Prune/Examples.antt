-- ===== src/Node/Prune/Examples.antt =====
-- A small tree, and the theorems at it.
use illumos_fuse.Node.Avl.{Entry, IsOrdered}
use illumos_fuse.Node.Avl.Instance.{list_avl}
use illumos_fuse.Node.Order.{fusefs_node_cmp}
use illumos_fuse.Node.Prune.{fusefs_attrcache_prune}
use illumos_fuse.Node.Prune.Complete.{nodes_under, prune-nodes_under, prune_root-none}
use illumos_fuse.Prelude.{◌≡◌, refl, some, List, [], ◌∷◌, arith}

abbrev root : Entry
root = record { rpath = b'/' ∷ []; node = 1 }

-- "/a", "/a b", "/a/b", "/b"
abbrev dir : Entry
dir = record { rpath = b'/' ∷ b'a' ∷ []; node = 2 }

abbrev tree : List Entry
tree =
    root
    ∷ dir
    ∷ record { rpath = b'/' ∷ b'a' ∷ b' ' ∷ b'b' ∷ []; node = 3 }
    ∷ record { rpath = b'/' ∷ b'a' ∷ b'/' ∷ b'b' ∷ []; node = 4 }
    ∷ record { rpath = b'/' ∷ b'b' ∷ []; node = 5 }
    ∷ []

tree-IsOrdered : IsOrdered tree
unfolding fusefs_node_cmp
tree-IsOrdered = grind arith

prune_dir : fusefs_attrcache_prune list_avl 6 tree dir ≡ some (4 ∷ [])
unfolding fusefs_attrcache_prune fusefs_node_cmp
prune_dir = refl

prune-nodes_under_example :
    fusefs_attrcache_prune list_avl 6 tree dir ≡ some (nodes_under dir.rpath tree)
unfolding fusefs_node_cmp
prune-nodes_under_example =
    prune-nodes_under list_avl 6 tree dir tree-IsOrdered (omega arith) refl (omega arith)

prune_root-none_example : fusefs_attrcache_prune list_avl 6 tree root ≡ some []
unfolding fusefs_node_cmp
prune_root-none_example =
    prune_root-none list_avl 6 tree root tree-IsOrdered refl refl (omega arith) (omega arith)
