-- ===== src/Node.antt =====
-- The node cache of usr/src/uts/common/fs/fusefs/fusefs_node.c.
pub mod Order
pub mod Avl
pub mod Prune
pub mod Cache
pub mod FreeList
