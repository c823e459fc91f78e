-- ===== src/Lib.antt =====
-- A verification library for the illumos FUSE file system: the kernel module fusefs of
-- usr/src/uts/common/fs/fusefs and its up-calls to the FUSE daemon.
--
-- The module turns the operations of the system on files into messages to a daemon, which it sends
-- through a door. Its parts are below, with the files that model them.
--
-- RwLock models fusefs_rwlock.c, the reader/writer lock of a file. rw_enter_sig, rw_enter_woken and
--   rw_enter_eintr are the parts of fusefs_rw_enter_sig between its waits, rw_tryenter, rw_exit and
--   rw_lock_held the functions of those names with the prefix fusefs_. RwLock.System lets any number
--   of threads interleave them.
-- Hash models the name hash of fusefs_subr.c and the search string of fusefs_node_findcreate.
-- Node models parts of the node cache of fusefs_node.c: Node.Order the comparison fusefs_node_cmp,
--   Node.Prune the walk of fusefs_attrcache_prune, and Node.FreeList the circular list fusefreelist
--   with sn_rmfree and the insertion of fusefs_addfree, pointer by pointer. Node.Cache has the cache as
--   a whole, with the tree as a map and the free list as the queue of Node.FreeList.Refine: sn_hashfind,
--   sn_addhash_locked, sn_rmhash_locked, fusefs_addfree and the functions below it; Node.Cache.Find
--   make_fusenode, fusefs_node_findcreate and fusefs_nget; Node.Cache.Table fusefs_check_table,
--   fusefs_destroy_table and fusefs_node_reclaim.
-- Door has the messages of usr/src/uts/common/sys/fs/fuse_door.h and fuse_ktypes.h.
-- Calls models fusefs_calls.c, each function under its own name; Calls.Paths has the way in which
--   path names are put into the messages, Calls.Files the calls by path, Calls.Transfer reading and
--   writing, and Calls.Ops all calls as one.
-- File models what happens to one file: File.Attr the attribute cache of fusefs_client.c, File.Open
--   the opening and closing of fusefs_vnops.c, and File.Data reading and writing
--   there, and File.Setattr the setting of attributes; they call the functions of Calls and of
--   File.Attr.
-- Lookup models the lookup of ".." in fusefslookup of fusefs_vnops.c, over the node cache.
-- Vnode models the other vnode operations of fusefs_vnops.c as functions of a world, which has the
--   node cache, the file of each node, the locks that the thread holds and the daemon. Vnode.Steps
--   has the calls of Node.Cache, File.Attr and File.Open on it, Vnode.Access the access checks,
--   and Vnode.Lookup, Create, Remove, Rename, Readdir and Other the operations, under their names. Vnode.Opened
--   has those on open files: the steps of File.Open and File.Data with their locks and assertions around them,
--   and Vnode.Safety all functions of fusefs_vnodeops_template as one.
--   `locked` stands for what follows a label `out:`. Vnode.Keeps has the rules by which an operation
--   is seen to return with the locks that it was called with.
-- Vfs models fusefs_vfsops.c: Vfs.Mount has fusefs_mount, fusefs_root and fusefs_freevfs with the holds that
--   they take and release, and Vfs.Statvfs fusefs_statvfs, cut into the parts between which other threads
--   run; Vfs.Statvfs.Threads lets any number of threads interleave them. Vfs.Unmount has fusefs_unmount,
--   with the steps of Vnode.
-- Daemon models usr/src/lib/libfuse/common/fuse_ll_doorsvc.c, the daemon's side of the door, on any file
--   system: Daemon.Library has the functions of the FUSE library and of malloc that it calls,
--   Daemon.Handlers and Daemon.Directories the handlers do_init to do_rmdir under their names, and
--   Daemon.Dispatch has sol_dispatch and daemon_door, the door with the daemon behind it, which the
--   functions of Calls can be given. Daemon.Refine and Daemon.Handles have what the two sides do together.
-- Prelude holds what the components share: tests and signed integers on the native numbers, list
--   lengths, sums over families, a bound of exclusive or.
--
-- Code of the system around the module is a parameter: the door and the daemon behind it (Door), the
-- FUSE library and malloc under the daemon (Daemon.Library), the
-- copying of uiomove (Calls.Transfer.Uiomove), the table IFTOVT, and the AVL trees of the kernel
-- (Node.Avl), with laws that state the documented behaviour and an instance that has it.
--
-- Numbers are natural numbers. A hash is taken modulo 2 ^ 32 as in the source, and the counter of
-- the lock is a signed integer. The counts of references and of waiters are not bounded, and times
-- are differences of a clock that starts at 0. The walk of fusefs_attrcache_prune runs on fuel; as
-- many rounds as there are nodes in the tree, and one more, are enough. The loop of reads and writes
-- (io_loop) runs on fuel too; more than there are bytes to move is enough, since every round that is
-- not the last moves at least one. make_fusenode runs on fuel for its restarts: one round is enough
-- in a cache that is well-formed, and one more than there are free nodes in any
-- (Node.Cache.Find.Total), which is what Vnode.Steps gives it. fusefs_node_reclaim needs more than
-- there are free nodes, and fusefs_readvdir one round for each byte of the buffer. The search for a
-- minor number (next_minor) has one round for each of the 2 ^ 18 numbers. In make_fusenode
-- other threads act while a node is made and no lock is held, as a parameter; at its other unlocked
-- places, and in the operations of Vnode, they do nothing. The variable nnp that fusefsrename may
-- read before it is set has a value that is an argument. The walk of fusefs_attrcache_prune is done
-- in Vnode by the nodes that it reaches.
--
-- Not modelled: renames across mounts, fusefs_sync, the loading of the module, the start of the daemon's service, and
-- the commands. The other files of the FUSE library under usr/src/lib/libfuse are another project's. Allocation,
-- credentials, statistics and debug output are left out everywhere.
--
pub mod Calls
pub mod Daemon
pub mod Door
pub mod File
pub mod Hash
pub mod Lookup
pub mod Node
pub mod Prelude
pub mod RwLock
pub mod Vfs
pub mod Vnode
