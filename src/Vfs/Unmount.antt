-- ===== src/Vfs/Unmount.antt =====
-- fusefs_unmount of usr/src/uts/common/fs/fusefs/fusefs_vfsops.c, with the steps of Vnode. fmi_root is set from the
-- mount to the unmount; `walk` is the order of avl_walk and of avl_destroy_nodes, and fusefs_rflush does
-- nothing in the source.
pub mod Outcome
pub mod Examples
use illumos_fuse.Door.Errno.{eperm}
use illumos_fuse.Calls.{CallResult, fusefs_ssn_kill}
use illumos_fuse.Node.Cache.{Cache}
use illumos_fuse.Node.Cache.Table.{fusefs_check_table, fusefs_destroy_table}
use illumos_fuse.Vnode.{World, Env, Op, attempt, ◌>>=◌, ◌>>◌, gets, modify, fail_if, ret}
use illumos_fuse.Vnode.Remove.{ebusy}
use illumos_fuse.Vnode.Steps.{vn_rele}
use illumos_fuse.Prelude.{ℕ, Bool, true, not, ◌&&◌, ◌||◌, List, ltb, ◌==◌}

module _ {D : Type 0} (env : Env D) (walk : Cache → List ℕ) where
  unfoldable pub set_unmounted : World D → World D
  set_unmounted w = record w { cache = record w.cache { vfs_unmounted = true } }

  unfoldable pub table_destroyed : World D → World D
  table_destroyed w = record w { cache = fusefs_destroy_table env.nfusenode (walk w.cache) w.cache }

  -- "common code for both forced and non-forced"
  unfoldable pub tear_down : Op D (Unit {0})
  unfolding set_unmounted table_destroyed
  tear_down = do
    modify set_unmounted
    modify (λ w. record w { daemon = fusefs_ssn_kill env.door w.daemon })
    released ← attempt (vn_rele env env.fmi_root)
    modify table_destroyed

  -- The two tests of an unmount that is not forced
  unfoldable pub in_use : (debug : Bool) → World D → Bool
  in_use debug w =
      ltb 0 (fusefs_check_table debug env.fmi_root (walk w.cache) w.cache)
      || ltb 1 (w.cache.node_at env.fmi_root).v_count

  unfoldable pub fusefs_unmount : (secpolicy : ℕ) → (force debug : Bool) → Op D (Unit {0})
  unfolding tear_down in_use
  fusefs_unmount secpolicy force debug = do
    fail_if (not (secpolicy == 0)) eperm
    busy ← gets (in_use debug)
    fail_if (not force && busy) ebusy
    tear_down
