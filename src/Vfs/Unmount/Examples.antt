-- ===== src/Vfs/Unmount/Examples.antt =====
-- An unmount of a file system with the root and one file.
use illumos_fuse.Calls.{ok, err}
use illumos_fuse.Node.Cache.{Cache}
use illumos_fuse.Vnode.{World}
use illumos_fuse.Vnode.Remove.{ebusy}
use illumos_fuse.Vnode.Examples.{env, world}
use illumos_fuse.Vfs.Unmount.{fusefs_unmount}
use illumos_fuse.Vfs.Unmount.Outcome.{IsFree, unmount-outcome}
use illumos_fuse.Prelude.{ℕ, ◌≡◌, ◌⊎◌, true, false, some, List, [], ◌∷◌}

abbrev walk : Cache → List ℕ
walk c = 1 ∷ 2 ∷ []

unmount-outcome_example :
    ((false ≡ false)
      × (IsFree env walk world → ⊥)
      × (fusefs_unmount env walk 0 false false world ≡ some (err ebusy, world)))
    ⊎ (((false ≡ true) ⊎ IsFree env walk world)
        × (w' : World ℕ) × (fusefs_unmount env walk 0 false false world ≡ some (ok tt, w'))
        × (w'.held ≡ world.held))
unmount-outcome_example = unmount-outcome env walk false false world
