-- ===== src/Lookup.antt =====
-- The lookup of ".." in fusefslookup of usr/src/uts/common/fs/fusefs/fusefs_vnops.c.
pub mod Dotdot
use illumos_fuse.Hash.{Bytes}
use illumos_fuse.Node.Cache.{Cache, vn_hold}
use illumos_fuse.Node.Cache.Find.{node_findcreate}
use illumos_fuse.Prelude.{
  ℕ, zero, suc, Bool, Option, none, some, [], ◌∷◌, ◌==◌, if◌then◌else◌, length, take,
}

-- rpath[n]; 0 past the end
unfoldable pub byte_at : ℕ → Bytes → ℕ
byte_at n [] = 0
byte_at zero (c ∷ cs) = c
byte_at (suc n) (c ∷ cs) = byte_at n cs

-- `while (--rplen >= 0)`: where the last '/' before `rplen` is; none stands for -1.
unfoldable pub last_slash : (rplen : ℕ) → Bytes → Option ℕ
unfolding byte_at
last_slash zero rpath = none
last_slash (suc rplen) rpath =
    let rest = last_slash rplen rpath in if byte_at rplen rpath == b'/' then some rplen else rest

abbrev parent_at : Option ℕ → Bytes → Option Bytes
parent_at none rpath = none
parent_at (some zero) rpath = none
parent_at (some (suc rplen)) rpath = some (take (suc rplen) rpath)

-- "Find the parent path length." `none`: "Found our way to the root."
unfoldable pub parent_path : Bytes → Option Bytes
unfolding last_slash
parent_path rpath = parent_at (last_slash (length rpath) rpath) rpath

abbrev with_node : Option (ℕ × Bool × Cache) → Option (ℕ × Cache)
with_node none = none
with_node (some (np, newnode, c)) = some (np, c)

-- The vnode for "..", with a hold. `dnp` is the directory's node, `vroot` its flag VROOT and `root` is
-- fmi->fmi_root. The node of the parent is "force create"d.
module _ (nfusenode : ℕ) (kmem_cache_alloc : Cache → ℕ) (others : ℕ → Cache → Cache) where
  abbrev parent_node : (fuel root : ℕ) → Option Bytes → Cache → Option (ℕ × Cache)
  parent_node fuel root none c = some (root, vn_hold c root)
  parent_node fuel root (some rpath) c =
      with_node (node_findcreate nfusenode kmem_cache_alloc others fuel rpath none [] c)

  unfoldable pub lookup_dotdot :
      (fuel : ℕ) (vroot : Bool) (root dnp : ℕ) (n_rpath : Bytes) → Cache → Option (ℕ × Cache)
  unfolding parent_path node_findcreate
  lookup_dotdot fuel vroot root dnp n_rpath c =
      if vroot then some (dnp, vn_hold c dnp) else parent_node fuel root (parent_path n_rpath) c
