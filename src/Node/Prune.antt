-- ===== src/Node/Prune.antt =====
-- fusefs_attrcache_prune of usr/src/uts/common/fs/fusefs/fusefs_node.c: the walk over the nodes
-- after the given one, as the list of nodes on which fusefs_attrcache_remove is called.
pub mod Walk
pub mod Complete
pub mod Examples
use illumos_fuse.Hash.{Bytes}
use illumos_fuse.Node.Order.{Sign, same, strncmp}
use illumos_fuse.Node.Avl.{Entry, Avl}
use mathlib.Core.Option
use illumos_fuse.Prelude.{
  ℕ, zero, suc, Bool, true, false, not, ◌&&◌, ◌||◌, Option, none, some, List, [], ◌∷◌, map, ltb,
  ◌==◌, if◌then◌else◌, length,
}

abbrev pub same_sign : Sign → Bool
same_sign same = true
same_sign _ = false

-- np->n_rpath[rplen] is one of the two separators; false past the end.
unfoldable pub sep_at : ℕ → Bytes → Bool
sep_at n [] = false
sep_at zero (c ∷ cs) = c == b':' || c == b'/'
sep_at (suc n) (c ∷ cs) = sep_at n cs

-- The walk ends at the first node that does not match the path.
unfoldable pub prune_stops : Bytes → Bytes → Bool
prune_stops rpath n_rpath =
    ltb (length n_rpath) (length rpath) || not (same_sign (strncmp n_rpath rpath (length rpath)))

unfoldable pub prune_removes : Bytes → Bytes → Bool
unfolding sep_at
prune_removes rpath n_rpath = ltb (length rpath) (length n_rpath) && sep_at (length rpath) n_rpath

module _ (avl : Avl) where
  open avl use {Tree, avl_walk_after}

  -- The loop, on fuel: each round is one node further.
  unfoldable pub prune_loop : ℕ → Tree → Bytes → Entry → Option (List ℕ)
  unfolding prune_stops prune_removes
  prune_loop zero t rpath np = none
  prune_loop (suc fuel) t rpath np = elim (avl_walk_after t np) [
    | none ↦ some []
    | some e ↦
        let rest = prune_loop fuel t rpath e in
        if prune_stops rpath e.rpath
        then some []
        else if prune_removes rpath e.rpath
        then Option.map (λ ns. e.node ∷ ns) rest
        else rest
  ]

  unfoldable pub fusefs_attrcache_prune : ℕ → Tree → Entry → Option (List ℕ)
  unfolding prune_loop
  fusefs_attrcache_prune fuel t top = prune_loop fuel t top.rpath top
