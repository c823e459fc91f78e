-- ===== src/Node/Prune/Complete.antt =====
-- fusefs_attrcache_prune reaches exactly the nodes under the given one.
use illumos_fuse.Hash.{Bytes}
use illumos_fuse.Node.Order.{less, fusefs_node_cmp}
use illumos_fuse.Node.Order.Laws.{IsName, node_cmp-lex}
use illumos_fuse.Node.Avl.{Entry, Avl, AllAfter, IsOrdered, find_entry, first_entry}
use illumos_fuse.Node.Avl.Order.{
  length-tail_after, tail_after, Sign-cases, AllAfter-trans, tail_after-step, next-tail_after,
}
use illumos_fuse.Node.Prune.{prune_stops, prune_removes, prune_loop, fusefs_attrcache_prune}
use illumos_fuse.Node.Prune.Walk.{
  is_under, is_prefix, stops-prefix, removes-under, no_prefix-after, under-after,
}
use illumos_fuse.Prelude.{
  ℕ, zero, suc, ◌<◌, ◌≡◌, refl, sym, ap, ◌∙◌, ◌≢◌, inl, inr, false, some, List, [], ◌∷◌, arith,
  if◌then◌else◌, Bool-cases, length,
}

-- The nodes under a path, in the order of the tree.
unfoldable pub nodes_under : Bytes → List Entry → List ℕ
nodes_under p [] = []
nodes_under p (e ∷ es) = if is_under p e.rpath then e.node ∷ nodes_under p es else nodes_under p es

-- The walk over the entries that are left.
list_walk : Bytes → List Entry → List ℕ
list_walk p [] = []
list_walk p (e ∷ es) =
    if prune_stops p e.rpath
    then []
    else if prune_removes p e.rpath
    then e.node ∷ list_walk p es
    else list_walk p es

-- Behind the first path without the prefix there is nothing to remove.
none_under :
    (p : Bytes) (y : Bytes) (es : List Entry)
    → IsName p
    → IsName y
    → fusefs_node_cmp p y ≡ less
    → is_prefix p y ≡ false
    → AllAfter y es
    → IsOrdered es
    → nodes_under p es ≡ []
unfolding nodes_under
none_under p y [] np ny h n a o = refl
none_under p y (e ∷ es) np ny h n a o =
    let none : is_under p e.rpath ≡ false =
      no_prefix-after p y e.rpath (sym (node_cmp-lex p y np ny) ∙ h) n
        (sym (node_cmp-lex y e.rpath ny o.0) ∙ a.0) in
    rw none (none_under p y es np ny h n a.1 o.2)

under_of_prefix : (p q : Bytes) → is_prefix p q ≡ false → is_under p q ≡ false
unfolding is_under is_prefix
under_of_prefix [] q h = cc
under_of_prefix (x ∷ xs) [] h = refl
under_of_prefix (x ∷ xs) (y ∷ ys) h = ground (arith, under_of_prefix xs ys)

list_walk-under :
    (p : Bytes) (es : List Entry)
    → IsName p
    → AllAfter p es
    → IsOrdered es
    → list_walk p es ≡ nodes_under p es
unfolding list_walk nodes_under
list_walk-under p [] n a o = refl
list_walk-under p (e ∷ es) n a o = elim (Bool-cases (is_prefix p e.rpath)) [
  | inl b ↦ ground (
    arith,
    b,
    stops-prefix p e.rpath n o.0,
    removes-under p e.rpath,
    list_walk-under p es n a.1 o.2,
  )
  | inr b ↦ ground (
    arith,
    b,
    stops-prefix p e.rpath n o.0,
    under_of_prefix p e.rpath,
    none_under p e.rpath es n o.0 a.0 b o.1 o.2,
  )
]

-- Nothing before a path lies under it.
tail_after-under :
    (p : Bytes) (es : List Entry)
    → IsName p
    → IsOrdered es
    → (nodes_under p es ≡ nodes_under p (tail_after p es))
      × AllAfter p (tail_after p es)
      × IsOrdered (tail_after p es)
unfolding tail_after nodes_under
tail_after-under p [] n o = (refl, tt, tt)
tail_after-under p (e ∷ es) n o = elim (Sign-cases (fusefs_node_cmp p e.rpath)) [
  | inl l ↦ rw (l, tail_after) (refl, (l, AllAfter-trans p e.rpath es n o.0 l o.1 o.2), o)
  | inr r ↦
      let ih = tail_after-under p es n o.2 in
      let none : is_under p e.rpath ≡ false =
        ground (arith, r, node_cmp-lex p e.rpath n o.0, under-after p e.rpath) in
      ground (arith, r, none, ih)
]

-- The path of the root, or of a node below it whose name does not begin with a separator.
abbrev pub IsRootPath : Bytes → Type 0
IsRootPath [] = ⊥
IsRootPath (a ∷ []) = a ≡ b'/'
IsRootPath (a ∷ c ∷ rest) = (a ≡ b'/') × (c ≢ b'/') × (c ≢ b':')

abbrev pub AllRootPaths : List Entry → Type 0
AllRootPaths [] = Unit {0}
AllRootPaths (e ∷ es) = IsRootPath e.rpath × AllRootPaths es

not_under_root : (q : Bytes) → IsRootPath q → is_under (b'/' ∷ []) q ≡ false
unfolding is_under
not_under_root [] h = absurd h
not_under_root (a ∷ []) h = ground arith
not_under_root (a ∷ c ∷ rest) h = ground arith

nodes_under_root : (es : List Entry) → AllRootPaths es → nodes_under (b'/' ∷ []) es ≡ []
unfolding nodes_under
nodes_under_root [] h = refl
nodes_under_root (e ∷ es) h = rw (not_under_root e.rpath h.0) (nodes_under_root es h.1)

module _ (avl : Avl) where
  open avl use {Tree, entries, walk-entries}

  prune_loop-walk :
      (fuel : ℕ) (t : Tree) (p : Bytes) (e : Entry) (es : List Entry)
      → IsOrdered (entries t)
      → find_entry e.rpath (entries t) ≡ some e
      → tail_after e.rpath (entries t) ≡ es
      → length es < fuel
      → prune_loop avl fuel t p e ≡ some (list_walk p es)
  unfolding prune_loop list_walk
  prune_loop-walk zero t p e es o f a lt = absurd (omega arith)
  prune_loop-walk (suc fuel) t p e [] o f a lt =
      rw (walk-entries t e o f ∙ next-tail_after e.rpath (entries t) ∙ ap first_entry a, prune_loop)
        refl
  prune_loop-walk (suc fuel) t p e (y ∷ ys) o f a lt =
      let g = tail_after-step e.rpath (entries t) y ys a o in
      rw (walk-entries t e o f ∙ next-tail_after e.rpath (entries t) ∙ ap first_entry a, prune_loop)
        (ground (arith, prune_loop-walk fuel t p y ys o g.1 g.0 (omega arith)))

  -- For a node of the tree, whose paths are ordered and hold no NUL byte, and more fuel than the
  -- tree has nodes, the walk of fusefs_attrcache_prune ends, and the nodes that it invalidates are
  -- exactly those whose path is the node's path, a ':' or '/', and anything.
  pub prune-nodes_under :
      (fuel : ℕ) (t : Tree) (top : Entry)
      → IsOrdered (entries t)
      → IsName top.rpath
      → find_entry top.rpath (entries t) ≡ some top
      → length (entries t) < fuel
      → fusefs_attrcache_prune avl fuel t top ≡ some (nodes_under top.rpath (entries t))
  unfolding fusefs_attrcache_prune
  prune-nodes_under fuel t top o n f lt =
      let h = tail_after-under top.rpath (entries t) n o in
      prune_loop-walk fuel t top.rpath top _ o f refl
        (omega (arith, length-tail_after top.rpath (entries t)))
      ∙ ap some (list_walk-under top.rpath (tail_after top.rpath (entries t)) n h.1 h.2 ∙ sym h.0)

-- On the root node, whose path is "/", the walk invalidates none of the nodes below it: the path
-- of each is "/", and a name that does not begin with a separator.
pub prune_root-none :
    (avl : Avl) (fuel : ℕ) (t : avl.Tree) (top : Entry)
    → IsOrdered (avl.entries t)
    → top.rpath ≡ b'/' ∷ []
    → find_entry top.rpath (avl.entries t) ≡ some top
    → length (avl.entries t) < fuel
    → AllRootPaths (avl.entries t)
    → fusefs_attrcache_prune avl fuel t top ≡ some []
prune_root-none avl fuel t top o e f lt b =
    prune-nodes_under avl fuel t top o (rw e (omega arith, tt)) f lt
    ∙ ap some (rw e (nodes_under_root (avl.entries t) b))
