-- ===== src/Node/Avl.antt =====
-- The AVL tree library of the kernel (avl_create and the rest of avl.h), which holds the nodes of
-- a mount in the order of fusefs_node_cmp. The library is not part of this repository: a tree is
-- an argument, with what avl.h says of each function, in terms of the entries in order.
pub mod Instance
pub mod Order
use illumos_fuse.Hash.{Bytes}
use illumos_fuse.Node.Order.{Sign, less, same, more, fusefs_node_cmp}
use illumos_fuse.Node.Order.Laws.{IsName}
use illumos_fuse.Prelude.{ℕ, ◌≡◌, Option, none, some, List, [], ◌∷◌}

-- A linked node: its header, which the comparison reads, and its address.
pub record Entry : Type 0 where
  pub rpath : Bytes
  pub node : ℕ

-- All later entries compare more.
abbrev pub AllAfter : Bytes → List Entry → Type 0
AllAfter p [] = Unit {0}
AllAfter p (e ∷ es) = (fusefs_node_cmp p e.rpath ≡ less) × AllAfter p es

abbrev pub IsOrdered : List Entry → Type 0
IsOrdered [] = Unit {0}
IsOrdered (e ∷ es) = IsName e.rpath × AllAfter e.rpath es × IsOrdered es

-- What the functions do, on the entries in order.
abbrev pub find_entry : Bytes → List Entry → Option Entry
find_entry p [] = none
find_entry p (e ∷ es) = elim (fusefs_node_cmp p e.rpath) [ same ↦ some e | _ ↦ find_entry p es ]

abbrev pub insert_entry : Entry → List Entry → List Entry
insert_entry e [] = e ∷ []
insert_entry e (x ∷ xs) = elim (fusefs_node_cmp e.rpath x.rpath) [
  | more ↦ x ∷ insert_entry e xs
  | _ ↦ e ∷ x ∷ xs
]

abbrev pub remove_entry : Bytes → List Entry → List Entry
remove_entry p [] = []
remove_entry p (x ∷ xs) = elim (fusefs_node_cmp p x.rpath) [ same ↦ xs | _ ↦ x ∷ remove_entry p xs ]

-- The first entry that is after `p`.
abbrev pub next_entry : Bytes → List Entry → Option Entry
next_entry p [] = none
next_entry p (x ∷ xs) = elim (fusefs_node_cmp p x.rpath) [ less ↦ some x | _ ↦ next_entry p xs ]

abbrev pub first_entry : List Entry → Option Entry
first_entry [] = none
first_entry (x ∷ xs) = some x

pub record Avl : Type 1 where
  pub Tree : Type 0
  pub entries : Tree → List Entry
  pub avl_create : Tree
  pub avl_find : Tree → Bytes → Option Entry
  pub avl_insert : Tree → Entry → Tree
  pub avl_remove : Tree → Entry → Tree
  pub avl_first : Tree → Option Entry
  pub avl_walk_after : Tree → Entry → Option Entry
  pub entries-create : entries avl_create ≡ []
  pub find-entries :
      (t : Tree) (p : Bytes)
      → IsOrdered (entries t)
      → IsName p
      → avl_find t p ≡ find_entry p (entries t)
  pub entries-insert :
      (t : Tree) (e : Entry)
      → IsOrdered (entries t)
      → IsName e.rpath
      → find_entry e.rpath (entries t) ≡ none
      → entries (avl_insert t e) ≡ insert_entry e (entries t)
  pub entries-remove :
      (t : Tree) (e : Entry)
      → IsOrdered (entries t)
      → find_entry e.rpath (entries t) ≡ some e
      → entries (avl_remove t e) ≡ remove_entry e.rpath (entries t)
  pub first-entries : (t : Tree) → avl_first t ≡ first_entry (entries t)
  pub walk-entries :
      (t : Tree) (e : Entry)
      → IsOrdered (entries t)
      → find_entry e.rpath (entries t) ≡ some e
      → avl_walk_after t e ≡ next_entry e.rpath (entries t)
