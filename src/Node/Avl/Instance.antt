-- ===== src/Node/Avl/Instance.antt =====
-- The laws of the tree can be met: a list in order.
use illumos_fuse.Node.Avl.{
  Entry, Avl, find_entry, insert_entry, remove_entry, next_entry, first_entry,
}
use illumos_fuse.Prelude.{refl, List, []}

abbrev pub list_avl : Avl
list_avl = record {
  Tree = List Entry;
  entries = λ t. t;
  avl_create = [];
  avl_find = λ t p. find_entry p t;
  avl_insert = λ t e. insert_entry e t;
  avl_remove = λ t e. remove_entry e.rpath t;
  avl_first = first_entry;
  avl_walk_after = λ t e. next_entry e.rpath t;
  entries-create = refl;
  find-entries = λ t p h n. refl;
  entries-insert = λ t e h n f. refl;
  entries-remove = λ t e h f. refl;
  first-entries = λ t. refl;
  walk-entries = λ t e h f. refl;
}
