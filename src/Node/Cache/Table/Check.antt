-- ===== src/Node/Cache/Table/Check.antt =====
-- fusefs_check_table finds the nodes that are in use.
use illumos_fuse.Node.Cache.{Cache, count_free, node_busy}
use illumos_fuse.Node.Cache.Table.{check_nodes, fusefs_check_table}
use illumos_fuse.Prelude.{ℕ, ◌+◌, ◌≤◌, ◌<◌, ◌≡◌, refl, ◌↔◌, ◌⊎◌, Bool, List, [], ◌∷◌, arith}

-- A node that does not keep a file system from being unmounted.
abbrev IsIdle : (root : ℕ) → Cache → ℕ → Type 0
IsIdle root c np = (np ≡ root) ⊎ ((0 < count_free np c.free_queue) × ((c.node_at np).r_count ≡ 0))

abbrev pub AllIdle : (root : ℕ) → List ℕ → Cache → Type 0
AllIdle root [] c = Unit {0}
AllIdle root (np ∷ nodes) c = IsIdle root c np × AllIdle root nodes c

busy-IsIdle : (root : ℕ) (c : Cache) (np : ℕ) → (node_busy root c np ≡ 0) ↔ IsIdle root c np
unfolding node_busy
busy-IsIdle root c np = (λ h. ground (arith, h), λ h. ground (arith, h))

check_nodes-grows :
    (debug : Bool) (root busycnt : ℕ) (nodes : List ℕ) (c : Cache)
    → busycnt ≤ check_nodes debug root busycnt nodes c
unfolding check_nodes
check_nodes-grows debug root busycnt [] c = omega arith
check_nodes-grows debug root busycnt (np ∷ nodes) c =
    ground (arith, check_nodes-grows debug root (busycnt + node_busy root c np) nodes c)

idle-check :
    (debug : Bool) (root : ℕ) (nodes : List ℕ) (c : Cache)
    → AllIdle root nodes c
    → check_nodes debug root 0 nodes c ≡ 0
unfolding check_nodes
idle-check debug root [] c idle = refl
idle-check debug root (np ∷ nodes) c (first, rest) =
    let none_busy = (busy-IsIdle root c np).1 first in
    rw (none_busy) (ground (arith, idle-check debug root nodes c rest))

check-idle :
    (debug : Bool) (root : ℕ) (nodes : List ℕ) (c : Cache)
    → check_nodes debug root 0 nodes c ≡ 0
    → AllIdle root nodes c
unfolding check_nodes
check-idle debug root [] c h = tt
check-idle debug root (np ∷ nodes) c h =
    let later = check_nodes-grows debug root (node_busy root c np) nodes c in
    let none_busy : node_busy root c np ≡ 0 = ground (arith, h, later) in
    (
      (busy-IsIdle root c np).0 none_busy,
      check-idle debug root nodes c (let h' = rw (none_busy) at h in ground (arith, h')),
    )

-- fusefs_check_table answers 0, with its debug setting or without, exactly when every node that it walks over
-- is the root, or is on the free list and has no other references.
pub check_table-AllIdle :
    (debug : Bool) (root : ℕ) (nodes : List ℕ) (c : Cache)
    → (fusefs_check_table debug root nodes c ≡ 0) ↔ AllIdle root nodes c
unfolding fusefs_check_table
check_table-AllIdle debug root nodes c =
    (check-idle debug root nodes c, idle-check debug root nodes c)
