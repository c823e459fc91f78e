-- ===== src/Node/Cache/Invariant.antt =====
-- The invariant of the node cache, and the basic steps that keep it.
use illumos_fuse.Hash.{Bytes}
use illumos_fuse.Node.Cache.{
  Cache, same_path, count_free, remove_free, set_node, take_free, vn_hold, hold_found,
  sn_addhash_locked, sn_rmhash_locked, sn_inactive, sn_destroy_node,
}
use illumos_fuse.Prelude.{
  ℕ, ◌+◌, ◌-◌, ◌≤◌, ◌<◌, ◌≡◌, refl, ◌≢◌, inl, inr, true, false, none, some, List, [], ◌∷◌, ◌++◌,
  arith, ltb, ◌==◌, if◌then◌else◌, Bool-cases, if_branches,
}

-- The tree has each node that is marked as linked under its path, and no other; the nodes on the free list
-- are there once, are in memory, and are held by the list alone.
pub record IsCache (c : Cache) : Type 0 where
  pub linked :
      (p : Bytes) (n : ℕ)
      → c.fmi_hash p ≡ some n
      → ((c.node_at n).n_rpath ≡ p)
        × ((c.node_at n).r_hashed ≡ true)
        × ((c.node_at n).in_memory ≡ true)
  pub marked : (n : ℕ) → (c.node_at n).r_hashed ≡ true → c.fmi_hash (c.node_at n).n_rpath ≡ some n
  pub once : (n : ℕ) → count_free n c.free_queue ≤ 1
  pub waiting :
      (n : ℕ)
      → 0 < count_free n c.free_queue
      → ((c.node_at n).v_count ≡ 1) × ((c.node_at n).in_memory ≡ true)

-- Nodes on the free list have no other references.
abbrev pub NoRefs : Cache → Type 0
NoRefs c = (n : ℕ) → 0 < count_free n c.free_queue → (c.node_at n).r_count ≡ 0

pub same_path_refl : (p : Bytes) → same_path p p ≡ true
unfolding same_path
same_path_refl [] = refl
same_path_refl (x ∷ p) = ground (arith, same_path_refl p)

pub same_path_eq : (p q : Bytes) → same_path p q ≡ true → p ≡ q
unfolding same_path
same_path_eq [] [] h = refl
same_path_eq [] (y ∷ q) h = absurd (ground (arith, h))
same_path_eq (x ∷ p) [] h = absurd (ground (arith, h))
same_path_eq (x ∷ p) (y ∷ q) h = ground (arith, same_path_eq p q, h)

pub count-remove_free : (n : ℕ) (q : List ℕ) → count_free n (remove_free n q) ≡ count_free n q - 1
unfolding count_free remove_free
count-remove_free n [] = refl
count-remove_free n (x ∷ q) = ground (arith, count-remove_free n q)

pub count-remove_free-other :
    (m n : ℕ) (q : List ℕ) → m ≢ n → count_free m (remove_free n q) ≡ count_free m q
unfolding count_free remove_free
count-remove_free-other m n [] h = refl
count-remove_free-other m n (x ∷ q) h = ground (arith, count-remove_free-other m n q h)

pub count-append :
    (n : ℕ) (q : List ℕ) (m : ℕ)
    → count_free n (q ++ m ∷ []) ≡ count_free n q + (if n == m then 1 else 0)
unfolding count_free
count-append n [] m = ground arith
count-append n (x ∷ q) m = ground (arith, count-append n q m)

-- Taking a node from the queue.
pub take_free-IsCache : (c : Cache) (np : ℕ) → IsCache c → IsCache (take_free c np)
take_free-IsCache c np w = record {
  linked = w.linked;
  marked = w.marked;
  once = λ n. elim (Bool-cases (n == np)) [
    | inl here ↦ ground (arith, here, count-remove_free n c.free_queue, w.once n)
    | inr other ↦ ground (arith, other, count-remove_free-other n np c.free_queue, w.once n)
  ];
  waiting = λ n h. elim (Bool-cases (n == np)) [
    | inl here ↦ absurd (ground (arith, here, h, count-remove_free n c.free_queue, w.once n))
    | inr other ↦ ground (arith, other, h, count-remove_free-other n np c.free_queue, w.waiting n)
  ];
}

-- A change of the hold count of a node that is not on the queue.
pub counted-IsCache :
    (c : Cache) (np k : ℕ)
    → IsCache c
    → count_free np c.free_queue ≡ 0
    → IsCache (set_node c np (record (c.node_at np) { v_count = k }))
counted-IsCache c np k w off = record {
  linked = λ p n h. ground (arith, w.linked p n h);
  marked = λ n h. ground (arith, w.marked n, h);
  once = w.once;
  waiting = λ n h. ground (arith, off, h, w.waiting n h);
}

-- A node that is taken out of the tree.
pub rmhash-IsCache :
    (c : Cache) (np : ℕ)
    → IsCache c
    → (c.node_at np).r_hashed ≡ true
    → IsCache (sn_rmhash_locked np c)
unfolding sn_rmhash_locked
rmhash-IsCache c np w hashed =
    let path = (c.node_at np).n_rpath in
    record {
      linked = λ p n h. ground (arith, h, w.linked p n, same_path_refl p);
      marked = λ n h. elim (Bool-cases (same_path (c.node_at n).n_rpath path)) [
        | inl same ↦ absurd (
            grind (
              arith,
              h,
              hashed,
              same_path_eq (c.node_at n).n_rpath path same,
              w.marked n,
              w.marked np,
            ))
        | inr other ↦ ground (arith, other, h, w.marked n)
      ];
      once = w.once;
      waiting = λ n h. ground (arith, h, w.waiting n);
    }

-- A node that is not in the tree forgets its path.
pub inactive-IsCache :
    (c : Cache) (np : ℕ) → IsCache c → (c.node_at np).r_hashed ≡ false → IsCache (sn_inactive np c)
unfolding sn_inactive
inactive-IsCache c np w plain = record {
  linked = λ p n h. ground (arith, h, plain, w.linked p n);
  marked = λ n h. ground (arith, h, plain, w.marked n);
  once = w.once;
  waiting = λ n h. ground (arith, h, w.waiting n);
}

pub destroy-IsCache :
    (c : Cache) (np : ℕ)
    → IsCache c
    → (c.node_at np).r_hashed ≡ false
    → count_free np c.free_queue ≡ 0
    → IsCache (sn_destroy_node np c)
unfolding sn_destroy_node
destroy-IsCache c np w plain off = record {
  linked = λ p n h. ground (arith, h, plain, w.linked p n);
  marked = λ n h. ground (arith, h, plain, w.marked n);
  once = w.once;
  waiting = λ n h. ground (arith, h, off, w.waiting n);
}

-- A node that goes into the tree, where its path is free.
pub addhash-IsCache :
    (c : Cache) (np : ℕ)
    → IsCache c
    → c.fmi_hash (c.node_at np).n_rpath ≡ none
    → (c.node_at np).in_memory ≡ true
    → IsCache (sn_addhash_locked np c)
unfolding sn_addhash_locked
addhash-IsCache c np w free alive =
    let path = (c.node_at np).n_rpath in
    record {
      linked = λ p n h. elim (Bool-cases (same_path p path)) [
        | inl same ↦ grind (arith, same, h, alive, same_path_eq p path same)
        | inr other ↦ ground (arith, other, h, free, w.linked p n)
      ];
      marked = λ n h. elim (Bool-cases (same_path (c.node_at n).n_rpath path)) [
        | inl same ↦ grind (
          arith,
          same,
          h,
          free,
          same_path_eq (c.node_at n).n_rpath path same,
          w.marked n,
          same_path_refl path,
        )
        | inr other ↦ ground (arith, other, h, w.marked n, same_path_refl path)
      ];
      once = w.once;
      waiting = λ n h. ground (arith, h, w.waiting n);
    }

-- A node that goes to the end of the queue.
pub put-IsCache :
    (c : Cache) (np : ℕ)
    → IsCache c
    → count_free np c.free_queue ≡ 0
    → (c.node_at np).v_count ≡ 1
    → (c.node_at np).in_memory ≡ true
    → IsCache (record c { free_queue = c.free_queue ++ np ∷ [] })
put-IsCache c np w off one alive = record {
  linked = w.linked;
  marked = w.marked;
  once = λ n. ground (arith, off, count-append n c.free_queue np, w.once n);
  waiting = λ n h. ground (arith, h, off, one, alive, count-append n c.free_queue np, w.waiting n);
}

-- A node that is looked up.
pub hold_found-IsCache : (c : Cache) (np : ℕ) → IsCache c → IsCache (hold_found c np)
unfolding hold_found
hold_found-IsCache c np w =
    if_branches IsCache (ltb 0 (count_free np c.free_queue)) (take_free c np) (vn_hold c np)
      (λ _. take_free-IsCache c np w)
      (λ off. counted-IsCache c np ((c.node_at np).v_count + 1) w (ground (arith, off)))
