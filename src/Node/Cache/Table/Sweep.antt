-- ===== src/Node/Cache/Table/Sweep.antt =====
-- The first loop of fusefs_destroy_table: the tree of the busy nodes, and the list of the others.
use illumos_fuse.Hash.{Bytes}
use illumos_fuse.Node.Cache.{Cache, same_path, link, count_free}
use illumos_fuse.Node.Cache.Invariant.{
  same_path_refl, same_path_eq, count-remove_free, count-remove_free-other,
}
use illumos_fuse.Node.Cache.Table.{take_unlinked, sweep}
use illumos_fuse.Prelude.{
  ℕ, ◌≤◌, ◌<◌, ◌≡◌, sym, ap, ◌≢◌, ◌⊎◌, inl, inr, true, false, Option, some, List, [], ◌∷◌, arith,
  ltb, ◌==◌, Bool-cases, elim_branches,
}

-- A node that is held once, by the one who will destroy it, and is in no tree.
abbrev pub IsDoomed : Cache → ℕ → Type 0
IsDoomed c n =
    ((c.node_at n).r_hashed ≡ false)
    × ((c.node_at n).v_count ≡ 1)
    × ((c.node_at n).r_count ≡ 0)
    × ((c.node_at n).in_memory ≡ true)
    × (count_free n c.free_queue ≡ 0)

-- While the loop runs: `nodes` are the nodes to come.
pub record Sweeping (nodes : List ℕ) (tmp : Bytes → Option ℕ) (rlist : List ℕ) (c : Cache)
    : Type 0 where
  pub swept :
      (p : Bytes) (n : ℕ)
      → tmp p ≡ some n
      → ((c.node_at n).n_rpath ≡ p)
        × ((c.node_at n).r_hashed ≡ true)
        × ((c.node_at n).in_memory ≡ true)
        × (count_free n c.free_queue ≡ 0)
  pub either_tree :
      (n : ℕ)
      → (c.node_at n).r_hashed ≡ true
      → (count_free n nodes ≡ 1) ⊎ (tmp (c.node_at n).n_rpath ≡ some n)
  pub unique :
      (a b : ℕ)
      → (c.node_at a).r_hashed ≡ true
      → (c.node_at b).r_hashed ≡ true
      → (c.node_at a).n_rpath ≡ (c.node_at b).n_rpath
      → a ≡ b
  pub to_come :
      (n : ℕ)
      → 0 < count_free n nodes
      → ((c.node_at n).r_hashed ≡ true) × ((c.node_at n).in_memory ≡ true)
  pub free_once : (n : ℕ) → count_free n c.free_queue ≤ 1
  pub free_waiting :
      (n : ℕ)
      → 0 < count_free n c.free_queue
      → ((c.node_at n).v_count ≡ 1) × ((c.node_at n).in_memory ≡ true) × ((c.node_at n).r_count ≡ 0)
  pub nodes_once : (n : ℕ) → count_free n nodes ≤ 1
  pub doomed : (n : ℕ) → 0 < count_free n rlist → IsDoomed c n
  pub rlist_once : (n : ℕ) → count_free n rlist ≤ 1

sweep_busy :
    (np : ℕ) (nodes : List ℕ) (tmp : Bytes → Option ℕ) (rlist : List ℕ) (c : Cache)
    → Sweeping (np ∷ nodes) tmp rlist c
    → count_free np c.free_queue ≡ 0
    → Sweeping nodes (link tmp (c.node_at np).n_rpath (some np)) rlist c
unfolding count_free
sweep_busy np nodes tmp rlist c s busy =
    let path = (c.node_at np).n_rpath in
    let here = s.to_come np (ground arith) in
    record {
      swept = λ p n h. elim (Bool-cases (same_path p path)) [
        | inl same ↦ grind (arith, same, h, busy, here, same_path_eq p path same)
        | inr other ↦ ground (arith, other, h, s.swept p n)
      ];
      either_tree = λ n h. elim (Bool-cases (same_path (c.node_at n).n_rpath path)) [
        | inl same ↦
            let equal : n ≡ np =
              s.unique n np h here.0 (same_path_eq (c.node_at n).n_rpath path same) in
            inr (rw (same) (ap some (sym equal)))
        | inr other ↦ ground (arith, other, h, same_path_refl path, s.either_tree n)
      ];
      unique = s.unique;
      to_come = λ n h. ground (arith, h, s.to_come n);
      free_once = s.free_once;
      free_waiting = s.free_waiting;
      nodes_once = λ n. ground (arith, s.nodes_once n);
      doomed = s.doomed;
      rlist_once = s.rlist_once;
    }

sweep_free :
    (np : ℕ) (nodes : List ℕ) (tmp : Bytes → Option ℕ) (rlist : List ℕ) (c : Cache)
    → Sweeping (np ∷ nodes) tmp rlist c
    → 0 < count_free np c.free_queue
    → Sweeping nodes tmp (np ∷ rlist) (take_unlinked np c)
unfolding count_free take_unlinked
sweep_free np nodes tmp rlist c s free =
    let here = s.to_come np (ground arith) in
    let waits = s.free_waiting np free in
    let left = count-remove_free np c.free_queue in
    let other_count = λ (n : ℕ) (d : n ≢ np). count-remove_free-other n np c.free_queue d in
    record {
      swept = λ p n h. ground (arith, h, free, s.swept p n h, other_count n);
      either_tree = λ n h. ground (arith, h, s.either_tree n);
      unique = λ a b ha hb e. ground (arith, ha, hb, e, s.unique a b);
      to_come = λ n h. ground (arith, h, s.to_come n, s.nodes_once n);
      free_once = λ n. elim (Bool-cases (n == np)) [
        | inl same ↦ ground (arith, same, left, s.free_once n)
        | inr other ↦ ground (arith, other, other_count n, s.free_once n)
      ];
      free_waiting = λ n h. elim (Bool-cases (n == np)) [
        | inl same ↦ absurd (ground (arith, same, left, h, s.free_once n))
        | inr other ↦ ground (arith, other, other_count n, h, s.free_waiting n)
      ];
      nodes_once = λ n. ground (arith, s.nodes_once n);
      doomed = λ n h. elim (Bool-cases (n == np)) [
        | inl same ↦ ground (arith, same, left, waits, s.free_once n)
        | inr other ↦ ground (arith, other, other_count n, h, s.doomed n)
      ];
      rlist_once = λ n. ground (arith, here, s.rlist_once n, s.doomed n);
    }

-- Nodes are as they were before the loop, but for those on the list, which were free.
abbrev pub Swept : Cache → Cache → List ℕ → Type 0
Swept before c rlist =
    (n : ℕ)
    → ((c.node_at n ≡ before.node_at n)
        × (count_free n c.free_queue ≡ count_free n before.free_queue)
        × (count_free n rlist ≡ 0))
      ⊎ ((0 < count_free n rlist) × (0 < count_free n before.free_queue))

free_Swept :
    (np : ℕ) (rlist : List ℕ) (before c : Cache)
    → Swept before c rlist
    → (c.node_at np).r_hashed ≡ true
    → 0 < count_free np c.free_queue
    → (0 < count_free np rlist → (c.node_at np).r_hashed ≡ false)
    → Swept before (take_unlinked np c) (np ∷ rlist)
unfolding count_free take_unlinked
free_Swept np rlist before c w hashed free listed n = elim (Bool-cases (n == np)) [
  | inl same ↦ inr (ground (arith, same), ground (arith, same, free, hashed, listed, w np))
  | inr other ↦ ground (arith, other, count-remove_free-other n np c.free_queue, w n)
]

-- What the loop leaves.
abbrev pub Ends : Cache → List ℕ × Cache → Type 0
Ends before r = Sweeping [] r.1.fmi_hash r.0 r.1 × Swept before r.1 r.0

pub sweep-Ends :
    (nodes : List ℕ) (tmp : Bytes → Option ℕ) (rlist : List ℕ) (before c : Cache)
    → Sweeping nodes tmp rlist c
    → Swept before c rlist
    → Ends before (sweep nodes tmp rlist c)
unfolding sweep count_free
sweep-Ends [] tmp rlist before c s w = (
  record {
    swept = s.swept;
    either_tree = s.either_tree;
    unique = s.unique;
    to_come = s.to_come;
    free_once = s.free_once;
    free_waiting = s.free_waiting;
    nodes_once = s.nodes_once;
    doomed = s.doomed;
    rlist_once = s.rlist_once;
  },
  w,
)
sweep-Ends (np ∷ nodes) tmp rlist before c s w =
    elim_branches {X = List ℕ × Cache} (Ends before) (ltb 0 (count_free np c.free_queue))
      (sweep nodes tmp (np ∷ rlist) (take_unlinked np c))
      (sweep nodes (link tmp (c.node_at np).n_rpath (some np)) rlist c)
      (λ free.
        let waits : 0 < count_free np c.free_queue = ground (arith, free) in
        sweep-Ends nodes tmp (np ∷ rlist) before (take_unlinked np c)
          (sweep_free np nodes tmp rlist c s waits)
          (free_Swept np rlist before c w ((s.to_come np (ground arith)).0) waits
            (λ l. (s.doomed np l).0)))
      (λ busy.
        sweep-Ends nodes (link tmp (c.node_at np).n_rpath (some np)) rlist before c
          (sweep_busy np nodes tmp rlist c s (ground (arith, busy))) w)
