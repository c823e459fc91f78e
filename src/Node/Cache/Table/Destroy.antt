-- ===== src/Node/Cache/Table/Destroy.antt =====
-- fusefs_destroy_table destroys the free nodes of the tree and keeps the busy ones.
use illumos_fuse.Hash.{Bytes}
use illumos_fuse.Node.Cache.{Cache, count_free, fusefs_addfree}
use illumos_fuse.Node.Cache.Invariant.{IsCache, NoRefs}
use illumos_fuse.Node.Cache.Addfree.{Held, addfree-IsCache}
use illumos_fuse.Node.Cache.Table.{addfree_all, sweep, fusefs_destroy_table}
use illumos_fuse.Node.Cache.Table.Round.{addfree_unhashed}
use illumos_fuse.Node.Cache.Table.Sweep.{IsDoomed, Sweeping, Ends, sweep-Ends}
use illumos_fuse.Prelude.{
  ℕ, ◌≤◌, ◌<◌, ◌≡◌, refl, sym, ap, ◌∙◌, ◌⊎◌, inl, inr, false, Option, none, some, List, [], ◌∷◌,
  arith, ltb, ◌==◌, if◌then◌else◌, Bool-cases, Option-cases, ◌∙◌,
}

-- The nodes that avl_destroy_nodes gives: each that is in the tree, once.
abbrev pub IsNodes : List ℕ → Cache → Type 0
IsNodes nodes c = (n : ℕ) → count_free n nodes ≡ (if (c.node_at n).r_hashed then 1 else 0)

start-Sweeping :
    (nodes : List ℕ) (c : Cache)
    → IsCache c
    → NoRefs c
    → IsNodes nodes c
    → Sweeping nodes (λ _. none) [] c
unfolding count_free
start-Sweeping nodes c w unused all = record {
  swept = λ p n h. absurd (ground (arith, h));
  either_tree = λ n h. inl (ground (arith, h, all n));
  unique = λ a b ha hb e. ground (arith, w.marked a ha, w.marked b hb, e);
  to_come = λ n h. ground (arith, h, all n, w.marked n, w.linked (c.node_at n).n_rpath n);
  free_once = w.once;
  free_waiting = λ n h. ground (arith, h, w.waiting n h, unused n h);
  nodes_once = λ n. ground (arith, all n);
  doomed = λ n h. absurd (ground (arith, h));
  rlist_once = λ n. ground arith;
}

-- The tree of the busy nodes is in place.
end-IsCache : (rlist : List ℕ) (c : Cache) → Sweeping [] c.fmi_hash rlist c → IsCache c
unfolding count_free
end-IsCache rlist c s = record {
  linked = λ p n h. ground (arith, h, s.swept p n);
  marked = λ n h. ground (arith, h, s.either_tree n);
  once = s.free_once;
  waiting = λ n h. ground (arith, h, s.free_waiting n);
}

-- The tree without the nodes on the free list.
abbrev pub busy_only : Cache → Bytes → Option ℕ
busy_only c p = elim (c.fmi_hash p) [
  | none ↦ none
  | some n ↦ if ltb 0 (count_free n c.free_queue) then none else some n
]

found_busy :
    (p : Bytes) (n : ℕ) (c : Cache)
    → c.fmi_hash p ≡ some n
    → busy_only c p ≡ (if ltb 0 (count_free n c.free_queue) then none else some n)
found_busy p n c h = rw (busy_only, h) refl

kept_busy :
    (rlist : List ℕ) (c c' : Cache) (p : Bytes) (m : ℕ)
    → IsCache c
    → Ends c (rlist, c')
    → c'.fmi_hash p ≡ some m
    → some m ≡ busy_only c p
kept_busy rlist c c' p m w (s, moved) h =
    let at : (c.fmi_hash p ≡ some m) × (count_free m c.free_queue ≡ 0) = (
      ground (arith, h, s.swept p m h, moved m, s.doomed m, w.marked m),
      ground (arith, h, s.swept p m h, moved m, s.doomed m),
    ) in
    sym (found_busy p m c at.0 ∙ ground (arith, at.1))

lost_free :
    (rlist : List ℕ) (c c' : Cache) (p : Bytes) (n : ℕ)
    → IsCache c
    → Ends c (rlist, c')
    → c'.fmi_hash p ≡ none
    → c.fmi_hash p ≡ some n
    → none ≡ busy_only c p
unfolding count_free
lost_free rlist c c' p n w (s, moved) h at =
    let free : 0 < count_free n c.free_queue =
      ground (arith, h, at, w.linked p n at, moved n, s.either_tree n) in
    sym (found_busy p n c at ∙ ground (arith, free))

tree-busy :
    (rlist : List ℕ) (c c' : Cache) (p : Bytes)
    → IsCache c
    → Ends c (rlist, c')
    → c'.fmi_hash p ≡ busy_only c p
tree-busy rlist c c' p w ends = elim (Option-cases (c'.fmi_hash p)) [
  | inr (m, h) ↦ h ∙ kept_busy rlist c c' p m w ends h
  | inl h ↦ elim (Option-cases (c.fmi_hash p)) [
    | inl free ↦ h ∙ rw (busy_only, free) refl
    | inr (n, at) ↦ h ∙ lost_free rlist c c' p n w ends h at
  ]
]

module _ (nfusenode : ℕ) where
  -- The second loop.
  Freed : List ℕ → Cache → Cache → Type 0
  Freed rlist c after =
      IsCache after
      × (after.fmi_hash ≡ c.fmi_hash)
      × ((n : ℕ)
          → ((0 < count_free n rlist) × ((after.node_at n).in_memory ≡ false))
            ⊎ ((count_free n rlist ≡ 0) × (after.node_at n ≡ c.node_at n)))

  addfree_all-Freed :
      (rlist : List ℕ) (c : Cache)
      → IsCache c
      → ((n : ℕ) → 0 < count_free n rlist → IsDoomed c n)
      → ((n : ℕ) → count_free n rlist ≤ 1)
      → Freed rlist c (addfree_all nfusenode rlist c)
  unfolding addfree_all Freed count_free
  addfree_all-Freed [] c w doomed once = (w, refl, λ n. inr (refl, refl))
  addfree_all-Freed (np ∷ rlist) c w doomed once =
      let (plain, one, unused, alive, off) = doomed np (ground arith) in
      let (gone, same_hash, same_queue, same_nodes) =
        addfree_unhashed nfusenode np c plain unused one in
      let c' = fusefs_addfree nfusenode np c in
      let held : Held c np = record {
        not_free = off;
        alive = alive;
        counted = ground (arith, one);
      } in
      let (well, hashes, nodes) =
        addfree_all-Freed rlist c' (addfree-IsCache nfusenode c np w held)
          (λ n h. ground (arith, h, once n, doomed n, same_nodes n, same_queue))
          (λ n. ground (arith, once n)) in
      (
        well,
        hashes ∙ same_hash,
        λ n. elim (Bool-cases (n == np)) [
          | inl same ↦ inl (ground (arith, same), ground (arith, same, nodes n, gone))
          | inr other ↦ ground (arith, other, nodes n, same_nodes n)
        ],
      )

  -- On a well-formed cache whose free nodes have no other references, and with the nodes of the tree, each
  -- once, from avl_destroy_nodes, fusefs_destroy_table leaves a well-formed cache whose tree is that of before
  -- without the free nodes. Every node is as it was, or was free and is destroyed.
  pub destroy_table-busy :
      (nodes : List ℕ) (c : Cache)
      → IsCache c
      → NoRefs c
      → IsNodes nodes c
      → let after = fusefs_destroy_table nfusenode nodes c in
        IsCache after
        × ((p : Bytes) → after.fmi_hash p ≡ busy_only c p)
        × ((n : ℕ)
            → (after.node_at n ≡ c.node_at n)
              ⊎ ((0 < count_free n c.free_queue) × ((after.node_at n).in_memory ≡ false)))
  unfolding fusefs_destroy_table Freed count_free
  destroy_table-busy nodes c w unused all =
      let (rlist, c') = sweep nodes (λ _. none) [] c in
      let ends : Ends c (rlist, c') =
        sweep-Ends nodes (λ _. none) [] c c (start-Sweeping nodes c w unused all)
          (λ n. inl (refl, refl, refl)) in
      let (well, hashes, freed) =
        addfree_all-Freed rlist c' (end-IsCache rlist c' ends.0) ends.0.doomed ends.0.rlist_once in
      (
        well,
        λ p. ap (λ h. h p) hashes ∙ tree-busy rlist c c' p w ends,
        λ n. ground (arith, freed n, ends.1 n),
      )
