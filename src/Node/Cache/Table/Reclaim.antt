-- ===== src/Node/Cache/Table/Reclaim.antt =====
-- fusefs_node_reclaim empties the free list.
use illumos_fuse.Node.Cache.{Cache, count_free, remove_free, take_free}
use illumos_fuse.Node.Cache.Invariant.{
  IsCache, NoRefs, count-remove_free, count-remove_free-other, take_free-IsCache,
}
use illumos_fuse.Node.Cache.Table.{reclaim_node, reclaim_first, fusefs_node_reclaim}
use illumos_fuse.Prelude.{
  ℕ, zero, suc, ◌<◌, ◌≡◌, refl, sym, ap, ◌∙◌, ◌≢◌, ◌⊎◌, inl, inr, false, some, List, [], ◌∷◌, arith,
  ◌==◌, Bool-cases, length, ◌∙◌, List-cases,
}
use illumos_fuse.Node.Cache.Table.Round.{Reclaims, reclaim_node-Reclaims}

module _ (nfusenode : ℕ) where
  -- What the whole call leaves.
  unfoldable pub Emptied : Cache → Cache → Type 0
  Emptied c after =
      IsCache after
      × (after.free_queue ≡ [])
      × ((n : ℕ)
          → ((count_free n c.free_queue ≡ 0) × (after.node_at n ≡ c.node_at n))
            ⊎ ((0 < count_free n c.free_queue) × ((after.node_at n).in_memory ≡ false)))

  -- The first round.
  first_round :
      (c : Cache) (np : ℕ) (rest : List ℕ)
      → IsCache c
      → NoRefs c
      → c.free_queue ≡ np ∷ rest
      → Reclaims np (take_free c np) (reclaim_node nfusenode np (take_free c np))
  unfolding count_free
  first_round c np rest w none_used first =
      let there : 0 < count_free np c.free_queue = rw (first) (ground arith) in
      let (one, alive) = w.waiting np there in
      reclaim_node-Reclaims nfusenode np (take_free c np) (take_free-IsCache c np w)
        (record {
          not_free = ground (arith, count-remove_free np c.free_queue, w.once np);
          alive = alive;
          counted = ground (arith, one);
        })
        (none_used np there) one

  head_removed :
      (c : Cache) (np : ℕ) (rest : List ℕ)
      → c.free_queue ≡ np ∷ rest
      → (take_free c np).free_queue ≡ rest
  unfolding remove_free
  head_removed c np rest first = rw (first) (ground arith)

  first_there :
      (c : Cache) (np : ℕ) (rest : List ℕ)
      → c.free_queue ≡ np ∷ rest
      → 0 < count_free np c.free_queue
  unfolding count_free
  first_there c np rest first = rw (first) (ground arith)

  count_next :
      (c : Cache) (np n : ℕ) (c' : Cache)
      → n ≢ np
      → c'.free_queue ≡ (take_free c np).free_queue
      → count_free n c'.free_queue ≡ count_free n c.free_queue
  count_next c np n c' different same_queue =
      ap (count_free n) same_queue ∙ count-remove_free-other n np c.free_queue different

  -- A node, from one round to the end.
  AtEnd : ℕ → Cache → Cache → Type 0
  AtEnd n c after =
      ((count_free n c.free_queue ≡ 0) × (after.node_at n ≡ c.node_at n))
      ⊎ ((0 < count_free n c.free_queue) × ((after.node_at n).in_memory ≡ false))

  ended :
      (n : ℕ) (c after : Cache)
      → AtEnd n c after
      → (c.node_at n).in_memory ≡ false
      → (after.node_at n).in_memory ≡ false
  unfolding AtEnd
  ended n c after (inl (_, same)) gone = ap (λ r. r.in_memory) same ∙ gone
  ended n c after (inr (_, gone')) gone = gone'

  carried :
      (c c' after : Cache) (n : ℕ)
      → c'.node_at n ≡ c.node_at n
      → count_free n c'.free_queue ≡ count_free n c.free_queue
      → AtEnd n c' after
      → AtEnd n c after
  unfolding AtEnd
  carried c c' after n same_node same_count (inl (off, same)) =
      inl (sym same_count ∙ off, same ∙ same_node)
  carried c c' after n same_node same_count (inr (there, gone)) =
      inr (omega (arith, there, same_count), gone)

  round-Emptied :
      (c : Cache) (np : ℕ) (rest : List ℕ) (after : Cache)
      → IsCache c
      → c.free_queue ≡ np ∷ rest
      → Reclaims np (take_free c np) (reclaim_node nfusenode np (take_free c np))
      → Emptied (reclaim_node nfusenode np (take_free c np)) after
      → Emptied c after
  unfolding Emptied Reclaims count_free AtEnd
  round-Emptied c np rest after w first (_, gone, same_queue, same_nodes) (well, empty, nodes) = (
    well,
    empty,
    λ n. elim (Bool-cases (n == np)) [
      | inl here ↦
          let same : n ≡ np = ground (arith, here) in
          rw (same) (
            inr (
              first_there c np rest first,
              ended np (reclaim_node nfusenode np (take_free c np)) after (nodes np) gone,
            ))
      | inr other ↦
          let different : n ≢ np = ground (arith, other) in
          carried c (reclaim_node nfusenode np (take_free c np)) after n (same_nodes n different)
            (count_next c np n (reclaim_node nfusenode np (take_free c np)) different same_queue)
            (nodes n)
    ],
  )

  next-NoRefs :
      (c : Cache) (np : ℕ) (rest : List ℕ)
      → IsCache c
      → NoRefs c
      → c.free_queue ≡ np ∷ rest
      → Reclaims np (take_free c np) (reclaim_node nfusenode np (take_free c np))
      → NoRefs (reclaim_node nfusenode np (take_free c np))
  unfolding Reclaims count_free
  next-NoRefs c np rest w none_used first (_, gone, same_queue, same_nodes) n there =
      elim (Bool-cases (n == np)) [
        | inl here ↦ absurd (
            let same : n ≡ np = ground (arith, here) in
            let none_left : count_free np (remove_free np c.free_queue) ≡ 0 =
              omega (arith, count-remove_free np c.free_queue, w.once np) in
            let here_count =
              ap (λ x. count_free x (reclaim_node nfusenode np (take_free c np)).free_queue) same
              ∙ ap (count_free np) same_queue in
            omega (arith, none_left, there, here_count))
        | inr other ↦
            let different : n ≢ np = ground (arith, other) in
            ap (λ r. r.r_count) (same_nodes n different)
            ∙ none_used n (
                omega (
                  arith,
                  there,
                  count_next c np n (reclaim_node nfusenode np (take_free c np)) different
                      same_queue,
                ))
      ]

  next_shorter :
      (c : Cache) (np : ℕ) (rest : List ℕ) (fuel : ℕ)
      → c.free_queue ≡ np ∷ rest
      → Reclaims np (take_free c np) (reclaim_node nfusenode np (take_free c np))
      → length c.free_queue < suc fuel
      → length (reclaim_node nfusenode np (take_free c np)).free_queue < fuel
  unfolding Reclaims
  next_shorter c np rest fuel first (_, _, same_queue, _) enough =
      omega (arith, enough, ap length first, ap length (same_queue ∙ head_removed c np rest first))

  -- On a cache that is well-formed and whose free nodes have no other references, fusefs_node_reclaim ends
  -- when it has more fuel than there are free nodes. It leaves a well-formed cache with no free nodes, in
  -- which the nodes that were free are destroyed and all others are as they were.
  pub reclaim-Emptied :
      (fuel : ℕ) (c : Cache)
      → IsCache c
      → NoRefs c
      → length c.free_queue < fuel
      → (after : Cache) × (fusefs_node_reclaim nfusenode fuel c ≡ some after) × Emptied c after
  unfolding fusefs_node_reclaim reclaim_first
  reclaim-Emptied zero c w none_used enough = absurd (omega (arith, enough))
  reclaim-Emptied (suc fuel) c w none_used enough = elim (List-cases c.free_queue) [
    | inl empty ↦ (
      c,
      ap (reclaim_first nfusenode (fusefs_node_reclaim nfusenode fuel) c) empty,
      unfold Emptied count_free in (w, empty, λ n. inl (ap (count_free n) empty, refl)),
    )
    | inr (np, rest, first) ↦
        let round = first_round c np rest w none_used first in
        let c' = reclaim_node nfusenode np (take_free c np) in
        let shorter : length c'.free_queue < fuel =
          next_shorter c np rest fuel first round enough in
        let (after, found, emptied) =
          reclaim-Emptied fuel c' (unfold Reclaims in round.0)
            (next-NoRefs c np rest w none_used first round) shorter in
        (
          after,
          ap (reclaim_first nfusenode (fusefs_node_reclaim nfusenode fuel) c) first ∙ found,
          round-Emptied c np rest after w first round emptied,
        )
  ]
