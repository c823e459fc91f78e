-- ===== src/Node/Cache/Addfree.antt =====
-- fusefs_addfree gives up one hold of a node.
use illumos_fuse.Node.Cache.{
  Cache, count_free, drop_hold, sn_rmhash_locked, sn_inactive, sn_destroy_node, destroy_unhashed,
  try_destroy, no_value, fusefs_addfree,
}
use illumos_fuse.Node.Cache.Invariant.{
  IsCache, counted-IsCache, rmhash-IsCache, inactive-IsCache, destroy-IsCache, put-IsCache,
}
use illumos_fuse.Prelude.{
  ℕ, ◌+◌, ◌-◌, ◌≤◌, ◌<◌, ◌≡◌, refl, ◌⊎◌, inl, inr, true, false, [], ◌∷◌, ◌++◌, arith, ltb,
  Bool-cases, if_branches,
}

-- A node that a caller holds.
pub record Held (c : Cache) (np : ℕ) : Type 0 where
  pub not_free : count_free np c.free_queue ≡ 0
  pub alive : (c.node_at np).in_memory ≡ true
  pub counted : 1 ≤ (c.node_at np).v_count

destroy_unhashed-IsCache :
    (c : Cache) (np : ℕ)
    → IsCache c
    → (c.node_at np).r_hashed ≡ false
    → count_free np c.free_queue ≡ 0
    → IsCache (destroy_unhashed np c)
unfolding destroy_unhashed
destroy_unhashed-IsCache c np w plain off =
    let c' = sn_inactive np c in
    let w' = inactive-IsCache c np w plain in
    if_branches IsCache (ltb 1 (c'.node_at np).v_count) (drop_hold c' np) (sn_destroy_node np c')
      (λ _. counted-IsCache c' np ((c'.node_at np).v_count - 1) w' (unfold sn_inactive in off))
      (λ _.
        destroy-IsCache c' np w' (unfold sn_inactive in ground (arith, plain))
          (unfold sn_inactive in off))

try_destroy-IsCache :
    (c : Cache) (np : ℕ) → IsCache c → count_free np c.free_queue ≡ 0 → IsCache (try_destroy np c)
unfolding try_destroy
try_destroy-IsCache c np w off =
    if_branches IsCache (c.node_at np).r_hashed _ (destroy_unhashed np c)
      (λ hashed.
        if_branches IsCache (ltb 1 (c.node_at np).v_count) (drop_hold c np)
          (destroy_unhashed np (sn_rmhash_locked np c))
          (λ _. counted-IsCache c np ((c.node_at np).v_count - 1) w off)
          (λ _.
            destroy_unhashed-IsCache (sn_rmhash_locked np c) np (rmhash-IsCache c np w hashed)
              (unfold sn_rmhash_locked in ground arith) (unfold sn_rmhash_locked in off)))
      (λ plain. destroy_unhashed-IsCache c np w plain off)

module _ (nfusenode : ℕ) where
  pub addfree-IsCache :
      (c : Cache) (np : ℕ) → IsCache c → Held c np → IsCache (fusefs_addfree nfusenode np c)
  unfolding fusefs_addfree
  addfree-IsCache c np w h =
      if_branches IsCache (no_value nfusenode np c) (try_destroy np c) _
        (λ _. try_destroy-IsCache c np w h.not_free)
        (λ _.
          if_branches IsCache (ltb 1 (c.node_at np).v_count) (drop_hold c np)
            (record c { free_queue = c.free_queue ++ np ∷ [] })
            (λ _. counted-IsCache c np ((c.node_at np).v_count - 1) w h.not_free)
            (λ single. put-IsCache c np w h.not_free (ground (arith, single, h.counted)) h.alive))

  -- What becomes of a node whose hold is given up: others hold it still; it is destroyed, and in neither the
  -- tree nor the queue; or the queue has it.
  abbrev pub Released : (c after : Cache) → ℕ → Type 0
  Released c after np =
      ((1 < (c.node_at np).v_count)
        × ((after.node_at np).v_count + 1 ≡ (c.node_at np).v_count)
        × ((after.node_at np).in_memory ≡ true))
      ⊎ ((no_value nfusenode np c ≡ true)
          × ((after.node_at np).in_memory ≡ false)
          × ((after.node_at np).r_hashed ≡ false)
          × (count_free np after.free_queue ≡ 0))
      ⊎ ((no_value nfusenode np c ≡ false)
          × (after.node_at np ≡ c.node_at np)
          × (after.free_queue ≡ c.free_queue ++ np ∷ []))

  destroyed :
      (c : Cache) (np : ℕ)
      → Held c np
      → (c.node_at np).v_count ≡ 1
      → ((((try_destroy np c).node_at np).in_memory ≡ false)
          × (((try_destroy np c).node_at np).r_hashed ≡ false)
          × (count_free np (try_destroy np c).free_queue ≡ 0))
  unfolding try_destroy destroy_unhashed sn_rmhash_locked sn_inactive sn_destroy_node
  destroyed c np h one = (ground (arith, one), ground (arith, one), ground (arith, one, h.not_free))

  shared :
      (c : Cache) (np : ℕ)
      → Held c np
      → 1 < (c.node_at np).v_count
      → (((fusefs_addfree nfusenode np c).node_at np).v_count + 1 ≡ (c.node_at np).v_count)
        × (((fusefs_addfree nfusenode np c).node_at np).in_memory ≡ true)
  unfolding fusefs_addfree try_destroy destroy_unhashed sn_rmhash_locked sn_inactive sn_destroy_node
  shared c np h many = (ground (arith, many), ground (arith, many, h.alive))

  -- fusefs_addfree, on a node that the caller holds, gives up exactly that hold: a node that others hold
  -- keeps their count; otherwise it is destroyed, and neither in the tree nor in the queue, when it has no
  -- value, and put at the end of the queue as it is when it has. The cache stays well-formed.
  pub addfree-Released :
      (c : Cache) (np : ℕ)
      → IsCache c
      → Held c np
      → let after = fusefs_addfree nfusenode np c in IsCache after × Released c after np
  addfree-Released c np w h = (
    addfree-IsCache c np w h,
    elim (Bool-cases (ltb 1 (c.node_at np).v_count)) [
      | inl many ↦
          let (count, alive) = shared c np h (ground (arith, many)) in
          inl (ground (arith, many), count, alive)
      | inr single ↦
          let one : (c.node_at np).v_count ≡ 1 = ground (arith, single, h.counted) in
          unfold fusefs_addfree in
          elim (Bool-cases (no_value nfusenode np c)) [
            | inl worthless ↦
                let (gone, plain, off) = destroyed c np h one in
                rw (worthless) (inr (inl (refl, gone, plain, off)))
            | inr worth ↦ rw (worth, single) (inr (inr (refl, refl, refl)))
          ]
    ],
  )
