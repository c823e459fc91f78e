-- ===== src/Node/FreeList.antt =====
-- The free list of usr/src/uts/common/fs/fusefs/fusefs_node.c: a circular, doubly linked list
-- through r_freef and r_freeb of the nodes, with its head in fusefreelist. A node is its address;
-- 0 is NULL.
pub mod Ring
pub mod Refine
pub mod Examples
use illumos_fuse.Prelude.{ℕ, ◌==◌, if◌then◌else◌, update}

pub record Links : Type 0 where
  pub r_freef : ℕ
  pub r_freeb : ℕ

pub record FreeList : Type 0 where
  pub links : ℕ → Links
  pub fusefreelist : ℕ

abbrev pub set_freef : (ℕ → Links) → ℕ → ℕ → ℕ → Links
set_freef f p q = update f p (record (f p) { r_freef = q })

abbrev pub set_freeb : (ℕ → Links) → ℕ → ℕ → ℕ → Links
set_freeb f p q = update f p (record (f p) { r_freeb = q })

-- The last lines of sn_rmfree, after the head is seen to: the two neighbours are joined.
unfoldable pub unlink : (ℕ → Links) → ℕ → ℕ → Links
unlink f np =
    let f₁ = set_freef f (f np).r_freeb (f np).r_freef in
    let f₂ = set_freeb f₁ (f₁ np).r_freef (f₁ np).r_freeb in
    update f₂ np (record { r_freef = 0; r_freeb = 0 })

unfoldable pub head_without : FreeList → ℕ → ℕ
head_without s np =
    if np == s.fusefreelist
    then if np == (s.links np).r_freef then 0 else (s.links np).r_freef
    else s.fusefreelist

unfoldable pub sn_rmfree : FreeList → ℕ → FreeList
sn_rmfree s np = record { links = unlink s.links np; fusefreelist = head_without s np }

-- Four writes of fusefs_addfree, the list not empty: `np` goes between the last node and the head.
unfoldable pub link_last : (ℕ → Links) → ℕ → ℕ → ℕ → Links
link_last f head np =
    let f₁ = set_freef f np head in
    let f₂ = set_freeb f₁ np (f₁ head).r_freeb in
    let f₃ = set_freef f₂ (f₂ head).r_freeb np in set_freeb f₃ head np

-- "Put this node on the free list", the end of fusefs_addfree.
unfoldable pub put_free : FreeList → ℕ → FreeList
put_free s np =
    if s.fusefreelist == 0
    then record {
      links = update s.links np (record { r_freef = np; r_freeb = np });
      fusefreelist = np;
    }
    else record s { links = link_last s.links s.fusefreelist np }
