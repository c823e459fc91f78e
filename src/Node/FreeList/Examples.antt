-- ===== src/Node/FreeList/Examples.antt =====
-- Three nodes on the free list, and the theorems at them.
use illumos_fuse.Node.FreeList.{FreeList, sn_rmfree, put_free}
use illumos_fuse.Node.FreeList.Refine.{IsFreeList, rmfree-IsFreeList, put-IsFreeList}
use illumos_fuse.Prelude.{refl, [], ◌∷◌, arith}

empty : FreeList
empty = record { links = λ _. record { r_freef = 0; r_freeb = 0 }; fusefreelist = 0 }

empty-IsFreeList : IsFreeList empty []
unfolding empty
empty-IsFreeList = record { ring = refl; distinct = tt; not_null = tt; off = λ x h. (refl, refl) }

three : FreeList
three = put_free (put_free (put_free empty 7) 8) 9

three-IsFreeList : IsFreeList three (7 ∷ 8 ∷ 9 ∷ [])
unfolding three
three-IsFreeList =
    put-IsFreeList _ (7 ∷ 8 ∷ []) 9
      (put-IsFreeList _ (7 ∷ []) 8 (put-IsFreeList _ [] 7 empty-IsFreeList tt (omega arith))
        (omega arith) (omega arith))
      (omega arith) (omega arith)

put-IsFreeList_example : IsFreeList (put_free three 10) (7 ∷ 8 ∷ 9 ∷ 10 ∷ [])
put-IsFreeList_example =
    put-IsFreeList three (7 ∷ 8 ∷ 9 ∷ []) 10 three-IsFreeList (omega arith) (omega arith)

rmfree-IsFreeList_example : IsFreeList (sn_rmfree three 8) (7 ∷ 9 ∷ [])
rmfree-IsFreeList_example = rmfree-IsFreeList three (7 ∷ []) 8 (9 ∷ []) three-IsFreeList
