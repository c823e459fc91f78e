-- ===== src/Node/Avl/Order.antt =====
-- The entries that follow a path in an ordered list.
use illumos_fuse.Hash.{Bytes}
use illumos_fuse.Node.Order.{Sign, less, same, more, fusefs_node_cmp}
use illumos_fuse.Node.Order.Laws.{IsName, node_cmp_linear}
use illumos_fuse.Node.Avl.{Entry, AllAfter, IsOrdered, find_entry, next_entry, first_entry}
use illumos_fuse.Prelude.{◌≤◌, ◌≡◌, refl, ◌⊎◌, inl, inr, some, List, [], ◌∷◌, arith, length}

pub Sign-cases : (s : Sign) → (s ≡ less) ⊎ ((s ≡ same) ⊎ (s ≡ more))
Sign-cases less = inl refl
Sign-cases same = inr (inl refl)
Sign-cases more = inr (inr refl)

unfoldable pub tail_after : Bytes → List Entry → List Entry
tail_after p [] = []
tail_after p (x ∷ xs) = elim (fusefs_node_cmp p x.rpath) [ less ↦ x ∷ xs | _ ↦ tail_after p xs ]

pub cmp_self : (p : Bytes) → IsName p → fusefs_node_cmp p p ≡ same
cmp_self p n = (node_cmp_linear p p p n n n).1.1 refl

pub cmp_flip :
    (p q : Bytes) → IsName p → IsName q → fusefs_node_cmp p q ≡ less → fusefs_node_cmp q p ≡ more
cmp_flip p q n m = (node_cmp_linear p q q n m m).2.0

pub next-tail_after :
    (p : Bytes) (es : List Entry) → next_entry p es ≡ first_entry (tail_after p es)
unfolding tail_after
next-tail_after p [] = refl
next-tail_after p (x ∷ xs) = ground (arith, next-tail_after p xs)

pub tail_after_all : (p : Bytes) (es : List Entry) → AllAfter p es → tail_after p es ≡ es
unfolding tail_after
tail_after_all p [] h = refl
tail_after_all p (x ∷ xs) h = rw (h.0, tail_after)

head_after :
    (p q : Bytes) (es : List Entry) (f : Entry) (fs : List Entry)
    → tail_after p es ≡ f ∷ fs
    → AllAfter q es
    → IsOrdered es
    → (fusefs_node_cmp q f.rpath ≡ less) × IsName f.rpath
unfolding tail_after
head_after p q [] f fs e a o = cc
head_after p q (x ∷ xs) f fs e a o = elim (Sign-cases (fusefs_node_cmp p x.rpath)) [
  | inl l ↦ let g : x ≡ f = ground arith in rw (← g) (a.0, o.0)
  | inr r ↦ head_after p q xs f fs (ground (arith, r)) a.1 o.2
]

-- The first of the entries after a path is found, and leads on to the second.
pub tail_after-step :
    (p : Bytes) (es : List Entry) (f : Entry) (fs : List Entry)
    → tail_after p es ≡ f ∷ fs
    → IsOrdered es
    → (tail_after f.rpath es ≡ fs) × (find_entry f.rpath es ≡ some f)
unfolding tail_after
tail_after-step p [] f fs e o = cc
tail_after-step p (x ∷ xs) f fs e o = elim (Sign-cases (fusefs_node_cmp p x.rpath)) [
  | inl l ↦
      let g : x ≡ f = ground arith in
      let k : xs ≡ fs = ground arith in
      rw (← g, ← k)
        (
          rw (cmp_self x.rpath o.0, tail_after) (tail_after_all x.rpath xs o.1),
          rw (cmp_self x.rpath o.0, find_entry),
        )
  | inr r ↦
      let e' : tail_after p xs ≡ f ∷ fs = ground (arith, r) in
      let h = head_after p x.rpath xs f fs e' o.1 o.2 in
      let m = cmp_flip x.rpath f.rpath o.0 h.1 h.0 in
      rw (m, tail_after, find_entry) (tail_after-step p xs f fs e' o.2)
]

pub AllAfter-trans :
    (p q : Bytes) (es : List Entry)
    → IsName p
    → IsName q
    → fusefs_node_cmp p q ≡ less
    → AllAfter q es
    → IsOrdered es
    → AllAfter p es
AllAfter-trans p q [] n m h a o = tt
AllAfter-trans p q (e ∷ es) n m h a o =
    ((node_cmp_linear p q e.rpath n m o.0).3 h a.0, AllAfter-trans p q es n m h a.1 o.2)

pub length-tail_after : (p : Bytes) (es : List Entry) → length (tail_after p es) ≤ length es
unfolding tail_after
length-tail_after p [] = omega arith
length-tail_after p (x ∷ xs) = ground (arith, length-tail_after p xs)
