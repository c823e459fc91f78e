-- ===== src/Node/Prune/Walk.antt =====
-- The walk over the entries that follow the node, as a recursion on their list.
use illumos_fuse.Hash.{Bytes}
use illumos_fuse.Node.Order.{less, strncmp}
use illumos_fuse.Node.Order.Laws.{IsName, lex}
use illumos_fuse.Node.Prune.{prune_stops, prune_removes}
use illumos_fuse.Prelude.{
  ℕ, ◌≡◌, refl, ◌↔◌, ◌⊎◌, Bool, true, false, not, ◌&&◌, ◌||◌, [], ◌∷◌, ◌++◌, arith, ◌==◌,
}

-- A path lies under another: it goes on with a separator.
unfoldable pub is_under : Bytes → Bytes → Bool
is_under [] [] = false
is_under [] (c ∷ cs) = c == b':' || c == b'/'
is_under (x ∷ xs) [] = false
is_under (x ∷ xs) (y ∷ ys) = x == y && is_under xs ys

unfoldable pub is_prefix : Bytes → Bytes → Bool
is_prefix [] ys = true
is_prefix (x ∷ xs) [] = false
is_prefix (x ∷ xs) (y ∷ ys) = x == y && is_prefix xs ys

-- Exactly the paths that go on with a separator lie under.
pub is_under_iff :
    (p q : Bytes)
    → (is_under p q ≡ true)
      ↔ ((c : ℕ) × (rest : Bytes) × ((c ≡ b':') ⊎ (c ≡ b'/')) × (q ≡ p ++ c ∷ rest))
unfolding is_under
is_under_iff p q = (to p q, λ (c, rest, s, e). from p q c rest s e)
  where
    to :
        (p q : Bytes)
        → is_under p q ≡ true
        → ((c : ℕ) × (rest : Bytes) × ((c ≡ b':') ⊎ (c ≡ b'/')) × (q ≡ p ++ c ∷ rest))
    to [] [] h = cc
    to [] (c ∷ cs) h = (c, cs, ground arith, refl)
    to (x ∷ xs) [] h = cc
    to (x ∷ xs) (y ∷ ys) h =
        let (c, rest, s, e) = to xs ys (ground arith) in (c, rest, s, ground arith)

    from :
        (p q : Bytes) (c : ℕ) (rest : Bytes)
        → ((c ≡ b':') ⊎ (c ≡ b'/'))
        → q ≡ p ++ c ∷ rest
        → is_under p q ≡ true
    from [] q c rest s e = rw e (ground arith)
    from (x ∷ xs) [] c rest s e = cc
    from (x ∷ xs) (y ∷ ys) c rest s e = ground (arith, from xs ys c rest s)

pub stops-prefix : (p q : Bytes) → IsName p → IsName q → prune_stops p q ≡ not (is_prefix p q)
unfolding prune_stops is_prefix strncmp
stops-prefix [] [] u v = refl
stops-prefix [] (y ∷ ys) u v = ground arith
stops-prefix (x ∷ xs) [] u v = ground arith
stops-prefix (x ∷ xs) (y ∷ ys) u v = ground (arith, stops-prefix xs ys u.1 v.1)

pub removes-under : (p q : Bytes) → is_prefix p q ≡ true → prune_removes p q ≡ is_under p q
unfolding prune_removes is_prefix is_under
removes-under [] [] h = refl
removes-under [] (y ∷ ys) h = ground arith
removes-under (x ∷ xs) [] h = cc
removes-under (x ∷ xs) (y ∷ ys) h = ground (arith, removes-under xs ys)

-- Behind a path that is after `p` and does not begin with it, nothing begins with it.
pub no_prefix-after :
    (p y z : Bytes) → lex p y ≡ less → is_prefix p y ≡ false → lex y z ≡ less → is_under p z ≡ false
unfolding lex is_prefix is_under
no_prefix-after [] y z h n k = cc
no_prefix-after (x ∷ xs) [] z h n k = cc
no_prefix-after (x ∷ xs) (y ∷ ys) [] h n k = cc
no_prefix-after (x ∷ xs) (y ∷ ys) (z ∷ zs) h n k = ground (arith, no_prefix-after xs ys zs)

-- What lies under a path is after it.
pub under-after : (p z : Bytes) → is_under p z ≡ true → lex p z ≡ less
unfolding lex is_under
under-after [] [] h = cc
under-after [] (z ∷ zs) h = refl
under-after (x ∷ xs) [] h = cc
under-after (x ∷ xs) (z ∷ zs) h = ground (arith, under-after xs zs)
