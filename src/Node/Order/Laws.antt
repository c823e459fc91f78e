-- ===== src/Node/Order/Laws.antt =====
-- fusefs_node_cmp is the lexicographic order on paths, a linear order.
use illumos_fuse.Hash.{Bytes}
use illumos_fuse.Node.Order.{Sign, less, same, more, strncmp, cmp_lengths, fusefs_node_cmp}
use illumos_fuse.Prelude.{ℕ, ◌<◌, ◌≡◌, refl, ◌↔◌, [], ◌∷◌, arith, ltb, if◌then◌else◌, length}

-- A path holds no NUL byte.
abbrev pub IsName : Bytes → Type 0
IsName [] = Unit {0}
IsName (x ∷ xs) = (0 < x) × IsName xs

-- The order of a dictionary: byte by byte, a prefix first.
unfoldable pub lex : Bytes → Bytes → Sign
lex [] [] = same
lex [] (y ∷ ys) = less
lex (x ∷ xs) [] = more
lex (x ∷ xs) (y ∷ ys) =
    let rest = lex xs ys in if ltb x y then less else if ltb y x then more else rest

abbrev shorter : Bytes → Bytes → ℕ
shorter a b = if ltb (length a) (length b) then length a else length b

cmp-lex :
    (a b : Bytes)
    → IsName a
    → IsName b
    → cmp_lengths (strncmp a b (shorter a b)) (shorter a b) (length a) (length b) ≡ lex a b
unfolding cmp_lengths strncmp lex
cmp-lex [] [] p q = refl
cmp-lex [] (y ∷ ys) p q = ground arith
cmp-lex (x ∷ xs) [] p q = ground arith
cmp-lex (x ∷ xs) (y ∷ ys) p q = ground (arith, cmp-lex xs ys p.1 q.1)

pub node_cmp-lex : (a b : Bytes) → IsName a → IsName b → fusefs_node_cmp a b ≡ lex a b
unfolding fusefs_node_cmp
node_cmp-lex a b p q = cmp-lex a b p q

pub lex_same : (a b : Bytes) → (lex a b ≡ same) ↔ (a ≡ b)
unfolding lex
lex_same [] [] = (λ e. refl, λ e. refl)
lex_same [] (y ∷ ys) = ground arith
lex_same (x ∷ xs) [] = ground arith
lex_same (x ∷ xs) (y ∷ ys) = ground (arith, lex_same xs ys)

pub lex_flip : (a b : Bytes) → (lex a b ≡ less) ↔ (lex b a ≡ more)
unfolding lex
lex_flip [] [] = ground arith
lex_flip [] (y ∷ ys) = ground arith
lex_flip (x ∷ xs) [] = ground arith
lex_flip (x ∷ xs) (y ∷ ys) = ground (arith, lex_flip xs ys)

pub lex_trans : (a b c : Bytes) → lex a b ≡ less → lex b c ≡ less → lex a c ≡ less
unfolding lex
lex_trans [] [] c p q = absurd (ground arith)
lex_trans [] (y ∷ ys) [] p q = absurd (ground arith)
lex_trans [] (y ∷ ys) (z ∷ zs) p q = refl
lex_trans (x ∷ xs) [] c p q = absurd (ground arith)
lex_trans (x ∷ xs) (y ∷ ys) [] p q = absurd (ground arith)
lex_trans (x ∷ xs) (y ∷ ys) (z ∷ zs) p q = ground (arith, lex_trans xs ys zs)

-- On paths without NUL bytes fusefs_node_cmp is a linear order in which only equal paths compare
-- the same: its answer is that of the dictionary order, it is antisymmetric and transitive.
pub node_cmp_linear :
    (a b c : Bytes)
    → IsName a
    → IsName b
    → IsName c
    → (fusefs_node_cmp a b ≡ lex a b)
      × ((fusefs_node_cmp a b ≡ same) ↔ (a ≡ b))
      × ((fusefs_node_cmp a b ≡ less) ↔ (fusefs_node_cmp b a ≡ more))
      × (fusefs_node_cmp a b ≡ less → fusefs_node_cmp b c ≡ less → fusefs_node_cmp a c ≡ less)
node_cmp_linear a b c p q r =
    rw (node_cmp-lex a b p q, node_cmp-lex b a q p, node_cmp-lex b c q r, node_cmp-lex a c p r)
      (refl, lex_same a b, lex_flip a b, lex_trans a b c)
