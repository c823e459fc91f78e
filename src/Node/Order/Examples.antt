-- ===== src/Node/Order/Examples.antt =====
-- Three paths in order, and the theorem at them.
use illumos_fuse.Node.Order.{less, more, same, fusefs_node_cmp}
use illumos_fuse.Node.Order.Laws.{lex, node_cmp_linear}
use illumos_fuse.Hash.{Bytes}
use illumos_fuse.Prelude.{◌≡◌, ◌↔◌, [], ◌∷◌, arith}

-- "/a", "/a b", "/a/b"
abbrev dir : Bytes
dir = b'/' ∷ b'a' ∷ []

abbrev spaced : Bytes
spaced = b'/' ∷ b'a' ∷ b' ' ∷ b'b' ∷ []

abbrev below : Bytes
below = b'/' ∷ b'a' ∷ b'/' ∷ b'b' ∷ []

node_cmp_linear_example :
    (fusefs_node_cmp dir spaced ≡ lex dir spaced)
    × ((fusefs_node_cmp dir spaced ≡ same) ↔ (dir ≡ spaced))
    × ((fusefs_node_cmp dir spaced ≡ less) ↔ (fusefs_node_cmp spaced dir ≡ more))
    × (fusefs_node_cmp dir spaced ≡ less
        → fusefs_node_cmp spaced below ≡ less
        → fusefs_node_cmp dir below ≡ less)
node_cmp_linear_example = node_cmp_linear dir spaced below (omega arith) (omega arith) (omega arith)
