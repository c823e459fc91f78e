-- ===== src/Node/Order.antt =====
-- fusefs_node_cmp, by which the node cache is ordered, and strncmp, which it calls. A path is the
-- list of its bytes; its length is n_rplen.
pub mod Laws
pub mod Examples
use illumos_fuse.Hash.{Bytes}
use illumos_fuse.Prelude.{ℕ, zero, suc, [], ◌∷◌, ltb, ◌==◌, if◌then◌else◌, length}

-- The sign of a comparison.
pub data Sign : Type 0 where
  less same more : Sign

-- strncmp of the C library: bytes are compared unsigned, up to `n` of them or a NUL byte. A read
-- past the end of a list is the NUL that ends a C string.
unfoldable pub strncmp : Bytes → Bytes → ℕ → Sign
strncmp xs ys zero = same
strncmp [] [] (suc n) = same
strncmp [] (y ∷ ys) (suc n) = if y == 0 then same else less
strncmp (x ∷ xs) [] (suc n) = if x == 0 then same else more
strncmp (x ∷ xs) (y ∷ ys) (suc n) =
    let rest = strncmp xs ys n in
    if ltb x y then less else if ltb y x then more else if x == 0 then same else rest

-- fusefs_node_cmp, after its call of strncmp
cmp_lengths : Sign → ℕ → ℕ → ℕ → Sign
cmp_lengths less clen a b = less
cmp_lengths more clen a b = more
cmp_lengths same clen a b = if ltb clen b then less else if ltb clen a then more else same

unfoldable pub fusefs_node_cmp : Bytes → Bytes → Sign
unfolding strncmp cmp_lengths
fusefs_node_cmp a b =
    let clen = if ltb (length a) (length b) then length a else length b in
    cmp_lengths (strncmp a b clen) clen (length a) (length b)
