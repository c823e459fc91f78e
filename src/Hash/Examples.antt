-- ===== src/Hash/Examples.antt =====
-- Two paths hashed, and the theorem at one of them.
use illumos_fuse.Hash.{fusefs_gethash, dnp_sep, fusefs_getino, search_path}
use illumos_fuse.Hash.Laws.{getino-gethash}
use illumos_fuse.Prelude.{◌≡◌, refl, [], ◌∷◌, arith}

-- "/a" and "b"
getino-gethash_example :
    fusefs_getino (fusefs_gethash (b'/' ∷ b'a' ∷ [])) (b'/' ∷ b'a' ∷ []) (b'b' ∷ [])
    ≡ fusefs_gethash (search_path (b'/' ∷ b'a' ∷ []) (dnp_sep (b'/' ∷ b'a' ∷ [])) (b'b' ∷ []))
getino-gethash_example = getino-gethash (b'/' ∷ b'a' ∷ []) (b'b' ∷ []) (omega arith)

-- The empty string keeps the initial value, and a byte above 127 is sign-extended.
gethash_values : (fusefs_gethash [] ≡ 33554467) × (fusefs_gethash (200 ∷ []) ≡ 3070216401)
unfolding fusefs_gethash
gethash_values = (refl, refl)
