-- ===== src/Hash.antt =====
-- The name hash of usr/src/uts/common/fs/fusefs/fusefs_subr.c, from which the inode numbers come.
-- A path is the list of its bytes.
pub mod Laws
pub mod Examples
use illumos_fuse.Prelude.{
  ℕ, ◌+◌, ◌-◌, ◌*◌, ◌%◌, ◌^◌, bit_xor, Option, none, some, List, [], ◌∷◌, ◌++◌, ltb, if◌then◌else◌,
  length,
}

abbrev pub Bytes : Type 0
Bytes = List ℕ

abbrev fnv_32_prime : ℕ
fnv_32_prime = 0x01000193

abbrev fnv1_32_init : ℕ
fnv1_32_init = 33554467

-- (uint32_t)*name, for the signed char of the platform
pub char_to_u32 : ℕ → ℕ
char_to_u32 c = if ltb c 128 then c else 2 ^ 32 - 256 + c

-- One round of the loop of fusefs_hash.
pub hash_round : ℕ → ℕ → ℕ
unfolding char_to_u32
hash_round v c = bit_xor (v * fnv_32_prime % 2 ^ 32) (char_to_u32 c)

pub fusefs_hash : ℕ → Bytes → ℕ
unfolding hash_round
fusefs_hash v [] = v
fusefs_hash v (c ∷ name) = fusefs_hash (hash_round v c) name

unfoldable pub fusefs_gethash : Bytes → ℕ
unfolding fusefs_hash
fusefs_gethash rpath = fusefs_hash fnv1_32_init rpath

-- FUSEFS_DNP_SEP of fusefs_node.h: none stands for '\0'.
unfoldable pub dnp_sep : Bytes → Option ℕ
dnp_sep rpath = if ltb 1 (length rpath) then some b'/' else none

abbrev hash_sep : ℕ → Option ℕ → ℕ
hash_sep v none = v
hash_sep v (some sep) = fusefs_hash v (sep ∷ [])

-- `n_ino` and `n_rpath` are those of the directory's node.
unfoldable pub fusefs_getino : ℕ → Bytes → Bytes → ℕ
unfolding dnp_sep fusefs_hash
fusefs_getino n_ino n_rpath name = fusefs_hash (hash_sep (n_ino % 2 ^ 32) (dnp_sep n_rpath)) name

-- The search string that fusefs_node_findcreate builds from its parts.
unfoldable pub search_path : Bytes → Option ℕ → Bytes → Bytes
search_path dirnm none name = dirnm ++ name
search_path dirnm (some sep) name = dirnm ++ sep ∷ name
