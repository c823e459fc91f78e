-- ===== src/Hash/Laws.antt =====
-- Inode numbers are hashes of full paths, however they are computed.
use illumos_fuse.Hash.{
  Bytes, char_to_u32, hash_round, fusefs_hash, fusefs_gethash, dnp_sep, fusefs_getino, search_path,
}
use illumos_fuse.Prelude.{
  ℕ, ◌*◌, ◌%◌, ◌^◌, ◌<◌, ◌≡◌, refl, sym, inl, inr, [], ◌∷◌, ◌++◌, arith, ltb, Bool-cases, length,
  bit_xor-lt,
}

-- All bytes of a path.
abbrev pub AreBytes : Bytes → Type 0
AreBytes [] = Unit {0}
AreBytes (c ∷ cs) = (c < 256) × AreBytes cs

-- A hash is a uint32_t.
pub fusefs_hash-lt :
    (v : ℕ) (name : Bytes) → AreBytes name → v < 2 ^ 32 → fusefs_hash v name < 2 ^ 32
unfolding fusefs_hash
fusefs_hash-lt v [] b h = h
fusefs_hash-lt v (c ∷ name) b h =
    fusefs_hash-lt (hash_round v c) name b.1
      (bit_xor-lt 32 (v * 0x01000193 % 2 ^ 32) (char_to_u32 c) (omega arith) (ground (arith, b.0)))

-- Hashing can go on where it stopped.
pub fusefs_hash-append :
    (v : ℕ) (xs ys : Bytes) → fusefs_hash v (xs ++ ys) ≡ fusefs_hash (fusefs_hash v xs) ys
unfolding fusefs_hash
fusefs_hash-append v [] ys = refl
fusefs_hash-append v (x ∷ xs) ys = fusefs_hash-append (hash_round v x) xs ys

-- The number that fusefs_getino gives to a name in a directory is the one that the node of that
-- name gets when it is created from the same directory path, separator and name. The directory's
-- own number is the hash of its path.
pub getino-gethash :
    (rpath name : Bytes)
    → AreBytes rpath
    → fusefs_getino (fusefs_gethash rpath) rpath name
      ≡ fusefs_gethash (search_path rpath (dnp_sep rpath) name)
unfolding fusefs_getino fusefs_gethash search_path
getino-gethash rpath name b =
    let small : fusefs_hash 33554467 rpath % 2 ^ 32 ≡ fusefs_hash 33554467 rpath =
      omega (arith, fusefs_hash-lt 33554467 rpath b (omega arith)) in
    elim (Bool-cases (ltb 1 (length rpath))) [
      | inl long ↦ rw (long, small) (sym (fusefs_hash-append 33554467 rpath (b'/' ∷ name)))
      | inr short ↦ rw (short, small) (sym (fusefs_hash-append 33554467 rpath name))
    ]
