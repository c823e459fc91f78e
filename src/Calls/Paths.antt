-- ===== src/Calls/Paths.antt =====
-- How fusefs_calls.c puts path names into the arguments.
pub mod Laws
use illumos_fuse.Hash.{Bytes}
use illumos_fuse.Door.{maxpathlen}
use illumos_fuse.Prelude.{ℕ, ◌+◌, ◌-◌, [], ◌∷◌, ◌++◌, ltb, ◌==◌, if◌then◌else◌, length, take}

-- memcpy from a C string: its bytes and the NUL behind them.
unfoldable pub memcpy_string : ℕ → Bytes → Bytes
memcpy_string n s = take n (s ++ 0 ∷ [])

-- `if (rplen > (MAXPATHLEN - 1)) rplen = MAXPATHLEN - 1;`
unfoldable pub clip_pathlen : ℕ → ℕ
clip_pathlen rplen = if ltb (maxpathlen - 1) rplen then maxpathlen - 1 else rplen

-- The length of a path in two parts, with its NUL: `plen = dnlen + cnlen + 2`, less one for the root.
unfoldable pub two_part_len : Bytes → Bytes → ℕ
two_part_len dname cname =
    let plen = length dname + length cname + 2 in if length dname == 1 then plen - 1 else plen

-- "Fill in path from two parts."
unfoldable pub two_part_path : Bytes → Bytes → Bytes
two_part_path dname cname = if ltb 1 (length dname) then dname ++ b'/' ∷ cname else dname ++ cname
