-- ===== src/Daemon/Paths.antt =====
-- The paths that the kernel module sends, as the daemon reads them.
use illumos_fuse.Hash.{Bytes, dnp_sep, search_path}
use illumos_fuse.Door.{maxpathlen}
use illumos_fuse.Calls.Paths.{memcpy_string, clip_pathlen, two_part_path}
use illumos_fuse.Calls.Paths.Laws.{two_part_path-search_path, sent_whole}
use illumos_fuse.Node.Order.Laws.{IsName}
use illumos_fuse.Daemon.{c_string}
use illumos_fuse.Prelude.{
  ◌+◌, ◌≤◌, ◌<◌, ◌≡◌, refl, sym, [], ◌∷◌, ◌++◌, arith, ltb, length, if_branches,
}

pub c_string-IsName : (p : Bytes) → IsName p → c_string p ≡ p
unfolding c_string
c_string-IsName [] n = refl
c_string-IsName (c ∷ p) n = ground (arith, n.0, c_string-IsName p n.1)

c_string-nul : (p rest : Bytes) → IsName p → c_string (p ++ 0 ∷ rest) ≡ p
unfolding c_string
c_string-nul [] rest n = refl
c_string-nul (c ∷ p) rest n = ground (arith, n.0, c_string-nul p rest n.1)

IsName-append : (a b : Bytes) → IsName a → IsName b → IsName (a ++ b)
IsName-append [] b n m = m
IsName-append (c ∷ a) b n m = (n.0, IsName-append a b n.1 m)

-- A path that fits, with its NUL.
pub c_string-sent :
    (rpath : Bytes)
    → IsName rpath
    → length rpath < maxpathlen
    → c_string (memcpy_string (clip_pathlen (length rpath) + 1) rpath) ≡ rpath
c_string-sent rpath n h = rw (sent_whole rpath h) (c_string-nul rpath [] n)

-- A path in two parts.
pub c_string-two_part_path :
    (dname cname : Bytes)
    → IsName dname
    → IsName cname
    → 1 ≤ length dname
    → c_string (two_part_path dname cname) ≡ search_path dname (dnp_sep dname) cname
unfolding two_part_path
c_string-two_part_path dname cname n m h = rw (sym ((two_part_path-search_path dname cname h).0)) (
    if_branches (λ r. c_string r ≡ r) (ltb 1 (length dname)) (dname ++ b'/' ∷ cname)
      (dname ++ cname)
      (λ _. c_string-IsName _ (IsName-append dname (b'/' ∷ cname) n (omega arith, m)))
      (λ _. c_string-IsName _ (IsName-append dname cname n m)))
