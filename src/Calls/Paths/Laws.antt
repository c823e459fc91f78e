-- ===== src/Calls/Paths/Laws.antt =====
-- Path names in the arguments are those of the node cache.
use illumos_fuse.Hash.{Bytes, dnp_sep, search_path}
use illumos_fuse.Door.{maxpathlen}
use illumos_fuse.Calls.Paths.{memcpy_string, clip_pathlen, two_part_len, two_part_path}
use native.Mathlib.Decide.{dec_lt}
use illumos_fuse.Prelude.{
  ℕ, zero, suc, ◌+◌, ◌-◌, ◌≤◌, ◌<◌, ◌≡◌, refl, sym, ap, ◌∙◌, [], ◌∷◌, ◌++◌, arith, length, take,
  length-append, length-take, ◌∙◌,
}

-- For a directory whose path is not empty, the path that a call with a directory and a name sends is
-- the path under which the node cache looks for the same name, and the length that it sends counts
-- this path and a NUL.
pub two_part_path-search_path :
    (dname cname : Bytes)
    → 1 ≤ length dname
    → (two_part_path dname cname ≡ search_path dname (dnp_sep dname) cname)
      × (two_part_len dname cname ≡ length (search_path dname (dnp_sep dname) cname) + 1)
unfolding two_part_path two_part_len search_path dnp_sep
two_part_path-search_path dname cname h =
    (ground arith, ground (arith, length-append dname cname, length-append dname (b'/' ∷ cname)))

-- `take` of all of a list, and of a prefix.
take-all : (n : ℕ) (xs : Bytes) → length xs ≤ n → take n xs ≡ xs
take-all zero [] h = refl
take-all zero (x ∷ xs) h = absurd (omega (arith, h))
take-all (suc n) [] h = refl
take-all (suc n) (x ∷ xs) h = ap (λ r. x ∷ r) (take-all n xs (omega (arith, h)))

clip_short : (n : ℕ) → n < maxpathlen → clip_pathlen n ≡ n
unfolding clip_pathlen
clip_short n h = ground arith

clip_long : (n : ℕ) → maxpathlen ≤ n → clip_pathlen n + 1 ≡ maxpathlen
unfolding clip_pathlen
clip_long n h = ground arith

-- A call that cuts long paths sends the whole path and its NUL when they fit.
pub sent_whole :
    (rpath : Bytes)
    → length rpath < maxpathlen
    → memcpy_string (clip_pathlen (length rpath) + 1) rpath ≡ rpath ++ 0 ∷ []
unfolding memcpy_string
sent_whole rpath h =
    rw (clip_short (length rpath) h)
      (take-all (length rpath + 1) (rpath ++ 0 ∷ []) (omega (arith, length-append rpath (0 ∷ []))))

-- In any case it copies the first MAXPATHLEN bytes of the path and its NUL, and gives the length of what fits with
-- a NUL.
pub sent_bytes :
    (rpath : Bytes)
    → memcpy_string (clip_pathlen (length rpath) + 1) rpath ≡ take maxpathlen (rpath ++ 0 ∷ [])
sent_bytes rpath = elim (dec_lt (length rpath) maxpathlen) [
  | yes h ↦
      sent_whole rpath h
      ∙ sym (take-all maxpathlen (rpath ++ 0 ∷ []) (omega (arith, h, length-append rpath (0 ∷ []))))
  | no h ↦ unfold memcpy_string in rw (clip_long (length rpath) (omega (arith, h))) refl
]

pub sent_length :
    (rpath : Bytes) → clip_pathlen (length rpath) ≡ length (take (maxpathlen - 1) rpath)
sent_length rpath =
    let shorter = length-take (maxpathlen - 1) rpath in
    elim (dec_lt (length rpath) maxpathlen) [
      | yes h ↦ omega (arith, clip_short (length rpath) h, shorter)
      | no h ↦ omega (arith, clip_long (length rpath) (omega (arith, h)), shorter)
    ]
