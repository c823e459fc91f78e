-- ===== src/Lookup/Dotdot.antt =====
-- ".." leads back to the directory in which a name was looked up.
use illumos_fuse.Hash.{Bytes, dnp_sep, search_path}
use illumos_fuse.Node.Cache.{Cache, vn_hold, hold_found}
use illumos_fuse.Node.Cache.Find.{node_findcreate}
use illumos_fuse.Node.Cache.Find.Nget.{make_found}
use illumos_fuse.Lookup.{byte_at, last_slash, parent_path, lookup_dotdot, parent_at, with_node}
use illumos_fuse.Prelude.{
  ℕ, zero, suc, ◌+◌, ◌≤◌, ◌<◌, ◌≡◌, refl, ap, ◌∙◌, ◌≢◌, inl, inr, true, false, none, some, [], ◌∷◌,
  ◌++◌, arith, ltb, if◌then◌else◌, Bool-cases, length, take, length-append, ◌∙◌,
}

-- A name, without the separator of paths.
abbrev pub NoSlash : Bytes → Type 0
NoSlash [] = Unit {0}
NoSlash (c ∷ cs) = (c ≢ b'/') × NoSlash cs

byte_at-append : (n : ℕ) (xs ys : Bytes) → byte_at (length xs + n) (xs ++ ys) ≡ byte_at n ys
unfolding byte_at
byte_at-append n [] ys = let same : 0 + n ≡ n = omega arith in ap (λ k. byte_at k ys) same
byte_at-append n (x ∷ xs) ys =
    let next : suc (length xs) + n ≡ suc (length xs + n) = omega arith in
    ap (λ k. byte_at k (x ∷ xs ++ ys)) next ∙ byte_at-append n xs ys

byte_at-NoSlash : (n : ℕ) (name : Bytes) → NoSlash name → n < length name → byte_at n name ≢ b'/'
unfolding byte_at
byte_at-NoSlash n [] h small = absurd (omega (arith, small))
byte_at-NoSlash zero (c ∷ name) h small = h.0
byte_at-NoSlash (suc n) (c ∷ name) h small = byte_at-NoSlash n name h.1 (omega (arith, small))

-- The scan goes over bytes that are no separators.
last_slash-skips :
    (k n : ℕ) (rpath : Bytes)
    → ((i : ℕ) → i < n → byte_at (k + i) rpath ≢ b'/')
    → last_slash (k + n) rpath ≡ last_slash k rpath
unfolding last_slash
last_slash-skips k zero rpath h =
    let same : k + 0 ≡ k = omega arith in ap (λ j. last_slash j rpath) same
last_slash-skips k (suc n) rpath h =
    let next : k + suc n ≡ suc (k + n) = omega arith in
    let here = h n (omega arith) in
    let rest = last_slash-skips k n rpath (λ i small. h i (omega (arith, small))) in
    ap (λ j. last_slash j rpath) next ∙ ground (arith, here, rest)

take-append : (xs ys : Bytes) → take (length xs) (xs ++ ys) ≡ xs
take-append [] ys = refl
take-append (x ∷ xs) ys = ap (λ r. x ∷ r) (take-append xs ys)

-- Where the last separator stands.
last_slash-name :
    (dir name : Bytes)
    → NoSlash name
    → last_slash (length (dir ++ b'/' ∷ name)) (dir ++ b'/' ∷ name) ≡ some (length dir)
unfolding last_slash byte_at
last_slash-name dir name h =
    let rpath = dir ++ b'/' ∷ name in
    let size : length rpath ≡ suc (length dir) + length name =
      omega (arith, length-append dir (b'/' ∷ name)) in
    let skipped = last_slash-skips (suc (length dir)) (length name) rpath (λ i small.
      let index : suc (length dir) + i ≡ length dir + suc i = omega arith in
      rw (index, byte_at-append (suc i) dir (b'/' ∷ name)) (byte_at-NoSlash i name h small)) in
    let slash : byte_at (length dir) rpath ≡ b'/' =
      ap (λ j. byte_at j rpath) ((omega arith)) ∙ byte_at-append 0 dir (b'/' ∷ name) in
    ap (λ j. last_slash j rpath) size ∙ skipped ∙ ground (arith, slash)

-- A directory whose path is longer than the root's.
parent_path-long :
    (dir name : Bytes) → NoSlash name → 0 < length dir → parent_path (dir ++ b'/' ∷ name) ≡ some dir
unfolding parent_path
parent_path-long [] name h long = absurd (omega (arith, long))
parent_path-long (x ∷ dir) name h long =
    ap (λ o. parent_at o (x ∷ dir ++ b'/' ∷ name)) (last_slash-name (x ∷ dir) name h)
    ∙ ap some (take-append (x ∷ dir) (b'/' ∷ name))

-- In the root, whatever its one byte is.
parent_path-short : (c : ℕ) (name : Bytes) → NoSlash name → parent_path (c ∷ name) ≡ none
unfolding parent_path last_slash
parent_path-short c name h =
    let size : suc (length name) ≡ 1 + length name = omega arith in
    let skipped = last_slash-skips 1 (length name) (c ∷ name) (λ i small.
      let index : 1 + i ≡ suc i = omega arith in
      rw (index) (unfold byte_at in byte_at-NoSlash i name h small)) in
    ap (λ j. parent_at (last_slash j (c ∷ name)) (c ∷ name)) size
    ∙ ap (λ o. parent_at o (c ∷ name)) skipped
    ∙ unfold byte_at in ground arith

append_nil : (xs : Bytes) → xs ++ [] ≡ xs
append_nil [] = refl
append_nil (x ∷ xs) = ap (λ r. x ∷ r) (append_nil xs)

-- The parent of a path under which a name is looked up.
pub parent_path-search_path :
    (dir name : Bytes)
    → NoSlash name
    → 1 ≤ length dir
    → parent_path (search_path dir (dnp_sep dir) name)
      ≡ (if ltb 1 (length dir) then some dir else none)
unfolding search_path dnp_sep
parent_path-search_path [] name h some_dir = absurd (omega (arith, some_dir))
parent_path-search_path (x ∷ []) name h some_dir = parent_path-short x name h
parent_path-search_path (x ∷ y ∷ dir) name h some_dir =
    let long : ltb 1 (length (x ∷ y ∷ dir)) ≡ true = ground arith in
    rw (long) (parent_path-long (x ∷ y ∷ dir) name h (omega arith))

module _ (nfusenode : ℕ) (kmem_cache_alloc : Cache → ℕ) (others : ℕ → Cache → Cache) where
  -- Where the tree has a directory's node, the lookup of ".." in a node whose path is that of a name in this
  -- directory, and which is not the root, ends in the first round and gives, with a hold, the directory's node,
  -- or the root's when the path of the directory has one byte. The name holds no '/'.
  pub lookup_dotdot-parent :
      (fuel root dnp np : ℕ) (dir name : Bytes) (c : Cache)
      → NoSlash name
      → 1 ≤ length dir
      → c.fmi_hash dir ≡ some dnp
      → lookup_dotdot nfusenode kmem_cache_alloc others
          (suc fuel)
          false
          root
          np
          (search_path dir (dnp_sep dir) name)
          c
        ≡ some (if ltb 1 (length dir) then (dnp, hold_found c dnp) else (root, vn_hold c root))
  unfolding lookup_dotdot node_findcreate search_path
  lookup_dotdot-parent fuel root dnp np dir name c h some_dir at =
      let same : dir ++ [] ≡ dir = append_nil dir in
      rw (parent_path-search_path dir name h some_dir) (elim (Bool-cases (ltb 1 (length dir))) [
        | inl long ↦ rw (long) (
            ap with_node (
              make_found nfusenode kmem_cache_alloc others fuel (dir ++ []) c dnp
                (ap c.fmi_hash same ∙ at)))
        | inr short ↦ rw (short) refl
      ])
