-- ===== src/Vnode/Lookup.antt =====
-- fusefs_lookup, fusefslookup and fusefslookup_cache of usr/src/uts/common/fs/fusefs/fusefs_vnops.c. A name is
-- the bytes before its NUL.
use illumos_fuse.Hash.{Bytes, dnp_sep}
use illumos_fuse.Door.{FuseStat}
use illumos_fuse.Door.Errno.{eperm, enotdir, enametoolong, einval}
use illumos_fuse.Calls.{CallResult, ok, err}
use illumos_fuse.Calls.Files.{fusefs_call_getattr2}
use illumos_fuse.File.{vdir}
use illumos_fuse.Lookup.{parent_path}
use illumos_fuse.RwLock.{reader}
use illumos_fuse.Vnode.{
  rwlock, holds, Env, Op, file, ret, raise, gets, attempt, call, modify, fail_if, assert, with_lock,
  check_mount, ◌>>=◌, ◌>>◌,
}
use illumos_fuse.Vnode.Access.{vexec, fusefs_access}
use illumos_fuse.Vnode.Steps.{
  set_file, held_vnode, v_type_of, n_rpath_of, attrcache_remove, prune, getattr, vn_rele,
  findcreate, nget, look,
}
use illumos_fuse.Prelude.{
  ℕ, Bool, true, false, not, ◌&&◌, Option, none, some, [], ◌∷◌, ltb, leb, ◌==◌, if◌then◌else◌,
  length,
}

-- FUSE_MAXFNAMELEN
abbrev pub fuse_maxfnamelen : ℕ
fuse_maxfnamelen = 255

unfoldable pub is_dot : Bytes → Bool
is_dot (a ∷ []) = a == b'.'
is_dot _ = false

unfoldable pub is_dotdot : Bytes → Bool
is_dotdot (a ∷ b ∷ []) = a == b'.' && b == b'.'
is_dotdot _ = false

module _ {D : Type 0} (env : Env D) where
  -- The file system's root is the one vnode with VROOT.
  abbrev pub is_root : ℕ → Bool
  is_root np = np == env.fmi_root

  unfoldable pub parent_vnode : Option Bytes → Op D ℕ
  unfolding held_vnode findcreate
  parent_vnode none = held_vnode env.fmi_root
  parent_vnode (some rpath) = do
    np ← findcreate env rpath none [] none
    modify (λ w. set_file w np (record (file w np) { v_type = vdir }))
    ret np

  -- "Special handling for lookup of '..'"
  unfoldable pub lookup_parent : ℕ → Op D ℕ
  unfolding parent_vnode parent_path held_vnode
  lookup_parent dnp =
      if is_root dnp
      then held_vnode dnp
      else (n_rpath_of dnp >>= λ rpath. parent_vnode (parent_path rpath))

  unfoldable pub cache_found : Option ℕ → Op D (Option ℕ)
  unfolding vn_rele
  cache_found none = ret none
  cache_found (some np) = do
    stale ← gets (λ w. leb (file w np).r_attrtime (env.gethrtime w))
    if stale then (vn_rele env np >> ret none) else ret (some np)

  unfoldable pub fusefslookup_cache : ℕ → Bytes → Op D (Option ℕ)
  unfolding cache_found getattr look
  fusefslookup_cache dnp nm = do
    va ← getattr env dnp
    rpath ← n_rpath_of dnp
    np ← look env rpath (dnp_sep rpath) nm
    cache_found np

  -- "Remove any cached attributes under it."
  unfoldable pub lookup_answer : ℕ → Bytes → CallResult FuseStat → Op D ℕ
  unfolding attrcache_remove prune nget
  lookup_answer dnp nm (ok fa) = nget env dnp nm fa
  lookup_answer dnp nm (err e) = do
    if e == enotdir then (attrcache_remove env dnp >> prune env dnp) else ret tt
    raise e

  -- "OK, go over-the-wire to get the attributes, then create the node."
  unfoldable pub lookup_wire : ℕ → Bytes → Op D ℕ
  unfolding lookup_answer
  lookup_wire dnp nm = do
    rpath ← n_rpath_of dnp
    r ← attempt (call (fusefs_call_getattr2 env.door rpath nm))
    lookup_answer dnp nm r

  unfoldable pub lookup_cached : ℕ → Bytes → Option ℕ → Op D ℕ
  unfolding lookup_wire
  lookup_cached dnp nm none = lookup_wire dnp nm
  lookup_cached dnp nm (some vp) = ret vp

  -- "Normal lookup of a name under this directory."
  unfoldable pub lookup_name : (cache_ok : Bool) → ℕ → Bytes → Op D ℕ
  unfolding fusefslookup_cache lookup_cached
  lookup_name cache_ok dnp nm = do
    cached ← if cache_ok then fusefslookup_cache dnp nm else ret none
    lookup_cached dnp nm cached

  -- In a directory that may be searched.
  unfoldable pub lookup_in : (cache_ok : Bool) → ℕ → Bytes → Op D ℕ
  unfolding lookup_name lookup_parent held_vnode is_dot is_dotdot
  lookup_in cache_ok dnp nm = if is_dot nm then held_vnode dnp else do
    fail_if (ltb fuse_maxfnamelen (length nm)) enametoolong
    if is_dotdot nm then lookup_parent dnp else lookup_name cache_ok dnp nm

  unfoldable pub lookup_checked : (cache_ok : Bool) → ℕ → Bytes → Op D ℕ
  unfolding lookup_in fusefs_access
  lookup_checked cache_ok dnp nm = do
    vtype ← v_type_of dnp
    fail_if (not (vtype == vdir)) enotdir
    fusefs_access env dnp vexec
    lookup_in cache_ok dnp nm

  -- "RWlock must be held, either reader or writer."
  unfoldable pub fusefslookup : (cache_ok : Bool) → ℕ → Bytes → Op D ℕ
  unfolding lookup_checked held_vnode
  fusefslookup cache_ok dnp nm = do
    assert (holds (rwlock dnp))
    if length nm == 0 then held_vnode dnp else lookup_checked cache_ok dnp nm

  unfoldable pub fusefs_lookup : (xattr : Bool) → ℕ → Bytes → Op D ℕ
  unfolding fusefslookup check_mount with_lock
  fusefs_lookup xattr dnp nm = do
    check_mount env eperm
    fail_if xattr einval
    with_lock env (rwlock dnp) reader (fusefslookup true dnp nm)
