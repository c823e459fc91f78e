-- ===== src/Vnode/Safety/Names.antt =====
-- The lookup of names keeps the locks.
use illumos_fuse.Hash.{Bytes}
use illumos_fuse.Door.{FuseStat}
use illumos_fuse.Calls.{CallResult, ok, err}
use illumos_fuse.RwLock.{Krw, reader}
use illumos_fuse.Vnode.{Lock, rwlock, Held, holds, Env}
use illumos_fuse.Vnode.Access.{fusefs_access}
use illumos_fuse.Vnode.Steps.{set_file}
use illumos_fuse.Vnode.Lookup.{
  parent_vnode, lookup_parent, cache_found, fusefslookup_cache, lookup_answer, lookup_wire,
  lookup_cached, lookup_name, lookup_in, lookup_checked, fusefslookup, fusefs_lookup,
}
use illumos_fuse.Vnode.Keeps.{Keeps, Keeps-modify, Keeps-assert, Keeps-bind, same_lock_refl}
use illumos_fuse.Vnode.Keeps.Steps.{step_rules}
use illumos_fuse.Prelude.{ℕ, ◌≡◌, Bool, true, Option, none, some, ◌∷◌, arith}

pub holds-rwlock : (l : Lock) (rw : Krw) (held : Held) → holds l ((l, rw) ∷ held) ≡ true
unfolding holds
holds-rwlock l rw₀ held = ground (arith, same_lock_refl l)

module _ {D : Type 0} (env : Env D) {held : Held} where
  pub Keeps-access : (np mode : ℕ) → Keeps held (fusefs_access env np mode)
  unfolding fusefs_access
  Keeps-access np mode = search step_rules depth 12

  Keeps-parent_vnode : (rpath : Option Bytes) → Keeps held (parent_vnode env rpath)
  unfolding parent_vnode set_file
  Keeps-parent_vnode none = search step_rules depth 12
  Keeps-parent_vnode (some rpath) = search (step_rules, Keeps-modify) depth 12

  Keeps-lookup_parent : (dnp : ℕ) → Keeps held (lookup_parent env dnp)
  unfolding lookup_parent
  Keeps-lookup_parent dnp = search (step_rules, Keeps-parent_vnode) depth 12

  Keeps-cache_found : (np : Option ℕ) → Keeps held (cache_found env np)
  unfolding cache_found
  Keeps-cache_found none = search step_rules depth 12
  Keeps-cache_found (some np) = search step_rules depth 12

  Keeps-lookup_cache : (dnp : ℕ) (nm : Bytes) → Keeps held (fusefslookup_cache env dnp nm)
  unfolding fusefslookup_cache
  Keeps-lookup_cache dnp nm = search (step_rules, Keeps-cache_found) depth 12

  Keeps-lookup_answer :
      (dnp : ℕ) (nm : Bytes) (r : CallResult FuseStat) → Keeps held (lookup_answer env dnp nm r)
  unfolding lookup_answer
  Keeps-lookup_answer dnp nm (ok fa) = search step_rules depth 12
  Keeps-lookup_answer dnp nm (err e) = search step_rules depth 12

  Keeps-lookup_wire : (dnp : ℕ) (nm : Bytes) → Keeps held (lookup_wire env dnp nm)
  unfolding lookup_wire
  Keeps-lookup_wire dnp nm = search (step_rules, Keeps-lookup_answer) depth 12

  Keeps-lookup_cached :
      (dnp : ℕ) (nm : Bytes) (cached : Option ℕ) → Keeps held (lookup_cached env dnp nm cached)
  unfolding lookup_cached
  Keeps-lookup_cached dnp nm none = Keeps-lookup_wire dnp nm
  Keeps-lookup_cached dnp nm (some vp) = search step_rules depth 12

  Keeps-lookup_name :
      (cache_ok : Bool) (dnp : ℕ) (nm : Bytes) → Keeps held (lookup_name env cache_ok dnp nm)
  unfolding lookup_name
  Keeps-lookup_name cache_ok dnp nm =
      search (step_rules, Keeps-lookup_cache, Keeps-lookup_cached) depth 12

  Keeps-lookup_in :
      (cache_ok : Bool) (dnp : ℕ) (nm : Bytes) → Keeps held (lookup_in env cache_ok dnp nm)
  unfolding lookup_in
  Keeps-lookup_in cache_ok dnp nm =
      search (step_rules, Keeps-lookup_parent, Keeps-lookup_name) depth 12

  Keeps-lookup_checked :
      (cache_ok : Bool) (dnp : ℕ) (nm : Bytes) → Keeps held (lookup_checked env cache_ok dnp nm)
  unfolding lookup_checked
  Keeps-lookup_checked cache_ok dnp nm = search (step_rules, Keeps-access, Keeps-lookup_in) depth 12

  -- The assertion of fusefslookup holds for a thread with the directory's lock.
  pub Keeps-fusefslookup :
      (cache_ok : Bool) (dnp : ℕ) (nm : Bytes)
      → holds (rwlock dnp) held ≡ true
      → Keeps held (fusefslookup env cache_ok dnp nm)
  unfolding fusefslookup
  Keeps-fusefslookup cache_ok dnp nm h =
      Keeps-bind _ _ (Keeps-assert _ h) (λ _. search (step_rules, Keeps-lookup_checked) depth 12)

module _ {D : Type 0} (env : Env D) (held : Held) where
  lookup_inside :
      (dnp : ℕ) (nm : Bytes) → Keeps ((rwlock dnp, reader) ∷ held) (fusefslookup env true dnp nm)
  lookup_inside dnp nm = Keeps-fusefslookup env true dnp nm (holds-rwlock (rwlock dnp) reader held)

  pub Keeps-lookup :
      (xattr : Bool) (dnp : ℕ) (nm : Bytes) → Keeps held (fusefs_lookup env xattr dnp nm)
  unfolding fusefs_lookup
  Keeps-lookup xattr dnp nm = search (step_rules, lookup_inside) depth 12
