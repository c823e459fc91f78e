-- ===== src/Vnode.antt =====
-- What the vnode operations of usr/src/uts/common/fs/fusefs/fusefs_vnops.c work on: the node cache, the file
-- of each node, the locks that the calling thread holds, and the daemon. An operation is a function of
-- these. It runs without other threads, but for the making of a node; a wait for a lock ends at once, with
-- the lock or with a signal.
pub mod Access
pub mod Steps
pub mod Lookup
pub mod Create
pub mod Remove
pub mod Rename
pub mod Readdir
pub mod Other
pub mod Opened
pub mod Keeps
pub mod Runs
pub mod Safety
pub mod Examples
use illumos_fuse.Hash.{Bytes}
use illumos_fuse.Door.{FuseStat, Door}
use illumos_fuse.Door.Errno.{eintr, eio}
use illumos_fuse.Calls.{CallResult, ok, err, Ssn}
use illumos_fuse.File.{FuseNode, Mount}
use illumos_fuse.Node.Cache.{CacheNode, Cache}
use illumos_fuse.RwLock.{Krw, reader, writer}
use mathlib.Core.Option
use illumos_fuse.Prelude.{
  ℕ, Bool, true, false, not, ◌&&◌, ◌||◌, Option, none, some, List, [], ◌∷◌, map, ◌==◌,
  if◌then◌else◌,
}

-- The two fusefs_rwlock of a node, and the lock of a vnode that keeps mounts away (vn_vfsrlock).
pub data Lock : Type 0 where
  rwlock : ℕ → Lock
  lkserlock : ℕ → Lock
  vfslock : ℕ → Lock

unfoldable pub same_lock : Lock → Lock → Bool
same_lock (rwlock a) (rwlock b) = a == b
same_lock (lkserlock a) (lkserlock b) = a == b
same_lock (vfslock a) (vfslock b) = a == b
same_lock _ _ = false

-- What the thread holds, the last that it took first.
abbrev pub Held : Type 0
Held = List (Lock × Krw)

unfoldable pub holds : Lock → Held → Bool
unfolding same_lock
holds l [] = false
holds l ((k, rw) ∷ held) = same_lock l k || holds l held

abbrev pub is_reader : Krw → Bool
is_reader reader = true
is_reader writer = false

unfoldable pub holds_reader : Lock → Held → Bool
unfolding same_lock
holds_reader l [] = false
holds_reader l ((k, rw) ∷ held) = (same_lock l k && is_reader rw) || holds_reader l held

unfoldable pub holds_writer : Lock → Held → Bool
unfolding same_lock
holds_writer l [] = false
holds_writer l ((k, rw) ∷ held) = (same_lock l k && not (is_reader rw)) || holds_writer l held

unfoldable pub release : Lock → Held → Held
unfolding same_lock
release l [] = []
release l ((k, rw) ∷ held) =
    let rest = release l held in if same_lock l k then held else (k, rw) ∷ rest

-- `file_at` has what a node holds besides its part in the cache.
pub record World (D : Type 0) : Type 0 where
  pub cache : Cache
  pub file_at : ℕ → FuseNode
  pub held : Held
  pub daemon : D

-- The mount, the caller and the system: fusemntinfo_t and vfs_t; whether the caller is of another zone, who
-- it is, and whether a signal ends a wait; the memory for nodes and the other threads; the clock; the
-- system's policy, `secpolicy_vnode_access2 is_dir owner curmode wantmode`; what else is mounted.
pub record Env (D : Type 0) : Type 0 where
  pub door : Door D
  pub ssn : Ssn
  pub mount : Mount
  pub fmi_root : ℕ
  pub fmi_uid : ℕ
  pub fmi_gid : ℕ
  pub fmi_fmode : ℕ
  pub fmi_dmode : ℕ
  pub fmi_llock : Bool
  pub fmi_largef : Bool
  pub fmi_dead : Bool
  pub vfs_rdonly : Bool
  pub fusefs_fastlookup : Bool
  pub iftovt : ℕ → ℕ
  pub wrong_zone : Bool
  pub crgetuid : ℕ
  pub groupmember : ℕ → Bool
  pub secpolicy_vnode_access2 : Bool → ℕ → ℕ → ℕ → ℕ
  pub interrupted : Lock → World D → Bool
  pub nfusenode : ℕ
  pub kmem_cache_alloc : Cache → ℕ
  pub others : ℕ → Cache → Cache
  pub gethrtime : World D → ℕ
  pub vn_vfsrlock : ℕ → World D → Bool
  pub vn_mountedvfs : ℕ → World D → Bool

-- The fields of a node, n_rpath from the cache.
unfoldable pub file : {D : Type 0} → World D → ℕ → FuseNode
file w np = record (w.file_at np) { n_rpath = (w.cache.node_at np).n_rpath }

-- `none`: an assertion fails, or fuel ends.
abbrev pub Op : Type 0 → Type 0 → Type 0
Op D A = World D → Option (CallResult A × World D)

module _ {D A : Type 0} where
  unfoldable pub ret : A → Op D A
  ret a w = some (ok a, w)

  unfoldable pub raise : ℕ → Op D A
  raise e w = some (err e, w)

  unfoldable pub from_result : CallResult A → Op D A
  from_result r w = some (r, w)

  unfoldable pub gets : (World D → A) → Op D A
  gets f w = some (ok (f w), w)

  -- `error = ...`, with the error as a value
  unfoldable pub attempt : Op D A → Op D (CallResult A)
  attempt m w = Option.map (λ r. (ok r.0, r.1)) (m w)

  -- A call of the daemon.
  unfoldable pub call : (D → CallResult A × D) → Op D A
  call f w = some ((f w.daemon).0, record w { daemon = (f w.daemon).1 })

abbrev pub and_then :
    {D A B : Type 0}
    → (A → Op D B)
    → Option (CallResult A × World D)
    → Option (CallResult B × World D)
and_then f none = none
and_then f (some (err e, w)) = some (err e, w)
and_then f (some (ok a, w)) = f a w

infixl 5 ◌>>=◌ ◌>>◌
unfoldable pub ◌>>=◌ : {D A B : Type 0} → Op D A → (A → Op D B) → Op D B
◌>>=◌ m f w = and_then f (m w)

abbrev pub ◌>>◌ : {D B : Type 0} → Op D (Unit {0}) → Op D B → Op D B
m >> k = m >>= λ _. k

module _ {D : Type 0} where
  unfoldable pub modify : (World D → World D) → Op D (Unit {0})
  modify f w = some (ok tt, f w)

  unfoldable pub fail_if : Bool → ℕ → Op D (Unit {0})
  fail_if true e = raise e
  fail_if false e = ret tt

  -- `if (error) goto out`, for what returns an error number
  unfoldable pub fail_code : ℕ → Op D (Unit {0})
  fail_code e = if e == 0 then ret tt else raise e

  -- ASSERT
  unfoldable pub assert : (Held → Bool) → Op D (Unit {0})
  assert test w = if test w.held then some (ok tt, w) else none

  unfoldable pub enter_lock : Lock → Krw → Op D (Unit {0})
  enter_lock l rw = modify (λ w. record w { held = (l, rw) ∷ w.held })

  -- fusefs_rw_exit, vn_vfsunlock
  unfoldable pub exit_lock : Lock → Op D (Unit {0})
  exit_lock l = modify (λ w. record w { held = release l w.held })

  module _ (env : Env D) where
    -- fusefs_rw_enter_sig with a wait that a signal may end
    unfoldable pub enter_sig : Lock → Krw → Op D (Unit {0})
    enter_sig l rw = do stop ← gets (env.interrupted l); fail_if stop eintr; enter_lock l rw

    -- The tests at the head of an operation: the zone, with the error of the operation; FMI_DEAD and
    -- VFS_UNMOUNTED.
    unfoldable pub check_mount : ℕ → Op D (Unit {0})
    check_mount zone_error = do
      fail_if env.wrong_zone zone_error
      unmounted ← gets (λ w. w.cache.vfs_unmounted)
      fail_if (env.fmi_dead || unmounted) eio

  -- From `out:` on: the lock is released, whatever the body returns.
  unfoldable pub locked : {A : Type 0} → Lock → Op D A → Op D A
  locked l body = do r ← attempt body; exit_lock l; from_result r

  -- A body with the lock that nothing ends the wait for, and one with a lock that is waited for.
  unfoldable pub in_lock : {A : Type 0} → Lock → Krw → Op D A → Op D A
  unfolding enter_lock locked
  in_lock l rw body = enter_lock l rw >> locked l body

  unfoldable pub with_lock : {A : Type 0} → Env D → Lock → Krw → Op D A → Op D A
  unfolding enter_sig locked
  with_lock env l rw body = enter_sig env l rw >> locked l body
