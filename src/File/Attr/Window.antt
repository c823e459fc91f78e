-- ===== src/File/Attr/Window.antt =====
-- How long attributes are served from the cache.
use illumos_fuse.Door.{FuseStat}
use illumos_fuse.Door.Errno.{enoent}
use illumos_fuse.Calls.{ok, err}
use illumos_fuse.File.{vdir, FuseNode, Mount}
use illumos_fuse.File.Attr.{
  cache_delta, clamp, attr_changed, fusefs_attrcache_fa, fusefs_getattr_cache,
}
use illumos_fuse.Prelude.{
  ℕ, ◌+◌, ◌≤◌, ◌<◌, ◌≡◌, Bool, true, false, ◌||◌, arith, ◌==◌, if◌then◌else◌,
}

-- The bounds that hold for a type of file.
abbrev pub acmin : Mount → ℕ → ℕ
acmin fmi vtype = if vtype == vdir then fmi.fmi_acdirmin else fmi.fmi_acregmin

abbrev pub acmax : Mount → ℕ → ℕ
acmax fmi vtype = if vtype == vdir then fmi.fmi_acdirmax else fmi.fmi_acregmax

clamp-bounds : (lo hi n : ℕ) → lo ≤ hi → (lo ≤ clamp lo hi n) × (clamp lo hi n ≤ hi)
unfolding clamp
clamp-bounds lo hi n h = (ground arith, ground arith)

delta-bounds :
    (fmi : Mount) (vnocache : Bool) (vtype now mtime : ℕ)
    → fmi.fmi_noac ≡ false
    → vnocache ≡ false
    → acmin fmi vtype ≤ acmax fmi vtype
    → (acmin fmi vtype ≤ cache_delta fmi vnocache vtype now mtime)
      × (cache_delta fmi vnocache vtype now mtime ≤ acmax fmi vtype)
unfolding cache_delta clamp
delta-bounds fmi vnocache vtype now mtime cached caches ordered = (ground arith, ground arith)

pub served : (t : ℕ) (np : FuseNode) → t < np.r_attrtime → fusefs_getattr_cache t np ≡ ok np.r_attr
unfolding fusefs_getattr_cache
served t np h = ground arith

pub expired : (t : ℕ) (np : FuseNode) → np.r_attrtime ≤ t → fusefs_getattr_cache t np ≡ err enoent
unfolding fusefs_getattr_cache
expired t np h = ground arith

-- When the mount caches attributes and the minimum for the type of the file is at most the maximum,
-- attributes that are entered at time `now` are given back by the cache at every time less than the
-- minimum after it, and the cache gives nothing from the maximum on.
pub attrcache_fa-served :
    (iftovt : ℕ → ℕ) (fmi : Mount) (now : ℕ) (fap : FuseStat) (np : FuseNode) (t : ℕ)
    → fmi.fmi_noac ≡ false
    → np.vnocache ≡ false
    → acmin fmi (iftovt fap.st_mode) ≤ acmax fmi (iftovt fap.st_mode)
    → (t < now + acmin fmi (iftovt fap.st_mode)
        → fusefs_getattr_cache t (fusefs_attrcache_fa iftovt fmi now fap np) ≡ ok fap)
      × (now + acmax fmi (iftovt fap.st_mode) ≤ t
          → fusefs_getattr_cache t (fusefs_attrcache_fa iftovt fmi now fap np) ≡ err enoent)
unfolding fusefs_attrcache_fa
attrcache_fa-served iftovt fmi now fap np t cached caches ordered =
    let bounds =
      delta-bounds fmi np.vnocache (iftovt fap.st_mode) now
        (if attr_changed np fap then now else np.r_mtime) cached caches ordered in
    (
      λ h. served t (fusefs_attrcache_fa iftovt fmi now fap np) (omega (arith, h, bounds.0)),
      λ h. expired t (fusefs_attrcache_fa iftovt fmi now fap np) (omega (arith, h, bounds.1)),
    )

-- Without attribute caching, on the mount or on the vnode, the cache gives nothing from the time on
-- at which the attributes were entered.
pub attrcache_fa-noac :
    (iftovt : ℕ → ℕ) (fmi : Mount) (now : ℕ) (fap : FuseStat) (np : FuseNode) (t : ℕ)
    → (fmi.fmi_noac || np.vnocache) ≡ true
    → now ≤ t
    → fusefs_getattr_cache t (fusefs_attrcache_fa iftovt fmi now fap np) ≡ err enoent
unfolding fusefs_attrcache_fa cache_delta
attrcache_fa-noac iftovt fmi now fap np t off h =
    expired t (fusefs_attrcache_fa iftovt fmi now fap np) (ground arith)
