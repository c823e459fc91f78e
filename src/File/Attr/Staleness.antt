-- ===== src/File/Attr/Staleness.antt =====
-- How old served attributes can be, over any history of a file.
use illumos_fuse.Door.{FuseStat}
use illumos_fuse.File.{FuseNode, Mount}
use illumos_fuse.File.Attr.{
  cache_delta, clamp, attr_changed, fusefs_attrcache_fa, fusefs_getattr_cache,
  fusefs_attrcache_remove, fusefs_attr_touchdir,
}
use illumos_fuse.Calls.{ok}
use illumos_fuse.Prelude.{ℕ, ◌+◌, ◌≤◌, ◌<◌, ◌≡◌, ◌⊎◌, inl, inr, Bool, arith, ltb, if◌then◌else◌}

-- A history of the cache of one file. `clock` is the time of its last event, `fetched` that at which
-- the attributes in the node came from the daemon; the clock does not run backwards.
pub data History (iftovt : ℕ → ℕ) (fmi : Mount) : (clock fetched : ℕ) → FuseNode → Type 0 where
  first :
      (now : ℕ) (fap : FuseStat) (np : FuseNode)
      → History iftovt fmi now now (fusefs_attrcache_fa iftovt fmi now fap np)
  fetch :
      {clock fetched : ℕ} {np : FuseNode} (now : ℕ) (fap : FuseStat)
      → History iftovt fmi clock fetched np
      → clock ≤ now
      → History iftovt fmi now now (fusefs_attrcache_fa iftovt fmi now fap np)
  remove :
      {clock fetched : ℕ} {np : FuseNode} (now : ℕ)
      → History iftovt fmi clock fetched np
      → clock ≤ now
      → History iftovt fmi now fetched (fusefs_attrcache_remove now np)
  touchdir :
      {clock fetched : ℕ} {np : FuseNode} (modified now : ℕ)
      → History iftovt fmi clock fetched np
      → clock ≤ now
      → History iftovt fmi now fetched (fusefs_attr_touchdir modified now np)

-- The longest time that either kind of file is cached.
abbrev pub longest : Mount → ℕ
longest fmi = if ltb fmi.fmi_acregmax fmi.fmi_acdirmax then fmi.fmi_acdirmax else fmi.fmi_acregmax

abbrev pub OrderedBounds : Mount → Type 0
OrderedBounds fmi = (fmi.fmi_acregmin ≤ fmi.fmi_acregmax) × (fmi.fmi_acdirmin ≤ fmi.fmi_acdirmax)

delta-longest :
    (fmi : Mount) (vnocache : Bool) (vtype now mtime : ℕ)
    → OrderedBounds fmi
    → cache_delta fmi vnocache vtype now mtime ≤ longest fmi
unfolding cache_delta clamp
delta-longest fmi vnocache vtype now mtime (reg, dir) = ground arith

-- Attributes expire when they are removed, or within the longest time.
abbrev Expires : Mount → (clock fetched : ℕ) → FuseNode → Type 0
Expires fmi clock fetched np = (np.r_attrtime ≤ clock) ⊎ (np.r_attrtime ≤ fetched + longest fmi)

attrcache_fa-Expires :
    (iftovt : ℕ → ℕ) (fmi : Mount) (now : ℕ) (fap : FuseStat) (np : FuseNode)
    → OrderedBounds fmi
    → Expires fmi now now (fusefs_attrcache_fa iftovt fmi now fap np)
unfolding fusefs_attrcache_fa
attrcache_fa-Expires iftovt fmi now fap np ordered = inr (
    ap_add now (
      delta-longest fmi np.vnocache (iftovt fap.st_mode) now
        (if attr_changed np fap then now else np.r_mtime) ordered))
  where
    ap_add : (now : ℕ) {a b : ℕ} → a ≤ b → now + a ≤ now + b
    ap_add now h = omega (arith, h)

History-Expires :
    {iftovt : ℕ → ℕ} {fmi : Mount} {clock fetched : ℕ} {np : FuseNode}
    → OrderedBounds fmi
    → History iftovt fmi clock fetched np
    → Expires fmi clock fetched np
unfolding fusefs_attrcache_remove fusefs_attr_touchdir
History-Expires ordered (first now fap np) = attrcache_fa-Expires _ _ now fap np ordered
History-Expires ordered (fetch {np = np} now fap h le) = attrcache_fa-Expires _ _ now fap np ordered
History-Expires ordered (remove now h le) = inl (ground arith)
History-Expires ordered (touchdir modified now h le) = inl (ground arith)

-- When the bounds of the mount are ordered, then after any history of fetches, removals and touches
-- of directories, attributes that the cache gives at a time from the last event on were fetched from
-- the daemon less than the longest caching time of the mount before.
pub served-not_stale :
    {iftovt : ℕ → ℕ} {fmi : Mount} {clock fetched : ℕ} {np : FuseNode} (t : ℕ) (fap : FuseStat)
    → OrderedBounds fmi
    → History iftovt fmi clock fetched np
    → clock ≤ t
    → fusefs_getattr_cache t np ≡ ok fap
    → t < fetched + longest fmi
unfolding fusefs_getattr_cache
served-not_stale t fap ordered h le hit = let expires = History-Expires ordered h in ground arith
