-- ===== src/Vfs/Mount/Times.antt =====
-- How long attributes are cached under the options of a mount.
use illumos_fuse.Door.{FuseStat}
use illumos_fuse.Calls.{ok}
use illumos_fuse.File.{vdir, FuseNode}
use illumos_fuse.File.Attr.{
  cache_delta, clamp, fusefs_attrcache_fa, fusefs_getattr_cache, fusefs_attrcache_remove,
  fusefs_attr_touchdir, attr_changed,
}
use illumos_fuse.File.Attr.Staleness.{History, first, fetch, remove, touchdir}
use illumos_fuse.Vfs.Mount.{FusefsArgs, mount_options, cache_time, limited, sec2hr}
use illumos_fuse.Prelude.{
  ℕ, ◌+◌, ◌≤◌, ◌<◌, ◌≡◌, ◌⊎◌, inl, inr, Bool, ◌||◌, Option, none, some, arith, ◌==◌, if◌then◌else◌,
  ℤ, pos, negsuc, if_branches,
}

abbrev hour : ℕ
hour = sec2hr 3600

cache_time-hour :
    (preset most : ℕ) (option : Option ℤ)
    → preset ≤ 3600
    → most ≤ 3600
    → cache_time preset most option ≤ hour
unfolding cache_time limited
cache_time-hour preset most none p m = omega arith
cache_time-hour preset most (some (pos sec)) p m = ground arith
cache_time-hour preset most (some (negsuc n)) p m = omega arith

clamp-hour : (lo hi delta : ℕ) → lo ≤ hour → hi ≤ hour → clamp lo hi delta ≤ hour
unfolding clamp
clamp-hour lo hi delta l h = ground arith

delta-hour :
    (args : FusefsArgs) (vnocache : Bool) (vtype now r_mtime : ℕ)
    → cache_delta (mount_options args) vnocache vtype now r_mtime ≤ hour
unfolding cache_delta mount_options
delta-hour args vnocache vtype now r_mtime =
    if_branches (λ d. d ≤ hour) (args.noac || vnocache) _ _ (λ _. omega arith)
      (λ _.
        if_branches (λ d. d ≤ hour) (vtype == vdir) _ _
          (λ _.
            clamp-hour _ _ _ (cache_time-hour 30 600 args.acdirmin (omega arith) (omega arith))
              (cache_time-hour 60 3600 args.acdirmax (omega arith) (omega arith)))
          (λ _.
            clamp-hour _ _ _ (cache_time-hour 3 600 args.acregmin (omega arith) (omega arith))
              (cache_time-hour 60 3600 args.acregmax (omega arith) (omega arith))))

abbrev Expires : (clock fetched : ℕ) → FuseNode → Type 0
Expires clock fetched np = (np.r_attrtime ≤ clock) ⊎ (np.r_attrtime ≤ fetched + hour)

entered-Expires :
    (iftovt : ℕ → ℕ) (args : FusefsArgs) (now : ℕ) (fap : FuseStat) (np : FuseNode)
    → Expires now now (fusefs_attrcache_fa iftovt (mount_options args) now fap np)
unfolding fusefs_attrcache_fa
entered-Expires iftovt args now fap np =
    let d =
      delta-hour args np.vnocache (iftovt fap.st_mode) now
        (if attr_changed np fap then now else np.r_mtime) in
    inr (added now _ d)
  where
    added : (now a : ℕ) → a ≤ hour → now + a ≤ now + hour
    added now a h = omega (arith, h)

History-Expires :
    {iftovt : ℕ → ℕ} (args : FusefsArgs) {clock fetched : ℕ} {np : FuseNode}
    → History iftovt (mount_options args) clock fetched np
    → Expires clock fetched np
unfolding fusefs_attrcache_remove fusefs_attr_touchdir
History-Expires {iftovt} args (first now fap np) = entered-Expires iftovt args now fap np
History-Expires {iftovt} args (fetch {np = np} now fap h le) =
    entered-Expires iftovt args now fap np
History-Expires args (remove now h le) = inl (ground arith)
History-Expires args (touchdir modified now h le) = inl (ground arith)

-- Under the options of any mount, ordered or not, attributes that the cache gives after any history of fetches,
-- removals and touches of directories, at a time from the last event on, were fetched from the daemon less
-- than an hour before.
pub served-within_hour :
    {iftovt : ℕ → ℕ} (args : FusefsArgs) {clock fetched : ℕ} {np : FuseNode} (t : ℕ)
    (fap : FuseStat)
    → History iftovt (mount_options args) clock fetched np
    → clock ≤ t
    → fusefs_getattr_cache t np ≡ ok fap
    → t < fetched + sec2hr 3600
unfolding fusefs_getattr_cache
served-within_hour args t fap h le hit = let expires = History-Expires args h in ground arith
