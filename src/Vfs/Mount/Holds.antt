-- ===== src/Vfs/Mount/Holds.antt =====
-- What fusefs_mount takes it gives back: at once when it fails, and else in fusefs_freevfs.
use illumos_fuse.Vfs.Mount.{
  MountCall, Kernel, Fmi, FusefsArgs, minors, errout, rele_ssn, attach, attached, check_zone,
  new_fmi, fusefs_freevfs, fusefs_free_fmi, mount_zone, with_ssn, mount_args, fusefs_mount,
  hold_ssn, zone_hold, zone_rele,
}
use illumos_fuse.Vfs.Mount.Minor.{next_minor-free}
use illumos_fuse.File.{vdir}
use illumos_fuse.Vnode.Remove.{ebusy}
use illumos_fuse.Prelude.{
  ℕ, zero, suc, ◌+◌, ◌^◌, ◌<◌, ◌≡◌, refl, false, not, ◌&&◌, ◌||◌, Option, none, some, arith, ◌==◌,
  if◌then◌else◌, if_branches,
}

-- The two worlds have the same holds, memory and mounts.
abbrev pub Same : Kernel → Kernel → Type 0
Same v w =
    ((z : ℕ) → v.zone_holds z ≡ w.zone_holds z)
    × (v.ssns ≡ w.ssns)
    × (v.fmis ≡ w.fmis)
    × (v.mountcount ≡ w.mountcount)
    × (v.listed ≡ w.listed)

abbrev pub Accounted : Kernel → ℕ × Kernel → Type 0
Accounted w (zero, w') = (fmi : Fmi) × (w'.vfs_data ≡ some fmi) × Same (fusefs_freevfs fmi w') w
Accounted w (suc e, w') = Same w' w

abbrev Ends : Kernel → Option (ℕ × Kernel) → Type 0
Ends w o = (r : ℕ × Kernel) × (o ≡ some r) × Accounted w r

Ends-fail : (w w' : Kernel) (e : ℕ) → Same w' w → Ends w (some (suc e, w'))
Ends-fail w w' e s = ((suc e, w'), refl, s)

Same-refl : (w : Kernel) → Same w w
Same-refl w = (λ z. refl, refl, refl, refl, refl)

module _ (env : MountCall) (free : ℕ) (lt : free < minors) (e : env.devismounted free ≡ false)
    (args : FusefsArgs) (w : Kernel) (small : w.mountcount < 2 ^ 32) where
  -- A world in which the mount has its session and one hold on `mntzone`
  abbrev Took : (mntzone : ℕ) → Kernel → Type 0
  Took mntzone v =
      ((z : ℕ) → v.zone_holds z ≡ w.zone_holds z + (if z == mntzone then 1 else 0))
      × (v.ssns ≡ w.ssns + 1)
      × (v.fmis ≡ w.fmis)
      × (v.mountcount ≡ w.mountcount)
      × (v.listed ≡ w.listed)

  -- A world in which it has its session only
  abbrev Unheld : Kernel → Type 0
  Unheld v =
      ((z : ℕ) → v.zone_holds z ≡ w.zone_holds z)
      × (v.ssns ≡ w.ssns + 1)
      × (v.fmis ≡ w.fmis)
      × (v.mountcount ≡ w.mountcount)
      × (v.listed ≡ w.listed)

  errout-Same : (mntzone : ℕ) (v : Kernel) → Took mntzone v → Same (errout mntzone v) w
  unfolding errout rele_ssn
  errout-Same mntzone v t = (λ z. ground (arith, t.0 z), omega (arith, t.1), t.2, t.3, t.4)

  attached-Same :
      (mntzone m : ℕ) (v : Kernel)
      → Took mntzone v
      → Same (fusefs_freevfs (new_fmi env args mntzone) (attached env args mntzone m v)) w
  unfolding attached fusefs_freevfs fusefs_free_fmi rele_ssn new_fmi
  attached-Same mntzone m v t = (
    λ z. ground (arith, t.0 z),
    omega (arith, t.1),
    omega (arith, t.2),
    omega (arith, t.3),
    omega (arith, t.4),
  )

  attach-Ends :
      (mntzone m : ℕ) (v : Kernel) → Took mntzone v → Ends w (attach env args mntzone v (some m))
  unfolding attach attached
  attach-Ends mntzone m v t = (
    (0, attached env args mntzone m v),
    refl,
    (new_fmi env args mntzone, refl, attached-Same mntzone m v t),
  )

  check-Ends : (mntzone : ℕ) (v : Kernel) → Took mntzone v → Ends w (check_zone env args mntzone v)
  unfolding check_zone
  check-Ends mntzone v t =
      let m = next_minor-free env.devismounted v.minor free lt e in
      if_branches (Ends w) (env.shutting_down mntzone) _ _
        (λ _. Ends-fail w (errout mntzone v) _ (errout-Same mntzone v t))
        (λ _. rw (m.1) (attach-Ends mntzone m.0 v t))

  hold-Took : (mntzone : ℕ) (v : Kernel) → Unheld v → Took mntzone (zone_hold mntzone v)
  hold-Took mntzone v u = (λ z. ground (arith, u.0 z), u.1, u.2, u.3, u.4)

  again-Unheld : (z : ℕ) (v : Kernel) → Unheld v → Unheld (zone_rele z (zone_hold z v))
  again-Unheld z v u = (λ k. ground (arith, u.0 k), u.1, u.2, u.3, u.4)

  zone-Ends : (v : Kernel) → Unheld v → Ends w (mount_zone env args v)
  unfolding mount_zone
  zone-Ends v u =
      let held = zone_hold env.zone v in
      let found = zone_hold env.path_zone (zone_rele env.zone held) in
      let t = hold-Took env.path_zone (zone_rele env.zone held) (again-Unheld env.zone v u) in
      if_branches (Ends w) env.in_global_zone
        (if env.path_zone == env.zone
          then check_zone env args env.path_zone found
          else some (ebusy, errout env.path_zone found))
        (check_zone env args env.zone held)
        (λ _.
          if_branches (Ends w) (env.path_zone == env.zone) (check_zone env args env.path_zone found)
            (some (ebusy, errout env.path_zone found)) (λ _. check-Ends env.path_zone found t)
            (λ _. Ends-fail w (errout env.path_zone found) _ (errout-Same env.path_zone found t)))
        (λ _. check-Ends env.zone held (hold-Took env.zone v u))

  ssn-Ends : Ends w (with_ssn env args (hold_ssn env w))
  unfolding with_ssn hold_ssn rele_ssn
  ssn-Ends =
      if_branches (λ r. Ends w (with_ssn env args r)) (not env.is_door) _ _
        (λ _. Ends-fail w w _ (Same-refl w))
        (λ _.
          if_branches (λ r. Ends w (with_ssn env args r)) (env.init_error == 0) _ _
            (λ _. zone-Ends (record w { ssns = w.ssns + 1 }) (λ z. refl, refl, refl, refl, refl))
            (λ some_error. failed env.init_error (ground arith)))
    where
      failed :
          (k : ℕ)
          → 0 < k
          → Ends w (with_ssn env args (k, rele_ssn (record w { ssns = w.ssns + 1 })))
      failed zero p = absurd (omega arith)
      failed (suc k) p = Ends-fail w _ k (λ z. refl, omega arith, refl, refl, refl)

  args-Ends : Ends w (mount_args env w (some args))
  unfolding mount_args
  args-Ends =
      if_branches (Ends w) (not (args.version == 1)) _ _ (λ _. Ends-fail w w _ (Same-refl w))
        (λ _.
          if_branches (Ends w) env.remount _ _ (λ _. Ends-fail w w _ (Same-refl w))
            (λ _.
              if_branches (Ends w) (not env.overlay && (not (env.mvp_count == 1) || env.mvp_root)) _
                _ (λ _. Ends-fail w w _ (Same-refl w)) (λ _. ssn-Ends)))

Ends-fail_code : (w : Kernel) (e : ℕ) → (e == 0) ≡ false → Ends w (some (e, w))
Ends-fail_code w zero p = absurd (ground arith)
Ends-fail_code w (suc e) p = Ends-fail w w e (Same-refl w)

-- When some minor number is not mounted, fusefs_mount ends. If it fails, no hold on a zone, session, mount
-- record or entry of the list is left over and the number of mounts is as before; if it succeeds, the
-- vfs_t has a mount record, with which fusefs_freevfs leaves all of these as they were before the mount.
pub mount-Accounted :
    (env : MountCall) (free : ℕ) (w : Kernel)
    → free < minors
    → env.devismounted free ≡ false
    → w.mountcount < 2 ^ 32
    → (r : ℕ × Kernel) × (fusefs_mount env w ≡ some r) × Accounted w r
unfolding fusefs_mount mount_args
mount-Accounted env free w lt e small =
    if_branches (Ends w) (not (env.secpolicy == 0)) _ _
      (λ b. Ends-fail_code w env.secpolicy (ground (arith, b)))
      (λ _.
        if_branches (Ends w) (not (env.mvp_type == vdir)) _ _ (λ _. Ends-fail w w _ (Same-refl w))
          (λ _. on_copyin env.copyin))
  where
    on_copyin : (a : Option FusefsArgs) → Ends w (mount_args env w a)
    on_copyin none = Ends-fail w w _ (Same-refl w)
    on_copyin (some args) = args-Ends env free lt e args w small
