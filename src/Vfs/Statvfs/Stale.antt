-- ===== src/Vfs/Statvfs/Stale.antt =====
-- What other threads see between the two stores of an answer.
use illumos_fuse.Door.{FuseStatvfs}
use illumos_fuse.Calls.{ok, err}
use illumos_fuse.Vfs.Statvfs.{
  Mnt, Vfs, Turn, statvfs_start, statvfs_woken, recheck, store_time, statfs_lifetime,
}
use illumos_fuse.Vfs.Statvfs.Threads.{
  calling, System, Action, starts, wakes, answered_by, stores, ends, Ready, step, returned, Reach,
  next,
}
use illumos_fuse.Vfs.Statvfs.Invariant.{in_call}
use illumos_fuse.Vfs.Statvfs.Safety.{one_call}
use illumos_fuse.Prelude.{
  ℕ, ◌+◌, ◌<◌, ◌≡◌, refl, ap, ◌∙◌, ◌≢◌, inl, inr, true, false, not, ◌||◌, some, arith, ltb, lt→ltb,
  Bool-cases, ◌∙◌, if_branches,
}

-- Steps of threads other than `i`
pub data Others (n i : ℕ) (s : System) : System → Type 0 where
  at_once : Others n i s s
  other :
      {t : System} (j : ℕ) (a : Action)
      → Others n i s t
      → j < n
      → j ≢ i
      → Ready (t.threads j) a
      → Others n i s (step t j a)

-- The mount as far as the two stores go
abbrev Stored : Mnt → Mnt → Type 0
Stored m m' = (m'.fmi_statfstime ≡ m.fmi_statfstime) × (m'.fmi_statvfsbuf ≡ m.fmi_statvfsbuf)

recheck-Stored : (now : ℕ) (m : Mnt) → Stored m (recheck now m).1
unfolding recheck
recheck-Stored now m =
    if_branches {X = Turn × Mnt} (λ r. Stored m r.1) (ltb now m.fmi_statfstime) _ _
      (λ _. (refl, refl))
      (λ _.
        if_branches {X = Turn × Mnt} (λ r. Stored m r.1) m.busy _ _ (λ _. (refl, refl))
          (λ _. (refl, refl)))

start-Stored : (vfs : Vfs) (now : ℕ) (m : Mnt) → Stored m (statvfs_start vfs now m).1
unfolding statvfs_start
start-Stored vfs now m =
    if_branches {X = Turn × Mnt} (λ r. Stored m r.1) (not vfs.same_zone) _ _ (λ _. (refl, refl))
      (λ _.
        if_branches {X = Turn × Mnt} (λ r. Stored m r.1) (vfs.dead || vfs.unmounted) _ _
          (λ _. (refl, refl)) (λ _. recheck-Stored now m))

-- The thread `i` stands where it stood.
abbrev Unmoved : ℕ → System → System → Type 0
Unmoved i t t' =
    (t'.threads i ≡ t.threads i)
    × (t'.mnt.fmi_statfstime ≡ t.mnt.fmi_statfstime)
    × (t'.mnt.fmi_statvfsbuf ≡ t.mnt.fmi_statvfsbuf)

-- A step of a thread that is in no call
aside-Unmoved :
    (i j : ℕ) (t : System) (a : Action)
    → j ≢ i
    → in_call (t.threads j) ≡ false
    → Ready (t.threads j) a
    → Unmoved i t (step t j a)
unfolding step statvfs_woken
aside-Unmoved i j t (starts vfs now) ne e r =
    let m = start-Stored vfs now t.mnt in (ground (arith, ne), m.0, m.1)
aside-Unmoved i j t (wakes true now) ne e r = (ground (arith, ne), refl, refl)
aside-Unmoved i j t (wakes false now) ne e r =
    let m = recheck-Stored now t.mnt in (ground (arith, ne), m.0, m.1)
aside-Unmoved i j t (answered_by (ok st) vfs now) ne e r = absurd (ground (arith, ap in_call r))
aside-Unmoved i j t (answered_by (err k) vfs now) ne e r = absurd (ground (arith, ap in_call r.0))
aside-Unmoved i j t stores ne e r = absurd (ground (arith, ap in_call r.1))
aside-Unmoved i j t ends ne e r = absurd (ground (arith, ap in_call r.2))

-- While the others run, the thread in the call stands still, and so does what it stores.
Others-Unmoved :
    {n i : ℕ} {s t : System}
    → Reach n s
    → i < n
    → in_call (s.threads i) ≡ true
    → Others n i s t
    → Reach n t × Unmoved i s t
Others-Unmoved {n} {i} {s} r lt c at_once = (r, (refl, refl, refl))
Others-Unmoved {n} {i} {s} r lt c (other {t} j a others lj ne ready) =
    let before = Others-Unmoved r lt c others in
    let asker : in_call (t.threads i) ≡ true = ap in_call (before.1.0) ∙ c in
    let aside : in_call (t.threads j) ≡ false = elim (Bool-cases (in_call (t.threads j))) [
      | inl both ↦ absurd (ne (one_call before.0 j i lj lt both asker))
      | inr away ↦ away
    ] in
    let step_of = aside-Unmoved i j t a ne aside ready in
    (
      next j a before.0 lj ready,
      (step_of.0 ∙ before.1.0, step_of.1 ∙ before.1.1, step_of.2 ∙ before.1.2),
    )

-- In a reachable state let a thread have the answer of its up-call, and store the answer's lifetime. Until it also
-- stores the answer, whatever the other threads do meanwhile, a call that starts within two seconds on a mount that is
-- there returns, as a success, what was kept before that answer.
pub starts-old_answer :
    {n : ℕ} {s t : System} (i : ℕ) (st : FuseStatvfs) (vfs : Vfs) (now : ℕ)
    → Reach n s
    → i < n
    → s.threads i ≡ calling
    → Others n i (step s i (answered_by (ok st) vfs now)) t
    → (j : ℕ) (vfs' : Vfs) (now' : ℕ) → vfs'.same_zone ≡ true
    → vfs'.dead ≡ false
    → vfs'.unmounted ≡ false
    → now' < now + statfs_lifetime
    → returned t j (starts vfs' now') ≡ some (ok s.mnt.fmi_statvfsbuf)
unfolding returned statvfs_start recheck step store_time
starts-old_answer {s = s} {t = t} i st vfs now r lt c others j vfs' now' z d u soon =
    let after = next i (answered_by (ok st) vfs now) r lt c in
    let kept = Others-Unmoved after lt (ground arith) others in
    let live : ltb now' t.mnt.fmi_statfstime ≡ true =
      lt→ltb now' t.mnt.fmi_statfstime (omega (arith, soon, kept.1.1)) in
    rw z (rw d (rw u (rw live (ap (λ b. some (ok b)) kept.1.2))))
