-- ===== src/Vfs/Unmount/Outcome.antt =====
-- When fusefs_unmount refuses, and that it ends otherwise.
use mathlib.Core.Option
use illumos_fuse.Calls.{CallResult, ok, err, fusefs_ssn_kill}
use illumos_fuse.Node.Cache.{Cache}
use illumos_fuse.Node.Cache.Table.Check.{AllIdle, check_table-AllIdle}
use illumos_fuse.Vnode.{World, Env, Op, Held, attempt, ◌>>=◌, gets, modify, fail_if, ret, raise}
use illumos_fuse.Vnode.Keeps.{Moved, Keeps}
use illumos_fuse.Vnode.Keeps.Steps.{Keeps-vn_rele}
use illumos_fuse.Vnode.Remove.{ebusy}
use illumos_fuse.Vnode.Steps.{vn_rele}
use illumos_fuse.Vfs.Unmount.{fusefs_unmount, tear_down, in_use, set_unmounted, table_destroyed}
use illumos_fuse.Prelude.{
  ℕ, ◌≤◌, ◌≡◌, refl, ◌⊎◌, inl, inr, Bool, true, false, Option, none, some, List, arith, Bool-cases,
}

abbrev Answers : {D A : Type 0} → Held → Option (CallResult A × World D) → Type 0
Answers {D} {A} held o = (r : A) × (w : World D) × (o ≡ some (ok r, w)) × (w.held ≡ held)

attempted :
    {D A : Type 0} {held : Held} (o : Option (CallResult A × World D))
    → Moved held held o
    → Answers held (Option.map (λ r. (ok r.0, r.1)) o)
attempted none h = absurd h
attempted (some (ok a, w)) h = (ok a, w, refl, h)
attempted (some (err e, w)) h = (err e, w, refl, h)

attempt-Answers :
    {D A : Type 0} {held : Held} (m : Op D A)
    → Keeps held m
    → (w : World D) → w.held ≡ held
    → Answers held (attempt m w)
unfolding attempt
attempt-Answers m k w h = attempted (m w) (k.at w h)

module _ {D : Type 0} (env : Env D) (walk : Cache → List ℕ) where
  abbrev pub IsFree : World D → Type 0
  IsFree w =
      AllIdle env.fmi_root (walk w.cache) w.cache × ((w.cache.node_at env.fmi_root).v_count ≤ 1)

  in_use-IsFree : (debug : Bool) (w : World D) → in_use env walk debug w ≡ false → IsFree w
  unfolding in_use
  in_use-IsFree debug w e = (
    (check_table-AllIdle debug env.fmi_root (walk w.cache) w.cache).0 (ground arith),
    ground arith,
  )

  in_use-not_free : (debug : Bool) (w : World D) → in_use env walk debug w ≡ true → IsFree w → ⊥
  unfolding in_use
  in_use-not_free debug w e f =
      let c = (check_table-AllIdle debug env.fmi_root (walk w.cache) w.cache).1 f.0 in
      ground (arith, c)

  tear_down-Answers : (w : World D) → Answers w.held (tear_down env walk w)
  unfolding tear_down modify ◌>>=◌
  tear_down-Answers w =
      let a =
        attempt-Answers (vn_rele env env.fmi_root) (Keeps-vn_rele env env.fmi_root)
          (record (set_unmounted env walk w) { daemon = fusefs_ssn_kill env.door w.daemon }) refl in
      (tt, table_destroyed env walk a.1, rw (a.2) refl, a.3)

  -- When the policy allows it, fusefs_unmount refuses with EBUSY and changes nothing if it is not forced and some node
  -- that it walks over other than the root is busy or the root has a hold beside the mount's own; else it
  -- ends, and leaves the locks of the thread as they were.
  pub unmount-outcome :
      (force debug : Bool) (w : World D)
      → ((force ≡ false)
          × (IsFree w → ⊥)
          × (fusefs_unmount env walk 0 force debug w ≡ some (err ebusy, w)))
        ⊎ (((force ≡ true) ⊎ IsFree w)
            × (w' : World D) × (fusefs_unmount env walk 0 force debug w ≡ some (ok tt, w'))
            × (w'.held ≡ w.held))
  unfolding fusefs_unmount ◌>>=◌ gets fail_if ret raise
  unmount-outcome true debug w = let t = tear_down-Answers w in inr (inl refl, t.1, t.2, t.3)
  unmount-outcome false debug w =
      let t = tear_down-Answers w in
      elim (Bool-cases (in_use env walk debug w)) [
        | inl b ↦ inl (refl, in_use-not_free debug w b, rw b refl)
        | inr b ↦ inr (inr (in_use-IsFree debug w b), t.1, (rw b (t.2)), t.3)
      ]
