-- ===== src/Vnode/Runs.antt =====
-- What an operation does at one state, from what its first step does there.
use illumos_fuse.Calls.{CallResult, ok, err}
use illumos_fuse.Vnode.{
  World, Env, Op, file, ret, raise, gets, attempt, fail_if, fail_code, check_mount, and_then, ◌>>=◌,
}
use illumos_fuse.Vnode.Access.{fusefs_access_rwx, fusefs_access}
use mathlib.Core.Option
use illumos_fuse.Prelude.{ℕ, suc, ◌≡◌, refl, ap, ◌∙◌, false, ◌||◌, some, arith, ◌∙◌}

module _ {D A B : Type 0} (m : Op D A) (f : A → Op D B) {w w' : World D} where
  pub bind-ok : (a : A) → m w ≡ some (ok a, w') → (m >>= f) w ≡ f a w'
  unfolding ◌>>=◌
  bind-ok a h = ap (and_then f) h

  pub bind-err : (e : ℕ) → m w ≡ some (err e, w') → (m >>= f) w ≡ some (err e, w')
  unfolding ◌>>=◌
  bind-err e h = ap (and_then f) h

pub attempt-some :
    {D A : Type 0} (m : Op D A) {w w' : World D} (r : CallResult A)
    → m w ≡ some (r, w')
    → attempt m w ≡ some (ok r, w')
unfolding attempt
attempt-some m r h = ap (Option.map (λ p. (ok p.0, p.1))) h

pub gets-run : {D A : Type 0} (f : World D → A) (w : World D) → gets f w ≡ some (ok (f w), w)
unfolding gets
gets-run f w = refl

-- A caller of the mount's zone, on a mount that is there.
pub record Alive {D : Type 0} (env : Env D) (w : World D) : Type 0 where
  pub zone : env.wrong_zone ≡ false
  pub mounted : (env.fmi_dead || w.cache.vfs_unmounted) ≡ false

module _ {D : Type 0} (env : Env D) (w : World D) (alive : Alive env w) (np : ℕ) (mode : ℕ) where
  access-code :
      fusefs_access env np mode w ≡ fail_code (fusefs_access_rwx env (file w np).v_type mode) w
  unfolding fusefs_access check_mount ◌>>=◌ fail_if gets ret
  access-code = rw (alive.zone, alive.mounted, fail_if) refl

  pub access-granted :
      fusefs_access_rwx env (file w np).v_type mode ≡ 0
      → fusefs_access env np mode w ≡ some (ok tt, w)
  unfolding fail_code ret
  access-granted h = access-code ∙ rw (h) refl

  pub access-denied :
      (e : ℕ)
      → fusefs_access_rwx env (file w np).v_type mode ≡ suc e
      → fusefs_access env np mode w ≡ some (err (suc e), w)
  unfolding fail_code ret raise
  access-denied e h = access-code ∙ rw (h) (ground arith)
