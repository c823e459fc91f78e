-- ===== src/Vnode/Safety/Others.antt =====
-- The operations on one vnode keep the locks.
use illumos_fuse.Calls.{CallResult}
use illumos_fuse.File.Attr.{Vattr}
use illumos_fuse.File.Setattr.{SetVattr}
use illumos_fuse.Vnode.{Held, Env}
use illumos_fuse.Vnode.Create.{truncation, setattr}
use illumos_fuse.Vnode.Other.{
  PathconfCmd, fusefs_getattr, fusefs_setattr, flush_open, fusefs_fsync, fusefs_seek, fusefs_frlock,
  truncate_to, fusefs_space, fusefs_pathconf,
}
use illumos_fuse.Vnode.Keeps.{Keeps}
use illumos_fuse.Vnode.Keeps.Steps.{step_rules}
use illumos_fuse.Vnode.Safety.Changes.{TimesTogether, Keeps-setattr}
use illumos_fuse.Prelude.{ℕ, refl, Bool, some, ℤ}

module _ {D : Type 0} (env : Env D) {held : Held} where
  pub Keeps-vop_getattr :
      (attr_hint : Bool) (va_mask np : ℕ) → Keeps held (fusefs_getattr env attr_hint va_mask np)
  unfolding fusefs_getattr
  Keeps-vop_getattr attr_hint va_mask np = search step_rules depth 12

  pub Keeps-vop_setattr :
      (noset : Bool) (policy : SetVattr → Vattr → (ℕ → ℕ) → ℕ) (a : SetVattr) (np : ℕ)
      → TimesTogether a
      → Keeps held (fusefs_setattr env noset policy a np)
  unfolding fusefs_setattr
  Keeps-vop_setattr noset policy a np together = search (step_rules, Keeps-setattr) depth 16

  Keeps-flush_open : (np : ℕ) → Keeps held (flush_open env np)
  unfolding flush_open
  Keeps-flush_open np = search step_rules depth 12

  Keeps-shrink :
      (size np : ℕ) → Keeps held (setattr env (record truncation { va_size = some size }) np)
  Keeps-shrink size np = Keeps-setattr env (record truncation { va_size = some size }) np refl

  Keeps-truncate_to : (l_start np : ℕ) → Keeps held (truncate_to env l_start np)
  unfolding truncate_to
  Keeps-truncate_to l_start np = search (step_rules, Keeps-shrink) depth 12

  pub Keeps-space :
      (f_freesp : Bool) (convoff l_start l_len np : ℕ)
      → Keeps held (fusefs_space env f_freesp convoff l_start l_len np)
  unfolding fusefs_space
  Keeps-space f_freesp convoff l_start l_len np = search (step_rules, Keeps-truncate_to) depth 12

  pub Keeps-seek : (noff : ℤ) (np : ℕ) → Keeps held (fusefs_seek env noff np)
  unfolding fusefs_seek
  Keeps-seek noff np = search step_rules depth 12

  pub Keeps-frlock :
      {A : Type 0} (fs_frlock : CallResult A) → Keeps held (fusefs_frlock env fs_frlock)
  unfolding fusefs_frlock
  Keeps-frlock fs_frlock = search step_rules depth 12

  pub Keeps-pathconf :
      (fs_pathconf : CallResult ℕ) (cmd : PathconfCmd)
      → Keeps held (fusefs_pathconf env fs_pathconf cmd)
  unfolding fusefs_pathconf
  Keeps-pathconf fs_pathconf cmd = search step_rules depth 12

module _ {D : Type 0} (env : Env D) (held : Held) where
  pub Keeps-fsync : (nodsync sync : Bool) (np : ℕ) → Keeps held (fusefs_fsync env nodsync sync np)
  unfolding fusefs_fsync
  Keeps-fsync nodsync sync np = search (step_rules, Keeps-flush_open) depth 12
