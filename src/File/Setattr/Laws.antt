-- ===== src/File/Setattr/Laws.antt =====
-- When fusefssetattr faults.
use illumos_fuse.Door.{Door}
use illumos_fuse.Calls.{Ssn}
use illumos_fuse.Calls.Files.{Timespec, fusefs_call_utimes}
use illumos_fuse.File.{FuseNode}
use mathlib.Core.Option
use illumos_fuse.File.Setattr.{
  SetVattr, SetState, set_size, set_times, set_rest, set_out, fusefssetattr, set_start,
}
use illumos_fuse.Prelude.{ℕ, ◌≡◌, refl, ◌≢◌, ◌↔◌, Bool, false, Option, none, some, arith, is_some}

module _ {D : Type 0} (door : Door D) (ssn : Ssn) where
  times-faults :
      (f : Bool × SetState D → SetState D) (atime mtime : Option Timespec) (st : SetState D)
      → (Option.map f (set_times door ssn atime mtime st) ≡ none) ↔ (is_some atime ≢ is_some mtime)
  unfolding set_times fusefs_call_utimes
  times-faults f none none st = ((λ e. absurd (ground arith)), λ h. absurd (h refl))
  times-faults f none (some t) st = ((λ _. ground arith), λ _. refl)
  times-faults f (some a) none st = ((λ _. ground arith), λ _. refl)
  times-faults f (some a) (some t) st = ((λ e. absurd (ground arith)), λ h. absurd (h refl))

  -- A request that sets the access time alone, or the modification time alone, reads through a NULL
  -- pointer, whatever else it sets and whatever the daemon answers; it does so only then.
  pub setattr-faults :
      (now : ℕ) (a : SetVattr) (np : FuseNode) (d : D)
      → (fusefssetattr door ssn false now a np d ≡ none) ↔ (is_some a.va_atime ≢ is_some a.va_mtime)
  unfolding fusefssetattr
  setattr-faults now a np d =
      times-faults (λ r. set_out door ssn now (set_rest door ssn a r)) a.va_atime a.va_mtime
        (set_size door ssn a.va_size (set_start door ssn np d))
