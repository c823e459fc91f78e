-- ===== src/Vfs/Mount/Minor.antt =====
-- The search of fusefs_mount for a minor number ends.
use illumos_fuse.Vfs.Mount.{minors, next_minor}
use illumos_fuse.Prelude.{
  ℕ, zero, suc, ◌+◌, ◌-◌, ◌%◌, ◌<◌, ◌≡◌, refl, ap, ◌∙◌, inl, inr, Bool, false, some, arith,
  Bool-cases, ◌∙◌,
}

-- The number `k` places on is free.
next_minor-within :
    (devismounted : ℕ → Bool) (fuel k minor : ℕ)
    → k < fuel
    → devismounted ((minor + 1 + k) % minors) ≡ false
    → (m : ℕ) × (next_minor devismounted fuel minor ≡ some m)
      × (devismounted m ≡ false)
      × (m < minors)
unfolding next_minor
next_minor-within taken zero k minor lt free = absurd (omega arith)
next_minor-within taken (suc fuel) zero minor lt free =
    let here : (minor + 1 + 0) % minors ≡ (minor + 1) % minors = omega arith in
    let free' : taken ((minor + 1) % minors) ≡ false = rw here at free in
    ((minor + 1) % minors, rw free' refl, free', omega arith)
next_minor-within taken (suc fuel) (suc k) minor lt free =
    elim (Bool-cases (taken ((minor + 1) % minors))) [
      | inl t ↦
          let there : (minor + 1 + suc k) % minors ≡ ((minor + 1) % minors + 1 + k) % minors =
            omega arith in
          let rest =
            next_minor-within taken fuel k ((minor + 1) % minors) (omega arith)
              (rw there at free) in
          (rest.0, rw t (rest.1), rest.2, rest.3)
      | inr f ↦ ((minor + 1) % minors, rw f refl, f, omega arith)
    ]

-- When some minor number is not mounted, the search of fusefs_mount ends within 2^18 rounds, from any
-- number, with one that is not mounted.
pub next_minor-free :
    (devismounted : ℕ → Bool) (minor free : ℕ)
    → free < minors
    → devismounted free ≡ false
    → (m : ℕ) × (next_minor devismounted minors minor ≡ some m)
      × (devismounted m ≡ false)
      × (m < minors)
next_minor-free devismounted minor free lt e =
    let k = (free + minors - (minor + 1) % minors) % minors in
    let there : (minor + 1 + k) % minors ≡ free = omega arith in
    next_minor-within devismounted minors k minor (omega arith) (ap devismounted there ∙ e)
