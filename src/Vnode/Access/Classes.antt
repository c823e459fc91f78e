-- ===== src/Vnode/Access/Classes.antt =====
-- Access is checked against one class of the mount's mode.
use illumos_fuse.File.{vdir}
use illumos_fuse.Vnode.{Env}
use illumos_fuse.Vnode.Access.{
  mount_mode, read_only, mandatory_lock, class_shift, fusefs_access_rwx,
}
use illumos_fuse.Prelude.{
  ℕ, ◌*◌, ◌/◌, ◌%◌, ◌^◌, ◌≤◌, ◌≡◌, refl, ◌↔◌, inl, inr, Bool, false, arith, ◌==◌, if◌then◌else◌,
  Bool-cases,
}

-- What is wanted of the bits 0100 (search), 0200 (write) and 0400 (read) is among the bits `given` 01, 02 and 04.
abbrev pub Grants : (given want : ℕ) → Type 0
Grants given want =
    (want / 64 % 2 ≤ given % 2)
    × (want / 128 % 2 ≤ given / 2 % 2)
    × (want / 256 % 2 ≤ given / 4 % 2)

-- secpolicy_vnode_access2 for a caller without privileges: it grants what the owner's bits of `curmode` grant.
abbrev pub Unprivileged : (Bool → ℕ → ℕ → ℕ → ℕ) → Type 0
Unprivileged policy =
    (is_dir : Bool) (owner curmode want : ℕ)
    → (policy is_dir owner curmode want ≡ 0) ↔ Grants (curmode / 64 % 8) want

module _ {D : Type 0} (env : Env D) where
  -- The three bits of the class that the caller is in.
  abbrev pub class_bits : ℕ → ℕ
  class_bits vtype =
      let mode = mount_mode env vtype in
      if env.crgetuid == env.fmi_uid
      then mode / 64 % 8
      else if env.groupmember env.fmi_gid
      then mode / 8 % 8
      else mode % 8

  shift-class :
      (vtype : ℕ) → mount_mode env vtype * 2 ^ class_shift env % 2 ^ 32 / 64 % 8 ≡ class_bits vtype
  unfolding class_shift
  shift-class vtype = elim (Bool-cases (env.crgetuid == env.fmi_uid)) [
    | inl owner ↦ rw (owner) (omega arith)
    | inr stranger ↦ elim (Bool-cases (env.groupmember env.fmi_gid)) [
      | inl member ↦ rw (stranger, member) (omega arith)
      | inr public ↦ rw (stranger, public) (omega arith)
    ]
  ]

  -- A caller without privileges has access exactly when the file is not one that is to be written on a read-only
  -- file system, nor a mandatory lock file, and the bits of his class alone grant what he wants: of the owner's
  -- class when he is the owner of the mount, else of the group's when he is a member of its group, else of the
  -- others'.
  pub access_rwx-classes :
      Unprivileged env.secpolicy_vnode_access2
      → (vtype mode : ℕ)
      → (fusefs_access_rwx env vtype mode ≡ 0) ↔ (
          (read_only env vtype mode ≡ false)
          × (mandatory_lock env vtype mode ≡ false)
          × Grants (class_bits vtype) mode)
  unfolding fusefs_access_rwx
  access_rwx-classes plain vtype mode = elim (Bool-cases (read_only env vtype mode)) [
    | inl ro ↦ rw (ro) ((λ e. absurd (omega (arith, e))), λ h. absurd (ground (arith, h.0)))
    | inr rw₀ ↦ elim (Bool-cases (mandatory_lock env vtype mode)) [
      | inl mand ↦
          rw (rw₀, mand) ((λ e. absurd (omega (arith, e))), λ h. absurd (ground (arith, h.1)))
      | inr free ↦
          let cur = mount_mode env vtype * 2 ^ class_shift env % 2 ^ 32 in
          let asked = plain (vtype == vdir) env.fmi_uid cur mode in
          let same = shift-class vtype in
          rw (rw₀, free) ((λ e. (refl, refl, (rw same at (asked.0 e)))), λ h. asked.1 (rw same h.2))
    ]
  ]
