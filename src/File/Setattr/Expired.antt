-- ===== src/File/Setattr/Expired.antt =====
-- What fusefssetattr leaves of the file, by how many of its up-calls succeeded.
use illumos_fuse.Door.{DoorArg, DoorRet, Door}
use illumos_fuse.Calls.{CallResult, ok, err, Ssn, on_ok, door_call}
use illumos_fuse.Calls.Files.{
  Timespec, fusefs_call_ftruncate, fusefs_call_utimes, fusefs_call_chmod, fusefs_call_chown,
}
use illumos_fuse.Door.Errno.{ebadf}
use illumos_fuse.File.{FuseNode, fid_valid}
use illumos_fuse.File.Attr.{fusefs_attrcache_remove}
use mathlib.Core.Option
use illumos_fuse.File.Setattr.{
  SetVattr, SetState, set_size, set_times, set_rest, set_out, set_mode, set_owner, stepped, sized,
  fusefssetattr, set_start, truncate_again, truncate_calls,
}
use illumos_fuse.Prelude.{
  ℕ, ◌+◌, ◌<◌, ◌≡◌, refl, Bool, true, false, ◌&&◌, Option, none, some, arith, ◌==◌, if◌then◌else◌,
  if_branches,
}

-- The door, and how many upcalls through it have succeeded: no error of the door, and none in the reply.
abbrev pub counting : {D : Type 0} → Door D → Door (D × ℕ)
counting door arg (d, n) =
    let (rc, ret, d') = door arg d in
    (rc, ret, (d', if (rc == 0) && (ret.ret_err == 0) then n + 1 else n))

-- A call counts exactly when it succeeds.
abbrev Counts : {A D : Type 0} → ℕ → CallResult A × (D × ℕ) → Type 0
Counts n (ok a, s) = n < s.1
Counts n (err e, s) = s.1 ≡ n

module _ {D : Type 0} (door : Door D) (ssn : Ssn) where
  -- With the two tests of the reply.
  reply-Counts :
      {A : Type 0} (f : DoorRet → A) (sent good : Bool) (rc e : ℕ) (ret : DoorRet) (d : D) (n : ℕ)
      → Counts {D = D} n (
          on_ok f (
            if sent
            then if good
              then (ok ret, (d, if sent && good then n + 1 else n))
              else (err e, (d, if sent && good then n + 1 else n))
            else (err rc, (d, if sent && good then n + 1 else n))))
  reply-Counts f true true rc e ret d n = omega arith
  reply-Counts f true false rc e ret d n = refl
  reply-Counts f false good rc e ret d n = refl

  door_call-Counts :
      {A : Type 0} (f : DoorRet → A) (arg : DoorArg) (s : D × ℕ)
      → Counts (s.1) (on_ok f (door_call (counting door) arg s))
  unfolding door_call
  door_call-Counts f arg (d, n) =
      let (rc, ret, d') = door arg d in
      reply-Counts f (rc == 0) (ret.ret_err == 0) rc ret.ret_err ret d' n

  Counts-at : {A : Type 0} (m n : ℕ) (r : CallResult A × (D × ℕ)) → m ≡ n → Counts m r → Counts n r
  Counts-at m n (ok a, s) e c = omega (arith, e, c)
  Counts-at m n (err k, s) e c = omega (arith, e, c)

  -- The flag and the node agree with the count.
  abbrev Counted : FuseNode → SetState (D × ℕ) → Type 0
  Counted np st =
      (st.modified ≡ true → 0 < st.daemon.1)
      × (st.modified ≡ false → (st.daemon.1 ≡ 0) × (st.node ≡ np))

  stepped-Counted :
      (np : FuseNode) (st : SetState (D × ℕ)) (r : CallResult (Unit {0}) × (D × ℕ))
      → Counts (st.daemon.1) r
      → Counted np st
      → Counted np (stepped (counting door) ssn st r).1
  unfolding stepped
  stepped-Counted np st (err e, d) c h =
      (λ m. omega (arith, h.0 m, c), λ m. (omega (arith, (h.1 m).0, c), (h.1 m).1))
  stepped-Counted np st (ok _, d) c h = (λ m. omega (arith, c), λ m. absurd (ground (arith, m)))

  sized-Counted :
      (size : ℕ) (np : FuseNode) (st : SetState (D × ℕ)) (r : CallResult (Unit {0}) × (D × ℕ))
      → Counts (st.daemon.1) r
      → Counted np st
      → Counted np (sized (counting door) ssn size st r)
  unfolding sized
  sized-Counted size np st (err e, d) c h =
      (λ m. omega (arith, h.0 m, c), λ m. (omega (arith, (h.1 m).0, c), (h.1 m).1))
  sized-Counted size np st (ok _, d) c h = (λ m. omega (arith, c), λ m. absurd (ground (arith, m)))

  again-Counts :
      (size n : ℕ) (np : FuseNode) (r : CallResult (Unit {0}) × (D × ℕ))
      → Counts n r
      → Counts n (truncate_again (counting door) ssn size np r)
  unfolding truncate_again fusefs_call_ftruncate
  again-Counts size n np (ok _, s) c = c
  again-Counts size n np (err e, s) c =
      if_branches (Counts n) (e == ebadf) _ _
        (λ _. Counts-at s.1 n _ c (door_call-Counts (λ _. tt) _ s)) (λ _. c)

  truncate-Counts :
      (size : ℕ) (np : FuseNode) (s : D × ℕ)
      → Counts (s.1) (truncate_calls (counting door) ssn size np s)
  unfolding truncate_calls fusefs_call_ftruncate
  truncate-Counts size np s = again-Counts size s.1 np _ (
      if_branches (Counts s.1) (fid_valid np ssn && np.n_rights.fwrite) _ _
        (λ _. door_call-Counts (λ _. tt) _ s) (λ _. refl))

  size-Counted :
      (np : FuseNode) (size : Option ℕ) (st : SetState (D × ℕ))
      → Counted np st
      → Counted np (set_size (counting door) ssn size st)
  unfolding set_size
  size-Counted np none st h = h
  size-Counted np (some size) st h =
      sized-Counted size np st _ (truncate-Counts size st.node st.daemon) h

  mode-Counted :
      (np : FuseNode) (mode : Option ℕ) (st : SetState (D × ℕ))
      → Counted np st
      → Counted np (set_mode (counting door) ssn mode st).1
  unfolding set_mode fusefs_call_chmod
  mode-Counted np none st h = h
  mode-Counted np (some mode) st h =
      stepped-Counted np st _ (door_call-Counts (λ _. tt) _ st.daemon) h

  owner-Counted :
      (np : FuseNode) (uid gid : Option ℕ) (st : SetState (D × ℕ))
      → Counted np st
      → Counted np (set_owner (counting door) ssn uid gid st).1
  unfolding set_owner fusefs_call_chown
  owner-Counted np none none st h = h
  owner-Counted np none (some g) st h =
      stepped-Counted np st _ (door_call-Counts (λ _. tt) _ st.daemon) h
  owner-Counted np (some u) none st h =
      stepped-Counted np st _ (door_call-Counts (λ _. tt) _ st.daemon) h
  owner-Counted np (some u) (some g) st h =
      stepped-Counted np st _ (door_call-Counts (λ _. tt) _ st.daemon) h

  rest-Counted :
      (np : FuseNode) (a : SetVattr) (r : Bool × SetState (D × ℕ))
      → Counted np r.1
      → Counted np (set_rest (counting door) ssn a r)
  unfolding set_rest
  rest-Counted np a (out, st) h =
      if_branches (Counted np) out _ _ (λ _. h)
        (λ _.
          if_branches (Counted np) (set_mode (counting door) ssn a.va_mode st).0 _ _
            (λ _. mode-Counted np a.va_mode st h)
            (λ _. owner-Counted np a.va_uid a.va_gid _ (mode-Counted np a.va_mode st h)))

  -- What is left at the end: expired attributes when some call succeeded, and else the node as it was.
  abbrev pub Expired : ℕ → FuseNode → Option (SetState (D × ℕ)) → Type 0
  Expired now np none = Unit {0}
  Expired now np (some st) =
      (0 < st.daemon.1 → st.node.r_attrtime ≡ now) × (st.daemon.1 ≡ 0 → st.node ≡ np)

  out-Expired :
      (now : ℕ) (np : FuseNode) (st : SetState (D × ℕ))
      → Counted np st
      → Expired now np (some (set_out (counting door) ssn now st))
  unfolding set_out fusefs_attrcache_remove
  out-Expired now np st h =
      if_branches (λ r. Expired now np (some r)) st.modified _ _
        (λ m. ((λ _. refl), λ z. absurd (omega (arith, h.0 m, z))))
        (λ m. ((λ p. absurd (omega (arith, (h.1 m).0, p))), λ _. (h.1 m).1))

  times-Expired :
      (now : ℕ) (a : SetVattr) (np : FuseNode) (atime mtime : Option Timespec)
      (st : SetState (D × ℕ))
      → Counted np st
      → Expired now np (
          Option.map
            (λ r. set_out (counting door) ssn now (set_rest (counting door) ssn a r))
            (set_times (counting door) ssn atime mtime st))
  unfolding set_times fusefs_call_utimes
  times-Expired now a np none none st h = out-Expired now np _ (rest-Counted np a (false, st) h)
  times-Expired now a np none (some t) st h = tt
  times-Expired now a np (some t) none st h = tt
  times-Expired now a np (some t) (some m) st h =
      out-Expired now np _
        (rest-Counted np a _ (stepped-Counted np st _ (door_call-Counts (λ _. tt) _ st.daemon) h))

  -- Let a request to set attributes, interrupted or not, end, and count the up-calls of it that succeed, at the door
  -- itself. When one or more of them did, the cached attributes are expired at its end, whether or not a
  -- later call failed; when none did, the node is as it was.
  pub setattr-Expired :
      (interrupted : Bool) (now : ℕ) (a : SetVattr) (np : FuseNode) (d : D)
      → Expired now np (fusefssetattr (counting door) ssn interrupted now a np (d, 0))
  unfolding fusefssetattr
  setattr-Expired true now a np d = ((λ p. absurd (omega (arith, p))), λ _. refl)
  setattr-Expired false now a np d =
      times-Expired now a np a.va_atime a.va_mtime
        (set_size (counting door) ssn a.va_size (set_start (counting door) ssn np (d, 0)))
        (size-Counted np a.va_size (set_start (counting door) ssn np (d, 0))
          ((λ m. absurd (ground (arith, m))), λ _. (refl, refl)))
