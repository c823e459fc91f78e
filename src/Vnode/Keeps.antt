-- ===== src/Vnode/Keeps.antt =====
-- Operations that return with the locks that they were called with: rules for each way to build one.
pub mod Steps
use illumos_fuse.Door.Errno.{eintr, eio}
use illumos_fuse.Calls.{CallResult, ok, err}
use illumos_fuse.Vnode.{
  Lock, same_lock, Held, release, World, Env, Op, ret, raise, from_result, gets, attempt, call,
  and_then, ◌>>=◌, modify, fail_if, fail_code, assert, enter_lock, exit_lock, enter_sig,
  check_mount, locked, in_lock, with_lock,
}
use illumos_fuse.RwLock.{Krw}
use mathlib.Core.Option
use illumos_fuse.Prelude.{
  ℕ, ◌≡◌, refl, ap, ◌∙◌, Bool, true, false, Option, none, some, ◌∷◌, map, arith, ◌==◌,
  if◌then◌else◌, ◌∙◌,
}

-- An operation has returned, and the thread holds `held`.
abbrev pub Ended : {D A : Type 0} → Held → Option (CallResult A × World D) → Type 0
Ended held none = ⊥
Ended held (some (r, w)) = w.held ≡ held

-- The operation returns: no assertion fails, and no fuel ends. A thread that holds `before` at its call holds
-- `before` when it fails and `after` when it succeeds.
abbrev pub Moved : {D A : Type 0} → (before after : Held) → Option (CallResult A × World D) → Type 0
Moved before after none = ⊥
Moved before after (some (ok a, w)) = w.held ≡ after
Moved before after (some (err e, w)) = w.held ≡ before

pub record Moves {D A : Type 0} (before after : Held) (m : Op D A) : Type 0 where
  pub at : (w : World D) → w.held ≡ before → Moved before after (m w)

abbrev pub Keeps : {D A : Type 0} → Held → Op D A → Type 0
Keeps held m = Moves held held m

module _ {D A : Type 0} {held : Held} where
  pub Keeps-ret : (a : A) → Keeps {D = D} held (ret a)
  unfolding ret
  Keeps-ret a = record { at = λ w h. h }

  pub Keeps-raise : (e : ℕ) → Keeps {D = D} {A = A} held (raise e)
  unfolding raise
  Keeps-raise e = record { at = λ w h. h }

  pub Keeps-result : (r : CallResult A) → Keeps {D = D} held (from_result r)
  unfolding from_result
  Keeps-result (ok a) = record { at = λ w h. h }
  Keeps-result (err e) = record { at = λ w h. h }

  pub Keeps-gets : (f : World D → A) → Keeps held (gets f)
  unfolding gets
  Keeps-gets f = record { at = λ w h. h }

  Moved_result : (r : CallResult A) (w : World D) → w.held ≡ held → Moved held held (some (r, w))
  Moved_result (ok a) w h = h
  Moved_result (err e) w h = h

  pub Keeps-call : (f : D → CallResult A × D) → Keeps held (call f)
  unfolding call
  Keeps-call f = record {
    at = λ w h. Moved_result (f w.daemon).0 (record w { daemon = (f w.daemon).1 }) h;
  }

  pub Keeps-some :
      (m : Op D A) (f : World D → CallResult A × World D)
      → ((w : World D) → (m w ≡ some (f w)) × ((f w).1.held ≡ w.held))
      → Keeps held m
  Keeps-some m f same = record {
    at = λ w h. rw ((same w).0) (Moved_result (f w).0 (f w).1 ((same w).1 ∙ h));
  }

  pub Keeps-if :
      (b : Bool) (m n : Op D A) → Keeps held m → Keeps held n → Keeps held (if b then m else n)
  Keeps-if true m n km kn = km
  Keeps-if false m n km kn = kn

  -- The same, where the branches may use the test.
  pub Keeps-test :
      (b : Bool) (m n : Op D A)
      → (b ≡ true → Keeps held m)
      → (b ≡ false → Keeps held n)
      → Keeps held (if b then m else n)
  Keeps-test true m n km kn = km refl
  Keeps-test false m n km kn = kn refl

module _ {D A : Type 0} where
  attempted :
      (before after : Held) (o : Option (CallResult A × World D))
      → before ≡ after
      → Moved before after o
      → Moved before after (Option.map (λ r. (ok r.0, r.1)) o)
  attempted before after none same h = h
  attempted before after (some (ok a, w)) same h = h
  attempted before after (some (err e, w)) same h = h ∙ same

  pub Keeps-attempt : (held : Held) (m : Op D A) → Keeps held m → Keeps held (attempt m)
  unfolding attempt
  Keeps-attempt held m k = record { at = λ w h. attempted held held (m w) refl (k.at w h) }

bound :
    {D A B : Type 0} (before middle after : Held) (o : Option (CallResult A × World D))
    (f : A → Op D B)
    → Moved before middle o
    → ((a : A) (w : World D) → w.held ≡ middle → Moved before after (f a w))
    → Moved before after (and_then f o)
bound before middle after none f h k = h
bound before middle after (some (ok a, w)) f h k = k a w h
bound before middle after (some (err e, w)) f h k = h

module _ {D A B : Type 0} {before middle : Held} where
  -- A step that may take a lock, and the rest that gives it back.
  pub Moves-bind :
      (after : Held) (m : Op D A) (f : A → Op D B)
      → Moves before middle m
      → ((a : A) (w : World D) → w.held ≡ middle → Moved before after (f a w))
      → Moves before after (m >>= f)
  unfolding ◌>>=◌
  Moves-bind after m f km kf = record {
    at = λ w h. bound before middle after (m w) f (km.at w h) kf;
  }

module _ {D A B : Type 0} {held : Held} where
  pub Keeps-bind :
      (m : Op D A) (f : A → Op D B)
      → Keeps held m
      → ((a : A) → Keeps held (f a))
      → Keeps held (m >>= f)
  Keeps-bind m f km kf = Moves-bind held m f km (λ a w h. (kf a).at w h)

pub same_lock_refl : (l : Lock) → same_lock l l ≡ true
unfolding same_lock
same_lock_refl (Lock.rwlock n) = ground arith
same_lock_refl (Lock.lkserlock n) = ground arith
same_lock_refl (Lock.vfslock n) = ground arith

pub release-enter : (l : Lock) (rw : Krw) (held : Held) → release l ((l, rw) ∷ held) ≡ held
unfolding release
release-enter l rw₀ held = rw (same_lock_refl l)

module _ {D : Type 0} {held : Held} where
  pub Keeps-modify :
      (f : World D → World D) → ((w : World D) → (f w).held ≡ w.held) → Keeps held (modify f)
  unfolding modify
  Keeps-modify f same = record { at = λ w h. same w ∙ h }

  pub Keeps-fail_if : (b : Bool) (e : ℕ) → Keeps {D = D} held (fail_if b e)
  unfolding fail_if
  Keeps-fail_if true e = Keeps-raise e
  Keeps-fail_if false e = Keeps-ret tt

  pub Keeps-fail_code : (e : ℕ) → Keeps {D = D} held (fail_code e)
  unfolding fail_code
  Keeps-fail_code e = Keeps-if (e == 0) (ret tt) (raise e) (Keeps-ret tt) (Keeps-raise e)

  asserted :
      (b : Bool) (w : World D)
      → b ≡ true
      → w.held ≡ held
      → Moved {A = Unit {0}} held held (if b then some (ok tt, w) else none)
  asserted true w h k = k
  asserted false w h k = absurd (ground (arith, h))

  pub Keeps-assert : (test : Held → Bool) → test held ≡ true → Keeps {D = D} held (assert test)
  unfolding assert
  Keeps-assert test true_here = record {
    at = λ w h. asserted (test w.held) w (ap test h ∙ true_here) h;
  }

  pub Moves-enter : (l : Lock) (rw : Krw) → Moves {D = D} held ((l, rw) ∷ held) (enter_lock l rw)
  unfolding enter_lock modify
  Moves-enter l rw₀ = record { at = λ w h. ap (λ k. (l, rw₀) ∷ k) h }

  pub Moves-enter_sig :
      (env : Env D) (l : Lock) (rw : Krw) → Moves held ((l, rw) ∷ held) (enter_sig env l rw)
  unfolding enter_sig
  Moves-enter_sig env l rw₀ =
      Moves-bind ((l, rw₀) ∷ held) _ _ (Keeps-gets (env.interrupted l)) (λ stop w h.
        (Moves-bind ((l, rw₀) ∷ held) (fail_if stop eintr) (λ _. enter_lock l rw₀)
            (Keeps-fail_if stop eintr) (λ _ w' h'. (Moves-enter l rw₀).at w' h')).at
          w h)

  pub Keeps-check_mount : (env : Env D) (e : ℕ) → Keeps held (check_mount env e)
  unfolding check_mount
  Keeps-check_mount env e =
      Keeps-bind _ _ (Keeps-fail_if env.wrong_zone e)
        (λ _. Keeps-bind _ _ (Keeps-gets _) (λ dead. Keeps-fail_if _ eio))

-- The release of the lock that was taken last, with the result of a body.
exit_result :
    {D A : Type 0} (l : Lock) (rw : Krw) (held : Held) (r : CallResult A) (w : World D)
    → w.held ≡ (l, rw) ∷ held
    → Moved held held ((exit_lock l >>= λ _. from_result r) w)
unfolding ◌>>=◌ exit_lock modify from_result
exit_result l rw₀ held (ok a) w h = ap (release l) h ∙ release-enter l rw₀ held
exit_result l rw₀ held (err e) w h = ap (release l) h ∙ release-enter l rw₀ held

module _ {D A : Type 0} {held : Held} where
  -- A body that keeps the locks, the new one included, is run with the lock and leaves without it.
  pub Moves-locked :
      (l : Lock) (rw : Krw) (body : Op D A)
      → Keeps ((l, rw) ∷ held) body
      → (w : World D) → w.held ≡ (l, rw) ∷ held
      → Moved held held (locked l body w)
  unfolding locked ◌>>=◌ attempt
  Moves-locked l rw₀ body k w h = released (body w) (k.at w h)
    where
      released :
          (o : Option (CallResult A × World D))
          → Moved ((l, rw₀) ∷ held) ((l, rw₀) ∷ held) o
          → Moved held held (
              and_then
                (λ r. exit_lock l >>= λ _. from_result r)
                (Option.map (λ r. (ok r.0, r.1)) o))
      released none g = g
      released (some (ok a, w')) g = exit_result l rw₀ held (ok a) w' g
      released (some (err e, w')) g = exit_result l rw₀ held (err e) w' g

  pub Keeps-with_lock :
      (env : Env D) (l : Lock) (rw : Krw) (body : Op D A)
      → Keeps ((l, rw) ∷ held) body
      → Keeps held (with_lock env l rw body)
  unfolding with_lock
  Keeps-with_lock env l rw₀ body k =
      Moves-bind held (enter_sig env l rw₀) (λ _. locked l body) (Moves-enter_sig env l rw₀)
        (λ _. Moves-locked l rw₀ body k)

  pub Keeps-in_lock :
      (l : Lock) (rw : Krw) (body : Op D A)
      → Keeps ((l, rw) ∷ held) body
      → Keeps held (in_lock l rw body)
  unfolding in_lock
  Keeps-in_lock l rw₀ body k =
      Moves-bind held (enter_lock l rw₀) (λ _. locked l body) (Moves-enter l rw₀)
        (λ _. Moves-locked l rw₀ body k)

pub ruleset keeps_rules = (
  Keeps-ret, Keeps-raise, Keeps-result, Keeps-gets, Keeps-call, Keeps-if, Keeps-attempt, Keeps-bind,
  Keeps-fail_if, Keeps-fail_code, Keeps-check_mount, Keeps-with_lock, Keeps-in_lock,
)
