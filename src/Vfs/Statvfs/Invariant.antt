-- ===== src/Vfs/Statvfs/Invariant.antt =====
-- The states of the mount and of the threads agree: who asks the daemon, who waits, and what is kept.
use illumos_fuse.Door.{FuseStatvfs}
use illumos_fuse.Calls.{CallResult, ok, err}
use illumos_fuse.Vfs.Statvfs.{
  Statvfs64, Mnt, Vfs, statvfs_start, statvfs_woken, store_time, store_answer, statvfs_end,
  statfs_lifetime, with_rest, recheck, statfs_lifetime,
}
use illumos_fuse.Vfs.Statvfs.Threads.{
  Place, outside, asleep, woken, calling, timed, stored, System, Action, starts, wakes, answered_by,
  stores, ends, Ready, no_answer, wake, broadcast, turned, called, stored_by, error_of, ended, step,
  Reach, start, next,
}
use illumos_fuse.Prelude.{
  ℕ, zero, suc, ◌+◌, ◌<◌, ◌≡◌, refl, ◌≢◌, ◌⊎◌, inl, inr, Bool, true, false, not, ◌||◌, Option, none,
  some, arith, ltb, ◌==◌, Bool-cases, update, if_branches,
}

-- From the up-call to the end of the call
abbrev pub in_call : Place → Bool
in_call calling = true
in_call (timed b) = true
in_call (stored e b) = true
in_call outside = false
in_call asleep = false
in_call woken = false

abbrev pub is_asleep : Place → Bool
is_asleep asleep = true
is_asleep outside = false
is_asleep woken = false
is_asleep calling = false
is_asleep (timed b) = false
is_asleep (stored e b) = false

-- The mount has the answer of a thread that has stored one.
abbrev pub Kept : Statvfs64 → Place → Type 0
Kept buf (stored zero b) = buf ≡ b
Kept buf (stored (suc e) b) = Unit {0}
Kept buf outside = Unit {0}
Kept buf asleep = Unit {0}
Kept buf woken = Unit {0}
Kept buf calling = Unit {0}
Kept buf (timed b) = Unit {0}

abbrev pub CalledBy : ℕ → Bool → (ℕ → Place) → Option ℕ → Type 0
CalledBy n busy f none = (busy ≡ false) × ((j : ℕ) → j < n → in_call (f j) ≡ false)
CalledBy n busy f (some t) =
    (t < n)
    × (busy ≡ true)
    × (in_call (f t) ≡ true)
    × ((j : ℕ) → j < n → j ≢ t → in_call (f j) ≡ false)

pub record Inv (n : ℕ) (s : System) : Type 0 where
  pub caller : Option ℕ
  pub called_by : CalledBy n s.mnt.busy s.threads caller
  pub waits :
      (j : ℕ) → j < n → is_asleep (s.threads j) ≡ true → (s.mnt.busy ≡ true) × (s.mnt.want ≡ true)
  pub kept : (j : ℕ) → j < n → Kept s.mnt.fmi_statvfsbuf (s.threads j)

in_call-wake : (p : Place) → in_call (wake p) ≡ in_call p
in_call-wake outside = refl
in_call-wake asleep = refl
in_call-wake woken = refl
in_call-wake calling = refl
in_call-wake (timed b) = refl
in_call-wake (stored e b) = refl

in_call-broadcast : (b : Bool) (f : ℕ → Place) (j : ℕ) → in_call (broadcast b f j) ≡ in_call (f j)
in_call-broadcast true f j = in_call-wake (f j)
in_call-broadcast false f j = refl

pub is_asleep-wake : (p : Place) → is_asleep (wake p) ≡ false
is_asleep-wake outside = refl
is_asleep-wake asleep = refl
is_asleep-wake woken = refl
is_asleep-wake calling = refl
is_asleep-wake (timed b) = refl
is_asleep-wake (stored e b) = refl

module _ (n : ℕ) (f : ℕ → Place) (i : ℕ) (lt : i < n) where
  -- A thread that is in no call moves and stays so.
  aside-CalledBy :
      (p : Place) (busy : Bool) (o : Option ℕ)
      → CalledBy n busy f o
      → in_call (f i) ≡ false
      → in_call p ≡ false
      → CalledBy n busy (update f i p) o
  aside-CalledBy p busy none h e e' = (h.0, λ j lj. ground (arith, h.1 j lj))
  aside-CalledBy p busy (some t) h e e' =
      (h.0, h.1, ground (arith), λ j lj ne. ground (arith, h.3 j lj ne))

  -- The thread in the call moves on in it.
  on-CalledBy :
      (p : Place) (busy : Bool) (o : Option ℕ)
      → CalledBy n busy f o
      → in_call (f i) ≡ true
      → in_call p ≡ true
      → CalledBy n busy (update f i p) o
  on-CalledBy p busy none h e e' = absurd (ground (arith, h.1 i lt))
  on-CalledBy p busy (some t) h e e' =
      (h.0, h.1, ground (arith, h.3 i lt), λ j lj ne. ground (arith, h.3 j lj ne, h.3 i lt))

  enter-CalledBy :
      (o : Option ℕ) → CalledBy n false f o → CalledBy n true (update f i calling) (some i)
  enter-CalledBy none h = (lt, refl, ground arith, λ j lj ne. ground (arith, h.1 j lj))
  enter-CalledBy (some t) h = absurd (ground arith)

  -- The thread in the call leaves it.
  end-outside :
      (b busy : Bool) (o : Option ℕ)
      → CalledBy n busy f o
      → in_call (f i) ≡ true
      → (j : ℕ) → j < n
      → in_call (update (broadcast b f) i outside j) ≡ false
  end-outside b busy none h e j lj = absurd (ground (arith, h.1 i lt))
  end-outside b busy (some t) h e j lj = ground (arith, h.3 j lj, h.3 i lt, in_call-broadcast b f j)

  -- Only the thread in the call has stored an answer.
  aside-Kept : (p : Place) (buf : Statvfs64) → in_call p ≡ false → Kept buf p
  aside-Kept outside buf e = tt
  aside-Kept asleep buf e = tt
  aside-Kept woken buf e = tt
  aside-Kept calling buf e = tt
  aside-Kept (timed b) buf e = tt
  aside-Kept (stored k b) buf e = absurd (ground arith)

  place-Kept :
      (p : Place) (buf : Statvfs64)
      → ((j : ℕ) → j < n → Kept buf (f j))
      → Kept buf p
      → (j : ℕ) → j < n
      → Kept buf (update f i p j)
  place-Kept p buf h k j lj = if_branches (Kept buf) (j == i) _ _ (λ _. k) (λ _. h j lj)

  others-Kept :
      (p : Place) (busy : Bool) (o : Option ℕ) (buf : Statvfs64)
      → CalledBy n busy f o
      → in_call (f i) ≡ true
      → Kept buf p
      → (j : ℕ) → j < n
      → Kept buf (update f i p j)
  others-Kept p busy none buf h e k j lj = absurd (ground (arith, h.1 i lt))
  others-Kept p busy (some t) buf h e k j lj =
      if_branches (Kept buf) (j == i) _ _ (λ _. k)
        (λ ne. aside-Kept (f j) buf (ground (arith, h.3 j lj, h.3 i lt)))

  -- After the end nobody is asleep: a thread that was has been woken.
  ended-awake :
      (want : Bool)
      → ((j : ℕ) → j < n → is_asleep (f j) ≡ true → want ≡ true)
      → (j : ℕ) → j < n
      → is_asleep (update (broadcast want f) i outside j) ≢ true
  ended-awake true h j lj a = ground (arith, is_asleep-wake (f j))
  ended-awake false h j lj a = ground (arith, h j lj)

  leave-Inv :
      (m : Mnt)
      → in_call (f i) ≡ false
      → Inv n (record { mnt = m; threads = f })
      → Inv n (record { mnt = m; threads = update f i outside })
  leave-Inv m e v = record {
    caller = v.caller;
    called_by = aside-CalledBy outside m.busy v.caller v.called_by e refl;
    waits = λ j lj a. v.waits j lj (ground arith);
    kept = place-Kept outside m.fmi_statvfsbuf v.kept tt;
  }

  move-Inv :
      (p : Place) (m : Mnt) (time : ℕ) (buf : Statvfs64)
      → in_call (f i) ≡ true
      → in_call p ≡ true
      → is_asleep p ≡ false
      → Inv n (record { mnt = m; threads = f })
      → ((j : ℕ) → j < n → Kept buf (update f i p j))
      → Inv n (record {
        mnt = record m { fmi_statfstime = time; fmi_statvfsbuf = buf };
        threads = update f i p;
      })
  move-Inv p m time buf e e' awake v k = record {
    caller = v.caller;
    called_by = on-CalledBy p m.busy v.caller v.called_by e e';
    waits = λ j lj a. v.waits j lj (ground arith);
    kept = k;
  }

  failed-Kept : (e : ℕ) (buf : Statvfs64) → 0 < e → Kept buf (stored e no_answer)
  failed-Kept zero buf p = absurd (omega arith)
  failed-Kept (suc e) buf p = tt

  called-Inv :
      (r : CallResult FuseStatvfs) (vfs : Vfs) (now : ℕ) (m : Mnt)
      → Ready (f i) (answered_by r vfs now)
      → Inv n (record { mnt = m; threads = f })
      → Inv n (called (record { mnt = m; threads = f }) i r vfs now)
  unfolding store_time
  called-Inv (ok st) vfs now m r v =
      move-Inv (timed (with_rest vfs st)) m (now + statfs_lifetime) m.fmi_statvfsbuf (rw r refl)
        refl refl v (place-Kept (timed (with_rest vfs st)) m.fmi_statvfsbuf v.kept tt)
  called-Inv (err e) vfs now m r v =
      move-Inv (stored e no_answer) m m.fmi_statfstime m.fmi_statvfsbuf (rw (r.0) refl) refl refl v
        (place-Kept (stored e no_answer) m.fmi_statvfsbuf v.kept
          (failed-Kept e m.fmi_statvfsbuf r.1))

  stored-Inv :
      (b : Statvfs64) (m : Mnt)
      → f i ≡ timed b
      → Inv n (record { mnt = m; threads = f })
      → Inv n (stored_by (record { mnt = m; threads = f }) i (timed b))
  unfolding store_answer
  stored-Inv b m r v =
      move-Inv (stored 0 b) m m.fmi_statfstime b (rw r refl) refl refl v
        (others-Kept (stored 0 b) m.busy v.caller b v.called_by (rw r refl) refl)

  ended-Inv :
      (e : ℕ) (m : Mnt)
      → in_call (f i) ≡ true
      → Inv n (record { mnt = m; threads = f })
      → Inv n (ended (record { mnt = m; threads = f }) i (statvfs_end e m))
  unfolding statvfs_end
  ended-Inv e m r v = record {
    caller = none;
    called_by = (refl, end-outside m.want m.busy v.caller v.called_by r);
    waits = λ j lj a. absurd (ended-awake m.want (λ j lj a. (v.waits j lj a).1) j lj a);
    kept = λ j lj.
        aside-Kept (update (broadcast m.want f) i outside j) m.fmi_statvfsbuf
          (end-outside m.want m.busy v.caller v.called_by r j lj);
  }

-- A call that is at recheck, from outside or from a wait.
recheck-Inv :
    (n : ℕ) (f : ℕ → Place) (i : ℕ) (now : ℕ) (m : Mnt)
    → i < n
    → in_call (f i) ≡ false
    → Inv n (record { mnt = m; threads = f })
    → Inv n (turned f i (recheck now m))
unfolding recheck
recheck-Inv n f i now m lt e v = elim (Bool-cases (ltb now m.fmi_statfstime)) [
  | inl hit ↦ rw hit (record {
    caller = v.caller;
    called_by = aside-CalledBy n f i lt outside m.busy v.caller v.called_by e refl;
    waits = λ j lj a. v.waits j lj (ground arith);
    kept = place-Kept n f i lt outside m.fmi_statvfsbuf v.kept tt;
  })
  | inr miss ↦ rw miss (elim (Bool-cases m.busy) [
    | inl busy ↦ rw busy (record {
      caller = v.caller;
      called_by = aside-CalledBy n f i lt asleep true v.caller (rw busy at v.called_by) e refl;
      waits = λ j lj a. (ground arith, refl);
      kept = place-Kept n f i lt asleep m.fmi_statvfsbuf v.kept tt;
    })
    | inr free ↦ rw free (record {
      caller = some i;
      called_by = enter-CalledBy n f i lt v.caller (rw free at v.called_by);
      waits = λ j lj a. (refl, absurd (ground (arith, v.waits j lj)));
      kept = place-Kept n f i lt calling m.fmi_statvfsbuf v.kept tt;
    })
  ])
]

aside : (p : Place) → (p ≡ asleep) ⊎ (p ≡ woken) → in_call p ≡ false
aside p (inl e) = rw e refl
aside p (inr e) = rw e refl

step-Inv :
    (n : ℕ) (f : ℕ → Place) (m : Mnt) (i : ℕ) (a : Action)
    → i < n
    → Ready (f i) a
    → Inv n (record { mnt = m; threads = f })
    → Inv n (step (record { mnt = m; threads = f }) i a)
unfolding step statvfs_start statvfs_woken
step-Inv n f m i (starts vfs now) lt r v =
    let e : in_call (f i) ≡ false = rw r refl in
    if_branches (λ t. Inv n (turned f i t)) (not vfs.same_zone) _ _ (λ _. leave-Inv n f i lt m e v)
      (λ _.
        if_branches (λ t. Inv n (turned f i t)) (vfs.dead || vfs.unmounted) _ _
          (λ _. leave-Inv n f i lt m e v) (λ _. recheck-Inv n f i now m lt e v))
step-Inv n f m i (wakes true now) lt r v = leave-Inv n f i lt m (aside (f i) r) v
step-Inv n f m i (wakes false now) lt r v = recheck-Inv n f i now m lt (aside (f i) r) v
step-Inv n f m i (answered_by a vfs now) lt r v = called-Inv n f i lt a vfs now m r v
step-Inv n f m i stores lt r v = rw (r.1) (stored-Inv n f i lt r.0 m r.1 v)
step-Inv n f m i ends lt r v = ended-Inv n f i lt (error_of (f i)) m (rw (r.2) refl) v

pub Reach-Inv : {n : ℕ} {s : System} → Reach n s → Inv n s
Reach-Inv {n} start = record {
  caller = none;
  called_by = (refl, λ j lj. refl);
  waits = λ j lj a. absurd (ground arith);
  kept = λ j lj. tt;
}
Reach-Inv {n} (next {s} i a r lt ready) = step-Inv n s.threads s.mnt i a lt ready (Reach-Inv r)
