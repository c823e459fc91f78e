-- ===== src/Vfs/Statvfs/Safety.antt =====
-- What fusefs_statvfs promises to the threads that call it together.
use illumos_fuse.Calls.{ok}
use illumos_fuse.Vfs.Statvfs.{Statvfs64, statvfs_end}
use illumos_fuse.Vfs.Statvfs.Threads.{
  Place, asleep, woken, stored, System, ends, wake, step, returned, Reach,
}
use illumos_fuse.Vfs.Statvfs.Invariant.{in_call, is_asleep, CalledBy, Kept, Reach-Inv}
use illumos_fuse.Prelude.{
  ℕ, ◌<◌, ◌≡◌, refl, ap, Bool, true, Option, none, some, arith, ◌==◌, if_branches,
}

CalledBy-one :
    (n : ℕ) (busy : Bool) (f : ℕ → Place) (o : Option ℕ)
    → CalledBy n busy f o
    → (i : ℕ) → i < n
    → in_call (f i) ≡ true
    → o ≡ some i
CalledBy-one n busy f none h i li e = absurd (ground (arith, h.1 i li))
CalledBy-one n busy f (some t) h i li e = ground (arith, h.3 i li)

-- In every reachable state at most one thread is between its up-call and the end of fusefs_statvfs.
pub one_call :
    {n : ℕ} {s : System}
    → Reach n s
    → (i j : ℕ) → i < n
    → j < n
    → in_call (s.threads i) ≡ true
    → in_call (s.threads j) ≡ true
    → i ≡ j
one_call {n} {s} r i j li lj ci cj =
    let v = Reach-Inv r in
    let one = CalledBy-one n s.mnt.busy s.threads v.caller v.called_by in
    ground (arith, one i li ci, one j lj cj)

CalledBy-busy :
    (n : ℕ) (busy : Bool) (f : ℕ → Place) (o : Option ℕ)
    → busy ≡ true
    → CalledBy n busy f o
    → (i : ℕ) × (i < n) × (in_call (f i) ≡ true)
CalledBy-busy n busy f none b h = absurd (ground arith)
CalledBy-busy n busy f (some t) b h = (t, h.0, h.2)

-- The end of a call wakes a thread that sleeps.
ends-wakes :
    (s : System) (i j : ℕ)
    → s.mnt.want ≡ true
    → s.threads j ≡ asleep
    → in_call (s.threads i) ≡ true
    → (step s i ends).threads j ≡ woken
unfolding step statvfs_end
ends-wakes s i j w e c =
    if_branches (λ p. p ≡ woken) (j == i) _ _ (λ same. absurd (ground (arith, same, ap in_call e)))
      (λ _. rw w (ap wake e))

-- In every reachable state, if thread `j` sleeps in the wait of fusefs_statvfs, some thread is between
-- its up-call and its end, and the step in which that thread ends wakes `j`.
pub asleep-caller :
    {n : ℕ} {s : System}
    → Reach n s
    → (j : ℕ) → j < n
    → s.threads j ≡ asleep
    → (i : ℕ) × (i < n) × (in_call (s.threads i) ≡ true) × ((step s i ends).threads j ≡ woken)
asleep-caller {n} {s} r j lj e =
    let v = Reach-Inv r in
    let w = v.waits j lj (ap is_asleep e) in
    let c = CalledBy-busy n s.mnt.busy s.threads v.caller w.0 v.called_by in
    (c.0, c.1, c.2, ends-wakes s c.0 j w.1 e c.2)

-- In every reachable state, a thread that has stored the answer of its own up-call returns that answer.
pub own_answer :
    {n : ℕ} {s : System}
    → Reach n s
    → (i : ℕ) (b : Statvfs64) → i < n
    → s.threads i ≡ stored 0 b
    → returned s i ends ≡ some (ok b)
unfolding returned statvfs_end
own_answer {n} {s} r i b li e =
    let k : Kept s.mnt.fmi_statvfsbuf (stored 0 b) = rw e at ((Reach-Inv r).kept i li) in
    rw e (rw k refl)
