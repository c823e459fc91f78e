-- ===== src/RwLock/Wakeup.antt =====
-- No wakeup is lost: what a waiting thread waits for does not come about without a broadcast.
use illumos_fuse.RwLock.{Krw, reader, writer, blocked}
use illumos_fuse.RwLock.System.{
  System, Call, enters, wakes, tries, interrupted, exits, Ready, step, broadcasts, Reach,
}
use illumos_fuse.RwLock.Holds.{write_waits, HeldBy}
use illumos_fuse.RwLock.Safety.{Reach-Inv}
use illumos_fuse.Prelude.{
  ℕ, ◌<◌, ◌≡◌, refl, ◌≢◌, true, false, Option, none, some, arith, ◌+ℤ◌, ◌-ℤ◌, total, total-mem,
}

step-broadcasts :
    (n : ℕ) (s : System) (o : Option ℕ) (i j : ℕ) (c : Call) (k : Krw)
    → s.lock.owner ≡ o
    → HeldBy n s.threads s.lock.count o
    → s.lock.waiters ≡ total write_waits n s.threads
    → j < n
    → i ≢ j
    → Ready (s.threads i) c
    → (s.threads j).waits ≡ some k
    → blocked s.lock k ≡ true
    → blocked (step s i c).lock k ≡ false
    → broadcasts s c ≡ true
unfolding step broadcasts ◌+ℤ◌ ◌-ℤ◌
step-broadcasts n s none i j (enters reader) k eo h w lj ne r wj b u = absurd (ground arith)
step-broadcasts n s none i j (enters writer) k eo h w lj ne r wj b u = absurd (ground arith)
step-broadcasts n s (some t) i j (enters reader) k eo h w lj ne r wj b u = absurd (ground arith)
step-broadcasts n s (some t) i j (enters writer) k eo h w lj ne r wj b u = absurd (ground arith)
step-broadcasts n s none i j (wakes reader) k eo h w lj ne r wj b u = absurd (ground arith)
step-broadcasts n s none i j (wakes writer) k eo h w lj ne r wj b u = absurd (ground arith)
step-broadcasts n s (some t) i j (wakes reader) k eo h w lj ne r wj b u = absurd (ground arith)
step-broadcasts n s (some t) i j (wakes writer) k eo h w lj ne r wj b u = absurd (ground arith)
step-broadcasts n s none i j (tries reader) k eo h w lj ne r wj b u = absurd (ground arith)
step-broadcasts n s none i j (tries writer) k eo h w lj ne r wj b u = absurd (ground arith)
step-broadcasts n s (some t) i j (tries reader) k eo h w lj ne r wj b u = absurd (ground arith)
step-broadcasts n s (some t) i j (tries writer) k eo h w lj ne r wj b u = absurd (ground arith)
step-broadcasts n s o i j (interrupted reader) k eo h w lj ne r wj b u = ground arith
step-broadcasts n s o i j (interrupted writer) k eo h w lj ne r wj b u = refl
step-broadcasts n s none i j exits reader eo h w lj ne r wj b u =
    ground (arith, total-mem write_waits n s.threads j lj)
step-broadcasts n s none i j exits writer eo h w lj ne r wj b u =
    ground (arith, total-mem write_waits n s.threads j lj)
step-broadcasts n s (some t) i j exits k eo h w lj ne r wj b u = ground (arith)

-- In every reachable state, if thread `j` waits, is blocked, and a call of another thread leaves it
-- no longer blocked, then that call wakes the threads that wait.
pub no_lost_wakeup :
    {n : ℕ} {s : System}
    → Reach n s
    → (i j : ℕ) (c : Call) (k : Krw) → j < n
    → i ≢ j
    → Ready (s.threads i) c
    → (s.threads j).waits ≡ some k
    → blocked s.lock k ≡ true
    → blocked (step s i c).lock k ≡ false
    → broadcasts s c ≡ true
no_lost_wakeup {n} {s} r i j c k =
    let v = Reach-Inv r in step-broadcasts n s s.lock.owner i j c k refl v.held v.waiters
