-- ===== src/Vfs/Statvfs/Examples.antt =====
-- Two threads that call fusefs_statvfs, and the theorems at them.
use illumos_fuse.Calls.{ok}
use illumos_fuse.Vfs.Statvfs.{Vfs, statvfs_start, recheck, store_time, store_answer, with_rest}
use illumos_fuse.Vfs.Statvfs.Threads.{
  woken, System, starts, answered_by, stores, ends, init, step, returned, Reach, start, next,
  no_answer,
}
use illumos_fuse.Vfs.Statvfs.Invariant.{in_call}
use illumos_fuse.Vfs.Statvfs.Safety.{one_call, asleep-caller, own_answer}
use illumos_fuse.Vfs.Statvfs.Stale.{at_once, starts-old_answer}
use illumos_fuse.Prelude.{ℕ, ◌<◌, ◌≡◌, refl, true, false, some, arith}

abbrev sample_vfs : Vfs
sample_vfs = record { same_zone = true; dead = false; unmounted = false; vfs_fsid = 7; vfs_stf = 0 }

-- Thread 0 asks the daemon.
asking : System
unfolding step statvfs_start recheck
asking = step init 0 (starts sample_vfs 100)

asking-Reach : Reach 2 asking
unfolding asking
asking-Reach = next 0 (starts sample_vfs 100) start (omega arith) refl

-- Thread 1 waits for it.
waiting : System
unfolding asking
waiting = step asking 1 (starts sample_vfs 200)

waiting-Reach : Reach 2 waiting
unfolding waiting
waiting-Reach = next 1 (starts sample_vfs 200) asking-Reach (omega arith) refl

one_call_example : ◌≡◌ {A = ℕ} 0 0
unfolding waiting
one_call_example = one_call waiting-Reach 0 0 (omega arith) (omega arith) refl refl

asleep-caller_example :
    (i : ℕ) × (i < 2)
    × (in_call (waiting.threads i) ≡ true)
    × ((step waiting i ends).threads 1 ≡ woken)
unfolding waiting
asleep-caller_example = asleep-caller waiting-Reach 1 (omega arith) refl

starts-old_answer_example :
    returned
      (step asking 0 (answered_by (ok no_answer.answered) sample_vfs 300))
      1
      (starts sample_vfs 400)
    ≡ some (ok no_answer)
unfolding asking
starts-old_answer_example =
    starts-old_answer 0 no_answer.answered sample_vfs 300 asking-Reach (omega arith) refl at_once 1
      sample_vfs 400 refl refl refl (omega arith)

-- Thread 0 has the answer of the daemon, and has stored it.
answered : System
unfolding asking step store_time
answered = step asking 0 (answered_by (ok no_answer.answered) sample_vfs 300)

kept : System
unfolding answered step store_answer
kept = step answered 0 stores

kept-Reach : Reach 2 kept
unfolding kept answered
kept-Reach =
    next 0 stores
      (next 0 (answered_by (ok no_answer.answered) sample_vfs 300) asking-Reach (omega arith) refl)
      (omega arith) (with_rest sample_vfs no_answer.answered, refl)

own_answer_example : returned kept 0 ends ≡ some (ok (with_rest sample_vfs no_answer.answered))
unfolding kept
own_answer_example =
    own_answer kept-Reach 0 (with_rest sample_vfs no_answer.answered) (omega arith) refl
