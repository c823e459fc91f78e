-- ===== src/RwLock/Examples.antt =====
-- Runs of two threads, and the theorems at them.
use illumos_fuse.RwLock.{reader, writer}
use illumos_fuse.RwLock.System.{System, enters, exits, step, broadcasts, Reach, start, next, init}
use illumos_fuse.RwLock.Safety.{holds, mutual_exclusion}
use illumos_fuse.RwLock.Wakeup.{no_lost_wakeup}
use illumos_fuse.Prelude.{◌≡◌, refl, true, arith, ◌+ℤ◌, ◌-ℤ◌}

-- Thread 0 writes.
writing : System
unfolding step ◌-ℤ◌ ◌+ℤ◌
writing = step init 0 (enters writer)

writing-Reach : Reach 2 writing
unfolding writing init
writing-Reach = next 0 (enters writer) start (omega arith) refl

-- Thread 0 writes and thread 1 waits to read.
contended : System
unfolding writing
contended = step writing 1 (enters reader)

contended-Reach : Reach 2 contended
unfolding contended init
contended-Reach = next 1 (enters reader) writing-Reach (omega arith) refl

mutual_exclusion_example : holds (contended.threads 1) ≡ 0
unfolding contended init
mutual_exclusion_example =
    mutual_exclusion contended-Reach 0 1 (omega arith) (omega arith) (omega arith)
      (λ e. absurd (omega arith))

no_lost_wakeup_example : broadcasts contended exits ≡ true
unfolding contended init
no_lost_wakeup_example =
    no_lost_wakeup contended-Reach 0 1 exits reader (omega arith) (λ e. absurd (omega arith))
      (refl, omega arith) refl refl refl
