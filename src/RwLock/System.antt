-- ===== src/RwLock/System.antt =====
-- Threads that call the functions of fusefs_rwlock.c on one lock. Each thread has, beside the lock,
-- the holds that it has entered and not yet exited, and the wait that it sits in.
use illumos_fuse.RwLock.{
  Krw, reader, writer, RwLock, Enter, entered, waiting, owned_by, rw_init, rw_enter_sig,
  rw_enter_woken, rw_enter_eintr, rw_tryenter, rw_exit,
}
use illumos_fuse.Prelude.{
  ℕ, ◌+◌, ◌-◌, ◌<◌, ◌≡◌, Bool, true, false, Option, none, some, if◌then◌else◌, update,
}

pub record Thread : Type 0 where
  pub reads : ℕ
  pub writes : ℕ
  pub waits : Option Krw

pub record System : Type 0 where
  pub lock : RwLock
  pub threads : ℕ → Thread

abbrev pub idle_thread : Thread
idle_thread = record { reads = 0; writes = 0; waits = none }

unfoldable pub init : System
unfolding rw_init
init = record { lock = rw_init; threads = λ _. idle_thread }

-- The hold that a granted call adds: an owner's is a write hold, whatever it asked for.
abbrev pub add_hold : Bool → Krw → Thread → Thread
add_hold true rw t = record t { writes = t.writes + 1; waits = none }
add_hold false reader t = record t { reads = t.reads + 1; waits = none }
add_hold false writer t = record t { writes = t.writes + 1; waits = none }

abbrev pub drop_hold : Bool → Thread → Thread
drop_hold true t = record t { writes = t.writes - 1 }
drop_hold false t = record t { reads = t.reads - 1 }

abbrev pub after_enter : Bool → (ℕ → Thread) → ℕ → Krw → Enter → System
after_enter owned f i rw (entered l) = record {
  lock = l;
  threads = update f i (add_hold owned rw (f i));
}
after_enter owned f i rw (waiting l) = record {
  lock = l;
  threads = update f i (record (f i) { waits = some rw });
}

-- A call of a thread `i`.
pub data Call : Type 0 where
  enters wakes tries : Krw → Call
  interrupted : Krw → Call
  exits : Call

-- When a thread can make the call: it wakes where it waits, and exits what it holds.
abbrev pub Ready : Thread → Call → Type 0
Ready t (enters rw) = t.waits ≡ none
Ready t (tries rw) = t.waits ≡ none
Ready t (wakes rw) = t.waits ≡ some rw
Ready t (interrupted rw) = t.waits ≡ some rw
Ready t exits = (t.waits ≡ none) × (0 < t.reads + t.writes)

unfoldable pub step : System → ℕ → Call → System
unfolding rw_enter_sig rw_enter_woken rw_enter_eintr rw_tryenter rw_exit
step s i (enters rw) =
    after_enter (owned_by i s.lock.owner) s.threads i rw (rw_enter_sig i s.lock rw)
step s i (wakes rw) =
    after_enter (owned_by i s.lock.owner) s.threads i rw (rw_enter_woken i s.lock rw)
step s i (tries rw) =
    let (l, done) = rw_tryenter i s.lock rw in
    if done then after_enter (owned_by i s.lock.owner) s.threads i rw (entered l) else s
step s i (interrupted rw) = record {
  lock = (rw_enter_eintr s.lock rw).0;
  threads = update s.threads i (record (s.threads i) { waits = none });
}
step s i exits = record {
  lock = (rw_exit s.lock).0;
  threads = update s.threads i (drop_hold (owned_by i s.lock.owner) (s.threads i));
}

-- Whether the call wakes all threads that wait (cv_broadcast).
unfoldable pub broadcasts : System → Call → Bool
unfolding rw_enter_eintr rw_exit
broadcasts s (interrupted rw) = (rw_enter_eintr s.lock rw).1
broadcasts s exits = (rw_exit s.lock).1
broadcasts s (enters rw) = false
broadcasts s (wakes rw) = false
broadcasts s (tries rw) = false

-- What threads 0 … n - 1 can reach together.
pub data Reach (n : ℕ) : System → Type 0 where
  start : Reach n init
  next :
      {s : System} (i : ℕ) (c : Call)
      → Reach n s
      → i < n
      → Ready (s.threads i) c
      → Reach n (step s i c)
