-- ===== src/Vfs/Statvfs/Threads.antt =====
-- Threads that call fusefs_statvfs on one mount. A thread in the wait is asleep until a broadcast, a signal
-- or a wakeup without a cause.
use illumos_fuse.Door.{FuseStatvfs}
use illumos_fuse.Calls.{CallResult, ok, err}
use illumos_fuse.Vfs.Statvfs.{
  Statvfs64, Mnt, Vfs, Turn, must_wait, must_call, answer, statvfs_start, statvfs_woken, store_time,
  store_answer, statvfs_end, with_rest,
}
use illumos_fuse.Prelude.{ℕ, ◌<◌, ◌≡◌, ◌⊎◌, Bool, true, false, Option, none, some, [], update}

-- Where a thread is; `stored` has the variables `error` and `stvfs` of the call.
pub data Place : Type 0 where
  outside asleep woken calling : Place
  timed : Statvfs64 → Place
  stored : (error : ℕ) → Statvfs64 → Place

pub record System : Type 0 where
  pub mnt : Mnt
  pub threads : ℕ → Place

-- kmem_zalloc
abbrev pub no_answer : Statvfs64
no_answer = record {
  answered = record {
    f_blocks = 0;
    f_bfree = 0;
    f_bavail = 0;
    f_files = 0;
    f_ffree = 0;
    f_favail = 0;
    f_bsize = 0;
    f_frsize = 0;
    f_namemax = 0;
    f_flag = 0;
  };
  f_fsid = 0;
  f_basetype = [];
}

abbrev pub init : System
init = record {
  mnt = record { fmi_statfstime = 0; busy = false; want = false; fmi_statvfsbuf = no_answer };
  threads = λ _. outside;
}

-- What a thread does next, at a time `now` where it reads the clock.
pub data Action : Type 0 where
  starts : Vfs → (now : ℕ) → Action
  wakes : (signal : Bool) → (now : ℕ) → Action
  answered_by : CallResult FuseStatvfs → Vfs → (now : ℕ) → Action
  stores ends : Action

abbrev InWait : Place → Type 0
InWait p = (p ≡ asleep) ⊎ (p ≡ woken)

abbrev pub Ready : Place → Action → Type 0
Ready p (starts vfs now) = p ≡ outside
Ready p (wakes signal now) = InWait p
-- An error of fusefs_call_statvfs is not 0.
Ready p (answered_by (ok st) vfs now) = p ≡ calling
Ready p (answered_by (err e) vfs now) = (p ≡ calling) × (0 < e)
Ready p stores = (b : Statvfs64) × (p ≡ timed b)
Ready p ends = (e : ℕ) × (b : Statvfs64) × (p ≡ stored e b)

abbrev pub place_of : Turn → Place
place_of must_wait = asleep
place_of must_call = calling
place_of (answer r) = outside

-- cv_broadcast
abbrev pub wake : Place → Place
wake asleep = woken
wake outside = outside
wake woken = woken
wake calling = calling
wake (timed b) = timed b
wake (stored e b) = stored e b

abbrev pub broadcast : Bool → (ℕ → Place) → ℕ → Place
broadcast true f i = wake (f i)
broadcast false f i = f i

abbrev pub turned : (ℕ → Place) → ℕ → Turn × Mnt → System
turned f i r = record { mnt = r.1; threads = update f i (place_of r.0) }

-- What is left of a call in `stvfs` when the up-call failed is the buffer that was cleared before it.
abbrev pub called : System → ℕ → CallResult FuseStatvfs → Vfs → ℕ → System
called s i (ok st) vfs now = record {
  mnt = store_time now s.mnt;
  threads = update s.threads i (timed (with_rest vfs st));
}
called s i (err e) vfs now = record s { threads = update s.threads i (stored e no_answer) }

abbrev pub stored_by : System → ℕ → Place → System
stored_by s i (timed b) = record {
  mnt = store_answer b s.mnt;
  threads = update s.threads i (stored 0 b);
}
stored_by s i outside = s
stored_by s i asleep = s
stored_by s i woken = s
stored_by s i calling = s
stored_by s i (stored e b) = s

abbrev pub error_of : Place → ℕ
error_of (stored e b) = e
error_of outside = 0
error_of asleep = 0
error_of woken = 0
error_of calling = 0
error_of (timed b) = 0

abbrev pub ended : System → ℕ → CallResult Statvfs64 × Bool × Mnt → System
ended s i r = record { mnt = r.2; threads = update (broadcast r.1 s.threads) i outside }

unfoldable pub step : System → ℕ → Action → System
unfolding statvfs_start statvfs_woken store_time store_answer statvfs_end with_rest
step s i (starts vfs now) = turned s.threads i (statvfs_start vfs now s.mnt)
step s i (wakes signal now) = turned s.threads i (statvfs_woken signal now s.mnt)
step s i (answered_by r vfs now) = called s i r vfs now
step s i stores = stored_by s i (s.threads i)
step s i ends = ended s i (statvfs_end (error_of (s.threads i)) s.mnt)

-- What the thread's call returns, when the action is its last.
abbrev pub result : Turn → Option (CallResult Statvfs64)
result must_wait = none
result must_call = none
result (answer r) = some r

unfoldable pub returned : System → ℕ → Action → Option (CallResult Statvfs64)
unfolding statvfs_start statvfs_woken statvfs_end
returned s i (starts vfs now) = result (statvfs_start vfs now s.mnt).0
returned s i (wakes signal now) = result (statvfs_woken signal now s.mnt).0
returned s i (answered_by r vfs now) = none
returned s i stores = none
returned s i ends = some (statvfs_end (error_of (s.threads i)) s.mnt).0

-- What threads 0 … n - 1 can reach together.
pub data Reach (n : ℕ) : System → Type 0 where
  start : Reach n init
  next :
      {s : System} (i : ℕ) (a : Action)
      → Reach n s
      → i < n
      → Ready (s.threads i) a
      → Reach n (step s i a)
