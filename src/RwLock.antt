-- ===== src/RwLock.antt =====
-- The reader/writer lock of usr/src/uts/common/fs/fusefs/fusefs_rwlock.c. Each function runs under
-- the lock's mutex, which is dropped in cv_wait and cv_wait_sig only; so `enter` is cut where it
-- waits: a part that runs until it returns or waits, and the parts that follow a wait.
pub mod System
pub mod Holds
pub mod Invariant
pub mod Safety
pub mod Wakeup
pub mod Examples
use illumos_fuse.Prelude.{
  ℕ, ◌+◌, ◌-◌, Bool, true, false, ◌&&◌, ◌||◌, Option, none, some, ltb, ◌==◌, if◌then◌else◌, ℤ, pos,
  negsuc, ◌+ℤ◌, ◌-ℤ◌, ltb_ℤ, is_some,
}

-- krw_t
pub data Krw : Type 0 where
  reader writer : Krw

-- struct fusefs_rwlock; a thread is a number.
pub record RwLock : Type 0 where
  pub count : ℤ
  pub waiters : ℕ
  pub owner : Option ℕ

-- fusefs_rw_init
unfoldable pub rw_init : RwLock
rw_init = record { count = pos 0; waiters = 0; owner = none }

-- Where a call of fusefs_rw_enter_sig stands when it gives up the mutex.
pub data Enter : Type 0 where
  entered : RwLock → Enter
  waiting : RwLock → Enter

-- l->owner == curthread
abbrev pub owned_by : ℕ → Option ℕ → Bool
owned_by cur none = false
owned_by cur (some t) = t == cur

-- The tests of the two loops.
abbrev pub reader_blocked : RwLock → Bool
reader_blocked l = ltb_ℤ l.count (pos 0) || ltb 0 l.waiters

abbrev pub writer_blocked : RwLock → Bool
writer_blocked l = ltb_ℤ (pos 0) l.count || is_some l.owner

abbrev pub blocked : RwLock → Krw → Bool
blocked l reader = reader_blocked l
blocked l writer = writer_blocked l

-- What an entered lock is, for a thread that is not its owner.
unfoldable pub take_lock : ℕ → RwLock → Krw → RwLock
take_lock cur l reader = record l { count = l.count +ℤ pos 1 }
take_lock cur l writer = record l { count = l.count -ℤ pos 1; owner = some cur }

-- One round of the loop: the head of its body is `l->waiters++` for a writer.
abbrev pub count_waiter : RwLock → Krw → RwLock
count_waiter l reader = l
count_waiter l writer = record l { waiters = l.waiters + 1 }

abbrev pub uncount_waiter : RwLock → Krw → RwLock
uncount_waiter l reader = l
uncount_waiter l writer = record l { waiters = l.waiters - 1 }

unfoldable pub enter_loop : ℕ → RwLock → Krw → Enter
unfolding take_lock
enter_loop cur l rw =
    if blocked l rw then waiting (count_waiter l rw) else entered (take_lock cur l rw)

-- fusefs_rw_enter_sig, up to its first wait
unfoldable pub rw_enter_sig : ℕ → RwLock → Krw → Enter
unfolding enter_loop
rw_enter_sig cur l rw =
    if owned_by cur l.owner
    then entered (record l { count = l.count -ℤ pos 1 })
    else enter_loop cur l rw

-- fusefs_rw_enter_sig after a wait that no signal ended, up to the next wait
unfoldable pub rw_enter_woken : ℕ → RwLock → Krw → Enter
unfolding enter_loop
rw_enter_woken cur l rw = enter_loop cur (uncount_waiter l rw) rw

-- fusefs_rw_enter_sig after a wait that a signal ended (EINTR); true: cv_broadcast is called
unfoldable pub rw_enter_eintr : RwLock → Krw → RwLock × Bool
rw_enter_eintr l reader = (l, false)
rw_enter_eintr l writer = (uncount_waiter l writer, true)

-- fusefs_rw_tryenter: the lock and the value returned
unfoldable pub rw_tryenter : ℕ → RwLock → Krw → RwLock × Bool
unfolding take_lock
rw_tryenter cur l rw =
    if owned_by cur l.owner
    then (record l { count = l.count -ℤ pos 1 }, true)
    else if blocked l rw
    then (l, false)
    else (take_lock cur l rw, true)

abbrev pub is_zero : ℤ → Bool
is_zero (pos n) = n == 0
is_zero (negsuc n) = false

-- fusefs_rw_exit; true: cv_broadcast is called
unfoldable pub rw_exit : RwLock → RwLock × Bool
rw_exit l = elim l.owner [
  | some t ↦
      let l' = record l { count = l.count +ℤ pos 1 } in
      if is_zero l'.count then (record l' { owner = none }, true) else (l', false)
  | none ↦
      let l' = record l { count = l.count -ℤ pos 1 } in (l', is_zero l'.count && ltb 0 l'.waiters)
]

-- The assertions of fusefs_rw_exit, with `cur` the calling thread.
abbrev pub exit_asserts : ℕ → RwLock → Bool
exit_asserts cur l = elim l.owner [ some t ↦ t == cur | none ↦ ltb_ℤ (pos 0) l.count ]

-- fusefs_rw_lock_held
unfoldable pub rw_lock_held : RwLock → Krw → Bool
rw_lock_held l reader = ltb_ℤ (pos 0) l.count
rw_lock_held l writer = ltb_ℤ l.count (pos 0)
