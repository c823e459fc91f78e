-- ===== src/RwLock/Safety.antt =====
-- What the lock promises to the threads that use it, in every state that they reach.
use illumos_fuse.RwLock.{
  Krw, reader, writer, RwLock, entered, waiting, owned_by, rw_init, rw_enter_sig, rw_enter_woken,
  rw_enter_eintr, rw_tryenter, exit_asserts,
}
use illumos_fuse.RwLock.System.{Thread, System, exits, Ready, Reach, start, next}
use illumos_fuse.RwLock.Holds.{reads_of, write_waits, HeldBy}
use illumos_fuse.RwLock.Invariant.{Inv, init-Inv, step-Inv}
use illumos_fuse.Prelude.{
  ℕ, ◌+◌, ◌<◌, ◌≡◌, ◌≢◌, ◌↔◌, true, false, Option, none, some, arith, ℤ, pos, total, total-zero,
  total-mem,
}

-- In every reachable state the count, the owner and the waiters of the lock agree with the holds
-- and the waits of the threads.
pub Reach-Inv : {n : ℕ} {s : System} → Reach n s → Inv n s
Reach-Inv {n} start = init-Inv n
Reach-Inv {n} (next {s} i c r lt ready) = step-Inv n s i c lt ready (Reach-Inv r)

abbrev pub holds : Thread → ℕ
holds t = t.reads + t.writes

HeldBy-exclusion :
    (n : ℕ) (f : ℕ → Thread) (c : ℤ) (o : Option ℕ)
    → HeldBy n f c o
    → (i j : ℕ) → i < n
    → j < n
    → 0 < (f i).writes
    → j ≢ i
    → holds (f j) ≡ 0
HeldBy-exclusion n f c none h i j li lj w ne = absurd (omega (arith, h.1 i li))
HeldBy-exclusion n f c (some t) h i j li lj w ne = ground (arith, h.3 j lj, h.4 j lj, h.4 i li)

-- In every reachable state, while one thread has a write hold no other thread has any hold.
pub mutual_exclusion :
    {n : ℕ} {s : System}
    → Reach n s
    → (i j : ℕ) → i < n
    → j < n
    → 0 < (s.threads i).writes
    → j ≢ i
    → holds (s.threads j) ≡ 0
mutual_exclusion {n} {s} r =
    HeldBy-exclusion n s.threads s.lock.count s.lock.owner (Reach-Inv r).held

HeldBy-asserts :
    (n : ℕ) (f : ℕ → Thread) (c : ℤ) (w : ℕ) (o : Option ℕ)
    → HeldBy n f c o
    → (i : ℕ) → i < n
    → 0 < holds (f i)
    → exit_asserts i (record { count = c; waiters = w; owner = o }) ≡ true
HeldBy-asserts n f c w none h i li p = ground (arith, h.1 i li, total-mem reads_of n f i li)
HeldBy-asserts n f c w (some t) h i li p = ground (arith, h.3 i li, h.4 i li)

-- In every reachable state, a thread that exits a hold of its own meets the assertion of
-- fusefs_rw_exit: it is the owner, or there is no owner and the count is positive.
pub exit-asserts :
    {n : ℕ} {s : System}
    → Reach n s
    → (i : ℕ) → i < n
    → Ready (s.threads i) exits
    → exit_asserts i s.lock ≡ true
exit-asserts {n} {s} r i li ready =
    HeldBy-asserts n s.threads s.lock.count s.lock.waiters s.lock.owner (Reach-Inv r).held i li
      ready.1

HeldBy-free :
    (n : ℕ) (f : ℕ → Thread) (c : ℤ) (w : ℕ) (o : Option ℕ)
    → HeldBy n f c o
    → w ≡ total write_waits n f
    → ((i : ℕ) → i < n → (holds (f i) ≡ 0) × ((f i).waits ≡ none))
    → ◌≡◌ {A = RwLock}
        (record { count = c; waiters = w; owner = o })
        (record { count = pos 0; waiters = 0; owner = none })
HeldBy-free n f c w none h e q = ground (
  arith,
  total-zero reads_of n f (λ i li. omega (arith, (q i li).0)),
  total-zero write_waits n f (λ i li. ground (arith, q i li)),
)
HeldBy-free n f c w (some t) h e q = absurd (omega (arith, q t h.0))

-- In every reachable state, the exits balance the enters: once no thread holds the lock or waits
-- for it, the lock is as fusefs_rw_init left it.
pub all_exited-init :
    {n : ℕ} {s : System}
    → Reach n s
    → ((i : ℕ) → i < n → (holds (s.threads i) ≡ 0) × ((s.threads i).waits ≡ none))
    → s.lock ≡ rw_init
unfolding rw_init
all_exited-init {n} {s} r q =
    let v = Reach-Inv r in
    HeldBy-free n s.threads s.lock.count s.lock.waiters s.lock.owner v.held v.waiters q

-- A wait that a signal ends leaves no trace: after EINTR the lock is as it was before the call.
pub eintr-undoes-enter :
    (cur : ℕ) (l l' : RwLock) (k : Krw)
    → rw_enter_sig cur l k ≡ waiting l'
    → (rw_enter_eintr l' k).0 ≡ l
unfolding rw_enter_sig rw_enter_eintr
eintr-undoes-enter cur l l' reader h = ground arith
eintr-undoes-enter cur l l' writer h = ground arith

-- fusefs_rw_tryenter succeeds exactly when fusefs_rw_enter_sig would not wait, and then both leave
-- the same lock; when it fails it changes nothing.
pub tryenter-enter :
    (cur : ℕ) (l : RwLock) (k : Krw)
    → ((l' : RwLock) → (rw_tryenter cur l k ≡ (l', true)) ↔ (rw_enter_sig cur l k ≡ entered l'))
      × ((rw_tryenter cur l k).1 ≡ false → (rw_tryenter cur l k).0 ≡ l)
unfolding rw_enter_sig rw_tryenter
tryenter-enter cur l k = (λ l'. (ground arith, ground arith), ground arith)

-- While a writer waits, no thread but the owner enters as a reader, waiting or not.
pub waiting_writer_first :
    (cur : ℕ) (l : RwLock)
    → 0 < l.waiters
    → owned_by cur l.owner ≡ false
    → (rw_enter_sig cur l reader ≡ waiting l)
      × (rw_enter_woken cur l reader ≡ waiting l)
      × (rw_tryenter cur l reader ≡ (l, false))
unfolding rw_enter_sig rw_enter_woken rw_tryenter
waiting_writer_first cur l w o = (ground arith, ground arith, ground arith)
