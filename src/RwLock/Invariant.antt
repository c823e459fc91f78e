-- ===== src/RwLock/Invariant.antt =====
-- The count, the owner and the waiters of the lock are those of the threads.
use illumos_fuse.RwLock.{
  is_zero, blocked, count_waiter, uncount_waiter, take_lock, enter_loop, Krw, reader, writer,
  RwLock, entered, waiting, owned_by, rw_exit,
}
use illumos_fuse.RwLock.System.{
  add_hold, drop_hold, after_enter, Thread, System, Call, enters, wakes, tries, interrupted, exits,
  Ready, step, init,
}
use illumos_fuse.RwLock.Holds.{
  reads_of, write_waits, HeldBy, held_keep, held_read, held_write, held_nested, held_unnest,
  held_release, held_unread,
}
use illumos_fuse.Prelude.{
  ℕ, ◌+◌, ◌<◌, ◌≡◌, refl, sym, ap, inl, inr, true, false, Option, none, some, arith, ◌==◌,
  Bool-cases, update, ℤ, pos, ◌+ℤ◌, ◌-ℤ◌, total, total-update, total-zero, total-mem,
}

pub record Inv (n : ℕ) (s : System) : Type 0 where
  pub held : HeldBy n s.threads s.lock.count s.lock.owner
  pub waiters : s.lock.waiters ≡ total write_waits n s.threads

pub init-Inv : (n : ℕ) → Inv n init
unfolding init
init-Inv n = record {
  held = (ap pos (sym (total-zero reads_of n _ (λ _ _. refl))), λ j lj. refl);
  waiters = sym (total-zero write_waits n _ (λ _ _. refl));
}

abbrev lock_of : ℤ → ℕ → Option ℕ → RwLock
lock_of c w o = record { count = c; waiters = w; owner = o }

module _ (n : ℕ) (f : ℕ → Thread) (i : ℕ) (lt : i < n) where
  -- A thread that finds the lock free for it takes it.
  take-Inv :
      (k : Krw) (c : ℤ) (w : ℕ) (o : Option ℕ)
      → HeldBy n f c o
      → w + write_waits (f i) ≡ total write_waits n f
      → blocked (lock_of c w o) k ≡ false
      → Inv n (after_enter (owned_by i o) f i k (entered (take_lock i (lock_of c w o) k)))
  unfolding take_lock
  take-Inv reader c w none h e b = record {
    held = held_read n f i lt (add_hold false reader (f i)) refl refl h;
    waiters = ground (arith, total-update write_waits n f i (add_hold false reader (f i)) lt);
  }
  take-Inv writer c w none h e b = record {
    held = held_write n f i lt (add_hold false writer (f i)) refl refl (ground arith) h;
    waiters = ground (arith, total-update write_waits n f i (add_hold false writer (f i)) lt);
  }
  take-Inv reader c w (some t) h e b = absurd (ground arith)
  take-Inv writer c w (some t) h e b = absurd (ground arith)

  wait-Inv :
      (k : Krw) (l : RwLock)
      → HeldBy n f l.count l.owner
      → l.waiters + write_waits (f i) ≡ total write_waits n f
      → Inv n (after_enter (owned_by i l.owner) f i k (waiting (count_waiter l k)))
  wait-Inv reader l h e = record {
    held = held_keep n f i lt (record (f i) { waits = some reader }) l.count l.owner refl refl h;
    waiters =
        ground (arith, total-update write_waits n f i (record (f i) { waits = some reader }) lt);
  }
  wait-Inv writer l h e = record {
    held = held_keep n f i lt (record (f i) { waits = some writer }) l.count l.owner refl refl h;
    waiters =
        ground (arith, total-update write_waits n f i (record (f i) { waits = some writer }) lt);
  }

  -- A nested enter by the owner.
  nested-Inv :
      (k : Krw) (c : ℤ) (w : ℕ) (o : Option ℕ)
      → HeldBy n f c o
      → w ≡ total write_waits n f
      → (f i).waits ≡ none
      → owned_by i o ≡ true
      → Inv n (after_enter true f i k (entered (lock_of (c -ℤ pos 1) w o)))
  nested-Inv k c w none h e r b = cc
  nested-Inv k c w (some t) h e r b =
      let e' : t ≡ i = ground arith in
      record {
        held = rw e' (held_nested n f i lt (add_hold true k (f i)) refl refl (rw e' at h));
        waiters = ground (arith, total-update write_waits n f i (add_hold true k (f i)) lt);
      }

  owner_exit-Inv :
      (c : ℤ) (w : ℕ)
      → HeldBy n f c (some i)
      → w ≡ total write_waits n f
      → Inv n (record {
        lock = (rw_exit (lock_of c w (some i))).0;
        threads = update f i (drop_hold true (f i));
      })
  unfolding rw_exit ◌+ℤ◌
  owner_exit-Inv c w h e = elim (Bool-cases ((f i).writes == 1)) [
    | inl last ↦
        let z : is_zero (c +ℤ pos 1) ≡ true = ground arith in
        rw z (record {
          held = held_release n f i lt (drop_hold true (f i)) refl (ground arith) (ground arith) h;
          waiters = kept;
        })
    | inr more ↦
        let z : is_zero (c +ℤ pos 1) ≡ false = ground arith in
        rw z (record {
          held = held_unnest n f i lt (drop_hold true (f i)) refl (ground arith) (ground arith) h;
          waiters = kept;
        })
  ]
    where
      kept : w ≡ total write_waits n (update f i (drop_hold true (f i)))
      kept = ground (arith, total-update write_waits n f i (drop_hold true (f i)) lt)

  exit-Inv :
      (c : ℤ) (w : ℕ) (o : Option ℕ)
      → HeldBy n f c o
      → w ≡ total write_waits n f
      → 0 < (f i).reads + (f i).writes
      → Inv n (record {
        lock = (rw_exit (lock_of c w o)).0;
        threads = update f i (drop_hold (owned_by i o) (f i));
      })
  exit-Inv c w none h e p =
      unfold rw_exit in
      record {
        held = held_unread n f i lt (drop_hold false (f i)) (ground (arith, h.1 i lt)) refl h;
        waiters = ground (arith, total-update write_waits n f i (drop_hold false (f i)) lt);
      }
  exit-Inv c w (some t) h e p =
      let same : t ≡ i = ground (arith, h.3 i lt, h.4 i lt) in
      let own : owned_by i (some i) ≡ true = ground arith in
      rw same (rw own (owner_exit-Inv c w (rw same at h) e))

  -- A round of the loop of fusefs_rw_enter_sig; the caller is not among the waiters of the lock.
  loop-Inv :
      (k : Krw) (l : RwLock)
      → HeldBy n f l.count l.owner
      → l.waiters + write_waits (f i) ≡ total write_waits n f
      → Inv n (after_enter (owned_by i l.owner) f i k (enter_loop i l k))
  unfolding enter_loop
  loop-Inv k l h e = elim (Bool-cases (blocked l k)) [
    | inl b ↦ rw b (wait-Inv k l h e)
    | inr b ↦ rw b (take-Inv k l.count l.waiters l.owner h e b)
  ]

pub step-Inv :
    (n : ℕ) (s : System) (i : ℕ) (c : Call)
    → i < n
    → Ready (s.threads i) c
    → Inv n s
    → Inv n (step s i c)
unfolding step
step-Inv n s i (enters k) h r v = elim (Bool-cases (owned_by i s.lock.owner)) [
  | inl b ↦
      rw b
        (nested-Inv n s.threads i h k s.lock.count s.lock.waiters s.lock.owner v.held v.waiters r b)
  | inr b ↦ rw b (rw b at (loop-Inv n s.threads i h k s.lock v.held (ground (arith, v.waiters))))
]
step-Inv n s i (wakes reader) h r v =
    loop-Inv n s.threads i h reader s.lock v.held (ground (arith, v.waiters))
step-Inv n s i (wakes writer) h r v =
    loop-Inv n s.threads i h writer (uncount_waiter s.lock writer) v.held
      (ground (arith, v.waiters, total-mem write_waits n s.threads i h))
step-Inv n s i (tries k) h r v = elim (Bool-cases (owned_by i s.lock.owner)) [
  | inl b ↦
      rw b
        (nested-Inv n s.threads i h k s.lock.count s.lock.waiters s.lock.owner v.held v.waiters r b)
  | inr b ↦ elim (Bool-cases (blocked s.lock k)) [
    | inl w ↦ rw (b, w) v
    | inr w ↦
        rw (b, w)
          (rw b at (
            take-Inv n s.threads i h k s.lock.count s.lock.waiters s.lock.owner v.held
              (ground (arith, v.waiters)) w))
  ]
]
step-Inv n s i (interrupted reader) h r v = record {
  held =
      held_keep n s.threads i h (record (s.threads i) { waits = none }) s.lock.count s.lock.owner
        refl refl v.held;
  waiters = ground (
    arith,
    v.waiters,
    total-update write_waits n s.threads i (record (s.threads i) { waits = none }) h,
  );
}
step-Inv n s i (interrupted writer) h r v = record {
  held =
      held_keep n s.threads i h (record (s.threads i) { waits = none }) s.lock.count s.lock.owner
        refl refl v.held;
  waiters = ground (
    arith,
    v.waiters,
    total-update write_waits n s.threads i (record (s.threads i) { waits = none }) h,
  );
}
step-Inv n s i exits h r v =
    exit-Inv n s.threads i h s.lock.count s.lock.waiters s.lock.owner v.held v.waiters r.1
