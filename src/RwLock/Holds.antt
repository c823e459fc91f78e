-- ===== src/RwLock/Holds.antt =====
-- The holds of the threads, as the lock's count and owner record them.
use illumos_fuse.RwLock.{reader, writer, Krw}
use illumos_fuse.RwLock.System.{Thread}
use illumos_fuse.Prelude.{
  ℕ, ◌+◌, ◌-◌, ◌<◌, ◌≡◌, ◌≢◌, Option, none, some, arith, update, ℤ, pos, negsuc, ◌+ℤ◌, ◌-ℤ◌, total,
  total-update, total-zero, total-mem,
}

abbrev pub reads_of : Thread → ℕ
reads_of t = t.reads

-- A thread that waits to write.
abbrev writer_waits : Option Krw → ℕ
writer_waits none = 0
writer_waits (some reader) = 0
writer_waits (some writer) = 1

abbrev pub write_waits : Thread → ℕ
write_waits t = writer_waits t.waits

-- With no owner the count is the number of read holds; with one it is minus the owner's holds.
abbrev pub HeldBy : ℕ → (ℕ → Thread) → ℤ → Option ℕ → Type 0
HeldBy n f count none = (count ≡ pos (total reads_of n f)) × ((j : ℕ) → j < n → (f j).writes ≡ 0)
HeldBy n f count (some t) =
    (t < n)
    × (0 < (f t).writes)
    × (count ≡ negsuc ((f t).writes - 1))
    × ((j : ℕ) → j < n → (f j).reads ≡ 0)
    × ((j : ℕ) → j < n → j ≢ t → (f j).writes ≡ 0)

module _ (n : ℕ) (f : ℕ → Thread) (i : ℕ) (lt : i < n) (t' : Thread) where
  pub held_keep :
      (c : ℤ) (o : Option ℕ)
      → t'.reads ≡ (f i).reads
      → t'.writes ≡ (f i).writes
      → HeldBy n f c o
      → HeldBy n (update f i t') c o
  held_keep c none er ew h =
      (ground (arith, total-update reads_of n f i t' lt), λ j lj. ground (arith, h.1 j lj))
  held_keep c (some t) er ew h = (
    h.0,
    ground arith,
    ground arith,
    λ j lj. ground (arith, h.3 j lj),
    λ j lj ne. ground (arith, h.4 j lj ne),
  )

  pub held_read :
      {c : ℤ}
      → t'.reads ≡ (f i).reads + 1
      → t'.writes ≡ (f i).writes
      → HeldBy n f c none
      → HeldBy n (update f i t') (c +ℤ pos 1) none
  unfolding ◌+ℤ◌
  held_read er ew h =
      (ground (arith, total-update reads_of n f i t' lt), λ j lj. ground (arith, h.1 j lj))

  pub held_write :
      {c : ℤ}
      → t'.reads ≡ (f i).reads
      → t'.writes ≡ (f i).writes + 1
      → c ≡ pos 0
      → HeldBy n f c none
      → HeldBy n (update f i t') (c -ℤ pos 1) (some i)
  unfolding ◌-ℤ◌
  held_write er ew z h = (
    lt,
    ground arith,
    ground (arith, h.1 i lt),
    λ j lj. ground (arith, total-mem reads_of n f j lj, total-mem reads_of n f i lt),
    λ j lj ne. ground (arith, h.1 j lj),
  )

  pub held_nested :
      {c : ℤ}
      → t'.reads ≡ (f i).reads
      → t'.writes ≡ (f i).writes + 1
      → HeldBy n f c (some i)
      → HeldBy n (update f i t') (c -ℤ pos 1) (some i)
  unfolding ◌-ℤ◌
  held_nested er ew h = (
    lt,
    ground arith,
    ground arith,
    λ j lj. ground (arith, h.3 j lj),
    λ j lj ne. ground (arith, h.4 j lj ne),
  )

  pub held_unnest :
      {c : ℤ}
      → t'.reads ≡ (f i).reads
      → t'.writes + 1 ≡ (f i).writes
      → 0 < t'.writes
      → HeldBy n f c (some i)
      → HeldBy n (update f i t') (c +ℤ pos 1) (some i)
  unfolding ◌+ℤ◌
  held_unnest er ew more h = (
    lt,
    ground arith,
    ground arith,
    λ j lj. ground (arith, h.3 j lj),
    λ j lj ne. ground (arith, h.4 j lj ne),
  )

  pub held_release :
      {c : ℤ}
      → t'.reads ≡ (f i).reads
      → t'.writes + 1 ≡ (f i).writes
      → t'.writes ≡ 0
      → HeldBy n f c (some i)
      → HeldBy n (update f i t') (c +ℤ pos 1) none
  unfolding ◌+ℤ◌
  held_release er ew last h = (
    ground (arith, total-zero reads_of n (update f i t') (λ j lj. ground (arith, h.3 j lj))),
    λ j lj. ground (arith, h.4 j lj),
  )

  pub held_unread :
      {c : ℤ}
      → t'.reads + 1 ≡ (f i).reads
      → t'.writes ≡ (f i).writes
      → HeldBy n f c none
      → HeldBy n (update f i t') (c -ℤ pos 1) none
  unfolding ◌-ℤ◌
  held_unread er ew h =
      (ground (arith, total-update reads_of n f i t' lt), λ j lj. ground (arith, h.1 j lj))
