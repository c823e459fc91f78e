-- ===== src/Vnode/Readdir/Entries.antt =====
-- The entries that fusefs_readvdir gives fit the caller's buffer.
use illumos_fuse.Door.{FuseStat, FuseDirent}
use illumos_fuse.Calls.{CallResult, ok, err}
use illumos_fuse.Vnode.{World, Env, Op, ret, and_then, ◌>>=◌}
use illumos_fuse.Vnode.Lookup.{fuse_maxfnamelen}
use illumos_fuse.Vnode.Readdir.{
  Dirent, DirUio, Copyout, DirLoop, int32_max, dirent64_reclen, int_offset, last_entry, made_dirent,
  copied, entry_out, go_on, round_entry, loop_ends, readvdir_loop, readvdir_room, at_eof,
  fusefs_readvdir,
}
use illumos_fuse.Prelude.{
  ℕ, zero, suc, ◌+◌, ◌%◌, ◌^◌, ◌≤◌, ◌≡◌, refl, ◌≢◌, ◌⊎◌, inl, inr, Bool, true, false, Option, none,
  some, List, [], ◌∷◌, ◌++◌, arith, ltb, ◌==◌, if◌then◌else◌, Bool-cases, pos, pos_part,
}

-- The bytes of entries.
abbrev pub bytes : List Dirent → ℕ
bytes [] = 0
bytes (dp ∷ entries) = dp.d_reclen + bytes entries

-- Each entry has the length of its name's record, and is aligned.
abbrev pub Aligned : List Dirent → Type 0
Aligned [] = Unit {0}
Aligned (dp ∷ entries) = ((24 ≤ dp.d_reclen) × (dp.d_reclen % 8 ≡ 0)) × Aligned entries

-- What is used and what is left is no more than `room`, and an end without an error leaves the offset that
-- stands for the end.
abbrev pub Fits : (room : ℕ) → ℕ × DirLoop → Type 0
Fits room (e, st) =
    (bytes st.uio.entries + st.uio.uio_resid ≤ room)
    × Aligned st.uio.entries
    × ((e ≢ 0) ⊎ (st.eof ≡ false) ⊎ (st.uio.uio_loffset ≡ pos int32_max))

bytes-append : (xs : List Dirent) (dp : Dirent) → bytes (xs ++ dp ∷ []) ≡ bytes xs + dp.d_reclen
bytes-append [] dp = omega arith
bytes-append (x ∷ xs) dp = omega (arith, bytes-append xs dp)

Aligned-append :
    (xs : List Dirent) (dp : Dirent)
    → Aligned xs
    → 24 ≤ dp.d_reclen
    → dp.d_reclen % 8 ≡ 0
    → Aligned (xs ++ dp ∷ [])
Aligned-append [] dp a h k = ((h, k), tt)
Aligned-append (x ∷ xs) dp a h k = (a.0, Aligned-append xs dp a.1 h k)

reclen-aligned : (n : ℕ) → (24 ≤ dirent64_reclen n) × (dirent64_reclen n % 8 ≡ 0)
unfolding dirent64_reclen
reclen-aligned n = (omega arith, omega arith)

-- What an operation answers when it answers.
abbrev Yielded : {D A : Type 0} → (A → Type 0) → Option (CallResult A × World D) → Type 0
Yielded P none = Unit {0}
Yielded P (some (ok a, w)) = P a
Yielded P (some (err e, w)) = Unit {0}

record Yields {D A : Type 0} (P : A → Type 0) (m : Op D A) : Type 0 where
  pub at : (w : World D) → Yielded P (m w)

module _ {D A : Type 0} (P : A → Type 0) where
  Yields-ret : (a : A) → P a → Yields {D = D} P (ret a)
  unfolding ret
  Yields-ret a h = record { at = λ w. h }

  Yields-if :
      (b : Bool) (m n : Op D A)
      → (b ≡ true → Yields P m)
      → (b ≡ false → Yields P n)
      → Yields P (if b then m else n)
  Yields-if true m n km kn = km refl
  Yields-if false m n km kn = kn refl

yielded :
    {D A B : Type 0} (P : B → Type 0) (o : Option (CallResult A × World D)) (f : A → Op D B)
    → ((a : A) → Yields P (f a))
    → Yielded P (and_then f o)
yielded P none f k = tt
yielded P (some (ok a, w)) f k = (k a).at w
yielded P (some (err e, w)) f k = tt

Yields-bind :
    {D A B : Type 0} (P : B → Type 0) (m : Op D A) (f : A → Op D B)
    → ((a : A) → Yields P (f a))
    → Yields P (m >>= f)
unfolding ◌>>=◌
Yields-bind P m f k = record { at = λ w. yielded P (m w) f k }

-- What an entry's copy leaves, when there is room for it.
copied-Fits :
    (room : ℕ) (dp : Dirent) (offset : ℕ) (last : Bool) (r : ℕ × ℕ) (uio : DirUio)
    → bytes uio.entries + uio.uio_resid ≤ room
    → Aligned uio.entries
    → dp.d_reclen ≤ uio.uio_resid
    → (24 ≤ dp.d_reclen) × (dp.d_reclen % 8 ≡ 0)
    → (last ≡ false) ⊎ (int_offset offset ≡ pos int32_max)
    → let c = copied dp offset r uio in
      (bytes c.1.entries + c.1.uio_resid ≤ room)
      × Aligned c.1.entries
      × ((c.0 ≢ 0) ⊎ (last ≡ false) ⊎ (c.1.uio_loffset ≡ pos int32_max))
unfolding copied
copied-Fits room dp offset last (error, moved) uio used a small shape end =
    elim (Bool-cases (error == 0)) [
      | inl fine ↦ rw (fine) (
        omega (arith, bytes-append uio.entries dp, used, small),
        Aligned-append uio.entries dp a shape.0 shape.1,
        inr end,
      )
      | inr wrong ↦ rw (wrong) (omega (arith, used), a, inl (ground (arith, wrong)))
    ]

-- The offset behind an entry: that of the end, behind the last one.
next-offset :
    (last : Bool) (d_off : ℕ)
    → (last ≡ false) ⊎ (int_offset (if last then int32_max else d_off) ≡ pos int32_max)
unfolding int_offset
next-offset true d_off = inr refl
next-offset false d_off = inl refl

module _ (uiomove : Copyout) (room : ℕ) where
  -- One entry.
  entry-Fits :
      (ino : ℕ) (de : FuseDirent) (eof : Bool) (st : DirLoop)
      → Fits room (0, st)
      → dirent64_reclen de.d_nmlen ≤ st.uio.uio_resid
      → Fits room (entry_out uiomove ino de eof st)
  unfolding entry_out made_dirent
  entry-Fits ino de eof st fits small =
      let dp = made_dirent ino de eof in
      let last = last_entry de eof in
      copied-Fits room dp (if last then int32_max else de.d_off % 2 ^ 32) last (uiomove dp st.uio)
        st.uio fits.0 fits.1 small (reclen-aligned de.d_nmlen)
        (next-offset last (de.d_off % 2 ^ 32))

module _ {D : Type 0} (env : Env D) (uiomove : Copyout) (room np : ℕ) where
  go_on-Fits :
      (next : DirLoop → Op D (ℕ × DirLoop)) (r : ℕ × DirLoop)
      → Fits room r
      → ((st : DirLoop) → Fits room (0, st) → Yields (Fits room) (next st))
      → Yields (Fits room) (go_on env uiomove next r)
  unfolding go_on
  go_on-Fits next (e, st) h k =
      Yields-if (Fits room) (e == 0) (next st) (ret (e, st))
        (λ fine. let zero_error : e ≡ 0 = ground (arith, fine) in k st (rw zero_error at h))
        (λ _. Yields-ret (Fits room) (e, st) h)

  round-Fits :
      (next : DirLoop → Op D (ℕ × DirLoop)) (st : DirLoop)
      (r : CallResult (FuseStat × FuseDirent × Bool))
      → Fits room (0, st)
      → loop_ends env uiomove st ≡ false
      → ((st' : DirLoop) → Fits room (0, st') → Yields (Fits room) (next st'))
      → Yields (Fits room) (round_entry env uiomove next np st r)
  unfolding round_entry
  round-Fits next st (err e) h more k =
      Yields-ret (Fits room) (e, st) (h.0, h.1, inr (inl (ground (arith, more))))
  round-Fits next st (ok (fa, de, eof)) h more k =
      Yields-if (Fits room) (ltb (dirent64_reclen fuse_maxfnamelen) (dirent64_reclen de.d_nmlen)) _
        _ (λ long. Yields-ret (Fits room) _ (h.0, h.1, inl (omega arith)))
        (λ short. Yields-bind (Fits room) _ _ (λ ino.
          go_on-Fits next (entry_out uiomove ino de eof st)
            (entry-Fits uiomove room ino de eof st h (ground (arith, short, more))) k))

  loop-Fits :
      (fuel : ℕ) (st : DirLoop)
      → Fits room (0, st)
      → Yields (Fits room) (readvdir_loop env uiomove fuel np st)
  unfolding readvdir_loop
  loop-Fits zero st h = record { at = λ w. tt }
  loop-Fits (suc fuel) st h = record {
    at = λ w. elim (Bool-cases (loop_ends env uiomove st)) [
      | inl ends ↦ rw (ends) ((Yields-ret (Fits room) (0, st) h).at w)
      | inr more ↦ rw (more) (
          (Yields-bind (Fits room) _ _ (λ fid. Yields-bind (Fits room) _ _ (λ r.
              round-Fits (readvdir_loop env uiomove fuel np) st r h more (loop-Fits fuel)))).at
            w)
    ];
  }

  readvdir-Yields :
      (uio : DirUio)
      → uio.entries ≡ []
      → uio.uio_resid ≤ room
      → Yields (Fits room) (fusefs_readvdir env uiomove np uio)
  unfolding fusefs_readvdir readvdir_room
  readvdir-Yields uio empty small =
      let start : bytes uio.entries + uio.uio_resid ≤ room = rw (empty) (omega arith) in
      let none_yet : Aligned uio.entries = rw (empty) tt in
      Yields-bind (Fits room) _ _ (λ _. Yields-bind (Fits room) _ _ (λ bad_fid.
        Yields-bind (Fits room) _ _ (λ _.
          Yields-if (Fits room) (at_eof env uiomove uio) _ _
            (λ _. Yields-ret (Fits room) _ (start, none_yet, inr (inl refl)))
            (λ _. Yields-bind (Fits room) _ _ (λ _. Yields-bind (Fits room) _ _ (λ _.
              loop-Fits (suc uio.uio_resid)
                (record { offset = pos_part uio.uio_loffset; eof = false; uio = uio })
                (start, none_yet, inr (inl refl))))))))

-- When fusefs_readvdir answers for a buffer with no entries, the entries that it has copied out and the room
-- that is left are together no more than the room that there was, each entry is 24 bytes long or more and a
-- multiple of 8, and where it ends without an error at the end of the directory, the offset is INT32_MAX, the
-- one that it takes for the end at the next call. So it is for any daemon and any uiomove.
pub readvdir-Fits :
    {D : Type 0} (env : Env D) (uiomove : Copyout) (np : ℕ) (uio : DirUio) (w w' : World D) (e : ℕ)
    (st : DirLoop)
    → uio.entries ≡ []
    → fusefs_readvdir env uiomove np uio w ≡ some (ok (e, st), w')
    → Fits uio.uio_resid (e, st)
readvdir-Fits env uiomove np uio w w' e st empty answer =
    rw answer at ((readvdir-Yields env uiomove uio.uio_resid np uio empty (omega arith)).at w)
