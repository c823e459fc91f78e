-- ===== src/Vnode/Readdir.antt =====
-- fusefs_readdir and fusefs_readvdir of usr/src/uts/common/fs/fusefs/fusefs_vnops.c.
pub mod Entries
use illumos_fuse.Hash.{Bytes, fusefs_getino}
use illumos_fuse.Door.{FuseStat, FuseDirent}
use illumos_fuse.Door.Errno.{eio, ebadf, einval}
use illumos_fuse.Calls.{CallResult, ok, err, fusefs_call_readdir}
use illumos_fuse.File.{fid_unused}
use illumos_fuse.RwLock.{reader, writer}
use illumos_fuse.Vnode.{
  Lock, rwlock, lkserlock, holds_reader, holds_writer, World, Env, Op, file, ret, raise, gets,
  attempt, call, fail_if, assert, with_lock, check_mount, ◌>>=◌, ◌>>◌,
}
use illumos_fuse.Vnode.Access.{vread, fusefs_access}
use illumos_fuse.Vnode.Steps.{n_rpath_of, vn_rele, nget}
use illumos_fuse.Vnode.Lookup.{fuse_maxfnamelen, is_dot, is_dotdot, fusefslookup}
use illumos_fuse.Prelude.{
  ℕ, zero, suc, ◌+◌, ◌-◌, ◌*◌, ◌/◌, ◌%◌, ◌^◌, Bool, true, false, not, ◌&&◌, ◌||◌, none, List, [],
  ◌∷◌, ◌++◌, ltb, ◌==◌, if◌then◌else◌, take, ℤ, pos, negsuc, pos_part, ◌+ℤ◌, ltb_ℤ,
}

abbrev pub int32_max : ℕ
int32_max = 2 ^ 31 - 1

-- DIRENT64_RECLEN: the name starts at byte 18, ends with a NUL, and the length is a multiple of 8.
unfoldable pub dirent64_reclen : ℕ → ℕ
dirent64_reclen namelen = (18 + 1 + namelen + 7) / 8 * 8

-- dirent64_t, as it is copied out
pub record Dirent : Type 0 where
  pub d_ino : ℕ
  pub d_off : ℕ
  pub d_reclen : ℕ
  pub d_name : Bytes

-- uio_t, with the entries that were copied out.
pub record DirUio : Type 0 where
  pub uio_loffset : ℤ
  pub uio_resid : ℕ
  pub entries : List Dirent

-- uiomove of an entry: an error number, and the bytes that were moved before an error.
abbrev pub Copyout : Type 0
Copyout = Dirent → DirUio → ℕ × ℕ

-- The variables of the loop; `offset` is an int, kept as its 32 bits.
pub record DirLoop : Type 0 where
  pub offset : ℕ
  pub eof : Bool
  pub uio : DirUio

-- An int as an offset_t, and as the uint64_t of a message.
unfoldable pub int_offset : ℕ → ℤ
int_offset x = if ltb x (2 ^ 31) then pos x else negsuc (2 ^ 32 - 1 - x)

unfoldable pub int_u64 : ℕ → ℕ
int_u64 x = if ltb x (2 ^ 31) then x else 2 ^ 64 - 2 ^ 32 + x

-- "What's the next offset?" Whether the entry is the last one.
unfoldable pub last_entry : FuseDirent → (eof : Bool) → Bool
last_entry de eof = (de.d_off % 2 ^ 32 == 0) || eof

unfoldable pub made_dirent : (ino : ℕ) → FuseDirent → (eof : Bool) → Dirent
unfolding dirent64_reclen last_entry
made_dirent ino de eof = record {
  d_ino = ino;
  d_off = if last_entry de eof then 0 else de.d_off;
  d_reclen = dirent64_reclen de.d_nmlen;
  d_name = de.d_name;
}

-- From uiomove on.
unfoldable pub copied : Dirent → (offset : ℕ) → ℕ × ℕ → DirUio → ℕ × DirUio
unfolding int_offset
copied dp offset (error, moved) uio =
    if error == 0
    then (
      0,
      record {
        uio_loffset = int_offset offset;
        uio_resid = uio.uio_resid - dp.d_reclen;
        entries = uio.entries ++ dp ∷ [];
      },
    )
    else (
      error,
      record uio { uio_loffset = uio.uio_loffset +ℤ pos moved; uio_resid = uio.uio_resid - moved },
    )

module _ (uiomove : Copyout) where
  -- What is left of a round when the entry and its inode number are there: the error, and the loop's variables.
  unfoldable pub entry_out : (ino : ℕ) → FuseDirent → (eof : Bool) → DirLoop → ℕ × DirLoop
  unfolding made_dirent copied last_entry
  entry_out ino de eof st =
      let dp = made_dirent ino de eof in
      let offset = if last_entry de eof then int32_max else de.d_off % 2 ^ 32 in
      let r = copied dp offset (uiomove dp st.uio) st.uio in
      (r.0, record { offset = offset; eof = last_entry de eof; uio = r.1 })

module _ {D : Type 0} (env : Env D) (uiomove : Copyout) where
  unfoldable pub found_ino : ℕ → Bytes → CallResult ℕ → Op D ℕ
  unfolding vn_rele
  found_ino np name (ok newvp) = do
    ino ← gets (λ w. (w.cache.node_at newvp).n_ino)
    vn_rele env newvp
    ret ino
  found_ino np name (err e) =
      gets (λ w. fusefs_getino (w.cache.node_at np).n_ino (w.cache.node_at np).n_rpath name)

  -- "We don't get the stat info with . or .. but fusefslookup can get it for us."
  unfoldable pub entry_node : ℕ → Bytes → FuseStat → Op D ℕ
  unfolding fusefslookup nget is_dot is_dotdot
  entry_node np name fa =
      if is_dot name || is_dotdot name
      then fusefslookup env true np name
      else if env.fusefs_fastlookup
      then nget env np name fa
      else raise 0

  unfoldable pub entry_ino : ℕ → Bytes → FuseStat → Op D ℕ
  unfolding entry_node found_ino
  entry_ino np name fa = do newvp ← attempt (entry_node np name fa); found_ino np name newvp

  -- `next` is the loop.
  unfoldable pub go_on : (DirLoop → Op D (ℕ × DirLoop)) → ℕ × DirLoop → Op D (ℕ × DirLoop)
  go_on next (error, st) = if error == 0 then next st else ret (error, st)

  unfoldable pub round_entry :
      (DirLoop → Op D (ℕ × DirLoop))
      → ℕ
      → DirLoop
      → CallResult (FuseStat × FuseDirent × Bool)
      → Op D (ℕ × DirLoop)
  unfolding go_on entry_out entry_ino
  round_entry next np st (err e) = ret (e, st)
  round_entry next np st (ok (fa, de, eof)) =
      if ltb (dirent64_reclen fuse_maxfnamelen) (dirent64_reclen de.d_nmlen)
      then ret (eio, record st { eof = eof })
      else do
        ino ← entry_ino np (take de.d_nmlen de.d_name) fa
        go_on next (entry_out uiomove ino de eof st)

  abbrev pub loop_ends : DirLoop → Bool
  loop_ends st = st.eof || ltb st.uio.uio_resid (dirent64_reclen fuse_maxfnamelen)

  -- "While there's room in the caller's buffer", on fuel. `error` and the variables.
  unfoldable pub readvdir_loop : (fuel : ℕ) → ℕ → DirLoop → Op D (ℕ × DirLoop)
  unfolding round_entry
  readvdir_loop zero np st w = none
  readvdir_loop (suc fuel) np st w =
      if loop_ends st
      then ret (0, st) w
      else (do
        fid ← gets (λ w. (file w np).n_fid)
        entry ← attempt (call (fusefs_call_readdir env.door fid (int_u64 st.offset)))
        round_entry (readvdir_loop fuel np) np st entry)
          w

  -- The tests before the loop: the offset is one that an int has.
  unfoldable pub bad_offset : DirUio → Bool
  bad_offset uio =
      ltb_ℤ uio.uio_loffset (pos 0)
      || (ltb_ℤ (pos int32_max) uio.uio_loffset
          || ltb_ℤ (pos int32_max) (uio.uio_loffset +ℤ pos uio.uio_resid))

  -- Every round moves an entry, so that one round for each byte is enough.
  unfoldable pub readvdir_room : ℕ → DirUio → Op D (ℕ × DirLoop)
  unfolding readvdir_loop bad_offset
  readvdir_room np uio = do
    fail_if (bad_offset uio) einval
    fail_if (ltb uio.uio_resid (dirent64_reclen fuse_maxfnamelen)) einval
    readvdir_loop (suc uio.uio_resid) np
        (record { offset = pos_part uio.uio_loffset; eof = false; uio = uio })

  abbrev pub at_eof : DirUio → Bool
  at_eof uio =
      not (ltb_ℤ uio.uio_loffset (pos int32_max)) && not (ltb_ℤ (pos int32_max) uio.uio_loffset)

  -- The error, *eofp and the uio. An error that is raised leaves *eofp and the uio as they are, and so does "an
  -- EOF offset".
  unfoldable pub fusefs_readvdir : ℕ → DirUio → Op D (ℕ × DirLoop)
  unfolding readvdir_room
  fusefs_readvdir np uio = do
    assert (holds_writer (lkserlock np))
    bad_fid ← gets (λ w. (file w np).n_fidrefs == 0 || ((file w np).n_fid == fid_unused))
    fail_if bad_fid ebadf
    if at_eof uio
        then ret (0, record { offset = 0; eof = false; uio = uio })
        else readvdir_room np uio

  unfoldable pub fusefs_readdir : ℕ → DirUio → Op D (ℕ × DirLoop)
  unfolding fusefs_readvdir fusefs_access check_mount with_lock
  fusefs_readdir np uio = do
    check_mount env eio
    fusefs_access env np vread
    assert (holds_reader (rwlock np))
    with_lock env (lkserlock np) writer (fusefs_readvdir np uio)
