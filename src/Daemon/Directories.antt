-- ===== src/Daemon/Directories.antt =====
-- The handlers for open directories. `none` is a fault: a handle that is not allocated is read.
use illumos_fuse.Hash.{Bytes}
use illumos_fuse.Door.{FuseStat, FuseDirent, DoorRet}
use illumos_fuse.Daemon.{SolLl, FuseDh, zero_ret, zero_stat, err_ret, convert_stat, c_string}
use illumos_fuse.Daemon.Library.{FuseFs, Filling, Malloc}
use illumos_fuse.Prelude.{
  ℕ, ◌+◌, ◌-◌, ◌^◌, Bool, false, not, ◌&&◌, ◌||◌, Option, none, some, [], ◌∷◌, ◌++◌, ltb, leb, ◌==◌,
  if◌then◌else◌, take, update,
}

abbrev pub enomem : ℕ
enomem = 12

-- `ret_err = -err` with err = ENOSPC, which is 28 and not negated: -28 in 32 bits.
abbrev pub minus_enospc : ℕ
minus_enospc = 2 ^ 32 - 28

-- `size = FUSE_MAX_IOSIZE`, and less towards the end of the contents: 0 for no entry.
abbrev pub readdir_size : FuseDh → ℕ → ℕ
readdir_size dh off =
    if ltb off dh.len then if ltb dh.len (off + 8192) then dh.len - off else 8192 else 0

-- "." or "..": `de->d_name[0] == '.' && (nmlen == 1 || de->d_name[1] == '.' && nmlen == 2)`
unfoldable pub is_dots : Bytes → ℕ → Bool
is_dots [] nmlen = false
is_dots (a ∷ []) nmlen = a == b'.' && nmlen == 1
is_dots (a ∷ b ∷ _) nmlen = a == b'.' && (nmlen == 1 || (b == b'.' && nmlen == 2))

-- "Need the full path for stat"
unfoldable pub entry_path : FuseDh → FuseDirent → Bytes
entry_path dh de =
    if ltb 1 dh.pathlen
    then take dh.pathlen dh.path ++ b'/' ∷ take de.d_nmlen de.d_name
    else take dh.pathlen dh.path ++ take de.d_nmlen de.d_name

-- "Copy+convert the dirent."
unfoldable pub dirent_reply : FuseDh → FuseDirent → (st_ino : ℕ) → (ret_st : FuseStat) → DoorRet
dirent_reply dh de ino st = record zero_ret {
  ret_flags = if leb dh.len de.d_off then 1 else 0;
  ret_st = st;
  ret_de = record {
    d_ino = ino;
    d_off = de.d_off;
    d_nmlen = de.d_nmlen;
    d_name = take de.d_nmlen de.d_name ++ 0 ∷ [];
  };
}

module _ {F : Type 0} (fs : FuseFs F) (m : Malloc) where
  -- dh->path gets pathlen + 1 bytes of the message.
  unfoldable pub new_dh : (pathlen : ℕ) → Bytes → (fh : ℕ) → FuseDh
  new_dh pathlen path fh = record {
    fh = fh;
    path = take (pathlen + 1) (path ++ 0 ∷ []);
    pathlen = pathlen;
    filled = false;
    len = 0;
    entry_at = λ _. record { d_ino = 0; d_off = 0; d_nmlen = 0; d_name = [] };
  }

  -- `dh` is freed again when the library refuses.
  unfoldable pub opendir_reply : ℕ → (pathlen : ℕ) → Bytes → SolLl F → ℕ × ℕ × F → DoorRet × SolLl F
  unfolding new_dh
  opendir_reply p pathlen path ll (e, fh, f) =
      if e == 0
      then (
        record zero_ret { ret_fid = p },
        record ll { userdata = f; handles = update ll.handles p (some (new_dh pathlen path fh)) },
      )
      else (err_ret e, record ll { userdata = f })

  unfoldable pub do_opendir : (pathlen : ℕ) → Bytes → SolLl F → DoorRet × SolLl F
  unfolding opendir_reply
  do_opendir pathlen path ll = elim (m.new_handle ll.handles) [
    | none ↦ (err_ret enomem, ll)
    | some p ↦
        if m.new_buffer ll.handles (pathlen + 1)
        then opendir_reply p pathlen path ll (fs.fuse_fs_opendir (c_string path) ll.userdata)
        else (err_ret enomem, ll)
  ]

  unfoldable pub do_closedir : ℕ → SolLl F → Option (DoorRet × SolLl F)
  do_closedir fid ll = elim (ll.handles fid) [
    | none ↦ none
    | some dh ↦ some (
      zero_ret,
      record ll {
        userdata = fs.fuse_fs_releasedir dh.fh ll.userdata;
        handles = update ll.handles fid none;
      },
    )
  ]

  -- The attributes for an entry, and its reply.
  unfoldable pub entry_reply : FuseDh → FuseDirent → SolLl F → ℕ × FuseStat × F → DoorRet × SolLl F
  unfolding dirent_reply convert_stat
  entry_reply dh de ll (e, st, f) =
      if e == 0
      then (dirent_reply dh de st.st_ino (convert_stat st), record ll { userdata = f })
      else (err_ret e, record ll { userdata = f })

  -- With the contents filled.
  unfoldable pub readdir_at : (off : ℕ) → FuseDh → SolLl F → DoorRet × SolLl F
  unfolding is_dots entry_path dirent_reply entry_reply
  readdir_at off dh ll =
      let de = dh.entry_at off in
      if readdir_size dh off == 0
      then (err_ret minus_enospc, ll)
      else if is_dots de.d_name de.d_nmlen
      then (dirent_reply dh de 0 zero_stat, ll)
      else if m.new_buffer ll.handles (dh.pathlen + de.d_nmlen + 2)
      then entry_reply dh de ll (fs.fuse_fs_getattr (entry_path dh de) ll.userdata)
      else (err_ret enomem, ll)

  -- Where the library did not fill the handle, the reply starts at 0 again.
  unfoldable pub readdir_filled : (fid off : ℕ) → FuseDh → SolLl F → DoorRet × SolLl F
  unfolding readdir_at
  readdir_filled fid off dh ll =
      let ll' = record ll { handles = update ll.handles fid (some dh) } in
      if dh.filled then readdir_at off dh ll' else readdir_at 0 dh ll'

  unfoldable pub readdir_fill :
      (fid off : ℕ) → FuseDh → SolLl F → ℕ × Filling × F → DoorRet × SolLl F
  unfolding readdir_filled
  readdir_fill fid off dh ll (e, filling, f) =
      let dh' = record dh {
        filled = filling.filling_filled;
        len = filling.filling_len;
        entry_at = filling.filling_at;
      } in
      if e == 0
      then readdir_filled fid off dh' (record ll { userdata = f })
      else (err_ret e, record ll { userdata = f; handles = update ll.handles fid (some dh') })

  -- "directory contents need to be refreshed on rewinddir()"
  unfoldable pub do_readdir : (fid off : ℕ) → SolLl F → Option (DoorRet × SolLl F)
  unfolding readdir_fill
  do_readdir fid off ll = elim (ll.handles fid) [
    | none ↦ none
    | some dh ↦
        if dh.filled && not (off == 0)
        then some (readdir_filled fid off dh ll)
        else some (
            readdir_fill fid off dh ll
              (fs.fuse_fs_readdir (c_string dh.path) dh.fh off ll.userdata))
  ]
