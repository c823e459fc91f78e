-- ===== src/Daemon/Handles/Dirs.antt =====
-- do_opendir, do_readdir and do_closedir keep the handles and the ledger together.
use illumos_fuse.Hash.{Bytes}
use illumos_fuse.Door.{op_opendir, path_arg, DoorRet}
use illumos_fuse.Daemon.{SolLl, FuseDh, err_ret, c_string}
use illumos_fuse.Daemon.Library.{FuseFs, Malloc, MallocLaws, Filling}
use illumos_fuse.Daemon.Directories.{
  enomem, opendir_reply, do_opendir, do_closedir, entry_reply, readdir_at, readdir_filled,
  readdir_fill, do_readdir,
}
use illumos_fuse.File.Open.Ledger.{Open, remove_open, note}
use illumos_fuse.Prelude.{
  ℕ, ◌+◌, ◌<◌, ◌≡◌, refl, inl, inr, true, not, ◌&&◌, Option, none, some, List, arith, ◌==◌,
  if◌then◌else◌, Bool-cases, Option-cases, update, if_branches,
}
use illumos_fuse.Daemon.Handles.{count_open, Tracks}
use illumos_fuse.Daemon.Handles.Files.{count-remove_open-same, count-remove_open-other}

module _ {F : Type 0} (fs : FuseFs F) (m : Malloc) where
  opendir_reply-Tracks :
      (a b pathlen q : ℕ) (path : Bytes) (ll : SolLl F) (x : ℕ × ℕ × F) (live : List Open)
      → ll.handles q ≡ none
      → Tracks ll.handles live
      → let r = opendir_reply fs m q pathlen path ll x in
        Tracks r.1.handles (note (path_arg op_opendir a b pathlen path) (0, r.0) live)
  unfolding opendir_reply note count_open
  opendir_reply-Tracks a b pathlen q path ll (e, fh, f) live free t p =
      let old = t p in let fresh = t q in ground (arith, free)

  do_opendir-full :
      (pathlen : ℕ) (path : Bytes) (ll : SolLl F)
      → m.new_handle ll.handles ≡ none
      → do_opendir fs m pathlen path ll ≡ (err_ret enomem, ll)
  unfolding do_opendir
  do_opendir-full pathlen path ll full = rw (do_opendir, full) refl

  do_opendir-found :
      (pathlen : ℕ) (path : Bytes) (ll : SolLl F) (q : ℕ)
      → m.new_handle ll.handles ≡ some q
      → do_opendir fs m pathlen path ll ≡ (
          if m.new_buffer ll.handles (pathlen + 1)
          then opendir_reply fs m q pathlen path ll (fs.fuse_fs_opendir (c_string path) ll.userdata)
          else (err_ret enomem, ll))
  unfolding do_opendir
  do_opendir-found pathlen path ll q found = rw (do_opendir, found) refl

  pub do_opendir-Tracks :
      MallocLaws m
      → (a b pathlen : ℕ) (path : Bytes) (ll : SolLl F) (live : List Open) → Tracks ll.handles live
      → let r = do_opendir fs m pathlen path ll in
        Tracks r.1.handles (note (path_arg op_opendir a b pathlen path) (0, r.0) live)
  do_opendir-Tracks laws a b pathlen path ll live t =
      elim (Option-cases (m.new_handle ll.handles)) [
        | inl full ↦ rw (do_opendir-full pathlen path ll full) (unfold note in t)
        | inr (q, found) ↦ rw (do_opendir-found pathlen path ll q found) (
            if_branches {X = DoorRet × SolLl F}
              (λ r. Tracks r.1.handles (note (path_arg op_opendir a b pathlen path) (0, r.0) live))
              (m.new_buffer ll.handles (pathlen + 1)) _ _
              (λ _.
                opendir_reply-Tracks a b pathlen q path ll _ live
                  (laws.new_handle-fresh ll.handles q found) t)
              (λ _. unfold note in t))
      ]

  -- A handle that is open is allocated.
  tracked :
      (fid : ℕ) (handles : ℕ → Option FuseDh) (live : List Open)
      → Tracks handles live
      → 0 < count_open (true, fid) live
      → (dh : FuseDh) × (handles fid ≡ some dh)
  tracked fid handles live t h = elim (Option-cases (handles fid)) [
    | inl none_there ↦ absurd (let c = t fid in ground (arith, none_there))
    | inr found ↦ found
  ]

  closed-Tracks :
      (fid : ℕ) (handles : ℕ → Option FuseDh) (live : List Open)
      → Tracks handles live
      → 0 < count_open (true, fid) live
      → Tracks (update handles fid none) (remove_open (true, fid) live)
  closed-Tracks fid handles live t h p =
      let (dh, found) = tracked fid handles live t h in
      let once = t fid in
      elim (Bool-cases (p == fid)) [
        | inl same ↦ ground (arith, same, count-remove_open-same fid live, found)
        | inr other ↦ ground (arith, other, count-remove_open-other p fid live, t p)
      ]

  update-Tracks :
      (fid : ℕ) (dh : FuseDh) (handles : ℕ → Option FuseDh) (live : List Open)
      → Tracks handles live
      → 0 < count_open (true, fid) live
      → Tracks (update handles fid (some dh)) live
  update-Tracks fid dh handles live t h p =
      let (dh', found) = tracked fid handles live t h in let here = t p in ground (arith, found)

  readdir_filled-handles :
      (fid off : ℕ) (dh : FuseDh) (ll : SolLl F)
      → (readdir_filled fs m fid off dh ll).1.handles ≡ update ll.handles fid (some dh)
  unfolding readdir_filled readdir_at entry_reply
  readdir_filled-handles fid off dh ll = ground arith

  readdir_filled-Tracks :
      (fid off : ℕ) (dh : FuseDh) (ll : SolLl F) (live : List Open)
      → Tracks ll.handles live
      → 0 < count_open (true, fid) live
      → Tracks (readdir_filled fs m fid off dh ll).1.handles live
  readdir_filled-Tracks fid off dh ll live t h =
      rw (readdir_filled-handles fid off dh ll) (update-Tracks fid dh ll.handles live t h)

  abbrev refilled : FuseDh → Filling → FuseDh
  refilled dh filling = record dh {
    filled = filling.filling_filled;
    len = filling.filling_len;
    entry_at = filling.filling_at;
  }

  readdir_fill-Tracks :
      (fid off : ℕ) (dh : FuseDh) (ll : SolLl F) (x : ℕ × Filling × F) (live : List Open)
      → Tracks ll.handles live
      → 0 < count_open (true, fid) live
      → Tracks (readdir_fill fs m fid off dh ll x).1.handles live
  unfolding readdir_fill
  readdir_fill-Tracks fid off dh ll (e, filling, f) live t h =
      if_branches {X = DoorRet × SolLl F} (λ r. Tracks r.1.handles live) (e == 0) _ _
        (λ _.
          readdir_filled-Tracks fid off (refilled dh filling) (record ll { userdata = f }) live t h)
        (λ _. update-Tracks fid (refilled dh filling) ll.handles live t h)

  -- What a message leads to: no fault, and handles that the ledger tracks.
  abbrev pub Answered : List Open → Option (DoorRet × SolLl F) → Type 0
  Answered live o = (r : DoorRet × SolLl F) × (o ≡ some r) × Tracks r.1.handles live

  pub do_readdir-Answered :
      (fid off : ℕ) (ll : SolLl F) (live : List Open)
      → Tracks ll.handles live
      → 0 < count_open (true, fid) live
      → Answered live (do_readdir fs m fid off ll)
  unfolding do_readdir
  do_readdir-Answered fid off ll live t h =
      let (dh, found) = tracked fid ll.handles live t h in
      rw (do_readdir, found)
        (if_branches {X = Option (DoorRet × SolLl F)} (λ o. Answered live o)
          (dh.filled && not (off == 0)) _ _
          (λ _.
            (readdir_filled fs m fid off dh ll, refl, readdir_filled-Tracks fid off dh ll live t h))
          (λ _. (
            _,
            refl,
            readdir_fill-Tracks fid off dh ll
                (fs.fuse_fs_readdir (c_string dh.path) dh.fh off ll.userdata) live t h,
          )))

  pub do_closedir-Answered :
      (fid : ℕ) (ll : SolLl F) (live : List Open)
      → Tracks ll.handles live
      → 0 < count_open (true, fid) live
      → Answered (remove_open (true, fid) live) (do_closedir fs m fid ll)
  unfolding do_closedir
  do_closedir-Answered fid ll live t h =
      let (dh, found) = tracked fid ll.handles live t h in
      rw (do_closedir, found) (_, refl, closed-Tracks fid ll.handles live t h)
