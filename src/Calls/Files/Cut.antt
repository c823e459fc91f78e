-- ===== src/Calls/Files/Cut.antt =====
-- The up-calls of fusefs_calls.c that cut a long path.
use illumos_fuse.Hash.{Bytes}
use illumos_fuse.Door.{
  op_chmod, op_chown, op_delete, op_rmdir, DoorArg, path_arg, ftrunc_arg, utimes_arg, Door,
  maxpathlen,
}
use illumos_fuse.Calls.{CallResult, on_ok, door_call}
use illumos_fuse.Calls.Files.{
  Timespec, fusefs_call_chmod, fusefs_call_chown, fusefs_call_delete, fusefs_call_rmdir,
  fusefs_call_ftruncate, fusefs_call_utimes,
}
use illumos_fuse.Calls.Paths.{clip_pathlen, memcpy_string}
use illumos_fuse.Calls.Paths.Laws.{sent_bytes, sent_length}
use illumos_fuse.Prelude.{ℕ, ◌+◌, ◌-◌, ◌≡◌, ap, ◌∙◌, Option, some, [], ◌∷◌, ◌++◌, length, take, ◌∙◌}

-- The calls with their arguments, but for the path.
pub data CutCall : Type 0 where
  cut_delete cut_rmdir : CutCall
  cut_chmod : (mode : ℕ) → CutCall
  cut_chown : (uid gid : ℕ) → CutCall
  cut_ftruncate : (fid off : ℕ) → CutCall
  cut_utimes : (atime mtime : Timespec) → CutCall

unfoldable pub call_path :
    {D : Type 0} → Door D → CutCall → Bytes → D → Option (CallResult (Unit {0}) × D)
call_path door cut_delete rpath d = some (fusefs_call_delete door rpath d)
call_path door cut_rmdir rpath d = some (fusefs_call_rmdir door rpath d)
call_path door (cut_chmod mode) rpath d = some (fusefs_call_chmod door rpath mode d)
call_path door (cut_chown uid gid) rpath d = some (fusefs_call_chown door rpath uid gid d)
call_path door (cut_ftruncate fid off) rpath d = some (fusefs_call_ftruncate door fid off rpath d)
call_path door (cut_utimes a t) rpath d = fusefs_call_utimes door rpath (some a) (some t) d

-- The message of each, with the length of the path and its bytes.
abbrev pub message : CutCall → (rplen : ℕ) → Bytes → DoorArg
message cut_delete rplen path = path_arg op_delete 0 0 rplen path
message cut_rmdir rplen path = path_arg op_rmdir 0 0 rplen path
message (cut_chmod mode) rplen path = path_arg op_chmod mode 0 rplen path
message (cut_chown uid gid) rplen path = path_arg op_chown uid gid rplen path
message (cut_ftruncate fid off) rplen path = ftrunc_arg fid off rplen path
message (cut_utimes a t) rplen path = utimes_arg a.tv_sec t.tv_sec a.tv_nsec t.tv_nsec rplen path

-- The message that is made, and the one that is described.
sent :
    {D : Type 0} (door : Door D) (c : CutCall) (rpath : Bytes) (d : D)
    → on_ok
        (λ _. tt)
        (door_call door
          (message c
            (clip_pathlen (length rpath))
            (memcpy_string (clip_pathlen (length rpath) + 1) rpath))
          d)
      ≡ on_ok
          (λ _. tt)
          (door_call door
            (message c (length (take (maxpathlen - 1) rpath)) (take maxpathlen (rpath ++ 0 ∷ [])))
            d)
sent door c rpath d =
    ap (λ bytes. on_ok (λ _. tt) (door_call door (message c (clip_pathlen (length rpath)) bytes) d))
      (sent_bytes rpath)
    ∙ ap (λ n. on_ok (λ _. tt) (door_call door (message c n (take maxpathlen (rpath ++ 0 ∷ []))) d))
        (sent_length rpath)

-- Deleting a file or a directory, and setting its mode, owner, size or times, makes one upcall for any path, and never
-- refuses one that is too long. The message has the first MAXPATHLEN bytes of the path and its NUL, so that it has no
-- NUL for a path of MAXPATHLEN bytes or more, and says that the path is as long as its first MAXPATHLEN - 1 bytes.
pub call_path-asks :
    {D : Type 0} (door : Door D) (c : CutCall) (rpath : Bytes) (d : D)
    → call_path door c rpath d
      ≡ some (
          on_ok
            (λ _. tt)
            (door_call door
              (message c (length (take (maxpathlen - 1) rpath)) (take maxpathlen (rpath ++ 0 ∷ [])))
              d))
unfolding call_path
call_path-asks door cut_delete rpath d =
    unfold fusefs_call_delete in ap some (sent door (cut_delete) rpath d)
call_path-asks door cut_rmdir rpath d =
    unfold fusefs_call_rmdir in ap some (sent door (cut_rmdir) rpath d)
call_path-asks door (cut_chmod mode) rpath d =
    unfold fusefs_call_chmod in ap some (sent door (cut_chmod mode) rpath d)
call_path-asks door (cut_chown uid gid) rpath d =
    unfold fusefs_call_chown in ap some (sent door (cut_chown uid gid) rpath d)
call_path-asks door (cut_ftruncate fid off) rpath d =
    unfold fusefs_call_ftruncate in ap some (sent door (cut_ftruncate fid off) rpath d)
call_path-asks door (cut_utimes a t) rpath d =
    unfold fusefs_call_utimes in ap some (sent door (cut_utimes a t) rpath d)
