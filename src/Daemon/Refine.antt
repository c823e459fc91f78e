-- ===== src/Daemon/Refine.antt =====
-- A call of fusefs_calls.c, through the door and the daemon, is an operation of the file system.
pub mod Calls
pub mod Create
pub mod Transfer
use illumos_fuse.Hash.{Bytes, dnp_sep, search_path}
use illumos_fuse.Door.{FuseStat, FuseStatvfs, Door}
use illumos_fuse.Calls.{
  CallResult, ok, err, fusefs_call_statvfs, fusefs_call_fgetattr, fusefs_call_close,
  fusefs_call_flush,
}
use illumos_fuse.Calls.Files.{
  Timespec, fusefs_call_getattr, fusefs_call_open, fusefs_call_getattr2, fusefs_call_mkdir,
  fusefs_call_chmod, fusefs_call_chown, fusefs_call_delete, fusefs_call_rmdir,
  fusefs_call_ftruncate, fusefs_call_rename, fusefs_call_utimes,
}
use illumos_fuse.Daemon.{SolLl, convert_stat}
use illumos_fuse.Daemon.Library.{FuseFs}
use illumos_fuse.Daemon.Handlers.{open_flags}
use illumos_fuse.Prelude.{ℕ, Option, some, [], ◌∷◌, ◌==◌, if◌then◌else◌}

-- The calls on files and on names, with their arguments.
pub data NameCall : Type 0 where
  name_statvfs : NameCall
  name_fgetattr name_close name_flush : (fid : ℕ) → NameCall
  name_getattr name_delete name_rmdir : (rpath : Bytes) → NameCall
  name_open name_chmod : (rpath : Bytes) (val : ℕ) → NameCall
  name_chown : (rpath : Bytes) (uid gid : ℕ) → NameCall
  name_getattr2 name_mkdir : (dname cname : Bytes) → NameCall
  name_rename : (oldpath dname cname : Bytes) → NameCall
  name_ftruncate : (fid off : ℕ) (rpath : Bytes) → NameCall
  name_utimes : (rpath : Bytes) (atime mtime : Timespec) → NameCall

-- What each gives when it succeeds.
abbrev pub Answer : NameCall → Type 0
Answer name_statvfs = FuseStatvfs
Answer (name_fgetattr _) = FuseStat
Answer (name_getattr _) = FuseStat
Answer (name_getattr2 _ _) = FuseStat
Answer (name_open _ _) = ℕ
Answer _ = Unit {0}

-- The call, through a door. `none` is a fault of the kernel module.
unfoldable pub send :
    {D : Type 0} → Door D → (c : NameCall) → D → Option (CallResult (Answer c) × D)
send door name_statvfs d = some (fusefs_call_statvfs door d)
send door (name_fgetattr fid) d = some (fusefs_call_fgetattr door fid d)
send door (name_close fid) d = some (fusefs_call_close door fid d)
send door (name_flush fid) d = some (fusefs_call_flush door fid d)
send door (name_getattr rpath) d = some (fusefs_call_getattr door rpath d)
send door (name_delete rpath) d = some (fusefs_call_delete door rpath d)
send door (name_rmdir rpath) d = some (fusefs_call_rmdir door rpath d)
send door (name_open rpath val) d = some (fusefs_call_open door rpath val d)
send door (name_chmod rpath val) d = some (fusefs_call_chmod door rpath val d)
send door (name_chown rpath uid gid) d = some (fusefs_call_chown door rpath uid gid d)
send door (name_getattr2 dname cname) d = some (fusefs_call_getattr2 door dname cname d)
send door (name_mkdir dname cname) d = some (fusefs_call_mkdir door dname cname d)
send door (name_rename oldpath dname cname) d = some (fusefs_call_rename door oldpath dname cname d)
send door (name_ftruncate fid off rpath) d = some (fusefs_call_ftruncate door fid off rpath d)
send door (name_utimes rpath a t) d = fusefs_call_utimes door rpath (some a) (some t) d

-- The path of a name in a directory.
abbrev pub full_path : Bytes → Bytes → Bytes
full_path dname cname = search_path dname (dnp_sep dname) cname

module _ {F : Type 0} (fs : FuseFs F) where
  -- What the file system says becomes the result, and the file system goes on from there.
  abbrev pub gives : {A B : Type 0} → (A → B) → SolLl F → ℕ × A × F → CallResult B × SolLl F
  gives g ll (e, a, f) = (if e == 0 then ok (g a) else err e, record ll { userdata = f })

  abbrev pub does : SolLl F → ℕ × F → CallResult (Unit {0}) × SolLl F
  does ll (e, f) = (if e == 0 then ok tt else err e, record ll { userdata = f })

  -- The operation that a call stands for, on the file system itself.
  unfoldable pub perform : (c : NameCall) → SolLl F → CallResult (Answer c) × SolLl F
  perform name_statvfs ll = gives (λ s. s) ll (fs.fuse_fs_statfs (b'/' ∷ []) ll.userdata)
  perform (name_fgetattr fid) ll = gives convert_stat ll (fs.fuse_fs_fgetattr fid ll.userdata)
  perform (name_close fid) ll = does ll (fs.fuse_fs_release fid ll.userdata)
  perform (name_flush fid) ll = does ll (fs.fuse_fs_flush fid ll.userdata)
  perform (name_getattr rpath) ll = gives convert_stat ll (fs.fuse_fs_getattr rpath ll.userdata)
  perform (name_delete rpath) ll = does ll (fs.fuse_fs_unlink rpath ll.userdata)
  perform (name_rmdir rpath) ll = does ll (fs.fuse_fs_rmdir rpath ll.userdata)
  perform (name_open rpath val) ll =
      gives (λ fh. fh) ll (fs.fuse_fs_open rpath (open_flags val) ll.userdata)
  perform (name_chmod rpath val) ll = does ll (fs.fuse_fs_chmod rpath val ll.userdata)
  perform (name_chown rpath uid gid) ll = does ll (fs.fuse_fs_chown rpath uid gid ll.userdata)
  perform (name_getattr2 dname cname) ll =
      gives convert_stat ll (fs.fuse_fs_getattr (full_path dname cname) ll.userdata)
  perform (name_mkdir dname cname) ll =
      does ll (fs.fuse_fs_mkdir (full_path dname cname) 448 ll.userdata)
  perform (name_rename oldpath dname cname) ll =
      does ll (fs.fuse_fs_rename oldpath (full_path dname cname) ll.userdata)
  perform (name_ftruncate fid off rpath) ll = does ll (
      if fid == 0
      then fs.fuse_fs_truncate rpath off ll.userdata
      else fs.fuse_fs_ftruncate rpath fid off ll.userdata)
  perform (name_utimes rpath a t) ll = does ll (fs.fuse_fs_utimens rpath a t ll.userdata)

-- What the caller is told of an operation: the answer or the error number, but for a flush and
-- for the release of a close always a success.
abbrev pub told :
    {F : Type 0} (c : NameCall) → CallResult (Answer c) × SolLl F → CallResult (Answer c) × SolLl F
told (name_flush fid) (r, ll) = (ok tt, ll)
told (name_close fid) (r, ll) = (ok tt, ll)
told name_statvfs r = r
told (name_fgetattr _) r = r
told (name_getattr _) r = r
told (name_delete _) r = r
told (name_rmdir _) r = r
told (name_open _ _) r = r
told (name_chmod _ _) r = r
told (name_chown _ _ _) r = r
told (name_getattr2 _ _) r = r
told (name_mkdir _ _) r = r
told (name_rename _ _ _) r = r
told (name_ftruncate _ _ _) r = r
told (name_utimes _ _ _) r = r
