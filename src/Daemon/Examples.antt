-- ===== src/Daemon/Examples.antt =====
-- The daemon with a file system of one file in memory, which has no create operation.
use illumos_fuse.Hash.{Bytes}
use illumos_fuse.Door.{op_opendir, op_readdir, FuseDirent, DoorArg, path_arg, read_arg}
use illumos_fuse.Door.Errno.{enosys}
use illumos_fuse.Door.Samples.{sample_stat, sample_reply}
use illumos_fuse.Calls.{ok}
use illumos_fuse.Calls.Files.{fusefs_call_create}
use illumos_fuse.Calls.Transfer.{Uio, Uiomove, Transfer, fusefs_call_read, fusefs_call_write}
use illumos_fuse.Calls.Paths.{two_part_len}
use illumos_fuse.Daemon.{SolLl}
use illumos_fuse.Daemon.Library.{FuseFs, Malloc, MallocLaws}
use illumos_fuse.Calls.{door_call}
use illumos_fuse.Calls.Files.{two_part_call}
use illumos_fuse.Calls.Transfer.{finish_write}
use illumos_fuse.Daemon.Handlers.{
  create_mode, do_write, write_reply, do_create, create_reply, create_mknod, create_open,
}
use illumos_fuse.Daemon.Directories.{do_opendir, opendir_reply}
use illumos_fuse.Daemon.Dispatch.{handle, sol_dispatch, daemon_door}
use illumos_fuse.Daemon.Refine.{name_rename, send, perform, full_path}
use illumos_fuse.Daemon.Refine.Calls.{IsPath2, PathsFit, send-perform}
use illumos_fuse.Daemon.Refine.Create.{create-no_fid}
use illumos_fuse.Daemon.Refine.Transfer.{Stores, write-read}
use illumos_fuse.Daemon.Handles.{Tracks, count_open}
use illumos_fuse.Daemon.Handles.Session.{
  Session, started, message, Session-Tracks, Session-no_fault,
}
use illumos_fuse.File.Open.Ledger.{Open, ledger, note}
use illumos_fuse.Prelude.{
  ℕ, ◌+◌, ◌-◌, ◌<◌, ◌≡◌, refl, ◌≢◌, inl, inr, true, false, none, some, List, [], ◌∷◌, arith,
  if◌then◌else◌, Option-cases, is_some,
}

abbrev no_entries : ℕ → FuseDirent
no_entries _ = sample_reply.ret_de

-- The contents of the file are the state.
abbrev memory_fs : FuseFs Bytes
memory_fs = record {
  fuse_fs_init = λ f. f;
  fuse_fs_destroy = λ f. f;
  fuse_fs_statfs = λ path f. (0, sample_reply.ret_stvfs, f);
  fuse_fs_fgetattr = λ fh f. (0, sample_stat, f);
  fuse_fs_getattr = λ path f. (0, sample_stat, f);
  fuse_fs_opendir = λ path f. (0, 4, f);
  fuse_fs_releasedir = λ fh f. f;
  fuse_fs_readdir = λ path fh offset f.
      (0, record { filling_filled = true; filling_len = 2; filling_at = no_entries }, f);
  fuse_fs_open = λ path flags f. (0, 5, f);
  fuse_fs_release = λ fh f. (0, f);
  fuse_fs_read = λ path fh size offset f. (ok (size, f), f);
  fuse_fs_write = λ path content fh size offset f. (ok size, content);
  fuse_fs_flush = λ fh f. (0, f);
  fuse_fs_create = λ path mode f. (enosys, 0, f);
  fuse_fs_mknod = λ path mode f. (0, []);
  fuse_fs_unlink = λ path f. (0, []);
  fuse_fs_ftruncate = λ path fh size f. (0, f);
  fuse_fs_truncate = λ path size f. (0, f);
  fuse_fs_utimens = λ path a t f. (0, f);
  fuse_fs_chmod = λ path mode f. (0, f);
  fuse_fs_chown = λ path uid gid f. (0, f);
  fuse_fs_rename = λ from to f. (0, f);
  fuse_fs_mkdir = λ path mode f. (0, f);
  fuse_fs_rmdir = λ path f. (0, f);
}

-- One block, at address 8.
abbrev one_block : Malloc
one_block = record {
  new_handle = λ handles. if is_some (handles 8) then none else some 8;
  new_buffer = λ handles size. true;
}

one_block-laws : MallocLaws one_block
one_block-laws = record {
  new_handle-fresh = λ handles p h. elim (Option-cases (handles 8)) [
    | inl free ↦ let here : 8 ≡ p = ground (arith, free, h) in rw⁻¹ here free
    | inr (dh, taken) ↦ absurd (ground (arith, taken, h))
  ];
}

memory_fs-Stores : Stores memory_fs
memory_fs-Stores = record { read-write = λ path content fh size offset f h. refl }

abbrev idle : SolLl Bytes
idle = record { userdata = []; got_destroy = false; handles = λ _. none }

abbrev dir : Bytes
dir = b'/' ∷ b'd' ∷ []

abbrev name : Bytes
name = b'x' ∷ []

rename_paths : PathsFit (name_rename dir (b'/' ∷ []) name)
unfolding two_part_len
rename_paths = (
  ((omega arith, (omega arith, tt)), omega arith),
  ((omega arith, tt), (omega arith, tt), omega arith, omega arith),
)

send-perform_example :
    send (daemon_door memory_fs one_block 5) (name_rename dir (b'/' ∷ []) name) idle
    ≡ some (perform memory_fs (name_rename dir (b'/' ∷ []) name) idle)
send-perform_example =
    send-perform memory_fs one_block 5 (name_rename dir (b'/' ∷ []) name) idle refl (rename_paths)

abbrev uio : Uio
uio = record { uio_loffset = 0; uio_resid = 3 }

-- uiomove with three bytes at the user's side.
abbrev three_bytes : Uiomove
three_bytes = record {
  move_in = λ buffer n uio.
      (0, record { uio_loffset = uio.uio_loffset + n; uio_resid = uio.uio_resid - n });
  move_out = λ n uio. (
    0,
    1 ∷ 2 ∷ 3 ∷ [],
    record { uio_loffset = uio.uio_loffset + n; uio_resid = uio.uio_resid - n },
  );
}

abbrev written : Transfer (SolLl Bytes)
written = fusefs_call_write (daemon_door memory_fs one_block 5) three_bytes 5 3 uio dir idle

abbrev read_again : Transfer (SolLl Bytes)
read_again =
    fusefs_call_read (daemon_door memory_fs one_block 5) three_bytes 5 3 uio dir written.daemon

written_whole : (written.error ≡ 0) × (written.rlen ≡ 3)
unfolding fusefs_call_write finish_write door_call daemon_door sol_dispatch handle do_write
    write_reply
written_whole = (refl, refl)

write-read_example :
    ((read_again.error, read_again.uio) ≡ three_bytes.move_in (three_bytes.move_out 3 uio).1 3 uio)
    × (read_again.rlen ≡ 3)
write-read_example =
    write-read memory_fs one_block 5 three_bytes memory_fs-Stores 5 3 uio dir idle refl
      ((omega arith, (omega arith, tt)), omega arith) (omega arith) (omega arith) written_whole.0
      written_whole.1

create_paths : IsPath2 dir name
unfolding two_part_len
create_paths = ((omega arith, (omega arith, tt)), (omega arith, tt), omega arith, omega arith)

created : fusefs_call_create (daemon_door memory_fs one_block 5) dir name 438 idle ≡ (ok 0, idle)
unfolding fusefs_call_create two_part_call two_part_len door_call daemon_door sol_dispatch handle
    do_create create_reply create_mknod create_open
created = refl

abbrev mode_sent : ℕ
mode_sent = create_mode 438

create-no_fid_example :
    (◌≡◌ {A = ℕ} 0 0)
    × (idle ≡ record idle {
      userdata =
          (memory_fs.fuse_fs_open
            (full_path dir name)
            0
            (memory_fs.fuse_fs_mknod (full_path dir name) mode_sent []).1).2;
    })
create-no_fid_example =
    create-no_fid memory_fs one_block 5 dir name 438 idle 0 idle refl create_paths refl created

-- A session that has opened a directory.
abbrev open_dir : DoorArg
open_dir = path_arg op_opendir 0 0 2 dir

abbrev with_dir : SolLl Bytes × List Open
with_dir = (ledger (daemon_door memory_fs one_block 5) open_dir (idle, [])).2

session : Session memory_fs one_block 5 with_dir.0 with_dir.1
session = message open_dir (started []) tt

alive_with_dir : with_dir.0.got_destroy ≡ false
unfolding ledger note daemon_door sol_dispatch handle do_opendir opendir_reply
alive_with_dir = refl

dir_is_open : 0 < count_open (true, 8) with_dir.1
unfolding ledger note daemon_door sol_dispatch handle do_opendir opendir_reply count_open
dir_is_open = omega arith

Session-Tracks_example : Tracks with_dir.0.handles with_dir.1
Session-Tracks_example =
    Session-Tracks memory_fs one_block 5 one_block-laws with_dir.0 with_dir.1 session alive_with_dir

Session-no_fault_example :
    sol_dispatch memory_fs one_block (read_arg op_readdir 8 0 0 0 []) with_dir.0 ≢ none
Session-no_fault_example =
    Session-no_fault memory_fs one_block 5 one_block-laws with_dir.0 with_dir.1 session
      (read_arg op_readdir 8 0 0 0 []) dir_is_open
