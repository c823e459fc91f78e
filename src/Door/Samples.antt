-- ===== src/Door/Samples.antt =====
-- A daemon to run examples with: it answers everything, and counts the upcalls.
use illumos_fuse.Door.{FuseStat, DoorRet, Door}
use illumos_fuse.Prelude.{ℕ, ◌+◌, [], ◌∷◌}

abbrev pub sample_stat : FuseStat
sample_stat = record {
  st_ino = 1;
  st_size = 10000;
  st_blocks = 20;
  st_atime_sec = 5;
  st_mtime_sec = 6;
  st_ctime_sec = 7;
  st_atime_ns = 1;
  st_mtime_ns = 2;
  st_ctime_ns = 3;
  st_mode = 33188;
  st_nlink = 1;
  st_uid = 100;
  st_gid = 10;
  st_rdev = 0;
  st_blksize = 512;
}

abbrev pub sample_reply : DoorRet
sample_reply = record {
  ret_err = 0;
  ret_flags = 0;
  ret_fid = 7;
  ret_stvfs = record {
    f_blocks = 0;
    f_bfree = 0;
    f_bavail = 0;
    f_files = 0;
    f_ffree = 0;
    f_favail = 0;
    f_bsize = 512;
    f_frsize = 512;
    f_namemax = 255;
    f_flag = 0;
  };
  ret_st = sample_stat;
  ret_de = record { d_ino = 1; d_off = 1; d_nmlen = 1; d_name = b'a' ∷ 0 ∷ [] };
  ret_length = 100;
  ret_content = [];
}

abbrev pub sample_door : Door ℕ
sample_door arg d = (0, sample_reply, d + 1)
