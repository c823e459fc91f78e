-- ===== src/Vfs/Mount/Examples.antt =====
-- A mount with the default options, and one that is refused.
use illumos_fuse.Door.Samples.{sample_stat}
use illumos_fuse.File.{vdir}
use illumos_fuse.File.Samples.{files_only, sample_node}
use illumos_fuse.File.Attr.{fusefs_attrcache_fa, fusefs_getattr_cache}
use illumos_fuse.File.Attr.Staleness.{first}
use illumos_fuse.Vfs.Mount.{
  MountCall, Kernel, FusefsArgs, fusefs_mount, mount_options, fusefs_root, new_fmi, minors,
  next_minor,
}
use illumos_fuse.Vfs.Mount.Minor.{next_minor-free}
use illumos_fuse.Vfs.Mount.Holds.{mount-Accounted, Accounted}
use illumos_fuse.Vfs.Mount.Times.{served-within_hour}
use illumos_fuse.Prelude.{ℕ, ◌+◌, ◌*◌, ◌<◌, ◌≡◌, refl, true, false, none, some, arith, ◌==◌, pos}

-- The minimum of files is longer than their maximum.
abbrev sample_args : FusefsArgs
sample_args = record {
  version = 1;
  noac = false;
  uid = 100;
  gid = 10;
  file_mode = 420;
  dir_mode = 493;
  acregmin = some (pos 9000);
  acregmax = none;
  acdirmin = none;
  acdirmax = none;
}

abbrev sample_env : MountCall
sample_env = record {
  secpolicy = 0;
  mvp_type = vdir;
  mvp_count = 1;
  mvp_root = false;
  copyin = some sample_args;
  remount = false;
  overlay = false;
  is_door = true;
  init_error = 0;
  zone = 0;
  in_global_zone = true;
  path_zone = 0;
  shutting_down = λ _. false;
  intr = true;
  devismounted = λ m. m == 1;
}

abbrev unmounted_world : Kernel
unmounted_world = record {
  zone_holds = λ _. 1;
  ssns = 0;
  fmis = 0;
  mountcount = 0;
  minor = 0;
  listed = 0;
  vfs_data = none;
}

mount-Accounted_example :
    (r : ℕ × Kernel) × (fusefs_mount sample_env unmounted_world ≡ some r)
    × Accounted unmounted_world r
mount-Accounted_example =
    mount-Accounted sample_env 2 unmounted_world (omega arith) refl (omega arith)

served-within_hour_example : 12 < 10 + 3600 * 1000000000
unfolding fusefs_getattr_cache fusefs_attrcache_fa mount_options
served-within_hour_example =
    served-within_hour {iftovt = files_only} sample_args 12 sample_stat
      (first 10 sample_stat sample_node) (omega arith) refl

-- A caller of another zone is refused, and an unmounted file system has no root to give.
root_of_mount :
    (fusefs_root 0 (new_fmi sample_env sample_args 0) false ≡ 0)
    × (fusefs_root 1 (new_fmi sample_env sample_args 0) false ≡ 1)
    × (fusefs_root 0 (new_fmi sample_env sample_args 0) true ≡ 5)
unfolding fusefs_root new_fmi
root_of_mount = (refl, refl, refl)

-- The last number was 0, and 1 is taken.
next_minor-free_example :
    (m : ℕ) × (next_minor (λ k. k == 1) minors 0 ≡ some m) × ((m == 1) ≡ false) × (m < minors)
next_minor-free_example = next_minor-free (λ k. k == 1) 0 2 (omega arith) refl
