-- ===== src/File/Setattr/Examples.antt =====
-- A request to set the access time alone, at a concrete door.
use illumos_fuse.Door.Samples.{sample_door}
use illumos_fuse.File.Samples.{sample_ssn, sample_node}
use illumos_fuse.File.Setattr.{SetVattr, fusefssetattr}
use illumos_fuse.File.Setattr.Laws.{setattr-faults}
use illumos_fuse.File.Setattr.Expired.{counting, Expired, setattr-Expired}
use illumos_fuse.Prelude.{◌≡◌, ◌≢◌, ◌↔◌, false, none, some, is_some}

abbrev touch : SetVattr
touch = record {
  va_size = none;
  va_atime = some (record { tv_sec = 9; tv_nsec = 0 });
  va_mtime = none;
  va_mode = none;
  va_uid = none;
  va_gid = none;
}

setattr-faults_example :
    (fusefssetattr sample_door sample_ssn false 5 touch sample_node 0 ≡ none)
    ↔ (is_some touch.va_atime ≢ is_some touch.va_mtime)
setattr-faults_example = setattr-faults sample_door sample_ssn 5 touch sample_node 0

-- The same request with a mode instead.
abbrev remode : SetVattr
remode = record touch { va_atime = none; va_mode = some 420 }

setattr-Expired_example :
    Expired sample_door sample_ssn 5 sample_node
      (fusefssetattr (counting sample_door) sample_ssn false 5 remode sample_node (0, 0))
setattr-Expired_example = setattr-Expired sample_door sample_ssn false 5 remode sample_node 0
