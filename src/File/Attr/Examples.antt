-- ===== src/File/Attr/Examples.antt =====
-- The attribute cache at concrete values: a mount that caches files for 3 to 60 time units.
use illumos_fuse.Door.Samples.{sample_stat}
use illumos_fuse.File.Samples.{files_only, sample_mount, sample_node}
use illumos_fuse.File.Attr.Window.{attrcache_fa-served}
use illumos_fuse.File.Attr.Staleness.{first, served-not_stale}
use illumos_fuse.Prelude.{◌+◌, ◌<◌, refl, arith}

served-not_stale_example : 12 < 10 + 60
served-not_stale_example =
    served-not_stale {iftovt = files_only} {fmi = sample_mount} 12 sample_stat
      (omega arith, omega arith) (first 10 sample_stat sample_node) (omega arith)
      ((attrcache_fa-served files_only sample_mount 10 sample_stat sample_node 12 refl refl
          (omega arith)).0
        (omega arith))
