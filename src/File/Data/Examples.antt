-- ===== src/File/Data/Examples.antt =====
-- A read across the end of a file of 10000 bytes, and a write, at a concrete door.
use illumos_fuse.Door.Samples.{sample_door}
use illumos_fuse.Calls.Transfer.{Uio, Uiomove, UiomoveLaws}
use illumos_fuse.File.Samples.{files_only, sample_mount, sample_ssn, sample_node}
use illumos_fuse.File.{FuseNode}
use illumos_fuse.File.Data.{IoFlag, IoCaller, read_sized, fusefs_read, fusefs_write}
use illumos_fuse.File.Data.Read.{Reads, read-Reads}
use illumos_fuse.File.Data.Eof.{StopsAt, read_sized-StopsAt}
use illumos_fuse.File.Data.Write.{Writes, write-Writes}
use illumos_fuse.Prelude.{ℕ, ◌+◌, ◌-◌, refl, false, [], arith}

-- A uiomove that never fails.
abbrev advance : ℕ → Uio → Uio
advance n uio = record {
  uio_loffset = uio.uio_loffset + (uio.uio_resid - (uio.uio_resid - n));
  uio_resid = uio.uio_resid - n;
}

abbrev pub copying : Uiomove
copying = record {
  move_in = λ buffer n uio. (0, advance n uio);
  move_out = λ n uio. (0, [], advance n uio);
}

pub copying-UiomoveLaws : UiomoveLaws copying
copying-UiomoveLaws = record {
  moves_in = λ buffer n uio. record {
    moved = omega arith;
    bounded = omega arith;
    falls = omega arith;
    complete = λ _. refl;
  };
  moves_out = λ n uio. record {
    moved = omega arith;
    bounded = omega arith;
    falls = omega arith;
    complete = λ _. refl;
  };
}

abbrev opened_node : FuseNode
opened_node = record sample_node { n_fid = 7; n_fidrefs = 1; n_ssgenid = 1 }

abbrev calm : IoCaller
calm = record {
  wrong_zone = false;
  dead = false;
  attr_interrupted = false;
  interrupted = false;
  start = 3;
  now = 3;
  later = 4;
  end = 5;
}

abbrev plain : IoFlag
plain = record { fappend = false; fsync = false; fdsync = false }

abbrev near_end : Uio
near_end = record { uio_loffset = 9900; uio_resid = 150 }

read-Reads_example : Reads near_end (
    fusefs_read sample_door copying sample_ssn files_only sample_mount 151 calm near_end opened_node
      0)
read-Reads_example =
    read-Reads sample_door copying copying-UiomoveLaws sample_ssn (omega arith) (omega arith)
      files_only sample_mount 151 calm near_end opened_node 0 refl (omega arith)

write-Writes_example : Writes 5 near_end (
    fusefs_write sample_door copying sample_ssn files_only sample_mount 151 plain calm 20000
      near_end opened_node 0)
write-Writes_example =
    write-Writes sample_door copying copying-UiomoveLaws sample_ssn (omega arith) (omega arith)
      files_only sample_mount 151 plain calm 20000 near_end opened_node 0 refl refl (omega arith)

read_sized-StopsAt_example :
    StopsAt 10000 (read_sized sample_door copying sample_ssn 151 calm near_end 10000 opened_node 0)
read_sized-StopsAt_example =
    read_sized-StopsAt sample_door copying copying-UiomoveLaws sample_ssn (omega arith)
      (omega arith) 151 calm near_end 10000 opened_node 0 (omega arith) (omega arith)
