-- ===== src/File/Samples.antt =====
-- A file to run examples with.
use illumos_fuse.Door.Samples.{sample_stat}
use illumos_fuse.Calls.{Ssn}
use illumos_fuse.File.{vnon, vreg, fid_unused, FuseNode, Mount}
use illumos_fuse.Prelude.{ℕ, false, [], ◌∷◌}

-- All is a regular file.
abbrev pub files_only : ℕ → ℕ
files_only mode = vreg

abbrev pub sample_mount : Mount
sample_mount = record {
  fmi_noac = false;
  fmi_acregmin = 3;
  fmi_acregmax = 60;
  fmi_acdirmin = 30;
  fmi_acdirmax = 60;
}

abbrev pub sample_ssn : Ssn
sample_ssn = record { ss_genid = 1; ss_max_iosize = 8192; ss_opts = 0 }

abbrev pub sample_node : FuseNode
sample_node = record {
  n_rpath = b'/' ∷ b'a' ∷ [];
  n_ino = 5;
  n_fid = fid_unused;
  n_fidrefs = 0;
  n_ovtype = vnon;
  n_rights = record { fread = false; fwrite = false };
  n_ssgenid = 0;
  nattrchanged = false;
  r_attr = sample_stat;
  r_attrtime = 5;
  r_mtime = 0;
  r_size = 10000;
  v_type = vreg;
  vnocache = false;
}
