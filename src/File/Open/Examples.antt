-- ===== src/File/Open/Examples.antt =====
-- A file that is opened and released, at a concrete door.
use illumos_fuse.Door.Samples.{sample_door}
use illumos_fuse.File.Samples.{files_only, sample_mount, sample_ssn, sample_node}
use illumos_fuse.File.{FuseNode}
use illumos_fuse.File.Open.{Caller, OpenFlag, fusefs_open, fusefs_inactive}
use illumos_fuse.File.Open.Ledger.{Open, ledger}
use illumos_fuse.File.Open.Held.{FidsUsable, HoldsFid}
use illumos_fuse.File.Open.Leaks.{Life, made, opened, Life-HoldsFid, inactive-no_leak}
use illumos_fuse.Prelude.{ℕ, ◌≡◌, refl, true, false, List, [], arith}

abbrev here : Caller
here = record { wrong_zone = false; dead = false; interrupted = false }

abbrev for_read : OpenFlag
for_read = record { o_fread = true; o_fwrite = false; o_ftrunc = false }

sample_door-FidsUsable : FidsUsable sample_door
sample_door-FidsUsable arg d = ground arith

abbrev after_open : ℕ × FuseNode × (ℕ × List Open)
after_open = fusefs_open (ledger sample_door) sample_ssn here for_read sample_node (0, [])

after_open-Life : Life sample_door sample_ssn files_only sample_mount after_open.1 after_open.2
after_open-Life = opened here for_read (made sample_node 0 refl refl)

Life-HoldsFid_example : HoldsFid sample_ssn after_open.1 after_open.2.1
Life-HoldsFid_example =
    Life-HoldsFid sample_door sample_ssn files_only sample_mount sample_door-FidsUsable after_open.1
      after_open.2 after_open-Life

inactive-no_leak_example :
    (fusefs_inactive (ledger sample_door) sample_ssn 9 after_open.1 after_open.2).1.1 ≡ []
inactive-no_leak_example =
    inactive-no_leak sample_door sample_ssn files_only sample_mount sample_door-FidsUsable 9
      after_open.1 after_open.2 after_open-Life
