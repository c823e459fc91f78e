-- ===== src/Calls/Ops/Examples.antt =====
-- The up-calls at a concrete door.
use illumos_fuse.Hash.{Bytes}
use illumos_fuse.Door.Samples.{sample_door}
use illumos_fuse.Calls.Transfer.{Uiomove}
use illumos_fuse.Calls.Paths.{two_part_len}
use illumos_fuse.Door.{maxpathlen}
use illumos_fuse.Calls.Files.Cut.{cut_delete, call_path, message, call_path-asks}
use illumos_fuse.Calls.{on_ok, door_call}
use illumos_fuse.Calls.Files.{fusefs_call_rename}
use illumos_fuse.Calls.Ops.{FuseCall, calls_rename, run_call}
use illumos_fuse.Calls.Ops.Bounds.{AsksOnce, run_call-AsksOnce}
use illumos_fuse.Prelude.{ℕ, zero, suc, ◌-◌, ◌≡◌, refl, some, [], ◌∷◌, ◌++◌, length, take}

abbrev sample_uiomove : Uiomove
sample_uiomove = record { move_in = λ buffer n uio. (0, uio); move_out = λ n uio. (0, [], uio) }

abbrev rename : FuseCall
rename = calls_rename (b'/' ∷ b'a' ∷ []) (b'/' ∷ b'd' ∷ []) (b'b' ∷ [])

run_call-AsksOnce_example :
    AsksOnce sample_door sample_uiomove 3 (run_call sample_door sample_uiomove rename 3)
run_call-AsksOnce_example = run_call-AsksOnce sample_door sample_uiomove rename 3

rename_asks : run_call sample_door sample_uiomove rename 3 ≡ (0, 4)
unfolding run_call fusefs_call_rename two_part_len door_call
rename_asks = refl

repeat : ℕ → ℕ → Bytes
repeat zero b = []
repeat (suc n) b = b ∷ repeat n b

abbrev longest_path : Bytes
longest_path = repeat 1024 b'a'

call_path-asks_example :
    call_path sample_door cut_delete longest_path 3
    ≡ some (
        on_ok
          (λ _. tt)
          (door_call sample_door
            (message cut_delete
              (length (take (maxpathlen - 1) longest_path))
              (take maxpathlen (longest_path ++ 0 ∷ [])))
            3))
call_path-asks_example = call_path-asks sample_door cut_delete longest_path 3
