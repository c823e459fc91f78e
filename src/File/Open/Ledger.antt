-- ===== src/File/Open/Ledger.antt =====
-- A ledger of the FIDs that are open at the daemon: a door that notes each successful open and each
-- close that it is asked for.
use illumos_fuse.Door.{
  op_open, op_opendir, op_close, op_closedir, DoorArg, path_arg, fid_arg, DoorRet, Door,
}
use illumos_fuse.Calls.{Ssn}
use illumos_fuse.File.{vdir, FuseNode}
use illumos_fuse.Prelude.{ℕ, Bool, true, false, ◌&&◌, List, [], ◌∷◌, ltb, ◌==◌, if◌then◌else◌}

-- A directory or a file, and its FID.
abbrev pub Open : Type 0
Open = Bool × ℕ

abbrev pub same_open : Open → Open → Bool
same_open (true, a) (true, b) = a == b
same_open (false, a) (false, b) = a == b
same_open (true, a) (false, b) = false
same_open (false, a) (true, b) = false

unfoldable pub remove_open : Open → List Open → List Open
remove_open o [] = []
remove_open o (x ∷ xs) = let rest = remove_open o xs in if same_open o x then xs else x ∷ rest

unfoldable pub note : DoorArg → ℕ × DoorRet → List Open → List Open
note (path_arg op_open _ _ _ _) (rc, ret) live =
    if (rc == 0) && (ret.ret_err == 0) then (false, ret.ret_fid) ∷ live else live
note (path_arg op_opendir _ _ _ _) (rc, ret) live =
    if (rc == 0) && (ret.ret_err == 0) then (true, ret.ret_fid) ∷ live else live
note (fid_arg op_close fid) r live = remove_open (false, fid) live
note (fid_arg op_closedir fid) r live = remove_open (true, fid) live
note arg r live = live

unfoldable pub ledger : {D : Type 0} → Door D → Door (D × List Open)
unfolding note
ledger door arg (d, live) = (
  (door arg d).0,
  (door arg d).1,
  ((door arg d).2, note arg ((door arg d).0, (door arg d).1) live),
)

-- The opens that a node holds in this session.
unfoldable pub held : Ssn → FuseNode → List Open
held ssn np =
    if ltb 0 np.n_fidrefs && (np.n_ssgenid == ssn.ss_genid)
    then (np.n_ovtype == vdir, np.n_fid) ∷ []
    else []
