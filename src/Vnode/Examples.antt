-- ===== src/Vnode/Examples.antt =====
-- A mount with the root as node 1 and the file "/f" as node 2, whose directories may be written and not
-- searched.
use illumos_fuse.Hash.{Bytes, fusefs_getino}
use illumos_fuse.Door.{Door}
use illumos_fuse.Door.Errno.{enoent, eacces}
use illumos_fuse.Door.Samples.{sample_reply, sample_door}
use illumos_fuse.Calls.{ok, err, door_call, fusefs_call_readdir}
use illumos_fuse.Calls.Files.{fusefs_call_getattr2, fusefs_call_rename}
use illumos_fuse.File.{vreg, vdir}
use illumos_fuse.File.Samples.{files_only, sample_mount, sample_ssn, sample_node}
use illumos_fuse.Node.Cache.{Cache, link}
use illumos_fuse.Node.Cache.Find.{new_fusenode}
use illumos_fuse.RwLock.{reader, writer}
use illumos_fuse.Vnode.{
  rwlock, lkserlock, holds, holds_writer, World, Env, file, ◌>>=◌, assert, gets, fail_if, fail_code,
  ret, raise, attempt, call,
}
use illumos_fuse.Calls.Paths.{two_part_len}
use illumos_fuse.Vnode.Steps.{v_type_of, n_rpath_of}
use illumos_fuse.Vnode.Access.{vexec, vwrite, read_only, mandatory_lock, fusefs_access_rwx}
use illumos_fuse.Vnode.Access.Classes.{Grants, Unprivileged, class_bits, access_rwx-classes}
use illumos_fuse.Vnode.Create.{create_locked}
use illumos_fuse.Vnode.Create.Search.{create_calls, create-unsearched}
use illumos_fuse.Vnode.Remove.{ebusy, is_open, remove_found}
use illumos_fuse.Vnode.Remove.Removed.{Gone, Stays, sent, remove_found-outcome}
use illumos_fuse.Vnode.Lookup.{fusefslookup}
use illumos_fuse.Vnode.Rename.{rename_found}
use illumos_fuse.Vnode.Rename.Target.{rename-unset_target}
use illumos_fuse.Vnode.Readdir.{DirUio, Copyout, DirLoop, fusefs_readvdir}
use illumos_fuse.Vnode.Readdir.Entries.{Fits, readvdir-Fits}
use illumos_fuse.Vnode.Runs.{Alive}
use illumos_fuse.Prelude.{
  ℕ, suc, ◌+◌, ◌/◌, ◌%◌, ◌≡◌, refl, ◌≢◌, ◌↔◌, ◌⊎◌, Bool, true, false, none, some, [], ◌∷◌, arith,
  leb, ◌==◌, if◌then◌else◌, pos, ◌+ℤ◌,
}

-- The bits of the owner decide.
abbrev owner_policy : Bool → ℕ → ℕ → ℕ → ℕ
owner_policy is_dir owner curmode want =
    let given = curmode / 64 % 8 in
    if leb (want / 64 % 2) (given % 2)
    then if leb (want / 128 % 2) (given / 2 % 2)
      then if leb (want / 256 % 2) (given / 4 % 2) then 0 else eacces
      else eacces
    else eacces

owner_policy-plain : Unprivileged owner_policy
owner_policy-plain is_dir owner curmode want = (λ e. ground (arith, e), λ h. ground (arith, h))

abbrev root_path : Bytes
root_path = b'/' ∷ []

abbrev name : Bytes
name = b'f' ∷ []

abbrev pub env : Env ℕ
env = record {
  door = sample_door;
  ssn = sample_ssn;
  mount = sample_mount;
  fmi_root = 1;
  fmi_uid = 100;
  fmi_gid = 10;
  fmi_fmode = 384;
  fmi_dmode = 384;
  fmi_llock = false;
  fmi_largef = true;
  fmi_dead = false;
  vfs_rdonly = false;
  fusefs_fastlookup = true;
  iftovt = files_only;
  wrong_zone = false;
  crgetuid = 100;
  groupmember = λ gid. false;
  secpolicy_vnode_access2 = owner_policy;
  interrupted = λ l w. false;
  nfusenode = 10;
  kmem_cache_alloc = λ c. 9;
  others = λ np c. c;
  gethrtime = λ w. 7;
  vn_vfsrlock = λ np w. false;
  vn_mountedvfs = λ np w. false;
}

abbrev two_nodes : Cache
two_nodes = record {
  node_at = λ np.
      if np == 1
      then record new_fusenode { n_rpath = root_path; r_hashed = true }
      else record new_fusenode { n_rpath = b'/' ∷ name; r_hashed = true };
  fmi_hash = link (link (λ _. none) root_path (some 1)) (b'/' ∷ name) (some 2);
  free_queue = [];
  fusenodenew = 2;
  vfs_unmounted = false;
}

abbrev pub world : World ℕ
world = record {
  cache = two_nodes;
  file_at = λ np. if np == 1 then record sample_node { v_type = vdir } else sample_node;
  held = (rwlock 1, writer) ∷ [];
  daemon = 0;
}

-- uiomove without an error.
abbrev move_all : Copyout
move_all dp uio = (0, 0)

alive : Alive env world
alive = record { zone = refl; mounted = refl }

access_rwx-classes_example : (fusefs_access_rwx env vreg vwrite ≡ 0) ↔ (
    (read_only env vreg vwrite ≡ false)
    × (mandatory_lock env vreg vwrite ≡ false)
    × Grants (class_bits env vreg) vwrite)
access_rwx-classes_example = access_rwx-classes env owner_policy-plain vreg vwrite

no_search : fusefs_access_rwx env vdir vexec ≡ suc 12
unfolding fusefs_access_rwx
no_search = refl

may_write : fusefs_access_rwx env vdir vwrite ≡ 0
unfolding fusefs_access_rwx
may_write = refl

may_open : fusefs_access_rwx env vreg vwrite ≡ 0
unfolding fusefs_access_rwx
may_open = refl

root_is_dir : (file world 1).v_type ≡ vdir
unfolding file
root_is_dir = refl

root_locked : holds (rwlock 1) world.held ≡ true
unfolding holds
root_locked = refl

create-unsearched_example :
    create_locked env true false vwrite 1 name world ≡ create_calls env world 1 vwrite name world
create-unsearched_example =
    create-unsearched env world true false vwrite 1 12 b'f' [] alive root_is_dir root_locked
      no_search may_write may_open

remove_found-outcome_example :
    (((file world 2).v_type ≡ vdir) × (remove_found env 1 2 world ≡ some (err 1, world)))
    ⊎ (((file world 2).v_type ≢ vdir)
        × (is_open env 1 2 world ≡ true)
        × (remove_found env 1 2 world ≡ some (err ebusy, world)))
    ⊎ (((file world 2).v_type ≢ vdir)
        × (is_open env 1 2 world ≡ false)
        × (w' : World ℕ) × (remove_found env 1 2 world ≡ some ((sent env 1 2 world).0, w'))
        × (w'.daemon ≡ (sent env 1 2 world).1)
        × (Gone env 1 2 (sent env 1 2 world).0 world w'
            ⊎ Stays env 1 2 (sent env 1 2 world).0 world w'))
remove_found-outcome_example = remove_found-outcome env 1 2 world

-- A daemon that knows no file.
abbrev no_file : Door ℕ
no_file arg d = (0, record sample_reply { ret_err = enoent }, d + 1)

abbrev searchable : Env ℕ
searchable = record env { door = no_file; fmi_dmode = 448 }

missing_new :
    fusefslookup searchable false 1 name world ≡ some (err enoent, record world { daemon = 1 })
unfolding fusefslookup ◌>>=◌ assert gets fail_if fail_code ret raise attempt call file
    fusefs_call_getattr2 holds door_call v_type_of n_rpath_of two_part_len
missing_new = refl

rename-unset_target_example :
    (w : World ℕ) × (rename_found searchable 9 1 2 name world
      ≡ some ((fusefs_call_rename no_file (b'/' ∷ name) (b'/' ∷ name) name 1).0, w))
    × (w.daemon ≡ (fusefs_call_rename no_file (b'/' ∷ name) (b'/' ∷ name) name 1).1)
rename-unset_target_example =
    rename-unset_target searchable 9 1 2 enoent name world (record world { daemon = 1 }) missing_new

abbrev listing : Env ℕ
listing = record env { fusefs_fastlookup = false }

abbrev open_dir : World ℕ
open_dir = record world {
  file_at = λ np. record sample_node { v_type = vdir; n_fidrefs = 1; n_fid = 7 };
  held = (lkserlock 1, writer) ∷ (rwlock 1, reader) ∷ [];
}

abbrev buffer : DirUio
buffer = record { uio_loffset = pos 0; uio_resid = 300; entries = [] }

abbrev after_a : DirLoop
after_a = record {
  offset = 1;
  eof = false;
  uio = record {
    uio_loffset = pos 1;
    uio_resid = 276;
    entries = record { d_ino = 97; d_off = 1; d_reclen = 24; d_name = b'a' ∷ 0 ∷ [] } ∷ [];
  };
}

-- One entry, of the name "a".
listed :
    fusefs_readvdir listing move_all 1 buffer open_dir
    ≡ some (ok (0, after_a), record open_dir { daemon = 1 })
unfolding fusefs_readvdir ◌>>=◌ assert gets fail_if ret raise attempt call file fusefs_call_readdir
    door_call holds_writer ◌+ℤ◌ fusefs_getino
listed = refl

readvdir-Fits_example : Fits 300 (0, after_a)
readvdir-Fits_example =
    readvdir-Fits listing move_all 1 buffer open_dir (record open_dir { daemon = 1 }) 0 after_a refl
      listed
