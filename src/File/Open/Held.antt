-- ===== src/File/Open/Held.antt =====
-- A file holds at most one FID of its session, and gives it back.
use illumos_fuse.Hash.{Bytes}
use illumos_fuse.Door.{op_open, op_opendir, path_arg, Door}
use illumos_fuse.Calls.{
  CallResult, ok, err, door_call, Ssn, fusefs_call_close, fusefs_call_closedir, fid_call,
}
use illumos_fuse.Calls.Files.{fusefs_call_open, fusefs_call_opendir, whole_path_call}
use illumos_fuse.File.{vnon, vreg, vdir, fid_unused, Rights, FuseNode}
use illumos_fuse.File.Attr.{fusefs_attrcache_remove}
use illumos_fuse.File.Open.{
  Caller, OpenFlag, reuses_fid, asked_rights, have_fid, close_wire, new_fid, call_open, open_locked,
  fusefs_open, last_close, fusefs_rele_fid, fusefs_close, fusefs_inactive, rights_bits,
}
use illumos_fuse.File.Open.Ledger.{Open, remove_open, note, ledger, held}
use illumos_fuse.Prelude.{
  ℕ, ◌+◌, ◌<◌, ◌≡◌, ◌∙◌, ◌≢◌, ◌⊎◌, Bool, true, false, not, ◌&&◌, List, ◌∷◌, arith, ltb, ◌==◌,
  if◌then◌else◌, length, ◌∙◌, if_branches,
}

-- The daemon never gives out the FID that stands for none.
abbrev pub FidsUsable : {D : Type 0} → Door D → Type 0
FidsUsable {D} door = (arg : _) (d : D) → (door arg d).1.ret_fid ≢ fid_unused

-- The ledger shows what the node holds; a node has a type of open exactly while it is open.
pub record HoldsFid (ssn : Ssn) (np : FuseNode) (live : List Open) : Type 0 where
  pub live_held : live ≡ held ssn np
  pub closed : np.n_fidrefs ≡ 0 → np.n_ovtype ≡ vnon
  pub untyped : np.n_ovtype ≡ vnon → np.n_fidrefs ≡ 0
  pub usable : 0 < np.n_fidrefs → np.n_fid ≢ fid_unused

module _ {D : Type 0} (door : Door D) (ssn : Ssn) where
  close_wire-ledger :
      (vtype fid : ℕ) (d : D) (live : List Open)
      → (close_wire (ledger door) ssn vtype fid (d, live)).1 ≡ remove_open (vtype == vdir, fid) live
  unfolding close_wire fusefs_call_close fusefs_call_closedir fid_call door_call ledger note
  close_wire-ledger vtype fid d live = ground arith

  -- A successful open is noted, a failed one changes nothing.
  OpensOne : Bool → List Open → CallResult ℕ × (D × List Open) → Type 0
  OpensOne kind live (ok fid, (d, live')) = (live' ≡ (kind, fid) ∷ live) × (fid ≢ fid_unused)
  OpensOne kind live (err e, (d, live')) = (live' ≡ live) × (e ≢ 0)

  opendir-OpensOne :
      FidsUsable door
      → (rpath : Bytes) (d : D) (live : List Open)
      → OpensOne true live (fusefs_call_opendir (ledger door) rpath (d, live))
  unfolding OpensOne fusefs_call_opendir whole_path_call door_call ledger note
  opendir-OpensOne usable rpath d live =
      let usable' = usable (path_arg op_opendir 0 0 (length rpath) rpath) d in ground arith

  open-OpensOne :
      FidsUsable door
      → (rpath : Bytes) (oflags : ℕ) (d : D) (live : List Open)
      → OpensOne false live (fusefs_call_open (ledger door) rpath oflags (d, live))
  unfolding OpensOne fusefs_call_open whole_path_call door_call ledger note
  open-OpensOne usable rpath oflags d live =
      let usable' = usable (path_arg op_open oflags 0 (length rpath) rpath) d in ground arith

  call_open-OpensOne :
      FidsUsable door
      → (rights : Rights) (np : FuseNode) (d : D) (live : List Open)
      → OpensOne (np.v_type == vdir) live (call_open (ledger door) ssn rights np (d, live))
  unfolding call_open
  call_open-OpensOne usable rights np d live =
      if_kind (np.v_type == vdir) _ _ (opendir-OpensOne usable np.n_rpath d live)
        (open-OpensOne usable np.n_rpath (rights_bits rights) d live)
    where
      if_kind :
          (b : Bool) (x y : CallResult ℕ × (D × List Open))
          → OpensOne true live x
          → OpensOne false live y
          → OpensOne b live (if b then x else y)
      if_kind true x y px py = px
      if_kind false x y px py = py

  new_fid-HoldsFid :
      (rights : Rights) (np : FuseNode) (live : List Open) (r : CallResult ℕ × (D × List Open))
      → HoldsFid ssn np live
      → (np.v_type ≢ vnon)
      → ((np.n_ovtype ≡ vnon) ⊎ (np.n_ovtype ≡ np.v_type))
      → OpensOne (np.v_type == vdir) live r
      → HoldsFid ssn
          (new_fid (ledger door) ssn rights np r).1
          (new_fid (ledger door) ssn rights np r).2.1
  unfolding new_fid OpensOne have_fid held remove_open
  new_fid-HoldsFid rights np live (err e, (d, live')) h typed same (unchanged, _) = record {
    live_held = unchanged ∙ h.live_held;
    closed = h.closed;
    untyped = h.untyped;
    usable = h.usable;
  }
  new_fid-HoldsFid rights np live (ok fid, (d, live')) h typed same (added, fresh) = record {
    live_held =
        ground (arith, close_wire-ledger np.v_type np.n_fid d live', added, h.live_held, same);
    closed = ground arith;
    untyped = ground arith;
    usable = λ _. fresh;
  }

  rele_fid-HoldsFid :
      (now : ℕ) (np : FuseNode) (d : D) (live : List Open)
      → 0 < np.n_fidrefs
      → HoldsFid ssn np live
      → HoldsFid ssn
          (fusefs_rele_fid (ledger door) ssn now np (d, live)).0
          (fusefs_rele_fid (ledger door) ssn now np (d, live)).1.1
  unfolding fusefs_rele_fid last_close fusefs_attrcache_remove held remove_open
  rele_fid-HoldsFid now np d live has_open h = record {
    live_held =
        ground (arith, close_wire-ledger np.n_ovtype np.n_fid d live, h.live_held, h.usable);
    closed = ground (arith, h.closed, h.untyped);
    untyped = ground (arith, h.closed, h.untyped);
    usable = ground (arith, h.usable);
  }

  -- The number of references does not matter, as long as there is one.
  forced-HoldsFid :
      (np : FuseNode) (live : List Open)
      → HoldsFid ssn np live
      → 0 < np.n_fidrefs
      → HoldsFid ssn (record np { n_fidrefs = 1 }) live
  unfolding held
  forced-HoldsFid np live h has_open = record {
    live_held = ground (arith, h.live_held);
    closed = ground arith;
    untyped = ground (arith, h.untyped);
    usable = λ _. h.usable has_open;
  }

  -- A node, and the ledger after a call on it.
  abbrev HoldsAfter : ℕ × FuseNode × (D × List Open) → Type 0
  HoldsAfter r = HoldsFid ssn r.1 r.2.1

  again-HoldsFid :
      (flag : OpenFlag) (np : FuseNode) (live : List Open)
      → (np.v_type ≢ vnon)
      → HoldsFid ssn np live
      → reuses_fid ssn flag np ≡ true
      → HoldsFid ssn (have_fid (record np { n_fidrefs = np.n_fidrefs + 1 })) live
  unfolding reuses_fid have_fid held
  again-HoldsFid flag np live typed h reuse = record {
    live_held = ground (arith, h.live_held, h.closed, h.untyped);
    closed = ground arith;
    untyped = ground (arith, h.untyped);
    usable = λ _. h.usable (ground arith);
  }

  open_locked-HoldsAfter :
      FidsUsable door
      → (flag : OpenFlag) (np : FuseNode) (d : D) (live : List Open) → (np.v_type ≢ vnon)
      → HoldsFid ssn np live
      → HoldsAfter (open_locked (ledger door) ssn flag np (d, live))
  unfolding open_locked
  open_locked-HoldsAfter usable flag np d live typed h =
      if_branches HoldsAfter (not (np.n_ovtype == vnon) && not (np.n_ovtype == np.v_type)) _ _
        (λ _. h)
        (λ same.
          if_branches HoldsAfter (reuses_fid ssn flag np) _ _
            (λ reuse. again-HoldsFid flag np live typed h reuse)
            (λ _.
              new_fid-HoldsFid (asked_rights flag np) np live _ h typed (ground arith)
                (call_open-OpensOne usable (asked_rights flag np) np d live)))

  -- An open, whatever its outcome, keeps the books: when the ledger shows what the node holds, and
  -- the daemon never gives out the FID that stands for none, the same is so afterwards.
  pub open-HoldsFid :
      FidsUsable door
      → (c : Caller) (flag : OpenFlag) (np : FuseNode) (d : D) (live : List Open)
      → HoldsFid ssn np live
      → HoldsFid ssn
          (fusefs_open (ledger door) ssn c flag np (d, live)).1
          (fusefs_open (ledger door) ssn c flag np (d, live)).2.1
  unfolding fusefs_open
  open-HoldsFid usable c flag np d live h =
      if_branches HoldsAfter c.wrong_zone _ _ (λ _. h)
        (λ _.
          if_branches HoldsAfter c.dead _ _ (λ _. h)
            (λ _.
              if_branches HoldsAfter (not (np.v_type == vreg) && not (np.v_type == vdir)) _ _
                (λ _. h)
                (λ typed.
                  if_branches HoldsAfter c.interrupted _ _ (λ _. h)
                    (λ _. open_locked-HoldsAfter usable flag np d live (ground arith) h))))

  pub close-HoldsFid :
      (c : Caller) (count now : ℕ) (np : FuseNode) (d : D) (live : List Open)
      → 0 < np.n_fidrefs
      → HoldsFid ssn np live
      → HoldsFid ssn
          (fusefs_close (ledger door) ssn c count now np (d, live)).1
          (fusefs_close (ledger door) ssn c count now np (d, live)).2.1
  unfolding fusefs_close
  close-HoldsFid c count now np d live has_open h =
      if_branches HoldsAfter c.wrong_zone _ _ (λ _. h)
        (λ _.
          if_branches HoldsAfter (ltb 1 count) _ _ (λ _. h)
            (λ _. rele_fid-HoldsFid now np d live has_open h))

  pub inactive-HoldsFid :
      (now : ℕ) (np : FuseNode) (d : D) (live : List Open)
      → HoldsFid ssn np live
      → HoldsFid ssn
          (fusefs_inactive (ledger door) ssn now np (d, live)).0
          (fusefs_inactive (ledger door) ssn now np (d, live)).1.1
  unfolding fusefs_inactive
  inactive-HoldsFid now np d live h =
      if_branches (λ (r : FuseNode × (D × List Open)). HoldsFid ssn r.0 r.1.1) (np.n_fidrefs == 0) _
        _ (λ _. h)
        (λ has_open.
          rele_fid-HoldsFid now (record np { n_fidrefs = 1 }) d live (ground arith)
            (forced-HoldsFid np live h (ground arith)))
