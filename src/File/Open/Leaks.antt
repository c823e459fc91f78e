-- ===== src/File/Open/Leaks.antt =====
-- No FID of the daemon is leaked over the life of a file.
use illumos_fuse.Door.{FuseStat, Door}
use illumos_fuse.Calls.{Ssn}
use illumos_fuse.File.{vnon, FuseNode, Mount}
use illumos_fuse.File.Attr.{fusefs_attrcache_fa}
use illumos_fuse.File.Open.{
  Caller, OpenFlag, fusefs_open, fusefs_rele_fid, fusefs_close, fusefs_inactive, last_close,
}
use illumos_fuse.File.Attr.{fusefs_attrcache_remove}
use illumos_fuse.File.Open.Ledger.{Open, ledger, held}
use illumos_fuse.File.Open.Held.{
  FidsUsable, HoldsFid, open-HoldsFid, close-HoldsFid, inactive-HoldsFid,
}
use illumos_fuse.Prelude.{ℕ, ◌<◌, ◌≡◌, ◌∙◌, List, [], arith, ◌∙◌}

module _ {D : Type 0} (door : Door D) (ssn : Ssn) (iftovt : ℕ → ℕ) (fmi : Mount) where
  -- The life of a file in one session: opens, closes of what is open, new attributes, which may
  -- change its type, and the end of its use; with the daemon and the ledger.
  pub data Life : FuseNode → D × List Open → Type 0 where
    made : (np : FuseNode) (d : D) → np.n_fidrefs ≡ 0 → np.n_ovtype ≡ vnon → Life np (d, [])
    opened :
        {np : FuseNode} {d : D × List Open} (c : Caller) (flag : OpenFlag)
        → Life np d
        → Life
            (fusefs_open (ledger door) ssn c flag np d).1
            (fusefs_open (ledger door) ssn c flag np d).2
    attributed :
        {np : FuseNode} {d : D × List Open} (now : ℕ) (fap : FuseStat)
        → Life np d
        → Life (fusefs_attrcache_fa iftovt fmi now fap np) d
    closed :
        {np : FuseNode} {d : D × List Open} (c : Caller) (count now : ℕ)
        → Life np d
        → 0 < np.n_fidrefs
        → Life
            (fusefs_close (ledger door) ssn c count now np d).1
            (fusefs_close (ledger door) ssn c count now np d).2
    released :
        {np : FuseNode} {d : D × List Open} (now : ℕ)
        → Life np d
        → Life
            (fusefs_inactive (ledger door) ssn now np d).0
            (fusefs_inactive (ledger door) ssn now np d).1

  attributed-HoldsFid :
      (now : ℕ) (fap : FuseStat) (np : FuseNode) (live : List Open)
      → HoldsFid ssn np live
      → HoldsFid ssn (fusefs_attrcache_fa iftovt fmi now fap np) live
  unfolding fusefs_attrcache_fa held
  attributed-HoldsFid now fap np live h = record {
    live_held = h.live_held;
    closed = h.closed;
    untyped = h.untyped;
    usable = h.usable;
  }

  -- When the daemon never gives out the FID that stands for none, at every moment in the life of a
  -- file the FIDs that the daemon has open for it are those that the node holds: its own FID, with
  -- the type that it was opened with, while it is open in this session, and none otherwise.
  pub Life-HoldsFid :
      FidsUsable door → (np : FuseNode) (d : D × List Open) → Life np d → HoldsFid ssn np d.1
  unfolding held
  Life-HoldsFid usable np d (made _ _ no_refs untyped) = record {
    live_held = ground arith;
    closed = λ _. untyped;
    untyped = λ _. no_refs;
    usable = ground arith;
  }
  Life-HoldsFid usable np d (opened c flag l) =
      open-HoldsFid door ssn usable c flag _ _ _ (Life-HoldsFid usable _ _ l)
  Life-HoldsFid usable np d (attributed now fap l) =
      attributed-HoldsFid now fap _ _ (Life-HoldsFid usable _ _ l)
  Life-HoldsFid usable np d (closed c count now l has_open) =
      close-HoldsFid door ssn c count now _ _ _ has_open (Life-HoldsFid usable _ _ l)
  Life-HoldsFid usable np d (released now l) =
      inactive-HoldsFid door ssn now _ _ _ (Life-HoldsFid usable _ _ l)

  inactive-closes :
      (now : ℕ) (np : FuseNode) (d : D × List Open)
      → (fusefs_inactive (ledger door) ssn now np d).0.n_fidrefs ≡ 0
  unfolding fusefs_inactive fusefs_rele_fid last_close fusefs_attrcache_remove
  inactive-closes now np d = ground arith

  nothing_held : (np : FuseNode) → np.n_fidrefs ≡ 0 → held ssn np ≡ []
  unfolding held
  nothing_held np h = ground arith

  -- When the daemon never gives out the FID that stands for none, fusefs_inactive at the end of any
  -- use of a file leaves the daemon with no FID open for it.
  pub inactive-no_leak :
      FidsUsable door
      → (now : ℕ) (np : FuseNode) (d : D × List Open) → Life np d
      → (fusefs_inactive (ledger door) ssn now np d).1.1 ≡ []
  inactive-no_leak usable now np d l =
      let after = fusefs_inactive (ledger door) ssn now np d in
      (inactive-HoldsFid door ssn now np d.0 d.1 (Life-HoldsFid usable np d l)).live_held
      ∙ nothing_held after.0 (inactive-closes now np d)
