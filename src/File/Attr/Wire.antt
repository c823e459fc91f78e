-- ===== src/File/Attr/Wire.antt =====
-- When fusefsgetattr asks the daemon, and what it leaves.
use illumos_fuse.Door.{Door}
use illumos_fuse.Calls.{ok, Ssn}
use illumos_fuse.File.{FuseNode, Mount}
use illumos_fuse.File.Attr.{
  fusefs_attrcache_remove, fusefs_attr_touchdir, fattr_to_vattr, fusefsgetattr, cached_or_otw,
  getattr_vattr, vattr_answer, fusefs_getattr_otw,
}
use illumos_fuse.File.Attr.Window.{served, expired}
use illumos_fuse.Prelude.{ℕ, ◌≤◌, ◌<◌, ◌≡◌, ap, Bool, false}

module _ {D : Type 0} (door : Door D) (iftovt : ℕ → ℕ) (fmi : Mount) (ssn : Ssn) where
  -- Before the expiry time of its attributes, a file's attributes come from the cache: the answer is
  -- the cached one, and neither the file nor the daemon changes, whether or not a signal is there.
  pub getattr-cached :
      (interrupted : Bool) (now later : ℕ) (np : FuseNode) (d : D)
      → now < np.r_attrtime
      → fusefsgetattr door iftovt fmi ssn interrupted now later np d ≡ record {
        answer = ok (fattr_to_vattr iftovt np np.r_attr);
        node = np;
        pruned = false;
        daemon = d;
      }
  unfolding fusefsgetattr cached_or_otw getattr_vattr vattr_answer
  getattr-cached interrupted now later np d h =
      ap
        (λ r.
          getattr_vattr door iftovt fmi ssn
            (cached_or_otw door iftovt fmi ssn r interrupted later np d))
        (served now np h)

  expired-otw :
      (interrupted : Bool) (now later : ℕ) (np : FuseNode) (d : D)
      → np.r_attrtime ≤ now
      → fusefsgetattr door iftovt fmi ssn interrupted now later np d
        ≡ getattr_vattr door iftovt fmi ssn
            (fusefs_getattr_otw door iftovt fmi ssn interrupted later np d)
  unfolding fusefsgetattr cached_or_otw
  expired-otw interrupted now later np d h =
      ap
        (λ r.
          getattr_vattr door iftovt fmi ssn
            (cached_or_otw door iftovt fmi ssn r interrupted later np d))
        (expired now np h)

  -- After fusefs_attrcache_remove, and after fusefs_attr_touchdir, fusefsgetattr goes to the daemon:
  -- it is fusefs_getattr_otw with its answer in the form of a vnode's attributes.
  pub removed-otw :
      (interrupted : Bool) (modified removed now later : ℕ) (np : FuseNode) (d : D)
      → removed ≤ now
      → (fusefsgetattr door iftovt fmi ssn interrupted now later
            (fusefs_attrcache_remove removed np)
            d
          ≡ getattr_vattr door iftovt fmi ssn (
              fusefs_getattr_otw door iftovt fmi ssn interrupted later
                (fusefs_attrcache_remove removed np)
                d))
        × (fusefsgetattr door iftovt fmi ssn interrupted now later
              (fusefs_attr_touchdir modified removed np)
              d
            ≡ getattr_vattr door iftovt fmi ssn (
                fusefs_getattr_otw door iftovt fmi ssn interrupted later
                  (fusefs_attr_touchdir modified removed np)
                  d))
  unfolding fusefs_attrcache_remove fusefs_attr_touchdir
  removed-otw interrupted modified removed now later np d h = (
    expired-otw interrupted now later (fusefs_attrcache_remove removed np) d h,
    expired-otw interrupted now later (fusefs_attr_touchdir modified removed np) d h,
  )
