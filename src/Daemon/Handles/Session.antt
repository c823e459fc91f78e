-- ===== src/Daemon/Handles/Session.antt =====
-- The daemon under any sequence of messages that uses only open directories.
use illumos_fuse.Door.{
  op_opendir, op_closedir, op_readdir, DoorArg, fid_arg, path_arg, read_arg, DoorRet,
}
use illumos_fuse.Daemon.{SolLl, err_ret}
use illumos_fuse.Daemon.Library.{FuseFs, Malloc, MallocLaws}
use illumos_fuse.Daemon.Dispatch.{handle, sol_dispatch, daemon_door}
use illumos_fuse.File.Open.Ledger.{Open, note, ledger}
use illumos_fuse.Prelude.{
  ℕ, ◌<◌, ◌≡◌, refl, ◌∙◌, ◌≢◌, inl, inr, true, false, Option, none, some, List, [], arith,
  Bool-cases, ◌∙◌,
}
use illumos_fuse.Daemon.Handles.{count_open, Tracks}
use illumos_fuse.Daemon.Refine.Calls.{dispatched}
use illumos_fuse.Door.Errno.{esrch}
use illumos_fuse.Daemon.Handles.Files.{IsFileArg, Keeps, handle-Keeps, note-Keeps}
use illumos_fuse.Daemon.Handles.Dirs.{do_opendir-Tracks, do_readdir-Answered, do_closedir-Answered}

-- A directory is read and closed only while it is open.
abbrev pub MayAsk : List Open → DoorArg → Type 0
MayAsk live (fid_arg op_closedir fid) = 0 < count_open (true, fid) live
MayAsk live (read_arg op_readdir fid offset len pathlen path) = 0 < count_open (true, fid) live
MayAsk live _ = Unit {0}

module _ {F : Type 0} (fs : FuseFs F) (m : Malloc) (crash : ℕ) where
  -- The daemon and the ledger, over a session.
  pub data Session : SolLl F → List Open → Type 0 where
    started :
        (f : F) → Session (record { userdata = f; got_destroy = false; handles = λ _. none }) []
    message :
        {ll : SolLl F} {live : List Open} (arg : DoorArg)
        → Session ll live
        → MayAsk live arg
        → Session
            (ledger (daemon_door fs m crash) arg (ll, live)).2.0
            (ledger (daemon_door fs m crash) arg (ll, live)).2.1

  kept :
      (ll : SolLl F) (o : Option (DoorRet × SolLl F))
      → Keeps fs m ll o
      → (r : DoorRet × SolLl F) × (o ≡ some r) × (r.1.handles ≡ ll.handles)
  kept ll none h = absurd h
  kept ll (some r) h = (r, refl, h)

  file-Answered :
      (arg : DoorArg) (ll : SolLl F) (live : List Open)
      → IsFileArg fs m arg
      → Tracks ll.handles live
      → (r : DoorRet × SolLl F) × (handle fs m arg ll ≡ some r)
        × Tracks r.1.handles (note arg (0, r.0) live)
  file-Answered arg ll live file t =
      let (r, answer, same) = kept ll (handle fs m arg ll) (handle-Keeps fs m arg ll file) in
      (r, answer, λ p. rw (same, note-Keeps fs m arg (0, r.0) live p file) (t p))

  handle-Answered :
      MallocLaws m
      → (arg : DoorArg) (ll : SolLl F) (live : List Open) → Tracks ll.handles live
      → MayAsk live arg
      → (r : DoorRet × SolLl F) × (handle fs m arg ll ≡ some r)
        × Tracks r.1.handles (note arg (0, r.0) live)
  unfolding handle note
  handle-Answered laws (fid_arg op_closedir fid) ll live t h =
      do_closedir-Answered fs m fid ll live t h
  handle-Answered laws (read_arg op_readdir fid offset len pathlen path) ll live t h =
      do_readdir-Answered fs m fid offset ll live t h
  handle-Answered laws (path_arg op_opendir a b pathlen path) ll live t h =
      (_, refl, do_opendir-Tracks fs m laws a b pathlen path ll live t)
  handle-Answered laws arg ll live t h = file-Answered arg ll live tt t

  -- After the destroy message, nothing is looked at.
  destroyed-answer :
      (arg : DoorArg) (ll : SolLl F)
      → ll.got_destroy ≡ true
      → sol_dispatch fs m arg ll ≡ some (err_ret esrch, ll)
  unfolding sol_dispatch
  destroyed-answer arg ll gone = rw (sol_dispatch, gone) refl

  step-Tracks :
      MallocLaws m
      → (arg : DoorArg) (ll : SolLl F) (live : List Open)
      → (ll.got_destroy ≡ false → Tracks ll.handles live)
      → MayAsk live arg
      → let after = (ledger (daemon_door fs m crash) arg (ll, live)).2 in
        after.0.got_destroy ≡ false → Tracks after.0.handles after.1
  unfolding ledger daemon_door
  step-Tracks laws arg ll live t h = elim (Bool-cases ll.got_destroy) [
    | inl gone ↦
        rw (daemon_door, destroyed-answer arg ll gone)
          (λ alive. absurd (ground (arith, gone, alive)))
    | inr alive ↦
        let (r, answer, t') = handle-Answered laws arg ll live (t alive) h in
        rw (daemon_door, dispatched fs m crash arg ll alive ∙ answer) (λ _. t')
  ]

  -- With a malloc that gives out new blocks, at every moment of a session, before the destroy message the
  -- directory handles that the daemon has allocated are exactly the directories that the kernel module has
  -- open, each once.
  pub Session-Tracks :
      MallocLaws m
      → (ll : SolLl F) (live : List Open) → Session ll live
      → ll.got_destroy ≡ false
      → Tracks ll.handles live
  unfolding count_open
  Session-Tracks laws ll live (started f) alive = λ p. refl
  Session-Tracks laws ll live (message arg s h) alive =
      step-Tracks laws arg _ _ (Session-Tracks laws _ _ s) h alive

  -- With a malloc that gives out new blocks, a session that reads and closes directories only while they are
  -- open never makes the daemon fault: every message of it gets an answer.
  pub Session-no_fault :
      MallocLaws m
      → (ll : SolLl F) (live : List Open) → Session ll live
      → (arg : DoorArg) → MayAsk live arg
      → sol_dispatch fs m arg ll ≢ none
  Session-no_fault laws ll live s arg h = elim (Bool-cases ll.got_destroy) [
    | inl gone ↦ rw (destroyed-answer arg ll gone) (ground arith)
    | inr alive ↦
        let (r, answer, _) =
          handle-Answered laws arg ll live (Session-Tracks laws ll live s alive) h in
        rw (dispatched fs m crash arg ll alive ∙ answer) (ground arith)
  ]
