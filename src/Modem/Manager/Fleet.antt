-- ===== src/Modem/Manager/Fleet.antt =====
-- internal/modem/manager.go: the goroutines that scan starts, as steps. A step is a critical section
-- under `mu`, or the return of Init or of Run of a worker.
pub mod Counts
pub mod Turns
pub mod OneWorker
pub mod Scans
use abb_app.Base.{ℕ, zero, suc, ◌+◌, ◌≡◌, Bool, true, false, List, [], ◌∷◌, ◌++◌, if◌then◌else◌}
use abb_app.Base.Text.{Text}
use abb_app.Modem.Manager.{Manager, skips, forget_absent, backoff, init_succeeded, worker_stopped}

-- Where a goroutine is: in Init, in Run, or at the deferred delete.
pub data Phase : Type 0 where
  initialising working leaving : Phase

pub record Job : Type 0 where
  pub usb : Text
  pub phase : Phase

-- A call of OnConnect or of OnDisconnect.
pub record Notice : Type 0 where
  pub about : Text
  pub connects : Bool

-- The manager, its goroutines, the calls of its hooks, newest first, and whether the context has ended.
pub record Fleet : Type 0 where
  pub manager : Manager
  pub jobs : List Job
  pub notices : List Notice
  pub ended : Bool

-- The start of a worker in `scan`.
abbrev pub mark_running : Text → Manager → Manager
mark_running usb m = record m { running = usb ∷ m.running }

pub data Step : Fleet → Fleet → Type 0 where
  -- The first section of `scan`, for the modems that are present.
  forgets :
      {f : Fleet} (present : List Text)
      → Step f (record f { manager = forget_absent present f.manager.fails f.manager })
  -- The section for one candidate that is not skipped.
  starts :
      {f : Fleet} (usb : Text)
      → skips usb f.manager ≡ false
      → Step f (record f {
        manager = mark_running usb f.manager;
        jobs = record { usb = usb; phase = initialising } ∷ f.jobs;
      })
  -- Init fails: the backoff, unless the context has ended.
  init_fails :
      {m : Manager} (usb : Text) (before after : List Job) {ns : List Notice} {ended : Bool}
      → Step
          (record {
            manager = m;
            jobs = before ++ record { usb = usb; phase = initialising } ∷ after;
            notices = ns;
            ended = ended;
          })
          (record {
            manager = if ended then m else (backoff usb m).1;
            jobs = before ++ record { usb = usb; phase = leaving } ∷ after;
            notices = ns;
            ended = ended;
          })
  -- Init succeeds.
  connects :
      {m : Manager} (usb : Text) (before after : List Job) {ns : List Notice} {ended : Bool}
      → Step
          (record {
            manager = m;
            jobs = before ++ record { usb = usb; phase = initialising } ∷ after;
            notices = ns;
            ended = ended;
          })
          (record {
            manager = init_succeeded usb m;
            jobs = before ++ record { usb = usb; phase = working } ∷ after;
            notices = record { about = usb; connects = true } ∷ ns;
            ended = ended;
          })
  -- Run returns: the hook is called, unless the context has ended.
  run_returns :
      {m : Manager} (usb : Text) (before after : List Job) {ns : List Notice} {ended : Bool}
      → Step
          (record {
            manager = m;
            jobs = before ++ record { usb = usb; phase = working } ∷ after;
            notices = ns;
            ended = ended;
          })
          (record {
            manager = m;
            jobs = before ++ record { usb = usb; phase = leaving } ∷ after;
            notices = if ended then ns else record { about = usb; connects = false } ∷ ns;
            ended = ended;
          })
  -- The deferred delete.
  leaves :
      {m : Manager} (usb : Text) (before after : List Job) {ns : List Notice} {ended : Bool}
      → Step
          (record {
            manager = m;
            jobs = before ++ record { usb = usb; phase = leaving } ∷ after;
            notices = ns;
            ended = ended;
          })
          (record {
            manager = worker_stopped usb m;
            jobs = before ++ after;
            notices = ns;
            ended = ended;
          })
  -- Time passes.
  waits :
      {f : Fleet} (d : ℕ)
      → Step f (record f { manager = record f.manager { now = f.manager.now + d } })
  ends : {f : Fleet} → Step f (record f { ended = true })

pub data Reach : Fleet → Fleet → Type 0 where
  here : {f : Fleet} → Reach f f
  more : {f g h : Fleet} → Reach f g → Step g h → Reach f h

-- NewManager
abbrev pub initial : ℕ → ℕ → Fleet
initial watch_interval now = record {
  manager = record {
    watch_interval = watch_interval;
    running = [];
    fails = [];
    retry_at = [];
    now = now;
  };
  jobs = [];
  notices = [];
  ended = false;
}
