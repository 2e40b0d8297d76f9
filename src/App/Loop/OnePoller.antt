-- ===== src/App/Loop/OnePoller.antt =====
-- At most one poller runs, the one for the device that the watcher has reported last.
use abb_app.Base.{
  ◌≡◌, Bool, refl, subst, true, false, Bool-cases, inl, inr, Option, none, some, List, [], ◌∷◌,
  ◌++◌, filter, All, arith, ◌⊎◌,
}
use mathlib.Core.List.{append-nil}
use abb_app.Base.Text.{Text}
use abb_app.Adb.Watcher.{
  DeviceState, disconnected, connected, DeviceEvent, DeviceStatus, Watcher, check, observe,
  Alternate, check-Alternate, pick_online_device,
}
use abb_app.App.Loop.{
  Run, Loop, System, Step, Reach, here, more, checks, receives, polls, ends, initial, fresh, look,
  shut_down, poll_run,
}
use abb_app.App.Loop.Runs.{
  Dead, ServesBy, Serving, reported, newest, AtMostOne, Differs, Follows, poll_run-Alike, map-Dead,
  map-Serving, handle-Serving, shut_down-Dead, Follows-snoc,
}

-- The watcher.

newest-disconnected : (es : List DeviceEvent) → Alternate disconnected es → newest es ≡ none
newest-disconnected [] h = refl
newest-disconnected (e ∷ es) h = rw h.0 refl

newest-connected :
    (es : List DeviceEvent) → Alternate connected es → (x : Text) × (newest es ≡ some x)
newest-connected [] h = absurd cc
newest-connected (e ∷ es) h = (e.serial, rw h.0 refl)

-- What a call of `check` has sent.
Looked : Watcher → Watcher → Type 0
Looked w v =
    (v.events ≡ w.events)
    ⊎ ((e : DeviceEvent) × (v.events ≡ e ∷ w.events)
        × Differs (newest w.events) (reported e.state e.serial))

observe-Looked :
    (o : Option Text) (s : DeviceState) (w : Watcher)
    → Alternate s w.events
    → Looked w (observe o s w)
unfolding observe Looked
observe-Looked (some serial) disconnected w h =
    inr (_, refl, rw (newest-disconnected w.events h) tt)
observe-Looked none connected w h =
    let (x, e) = newest-connected w.events h in inr (_, refl, rw e tt)
observe-Looked (some serial) connected w h = inl refl
observe-Looked none disconnected w h = inl refl

check-Looked :
    (a : Option (List DeviceStatus)) (w : Watcher)
    → Alternate w.state w.events
    → Looked w (check a w)
unfolding check Looked
check-Looked none w h = inl refl
check-Looked (some ss) w h = observe-Looked (pick_online_device ss w.serial) w.state w h

fresh-same : (es : List DeviceEvent) → fresh es es ≡ []
unfolding fresh
fresh-same [] = refl
fresh-same (e ∷ es) = ground arith

fresh-cons : (e : DeviceEvent) (es : List DeviceEvent) → fresh (e ∷ es) es ≡ e ∷ []
unfolding fresh
fresh-cons e es = ground arith

look-Follows :
    (h : Option Text) (q old new : List DeviceEvent)
    → Follows h q (newest old)
    → (new ≡ old)
      ⊎ ((e : DeviceEvent) × (new ≡ e ∷ old) × Differs (newest old) (reported e.state e.serial))
    → Follows h (q ++ fresh new old) (newest new)
look-Follows h q old new f (inl same) = rw (same, fresh-same old, append-nil q) f
look-Follows h q old new f (inr (e, added, differs)) =
    rw (added, fresh-cons e old) (Follows-snoc h (newest old) q e f differs)

-- What holds of the threads at each time: the events alternate, the queue leads from the device that
-- `main` was told of last to the newest report, and that device is served until the program ends.
abbrev Holds : System → Type 0
Holds s =
    Alternate s.watcher.state s.watcher.events
    × (h : Option Text) × Follows h s.queue (newest s.watcher.events)
    × (s.ended ≡ false → Serving h s.loop)
    × (s.ended ≡ true → All Dead s.loop.runs)

step-Holds : {s t : System} → Step s t → Holds s → Holds t
unfolding look shut_down Looked
step-Holds (checks {s} a) (alt, h, f, on, off) = (
  check-Alternate a s.watcher alt,
  h,
  look-Follows h s.queue s.watcher.events (check a s.watcher).events f
      (check-Looked a s.watcher alt),
  on,
  off,
)
step-Holds (receives {w} {e} {es} {l} a) (alt, h, f, on, off) = (
  alt,
  reported e.state e.serial,
  f.1,
  (λ u. handle-Serving h e.state e.serial a l (on refl) f.0),
  (λ u. absurd cc),
)
step-Holds (polls {s} k devices shell done) (alt, h, f, on, off) =
    let alike = poll_run-Alike k devices shell done in
    let run = poll_run k devices shell done in
    (
      alt,
      h,
      f,
      (λ u. map-Serving run alike h s.loop (on u)),
      (λ u. map-Dead run alike s.loop.runs (off u)),
    )
step-Holds (ends {s}) (alt, h, f, on, off) =
    (alt, h, f, (λ u. absurd cc), (λ u. shut_down-Dead s.loop.runs))

Reach-Holds : {s t : System} → Reach s t → Holds s → Holds t
Reach-Holds here h = h
Reach-Holds (more r st) h = step-Holds st (Reach-Holds r h)

no_live : (rs : List Run) → All Dead rs → filter (λ (r : Run). r.live) rs ≡ []
no_live [] h = refl
no_live (r ∷ rs) h = rw h.0 (no_live rs h.1)

Serving-AtMostOne : (h : Option Text) (l : Loop) → Serving h l → AtMostOne l.runs
Serving-AtMostOne none l s = rw (no_live l.runs s) (omega arith)
Serving-AtMostOne (some x) l s = go l.runs s
  where
    go : (rs : List Run) → ServesBy x l.poller_cancel rs → AtMostOne rs
    go [] d = absurd d
    go (r ∷ rs) (live, serial, cancel, rest) = rw (live, no_live rs rest) (omega arith)

-- What is read once the program has ended, and before, when `main` has received all events: nothing, or
-- the device that the watcher has reported last.
abbrev pub Current : Bool → List DeviceEvent → Option Text → Loop → Type 0
Current true queue device l = Serving none l
Current false [] device l = Serving device l
Current false (e ∷ queue) device l = Unit

Current-Holds :
    (ended : Bool) (queue : List DeviceEvent) (h device : Option Text) (l : Loop)
    → Follows h queue device
    → (ended ≡ false → Serving h l)
    → (ended ≡ true → All Dead l.runs)
    → Current ended queue device l
Current-Holds true queue h device l f on off = off refl
Current-Holds false [] h device l f on off = subst (λ o. Serving o l) f (on refl)
Current-Holds false (e ∷ queue) h device l f on off = tt

-- From a watcher that has reported nothing on: however the calls of its `check`, the event loop, the polls and the end of the program are
-- ordered, and whatever the ADB server, the database and the phones answer: at most one poller is live;
-- once the program has ended, none is; and until then, when `main` has received all events, the live
-- poller is the one for the device that the watcher has reported last, and there is none where it has
-- reported that the device is gone.
pub one_poller :
    (w : Watcher) (s : System)
    → w.state ≡ disconnected
    → w.events ≡ []
    → Reach (initial w) s
    → AtMostOne s.loop.runs × Current s.ended s.queue (newest s.watcher.events) s.loop
one_poller w s idle none_sent reach =
    let (alt, h, f, on, off) =
      Reach-Holds reach (rw (idle, none_sent) (refl, none, refl, (λ u. tt), (λ u. absurd cc))) in
    (
      elim (Bool-cases s.ended) [
        | inl over ↦ rw (no_live s.loop.runs (off over)) (omega arith)
        | inr alive ↦ Serving-AtMostOne h s.loop (on alive)
      ],
      Current-Holds s.ended s.queue h (newest s.watcher.events) s.loop f on off,
    )
