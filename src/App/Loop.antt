-- ===== src/App/Loop.antt =====
-- cmd/abb/main.go: the event loop of `main`, which starts and stops the poller of the phone, and the
-- watcher that sends it the events (internal/adb/watcher.go).
pub mod Runs
pub mod OnePoller
use abb_app.Base.{
  ℕ, ◌≡◌, Bool, true, false, ◌&&◌, Option, none, some, List, [], ◌∷◌, ◌++◌, ◌==◌, length, map,
  if◌then◌else◌,
}
use abb_app.Base.Text.{Text, text_eq, trim_space}
use abb_app.Base.Assoc.{Assoc}
use abb_app.Db.Session.{Outcome, ok, err}
use abb_app.Adb.Watcher.{
  DeviceState, disconnected, connected, DeviceEvent, DeviceStatus, Watcher, check,
}
use abb_app.Adb.Poller.{Poller, SmsCmd, full, poll}
use abb_app.App.Start.{start_id}

-- A listed device, with what it answers to FetchMaxAndroidID, to the `getprop` of fetchDeviceName and to
-- FetchSimInfo.
pub record Phone : Type 0 where
  pub serial : Text
  pub max_id : Outcome ℕ
  pub model : Outcome Text
  pub sims : Outcome (Assoc Text)

-- What the handler of an event is answered: by DeviceList and by GetMaxAndroidID.
pub record Answers : Type 0 where
  pub devices : Outcome (List Phone)
  pub stored : Outcome ℕ

-- fetchDeviceName, for the answer of `getprop`.
abbrev pub fetch_device_name : Outcome Text → Text
fetch_device_name (err e) = []
fetch_device_name (ok out) = trim_space out

-- FetchSimInfo behind its error, which leaves the map nil; NewPoller makes an empty one of that.
abbrev pub sims_or_empty : Outcome (Assoc Text) → Assoc Text
sims_or_empty (err e) = []
sims_or_empty (ok sims) = sims

-- The first listed device with the serial.
unfoldable pub find_phone : Text → List Phone → Option Phone
find_phone serial [] = none
find_phone serial (d ∷ ds) = if text_eq d.serial serial then some d else find_phone serial ds

-- NewPoller
abbrev pub new_poller : Text → Text → ℕ → Assoc Text → Poller
new_poller serial device_name initial_last_id sim_info = record {
  serial = serial;
  device_name = device_name;
  last_id = initial_last_id;
  sim_info = sim_info;
  cmd = full;
  messages = [];
}

-- The poller of the handler, once the devices are listed.
unfoldable pub poller_of : Text → Outcome ℕ → Option Phone → Poller
poller_of serial stored none = new_poller serial [] (start_id false stored none) []
poller_of serial stored (some d) =
    new_poller serial (fetch_device_name d.model) (start_id false stored (some d.max_id))
      (sims_or_empty d.sims)

-- The case adb.Connected, up to NewPoller, for the answer of DeviceList.
unfoldable pub connect : Text → Outcome ℕ → Outcome (List Phone) → Poller
unfolding poller_of find_phone
connect serial stored (err e) = new_poller serial [] (start_id true stored none) []
connect serial stored (ok ds) = poller_of serial stored (find_phone serial ds)

-- A poller that was started with processMessages, and whether its context is still open.
pub record Run : Type 0 where
  pub number : ℕ
  pub poller : Poller
  pub live : Bool

-- The pollers that were started, newest first, and `pollerCancel`: the number of the one that it stops.
pub record Loop : Type 0 where
  pub runs : List Run
  pub poller_cancel : Option ℕ

-- The call of the cancel function of run `k`.
unfoldable pub stop : ℕ → List Run → List Run
stop k [] = []
stop k (r ∷ rs) = (if r.number == k then record r { live = false } else r) ∷ stop k rs

-- The case adb.Connected. An earlier `pollerCancel` is lost.
unfoldable pub start_poller : Poller → Loop → Loop
start_poller p l =
    let k = length l.runs in
    record l {
      runs = record { number = k; poller = p; live = true } ∷ l.runs;
      poller_cancel = some k;
    }

-- The case adb.Disconnected.
unfoldable pub stop_poller : Option ℕ → Loop → Loop
unfolding stop
stop_poller none l = l
stop_poller (some k) l = record l { runs = stop k l.runs; poller_cancel = none }

-- The `switch` of the loop.
unfoldable pub handle : DeviceState → Text → Answers → Loop → Loop
unfolding connect start_poller stop_poller
handle connected serial a l = start_poller (connect serial a.stored a.devices) l
handle disconnected serial a l = stop_poller l.poller_cancel l

-- The end of the program's context, which is that of each poller too.
unfoldable pub shut_down : Loop → Loop
shut_down l = record l { runs = map (λ (r : Run). record r { live = false }) l.runs }

-- One poll of run `k`, if it is live.
unfoldable pub poll_run : ℕ → Outcome (List Text) → (SmsCmd → Outcome Text) → (ℕ → Bool) → Run → Run
poll_run k devices shell done r =
    if r.number == k && r.live
    then record r { poller = poll false devices shell done r.poller }
    else r

-- The threads: the watcher, the events that it has sent and `main` has not received, oldest first, and
-- the loop of `main`, which ends with the program's context.
pub record System : Type 0 where
  pub watcher : Watcher
  pub queue : List DeviceEvent
  pub loop : Loop
  pub ended : Bool

-- The events that a call of `check` has put before the old ones.
unfoldable pub fresh : List DeviceEvent → List DeviceEvent → List DeviceEvent
fresh (e ∷ es) old = if length es == length old then e ∷ [] else []
fresh [] old = []

unfoldable pub look : Option (List DeviceStatus) → System → System
unfolding fresh
look answer s =
    let w = check answer s.watcher in
    record s { watcher = w; queue = s.queue ++ fresh w.events s.watcher.events }

-- A step of one of the threads.
pub data Step : System → System → Type 0 where
  -- `check` of the watcher; an event whose send still blocks counts as sent.
  checks : {s : System} (answer : Option (List DeviceStatus)) → Step s (look answer s)
  -- `main` receives an event and handles it.
  receives :
      {w : Watcher} {e : DeviceEvent} {es : List DeviceEvent} {l : Loop} (a : Answers)
      → Step
          (record { watcher = w; queue = e ∷ es; loop = l; ended = false })
          (record { watcher = w; queue = es; loop = handle e.state e.serial a l; ended = false })
  polls :
      {s : System} (k : ℕ) (devices : Outcome (List Text)) (shell : SmsCmd → Outcome Text)
      (done : ℕ → Bool)
      → Step s (record s {
        loop = record s.loop { runs = map (poll_run k devices shell done) s.loop.runs };
      })
  ends : {s : System} → Step s (record s { loop = shut_down s.loop; ended = true })

pub data Reach : System → System → Type 0 where
  here : {s : System} → Reach s s
  more : {s t u : System} → Reach s t → Step t u → Reach s u

abbrev pub initial : Watcher → System
initial w = record {
  watcher = w;
  queue = [];
  loop = record { runs = []; poller_cancel = none };
  ended = false;
}
