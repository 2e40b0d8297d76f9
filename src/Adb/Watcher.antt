-- ===== src/Adb/Watcher.antt =====
-- internal/adb/watcher.go: connection events of the watched device.
use abb_app.Base.{
  ◌≡◌, refl, Bool, true, false, ◌&&◌, ◌||◌, not, Option, none, some, List, [], ◌∷◌, ◌++◌, map, All,
  arith, if◌then◌else◌,
}
use abb_app.Base.Text.{Text, text_eq}
use abb_app.Db.Session.{Outcome, ok, err}

pub data DeviceState : Type 0 where
  disconnected connected : DeviceState

pub record DeviceEvent : Type 0 where
  pub serial : Text
  pub state : DeviceState

pub record DeviceStatus : Type 0 where
  pub serial : Text
  pub online : Bool

-- What a device of the ADB client answers.
pub record GadbDevice : Type 0 where
  pub serial : Text
  pub state : Outcome Text

abbrev is_online : Text → Outcome Text → Bool
is_online state_online (err e) = false
is_online state_online (ok state) = text_eq state state_online

-- toDeviceStatuses; `state_online` is gadb.StateOnline.
unfoldable pub to_device_statuses : Text → List GadbDevice → List DeviceStatus
to_device_statuses state_online [] = []
to_device_statuses state_online (d ∷ ds) =
    record { serial = d.serial; online = is_online state_online d.state }
    ∷ to_device_statuses state_online ds

-- Whether the device is one that PickOnlineDevice may choose.
abbrev pub fits : Text → DeviceStatus → Bool
fits preferred s = s.online && (text_eq preferred [] || text_eq preferred s.serial)

-- PickOnlineDevice
unfoldable pub pick_online_device : List DeviceStatus → Text → Option Text
pick_online_device [] preferred = none
pick_online_device (s ∷ ss) preferred =
    let rest = pick_online_device ss preferred in
    if not s.online
    then rest
    else if text_eq preferred [] || text_eq preferred s.serial
    then some s.serial
    else rest

-- The fields of a Watcher, with the events that it has sent, newest first.
pub record Watcher : Type 0 where
  pub serial : Text
  pub state : DeviceState
  pub events : List DeviceEvent

-- The `switch` of `check`.
unfoldable pub observe : Option Text → DeviceState → Watcher → Watcher
observe (some serial) disconnected w = record w {
  state = connected;
  events = record { serial = serial; state = connected } ∷ w.events;
}
observe none connected w = record w {
  state = disconnected;
  events = record { serial = []; state = disconnected } ∷ w.events;
}
observe _ _ w = w

-- `check`, for the answer of DeviceList: `none` is an error, which is only logged.
unfoldable pub check : Option (List DeviceStatus) → Watcher → Watcher
unfolding observe
check none w = w
check (some statuses) w = observe (pick_online_device statuses w.serial) w.state w

-- The calls of `check` that `Run` makes, one for each answer.
unfoldable pub watch : List (Option (List DeviceStatus)) → Watcher → Watcher
unfolding check
watch [] w = w
watch (a ∷ answers) w = watch answers (check a w)

-- NewWatcher
unfoldable pub new_watcher : Text → Watcher
new_watcher serial = record { serial = serial; state = disconnected; events = [] }

-- What DeviceList answers, as `check` sees it.
abbrev statuses_of : Text → Outcome (List GadbDevice) → Option (List DeviceStatus)
statuses_of state_online (err e) = none
statuses_of state_online (ok ds) = some (to_device_statuses state_online ds)

-- Run: `check` at once, and then at every tick until the context is done.
unfoldable pub watcher_run : Text → List (Outcome (List GadbDevice)) → Watcher → Watcher
unfolding watch to_device_statuses
watcher_run state_online answers w = watch (map (statuses_of state_online) answers) w

-- The events, newest first, alternate, and the newest one shows the state: before the first one the
-- device was disconnected.
abbrev pub Alternate : DeviceState → List DeviceEvent → Type 0
Alternate s [] = s ≡ disconnected
Alternate connected (e ∷ es) = (e.state ≡ connected) × Alternate disconnected es
Alternate disconnected (e ∷ es) = (e.state ≡ disconnected) × Alternate connected es

observe-Alternate :
    (o : Option Text) (s : DeviceState) (w : Watcher)
    → w.state ≡ s
    → Alternate s w.events
    → Alternate (observe o s w).state (observe o s w).events
unfolding observe
observe-Alternate (some serial) disconnected w e h = (refl, h)
observe-Alternate none connected w e h = (refl, h)
observe-Alternate (some serial) connected w e h = rw e h
observe-Alternate none disconnected w e h = rw e h

pub check-Alternate :
    (a : Option (List DeviceStatus)) (w : Watcher)
    → Alternate w.state w.events
    → Alternate (check a w).state (check a w).events
unfolding check
check-Alternate none w h = h
check-Alternate (some ss) w h = observe-Alternate (pick_online_device ss w.serial) w.state w refl h

pub watch-Alternate :
    (answers : List (Option (List DeviceStatus))) (w : Watcher)
    → Alternate w.state w.events
    → Alternate (watch answers w).state (watch answers w).events
unfolding watch
watch-Alternate [] w h = h
watch-Alternate (a ∷ answers) w h = watch-Alternate answers (check a w) (check-Alternate a w h)

-- Whatever the ADB server and its devices answer, the events of a new watcher alternate between connected
-- and disconnected, beginning with connected, and its state is that of the newest event.
pub watcher_run-Alternate :
    (state_online serial : Text) (answers : List (Outcome (List GadbDevice)))
    → Alternate
        (watcher_run state_online answers (new_watcher serial)).state
        (watcher_run state_online answers (new_watcher serial)).events
unfolding watcher_run new_watcher
watcher_run-Alternate state_online serial answers =
    watch-Alternate (map (statuses_of state_online) answers) (new_watcher serial) refl

-- PickOnlineDevice chooses the first device that is online and has the preferred serial, or any
-- serial where none is preferred, whatever devices without this stand before it.
pub pick_online_device_lem :
    (before : List DeviceStatus) (s : DeviceStatus) (after : List DeviceStatus) (preferred : Text)
    → All (λ d. fits preferred d ≡ false) before
    → fits preferred s ≡ true
    → pick_online_device (before ++ s ∷ after) preferred ≡ some s.serial
unfolding pick_online_device
pick_online_device_lem [] s after preferred h fit = ground arith
pick_online_device_lem (d ∷ before) s after preferred h fit =
    let rest = pick_online_device_lem before s after preferred h.1 fit in
    let skip = h.0 in ground arith
