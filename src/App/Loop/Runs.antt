-- ===== src/App/Loop/Runs.antt =====
-- The pollers that `main` has started, and the one for the device that it was told of last.
use abb_app.Base.{
  ℕ, ◌+◌, ◌≡◌, ◌≤◌, ◌∙◌, refl, ap, sym, Bool, true, false, ◌&&◌, Bool-cases, inl, inr, Option, none,
  some, List, [], ◌∷◌, ◌++◌, ◌==◌, length, map, filter, All, ltb, leb, arith, if◌then◌else◌,
}
use mathlib.Core.Option.{some-injective, none-ne-some}
use abb_app.Base.Text.{Text}
use abb_app.Model.{Message}
use abb_app.Db.Session.{Outcome, ok, err}
use abb_app.Adb.Sms.{Parsed, parsed, failed, sqlite, parse_sms_output}
use abb_app.Adb.Watcher.{DeviceState, disconnected, connected, DeviceEvent}
use abb_app.Adb.Poller.{
  Poller, SmsCmd, poll, contains_serial, poll_output, emit, advance, max_id, id_of,
}
use abb_app.App.Loop.{
  Phone, Answers, Run, Loop, handle, stop, stop_poller, start_poller, poll_run, connect, poller_of,
  find_phone,
}

-- Each function of the poller leaves the serial as it is.

emit-serial :
    (done : ℕ → Bool) (i : ℕ) (ms : List Message) (p : Poller)
    → (emit done i ms p).1.serial ≡ p.serial
unfolding emit
emit-serial done i [] p = refl
emit-serial done i (m ∷ ms) p = elim (Bool-cases (leb (id_of m) p.last_id)) [
  | inl old ↦ rw old (emit-serial done i ms p)
  | inr new ↦ elim (Bool-cases (done i)) [
    | inl stops ↦ rw (new, stops) refl
    | inr goes ↦ rw (new, goes) (emit-serial done (i + 1) ms _)
  ]
]

advance-serial : (top : ℕ) (r : Bool × Poller) → (advance top r).serial ≡ r.1.serial
advance-serial top (true, p) = elim (Bool-cases (ltb p.last_id top)) [
  | inl up ↦ rw up refl
  | inr stays ↦ rw stays refl
]
advance-serial top (false, p) = refl

poll_output-serial :
    (done : ℕ → Bool) (o : Parsed (List Message)) (p : Poller)
    → (poll_output done o p).serial ≡ p.serial
unfolding poll_output
poll_output-serial done (parsed ms) p =
    advance-serial (max_id ms) (emit done 0 ms p) ∙ emit-serial done 0 ms p
poll_output-serial done (failed sqlite) p = refl
poll_output-serial done (failed _) p = refl

poll-serial :
    (devices : Outcome (List Text)) (shell : SmsCmd → Outcome Text) (done : ℕ → Bool) (p : Poller)
    → (poll false devices shell done p).serial ≡ p.serial
unfolding poll
poll-serial (err e) shell done p = refl
poll-serial (ok serials) shell done p = go (contains_serial p.serial serials) (shell p.cmd)
  where
    go :
        (listed : Bool) (o : Outcome Text)
        → (if listed
            then (elim o as (λ x. Poller) [
              | ok out ↦ poll_output done (parse_sms_output out) p
              | err e ↦ p
            ])
            else p).serial
          ≡ p.serial
    go false o = refl
    go true (err e) = refl
    go true (ok out) = poll_output-serial done (parse_sms_output out) p

poller_of-serial :
    (serial : Text) (stored : Outcome ℕ) (o : Option Phone)
    → (poller_of serial stored o).serial ≡ serial
unfolding poller_of
poller_of-serial serial stored none = refl
poller_of-serial serial stored (some d) = refl

connect-serial :
    (serial : Text) (stored : Outcome ℕ) (o : Outcome (List Phone))
    → (connect serial stored o).serial ≡ serial
unfolding connect
connect-serial serial stored (err e) = refl
connect-serial serial stored (ok ds) = poller_of-serial serial stored (find_phone serial ds)

-- The runs, for the device that is being read.

abbrev pub Dead : Run → Type 0
Dead r = r.live ≡ false

-- Only the newest run is live, and `pollerCancel` stops it.
abbrev pub ServesBy : Text → Option ℕ → List Run → Type 0
ServesBy serial cancel [] = ⊥
ServesBy serial cancel (r ∷ rs) =
    (r.live ≡ true) × (r.poller.serial ≡ serial) × (cancel ≡ some r.number) × All Dead rs

abbrev pub Serving : Option Text → Loop → Type 0
Serving none l = All Dead l.runs
Serving (some serial) l = ServesBy serial l.poller_cancel l.runs

-- The device that an event reports, and the one that the newest event has reported.
abbrev pub reported : DeviceState → Text → Option Text
reported connected serial = some serial
reported disconnected serial = none

abbrev pub newest : List DeviceEvent → Option Text
newest [] = none
newest (e ∷ es) = reported e.state e.serial

abbrev pub AtMostOne : List Run → Type 0
AtMostOne rs = length (filter (λ (r : Run). r.live) rs) ≤ 1

-- A device is reported where none was, or its absence where one was.
abbrev pub Differs : Option Text → Option Text → Type 0
Differs none (some s) = Unit
Differs (some s) none = Unit
Differs _ _ = ⊥

-- From the device that `main` was told of last, the queued events lead to the newest report.
abbrev pub Follows : Option Text → List DeviceEvent → Option Text → Type 0
Follows h [] n = h ≡ n
Follows h (e ∷ es) n =
    Differs h (reported e.state e.serial) × Follows (reported e.state e.serial) es n

pub Follows-snoc :
    (h n : Option Text) (q : List DeviceEvent) (e : DeviceEvent)
    → Follows h q n
    → Differs n (reported e.state e.serial)
    → Follows h (q ++ e ∷ []) (reported e.state e.serial)
Follows-snoc h n [] e f d = (rw f d, refl)
Follows-snoc h n (x ∷ q) e f d = (f.0, Follows-snoc (reported x.state x.serial) n q e f.1 d)

stop-Dead : (k : ℕ) (rs : List Run) → All Dead rs → All Dead (stop k rs)
unfolding stop
stop-Dead k [] h = tt
stop-Dead k (r ∷ rs) h = elim (Bool-cases (r.number == k)) [
  | inl same ↦ rw same (refl, stop-Dead k rs h.1)
  | inr other ↦ rw other (h.0, stop-Dead k rs h.1)
]

stop-ServesBy : (x : Text) (k : ℕ) (rs : List Run) → ServesBy x (some k) rs → All Dead (stop k rs)
unfolding stop
stop-ServesBy x k [] h = absurd h
stop-ServesBy x k (r ∷ rs) (live, serial, cancel, rest) =
    let same : (r.number == k) ≡ true = ground (arith, some-injective k r.number cancel) in
    rw same (refl, stop-Dead k rs rest)

no_cancel : (x : Text) (rs : List Run) → ServesBy x none rs → ⊥
no_cancel x [] h = h
no_cancel x (r ∷ rs) (live, serial, cancel, rest) = none-ne-some r.number cancel

stop_poller-Dead :
    (x : Text) (c : Option ℕ) (l : Loop) → ServesBy x c l.runs → All Dead (stop_poller c l).runs
unfolding stop_poller
stop_poller-Dead x none l s = absurd (no_cancel x l.runs s)
stop_poller-Dead x (some k) l s = stop-ServesBy x k l.runs s

-- Handling the next event.
pub handle-Serving :
    (h : Option Text) (e : DeviceState) (serial : Text) (a : Answers) (l : Loop)
    → Serving h l
    → Differs h (reported e serial)
    → Serving (reported e serial) (handle e serial a l)
unfolding handle start_poller stop_poller stop
handle-Serving none connected serial a l s d =
    (refl, connect-serial serial a.stored a.devices, refl, s)
handle-Serving (some x) connected serial a l s d = absurd d
handle-Serving none disconnected serial a l s d = absurd d
handle-Serving (some x) disconnected serial a l s d = stop_poller-Dead x l.poller_cancel l s

-- A poll changes neither whether a run is live, nor its number, nor its device.
abbrev pub Alike : Run → Run → Type 0
Alike r s = (s.live ≡ r.live) × (s.number ≡ r.number) × (s.poller.serial ≡ r.poller.serial)

pub poll_run-Alike :
    (k : ℕ) (devices : Outcome (List Text)) (shell : SmsCmd → Outcome Text) (done : ℕ → Bool)
    (r : Run)
    → Alike r (poll_run k devices shell done r)
unfolding poll_run
poll_run-Alike k devices shell done r = go (r.number == k && r.live)
  where
    go :
        (b : Bool)
        → Alike r (if b then record r { poller = poll false devices shell done r.poller } else r)
    go true = (refl, refl, poll-serial devices shell done r.poller)
    go false = (refl, refl, refl)

module _ (f : Run → Run) (alike : (r : Run) → Alike r (f r)) where
  pub map-Dead : (rs : List Run) → All Dead rs → All Dead (map f rs)
  map-Dead [] h = tt
  map-Dead (r ∷ rs) h = ((alike r).0 ∙ h.0, map-Dead rs h.1)

  map-ServesBy :
      (x : Text) (c : Option ℕ) (rs : List Run) → ServesBy x c rs → ServesBy x c (map f rs)
  map-ServesBy x c [] h = h
  map-ServesBy x c (r ∷ rs) (live, serial, cancel, rest) =
      let (same, number, device) = alike r in
      (same ∙ live, device ∙ serial, cancel ∙ ap some (sym number), map-Dead rs rest)

  pub map-Serving :
      (h : Option Text) (l : Loop) → Serving h l → Serving h (record l { runs = map f l.runs })
  map-Serving none l s = map-Dead l.runs s
  map-Serving (some x) l s = map-ServesBy x l.poller_cancel l.runs s

pub shut_down-Dead : (rs : List Run) → All Dead (map (λ (r : Run). record r { live = false }) rs)
shut_down-Dead [] = tt
shut_down-Dead (r ∷ rs) = (refl, shut_down-Dead rs)
