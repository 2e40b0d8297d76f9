-- ===== src/Modem/Manager.antt =====
-- internal/modem/manager.go: one worker for each modem, and the backoff between attempts to
-- initialise one. Each critical section under `mu` is one step.
pub mod Delay
pub mod Scan
pub mod Fleet
use abb_app.Base.{
  ℕ, zero, suc, ◌+◌, ◌-◌, ◌*◌, ◌^◌, ◌≤◌, ◌<◌, ◌≡◌, ◌≢◌, ◌⊎◌, ◌∙◌, sym, ap, inl, inr, refl, min,
  Bool, true, false, ◌&&◌, ◌||◌, not, Bool-cases, Option, none, some, List, [], ◌∷◌, map, All, ltb,
  leb, ◌==◌, arith, if◌then◌else◌,
}
use abb_app.Base.Text.{Text, text_eq, text_eq_iff, text_eq_refl}
use abb_app.Base.Assoc.{Assoc, lookup, insert, remove, lookup-insert}

-- maxRetryDelay, in nanoseconds.
abbrev pub max_retry_delay : ℕ
max_retry_delay = 300 * 1_000_000_000

abbrev ten_seconds : ℕ
ten_seconds = 10 * 1_000_000_000

-- The fields of a Manager that change. `running` holds the keys of the set; durations and times are
-- in nanoseconds, and a WatchInterval that is not positive is 0.
pub record Manager : Type 0 where
  pub watch_interval : ℕ
  pub running : List Text
  pub fails : Assoc ℕ
  pub retry_at : Assoc ℕ
  pub now : ℕ

abbrev pub or_zero : Option ℕ → ℕ
or_zero none = 0
or_zero (some n) = n

abbrev pub fails_of : Text → Manager → ℕ
fails_of usb m = or_zero (lookup usb m.fails)

abbrev pub first_delay : Manager → ℕ
first_delay m = if m.watch_interval == 0 then ten_seconds else m.watch_interval

-- The rounds of `for i := 1; i < fails && delay < max` that are left.
unfoldable pub double_delay : ℕ → ℕ → ℕ
double_delay zero delay = delay
double_delay (suc rounds) delay =
    let rest = double_delay rounds (delay * 2) in if ltb delay max_retry_delay then rest else delay

-- backoff: the delay, and the manager with the failure recorded.
unfoldable pub backoff : Text → Manager → ℕ × Manager
unfolding double_delay
backoff usb m =
    let n = fails_of usb m + 1 in
    let delay = min (double_delay (n - 1) (first_delay m)) max_retry_delay in
    (
      delay,
      record m { fails = insert usb n m.fails; retry_at = insert usb (m.now + delay) m.retry_at },
    )

unfoldable pub contains_text : Text → List Text → Bool
contains_text t [] = false
contains_text t (s ∷ ss) = text_eq s t || contains_text t ss

-- A replugged modem is retried at once: the failures of absent ones are forgotten.
unfoldable pub forget_absent : List Text → Assoc ℕ → Manager → Manager
forget_absent present [] m = m
forget_absent present ((usb, n) ∷ fails) m = forget_absent present fails (
    if contains_text usb present
    then m
    else record m { fails = remove usb m.fails; retry_at = remove usb m.retry_at })

-- The zero time of a missing entry is before every other.
abbrev pub skips : Text → Manager → Bool
skips usb m = contains_text usb m.running || ltb m.now (or_zero (lookup usb m.retry_at))

-- The loop of `scan` over the candidates: the workers started, in order.
unfoldable pub start_workers : List Text → Manager → List Text × Manager
unfolding contains_text
start_workers [] m = ([], m)
start_workers (usb ∷ cands) m =
    let (started, m') =
      start_workers cands (if skips usb m then m else record m { running = usb ∷ m.running }) in
    (if skips usb m then started else usb ∷ started, m')

-- `scan` with the USB paths that Discover found.
unfoldable pub scan : List Text → Manager → List Text × Manager
unfolding forget_absent start_workers
scan cands m = start_workers cands (forget_absent cands m.fails m)

unfoldable pub without_text : Text → List Text → List Text
without_text t [] = []
without_text t (s ∷ ss) = let rest = without_text t ss in if text_eq s t then rest else s ∷ rest

-- The worker's goroutine ends: the deferred delete.
unfoldable pub worker_stopped : Text → Manager → Manager
unfolding without_text
worker_stopped usb m = record m { running = without_text usb m.running }

-- runWorker behind a failed Init, with the context alive.
unfoldable pub init_failed : Text → Manager → Manager
unfolding worker_stopped backoff
init_failed usb m = worker_stopped usb (backoff usb m).1

-- runWorker behind a successful Init.
unfoldable pub init_succeeded : Text → Manager → Manager
init_succeeded usb m = record m { fails = remove usb m.fails; retry_at = remove usb m.retry_at }
