-- ===== src/App/Threads/Life.antt =====
-- The life of one outbox row as a state machine, under the goroutines of App/Threads and the faults of
-- App/Threads/Faults.
use mathlib.Core.Option
use abb_app.Base.{ℕ, ◌+◌, ◌<◌, ◌≡◌, ◌⊎◌, Option, none, some}
use abb_app.Base.Text.{Text}
use abb_app.Model.{Status, pending, sent, failed, cancelled}
use abb_app.Db.{OutboxRow}
use abb_app.Dispatcher.{Senders}
use abb_app.App.Threads.Faults.{FaultyRun, FaultyStep}

-- The abstract view of a row: its status and the number of its attempts.
pub record Entry : Type 0 where
  pub status : Status
  pub attempts : ℕ

abbrev entry : Status → ℕ → Option Entry
entry s n = some (record { status = s; attempts = n })

abbrev pub view : Option OutboxRow → Option Entry
view none = none
view (some r) = entry r.status r.attempts

-- The moves of an id. A row that is cancelled while a goroutine holds its item can still be attempted,
-- or scheduled again.
pub data Moves (max_attempts : ℕ) (from : Option Entry) : Option Entry → Type 0 where
  stay : Moves max_attempts from from
  created : Moves max_attempts from none → Moves max_attempts from (entry pending 0)
  attempted :
      {before after : Status} {n : ℕ}
      → (before ≡ pending) ⊎ (before ≡ cancelled)
      → (after ≡ sent) ⊎ (after ≡ failed)
      → Moves max_attempts from (entry before n)
      → Moves max_attempts from (entry after (n + 1))
  rescheduled :
      {before : Status} {n : ℕ}
      → (before ≡ failed) ⊎ (before ≡ cancelled)
      → n < max_attempts
      → Moves max_attempts from (entry before n)
      → Moves max_attempts from (entry pending n)
  withdrawn :
      {before : Status} {n : ℕ}
      → (before ≡ pending) ⊎ (before ≡ failed)
      → Moves max_attempts from (entry before n)
      → Moves max_attempts from (entry cancelled n)

module _ (m : ℕ) (from : Option Entry) where
  abbrev To : Option OutboxRow → Type 0
  To o = Moves m from (view o)

-- The steps from one moment of a run to a later one.
pub data Later (senders : Senders) (max_attempts : ℕ) (r : FaultyRun) : FaultyRun → Type 0 where
  at_once : Later senders max_attempts r r
  further :
      {s t : FaultyRun}
      → Later senders max_attempts r s
      → FaultyStep senders max_attempts s t
      → Later senders max_attempts r t
