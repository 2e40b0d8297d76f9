-- ===== src/Db/Session.antt =====
-- How a method of *DB meets the database: an ExecContext or a QueryContext either fails and changes
-- nothing (a lost connection, a cancelled context, a full disk), or runs its statement at the
-- current time. Which of these happens, and how much time passes, is an input of the model.
use abb_app.Base.{
  ℕ, ◌+◌, ◌*◌, ◌≤◌, ◌/◌, ◌≡◌, ◌⊎◌, refl, inl, inr, Bool, Bool-cases, false, List, [], ◌∷◌, All,
  arith, if◌then◌else◌,
}
use abb_app.Base.Text.{Text, codes}
use abb_app.Db.{Db, second}

-- The `error` of a Go result, with the text of err.Error().
pub data Outcome {ℓ} (A : Type ℓ) : Type ℓ where
  ok : A → Outcome A
  err : Text → Outcome A

-- What the environment does at one statement.
pub record Tick : Type 0 where
  pub fails : Bool
  pub elapsed : ℕ

-- One call of Sender.Send for an outbox item, with its result.
pub record SendEvent : Type 0 where
  pub item : ℕ
  pub channel : Text
  pub success : Bool

-- The counters of internal/metrics/metrics.go: one entry per increment, with its label.
pub record Metrics : Type 0 where
  pub sms_received : ℕ
  pub sms_sent : List Text
  pub sms_failed : List Text

pub record World : Type 0 where
  pub db : Db
  pub now : ℕ  -- nanoseconds
  pub ticks : List Tick
  pub sends : List SendEvent  -- newest first
  pub metrics : Metrics

abbrev pub db_error : Text
db_error = codes "database error"

fails_next : List Tick → Bool
fails_next [] = false
fails_next (t ∷ ts) = t.fails

elapsed_next : List Tick → ℕ
elapsed_next [] = 0
elapsed_next (t ∷ ts) = t.elapsed

rest_of : List Tick → List Tick
rest_of [] = []
rest_of (t ∷ ts) = ts

-- The statement gets CURRENT_TIMESTAMP, in seconds.
unfoldable pub exec {ℓ} : {A : Type ℓ} → (ℕ → Db → Outcome A × Db) → World → Outcome A × World
unfolding fails_next elapsed_next rest_of
exec op w =
    let later = record w { now = w.now + elapsed_next w.ticks; ticks = rest_of w.ticks } in
    if fails_next w.ticks
    then (err db_error, later)
    else let (r, d) = op (later.now / second) w.db in (r, record later { db = d })

abbrev pub NoFaults : List Tick → Type 0
NoFaults = All (λ t. t.fails ≡ false)

-- What `exec` does to the world: it keeps the traces and counters, and the tables are the old ones
-- or those that the statement left.
NoFaults-head : (ts : List Tick) → NoFaults ts → fails_next ts ≡ false
unfolding fails_next
NoFaults-head [] h = refl
NoFaults-head (t ∷ ts) h = h.0

NoFaults-rest : (ts : List Tick) → NoFaults ts → NoFaults (rest_of ts)
unfolding rest_of
NoFaults-rest [] h = h
NoFaults-rest (t ∷ ts) h = h.1

module _ {ℓ} {A : Type ℓ} (op : ℕ → Db → Outcome A × Db) (w : World) where
  pub sends-exec : (exec op w).1.sends ≡ w.sends
  unfolding exec
  sends-exec = ground arith

  pub metrics-exec : (exec op w).1.metrics ≡ w.metrics
  unfolding exec
  metrics-exec = ground arith

  pub now-exec : w.now ≤ (exec op w).1.now
  unfolding exec
  now-exec = elim (Bool-cases (fails_next w.ticks)) [
    | inl lost ↦ rw lost (omega arith)
    | inr ran ↦ rw ran (omega arith)
  ]

  -- A property of the tables and the time, which holds at any later time too, is kept by a statement
  -- that keeps it at the time at which it runs.
  pub exec-keeps_at :
      (P : ℕ → Db → Type 0)
      → ((n m : ℕ) (d : Db) → n ≤ m → P n d → P m d)
      → ((t n : ℕ) → t * second ≤ n → P n w.db → P n (op t w.db).1)
      → P w.now w.db
      → P (exec op w).1.now (exec op w).1.db
  unfolding exec
  exec-keeps_at P later keep h =
      let n : ℕ = w.now + elapsed_next w.ticks in
      let h1 : P n w.db = later w.now n w.db (omega arith) h in
      elim (Bool-cases (fails_next w.ticks)) [
        | inl lost ↦ rw lost h1
        | inr ran ↦ rw ran (keep (n / second) n (omega arith) h1)
      ]

  -- A property of the tables that the statement keeps at any time is kept.
  pub exec-keeps :
      (P : Db → Type 0) → ((t : ℕ) → P w.db → P (op t w.db).1) → P w.db → P (exec op w).1.db
  unfolding exec
  exec-keeps P keep h = elim (Bool-cases (fails_next w.ticks)) [
    | inl lost ↦ rw lost h
    | inr ran ↦ rw ran (keep _ h)
  ]

  -- The statement runs at some time, or it is lost to a fault that was to come.
  pub exec-cases :
      ((t : ℕ) × ((exec op w).0 ≡ (op t w.db).0) × ((exec op w).1.db ≡ (op t w.db).1))
      ⊎ (((exec op w).0 ≡ err db_error) × ((exec op w).1.db ≡ w.db) × ¬ NoFaults w.ticks)
  unfolding exec
  exec-cases = elim (Bool-cases (fails_next w.ticks)) [
    | inl lost ↦ inr (rw lost, rw lost, λ h. cc (lost, NoFaults-head w.ticks h))
    | inr ran ↦ inl ((w.now + elapsed_next w.ticks) / second, rw ran, rw ran)
  ]

  pub NoFaults-exec : NoFaults w.ticks → NoFaults (exec op w).1.ticks
  unfolding exec
  NoFaults-exec h = rw (NoFaults-head w.ticks h) (NoFaults-rest w.ticks h)
