-- ===== src/App/Pipeline/Delivery.antt =====
-- What holds of the deliveries in every run of whole actions.
use abb_app.Base.{
  ℕ, ◌+◌, ◌≤◌, ◌<◌, ◌≡◌, refl, subst, Bool, true, false, ◌&&◌, ◌||◌, Option, none, some, List, [],
  ◌∷◌, ◌==◌, arith, if◌then◌else◌,
}
use abb_app.Model.{pending, sent, failed}
use abb_app.Db.{OutboxRow, find_outbox, status_eq}
use abb_app.Db.Session.{Tick, SendEvent, NoFaults}
use abb_app.Dispatcher.Effect.{Effect, unread, unsent, delivered, rejected, lost}
use abb_app.App.Pipeline.{Config, Action, run, start}
use abb_app.App.Pipeline.Rule.{run-inv}
use abb_app.App.Pipeline.Rows.{Claim, RowLaws, Holds, Mode}
use abb_app.App.Pipeline.Statements.{Holds-IsInvariant}

-- How many calls of Send for an item succeeded.
abbrev pub successes : ℕ → List SendEvent → ℕ
successes k [] = 0
successes k (e ∷ es) = (if e.item == k && e.success then 1 else 0) + successes k es

pub start-Holds :
    (calm : Bool) (P : Claim)
    → ((k : ℕ) → P [] k none)
    → (now : ℕ) (ticks : List Tick) → Mode calm ticks
    → Holds calm P (start now ticks)
start-Holds calm P empty now ticks mode = record {
  distinct = tt;
  references = λ k r h. unfold find_outbox in cc;
  mode = mode;
  rows = λ k. unfold find_outbox in empty k;
}

-- Attempts.

abbrev Bounded : ℕ → Claim
Bounded m s k none = Unit
Bounded m s k (some r) = (r.attempts ≤ m) × (r.status ≡ pending → r.attempts < m)

Bounded-delivery :
    (m : ℕ) (F : Type 0) (k : ℕ) (r : OutboxRow) (s s' : List SendEvent) (row : Option OutboxRow)
    → status_eq r.status pending ≡ true
    → Bounded m s k (some r)
    → Effect F k r s row s'
    → Bounded m s' k row
Bounded-delivery m F k r s s' row p h (unread _ e _) = rw e h
Bounded-delivery m F k r s s' row p h (unsent _ e _) = rw e (ground arith)
Bounded-delivery m F k r s s' row p h (delivered _ _ e _) = rw e (ground arith)
Bounded-delivery m F k r s s' row p h (rejected _ _ e _) = rw e (ground arith)
Bounded-delivery m F k r s s' row p h (lost _ _ _ e _) = rw e h

Bounded-other :
    (m : ℕ) (s s' : List SendEvent) (k : ℕ) (o : Option OutboxRow)
    → Bounded m s k o
    → Bounded m s' k o
Bounded-other m s s' k none h = h
Bounded-other m s s' k (some r) h = h

Bounded-laws : (m : ℕ) → 0 < m → RowLaws false m (Bounded m)
Bounded-laws m pos = record {
  create = λ s id message_id ch now h. ground arith;
  reset = λ s k r fit h. ground arith;
  cancel = λ s k cutoff r stale h. ground arith;
  delivery = λ F k r s s' row calm same p h effect. Bounded-delivery m F k r s s' row p h effect;
  other = λ s e k o apart h. Bounded-other m s (e ∷ s) k o h;
}

-- What is left of the attempts of a waiting row.
bounded_sum :
    (m : ℕ) (r : OutboxRow)
    → (r.attempts ≤ m) × (r.status ≡ pending → r.attempts < m)
    → r.attempts + (if status_eq r.status pending then 1 else 0) ≤ m
bounded_sum m r h = ground arith

-- In every run of whole actions, one after the other, from a fresh database, whatever statements fail and whatever the senders answer, with
-- at least one attempt allowed: no outbox row ever counts more attempts than max_attempts, and one
-- that is waiting to be sent counts fewer.
pub attempts_bounded :
    (c : Config) (actions : List Action) (now : ℕ) (ticks : List Tick) (k : ℕ) (r : OutboxRow)
    → 0 < c.max_attempts
    → find_outbox k (run c actions (start now ticks)).db.outbox ≡ some r
    → r.attempts + (if status_eq r.status pending then 1 else 0) ≤ c.max_attempts
attempts_bounded c actions now ticks k r pos h = bounded_sum c.max_attempts r (
    subst (Bounded c.max_attempts (run c actions (start now ticks)).sends k) h (
      (run-inv c (Holds false (Bounded c.max_attempts))
          (Holds-IsInvariant c false (Bounded c.max_attempts) (Bounded-laws c.max_attempts pos))
          actions (start now ticks)
          (start-Holds false (Bounded c.max_attempts) (λ k. tt) now ticks tt)).rows
        k))

-- Evidence.

abbrev Evident : Claim
Evident s k none = Unit
Evident s k (some r) = r.status ≡ sent → 0 < successes k s

Evident-delivery :
    (F : Type 0) (k : ℕ) (r : OutboxRow) (s s' : List SendEvent) (row : Option OutboxRow)
    → status_eq r.status pending ≡ true
    → Evident s k (some r)
    → Effect F k r s row s'
    → Evident s' k row
Evident-delivery F k r s s' row p h (unread _ e f) = rw (e, f) h
Evident-delivery F k r s s' row p h (unsent _ e f) = rw (e, f) (ground arith)
Evident-delivery F k r s s' row p h (delivered _ _ e f) = rw (e, f) (ground arith)
Evident-delivery F k r s s' row p h (rejected _ _ e f) = rw (e, f) (ground arith)
Evident-delivery F k r s s' row p h (lost _ _ _ e f) = rw (e, f) (ground arith)

Evident-other :
    (s : List SendEvent) (e : SendEvent) (k : ℕ) (o : Option OutboxRow)
    → Evident s k o
    → Evident (e ∷ s) k o
Evident-other s e k none h = tt
Evident-other s e k (some r) h = λ q. let p = h q in omega arith

Evident-laws : (m : ℕ) → RowLaws false m Evident
Evident-laws m = record {
  create = λ s id message_id ch now h. ground arith;
  reset = λ s k r fit h. ground arith;
  cancel = λ s k cutoff r stale h. ground arith;
  delivery = λ F k r s s' row calm same p h effect. Evident-delivery F k r s s' row p h effect;
  other = λ s e k o apart h. Evident-other s e k o h;
}

-- In every run of whole actions, one after the other, from a fresh database, whatever statements fail and whatever the senders answer, an
-- outbox row that is marked as sent has had a call of Send that succeeded.
pub sent_was_delivered :
    (c : Config) (actions : List Action) (now : ℕ) (ticks : List Tick) (k : ℕ) (r : OutboxRow)
    → find_outbox k (run c actions (start now ticks)).db.outbox ≡ some r
    → r.status ≡ sent
    → 0 < successes k (run c actions (start now ticks)).sends
sent_was_delivered c actions now ticks k r h =
    subst (Evident (run c actions (start now ticks)).sends k) h (
      (run-inv c (Holds false Evident)
          (Holds-IsInvariant c false Evident (Evident-laws c.max_attempts)) actions
          (start now ticks) (start-Holds false Evident (λ k. tt) now ticks tt)).rows
        k)

-- Once.

-- How many successful calls of Send a row may have behind it: none while it waits or has failed.
abbrev pub quota : Option OutboxRow → ℕ
quota none = 0
quota (some r) = if status_eq r.status pending || status_eq r.status failed then 0 else 1

abbrev Once : Claim
Once s k o = successes k s ≤ quota o

Once-delivery :
    (F : Type 0) (k : ℕ) (r : OutboxRow) (s s' : List SendEvent) (row : Option OutboxRow)
    → F
    → status_eq r.status pending ≡ true
    → Once s k (some r)
    → Effect F k r s row s'
    → Once s' k row
Once-delivery F k r s s' row calm p h (unread faulty e f) = absurd (faulty calm)
Once-delivery F k r s s' row calm p h (unsent _ e f) = rw (e, f) (ground arith)
Once-delivery F k r s s' row calm p h (delivered _ _ e f) = rw (e, f) (ground arith)
Once-delivery F k r s s' row calm p h (rejected _ _ e f) = rw (e, f) (ground arith)
Once-delivery F k r s s' row calm p h (lost _ _ faulty e f) = absurd (faulty calm)

Once-laws : (m : ℕ) → RowLaws true m Once
Once-laws m = record {
  create = λ s id message_id ch now h. ground arith;
  reset = λ s k r fit h. ground arith;
  cancel = λ s k cutoff r stale h. ground arith;
  delivery =
      λ F k r s s' row calm same p h effect. Once-delivery F k r s s' row (calm refl) p h effect;
  other = λ s e k o apart h. ground arith;
}

-- In every run of whole actions, one after the other, from a fresh database in which no statement fails, whatever the senders answer: at most
-- one call of Send for an outbox item succeeds, and none for a row that is waiting to be sent, that has
-- failed, or that does not exist.
pub delivered_once :
    (c : Config) (actions : List Action) (now : ℕ) (ticks : List Tick) (k : ℕ)
    → NoFaults ticks
    → successes k (run c actions (start now ticks)).sends
      ≤ quota (find_outbox k (run c actions (start now ticks)).db.outbox)
delivered_once c actions now ticks k calm =
    (run-inv c (Holds true Once) (Holds-IsInvariant c true Once (Once-laws c.max_attempts)) actions
        (start now ticks) (start-Holds true Once (λ k. omega arith) now ticks calm)).rows
      k
