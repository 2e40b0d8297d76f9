-- ===== src/App/Pipeline/Rows.antt =====
-- Invariants of single outbox rows and of the calls of Send for them, from the laws of the changes
-- that a row can undergo.
use abb_app.Base.{ℕ, ◌≡◌, ◌≢◌, Bool, true, false, Option, none, some, List, ◌∷◌}
use abb_app.Base.Text.{Text}
use abb_app.Model.{pending}
use abb_app.Db.{Db, OutboxRow, find_outbox, status_eq}
use abb_app.Db.Session.{
  Outcome, World, Tick, SendEvent, exec, NoFaults, NoFaults-exec, exec-keeps, sends-exec,
}
use abb_app.Db.Outbox.{to_item, new_row, as_cancelled, is_retryable, is_stale, as_pending}
use abb_app.Db.Rows.{Distinct}
use abb_app.Dispatcher.{Senders, deliver}
use abb_app.Dispatcher.Effect.{Effect}
use abb_app.Dispatcher.Drain.{References, NoFaults-deliver}
use abb_app.Dispatcher.Reschedule.{Stable}

-- What is asked of the environment: nothing, or that no statement fails.
abbrev pub Mode : Bool → List Tick → Type 0
Mode true ts = NoFaults ts
Mode false ts = Unit

-- What is claimed of an id: of the row that it finds, if any, beside the calls of Send.
abbrev pub Claim : Type 1
Claim = List SendEvent → ℕ → Option OutboxRow → Type 0

pub record RowLaws (calm : Bool) (max_attempts : ℕ) (P : Claim) : Type 1 where
  pub create :
      (s : List SendEvent) (id message_id : ℕ) (ch : Text) (now : ℕ)
      → P s id none
      → P s id (some (new_row id message_id ch now))
  pub reset :
      (s : List SendEvent) (k : ℕ) (r : OutboxRow)
      → is_retryable max_attempts r ≡ true
      → P s k (some r)
      → P s k (some (as_pending r))
  pub cancel :
      (s : List SendEvent) (k cutoff : ℕ) (r : OutboxRow)
      → is_stale cutoff r ≡ true
      → P s k (some r)
      → P s k (some (as_cancelled r))
  pub delivery :
      (F : Type 0) (k : ℕ) (r : OutboxRow) (s s' : List SendEvent) (row : Option OutboxRow)
      → (calm ≡ true → F)
      → r.id ≡ k
      → status_eq r.status pending ≡ true
      → P s k (some r)
      → Effect F k r s row s'
      → P s' k row
  pub other :
      (s : List SendEvent) (e : SendEvent) (k : ℕ) (o : Option OutboxRow)
      → e.item ≢ k
      → P s k o
      → P (e ∷ s) k o

pub record Holds (calm : Bool) (P : Claim) (w : World) : Type 0 where
  pub distinct : Distinct w.db.outbox
  pub references : References w.db
  pub mode : Mode calm w.ticks
  pub rows : (k : ℕ) → P w.sends k (find_outbox k w.db.outbox)

Mode-exec :
    (calm : Bool) {A : Type 0} (op : ℕ → Db → Outcome A × Db) (w : World)
    → Mode calm w.ticks
    → Mode calm (exec op w).1.ticks
Mode-exec true op w h = NoFaults-exec op w h
Mode-exec false op w h = tt

pub Mode-deliver :
    (calm : Bool) (senders : Senders) (r : OutboxRow) (w : World)
    → Mode calm w.ticks
    → Mode calm (deliver senders (to_item r) w).ticks
Mode-deliver true senders r w h = NoFaults-deliver senders (to_item r) w h
Mode-deliver false senders r w h = tt

pub Mode-true : (calm : Bool) (ts : List Tick) → Mode calm ts → calm ≡ true → NoFaults ts
Mode-true true ts h e = h
Mode-true false ts h e = cc

Mode-stable :
    (calm : Bool) (ts ts' : List Tick) → (NoFaults ts → NoFaults ts') → Mode calm ts → Mode calm ts'
Mode-stable true ts ts' f h = f h
Mode-stable false ts ts' f h = tt

-- A statement that keeps what holds of the tables keeps the invariant.
module _ (calm : Bool) (P : Claim) where
  pub exec-Holds :
      {A : Type 0} (op : ℕ → Db → Outcome A × Db) (w : World)
      → ((t : ℕ)
          → Distinct (op t w.db).1.outbox
            × References (op t w.db).1
            × ((k : ℕ) → P w.sends k (find_outbox k (op t w.db).1.outbox)))
      → Holds calm P w
      → Holds calm P (exec op w).1
  exec-Holds op w keep h =
      let new : Distinct (exec op w).1.db.outbox
          × References (exec op w).1.db
          × ((k : ℕ) → P w.sends k (find_outbox k (exec op w).1.db.outbox)) =
        exec-keeps op w
          (λ d. Distinct d.outbox × References d × ((k : ℕ) → P w.sends k (find_outbox k d.outbox)))
          (λ t p. keep t) (h.distinct, h.references, h.rows) in
      record {
        distinct = new.0;
        references = new.1;
        mode = Mode-exec calm op w h.mode;
        rows = λ k. rw (sends-exec op w) (new.2 k);
      }

  pub Holds-Stable : Stable (Holds calm P)
  Holds-Stable w w' same sends calmer later h = record {
    distinct = rw same h.distinct;
    references = rw same h.references;
    mode = Mode-stable calm w.ticks w'.ticks calmer h.mode;
    rows = λ k. rw (same, sends) (h.rows k);
  }
