-- ===== src/App/Threads.antt =====
-- The goroutines of cmd/abb/main.go that use the outbox, statement by statement: the sweeps of the
-- dispatcher, the retry worker, the call of CancelStaleOutbox and saveAndEnqueue, in any interleaving.
-- The mutex `mu` of the dispatcher lets one sweep run at a time, whoever calls DispatchOnce.
-- What the senders answer, the current times and where a context is cancelled are open. No statement
-- fails here.
pub mod Counts
pub mod Invariant
pub mod Claims
pub mod Steps
pub mod Once
pub mod Faults
pub mod Attempts
pub mod Life
use abb_app.Base.{
  ℕ, ◌+◌, ◌≡◌, Bool, true, false, Option, none, some, List, [], ◌∷◌, ◌==◌, if◌then◌else◌,
}
use abb_app.Base.Text.{Text, text_eq}
use abb_app.Model.{Message, OutboxItem, RetryItem}
use abb_app.Db.{Db}
use abb_app.Db.Session.{Outcome, ok, err, SendEvent}
use abb_app.Db.Outbox.{
  get_pending_outbox, mark_outbox_sent, mark_outbox_failed, append_delivery_log, get_failed_outbox,
  reset_to_pending, cancel_stale_outbox, create_outbox_entry,
}
use abb_app.Db.Messages.{get_message_by_id, insert_message, update_translation}
use abb_app.Dispatcher.{Senders, Sender, find_sender, no_sender, succeeded}

-- Where the sweep is: between two items, behind the read of the message, behind the call of Send (or
-- the missing sender) with what it answered, or behind the update of the row.
pub data Phase : Type 0 where
  idle : Phase
  sweeping : List OutboxItem → Phase
  fetched : OutboxItem → Message → List OutboxItem → Phase
  answered : OutboxItem → Outcome (Unit {0}) → List OutboxItem → Phase
  marked : OutboxItem → Outcome (Unit {0}) → List OutboxItem → Phase

-- `retrying` holds the items that the loop of `work` has still to look at.
pub record System : Type 0 where
  pub db : Db
  pub sends : List SendEvent  -- newest first
  pub phase : Phase
  pub retrying : List RetryItem

-- The answer of a read that succeeded.
abbrev pub read_items {ℓ} : {A : Type ℓ} → Outcome (List A) → List A
read_items (ok items) = items
read_items (err e) = []

-- The text of an error, empty for a nil error.
abbrev pub error_text : Outcome (Unit {0}) → Text
error_text (ok u) = []
error_text (err e) = e

-- MarkOutboxSent or MarkOutboxFailed, by the answer of Send.
unfoldable pub mark : ℕ → Outcome (Unit {0}) → ℕ → Db → Db
mark id (ok u) now d = (mark_outbox_sent id now d).1
mark id (err e) now d = (mark_outbox_failed id e now d).1

pub data Step (senders : Senders) (max_attempts : ℕ) (s : System) : System → Type 0 where
  -- DispatchOnce, from GetPendingOutbox on
  begin :
      (now : ℕ)
      → s.phase ≡ idle
      → Step senders max_attempts s
          (record s { phase = sweeping (read_items (get_pending_outbox now s.db).0) })
  finish :
      (items : List OutboxItem)
      → s.phase ≡ sweeping items
      → Step senders max_attempts s (record s { phase = idle })
  unregistered :
      (item : OutboxItem) (items : List OutboxItem)
      → s.phase ≡ sweeping (item ∷ items)
      → find_sender item.channel senders ≡ none
      → Step senders max_attempts s
          (record s { phase = answered item (err (no_sender item.channel)) items })
  fetch :
      (now : ℕ) (item : OutboxItem) (msg : Message) (items : List OutboxItem)
      → s.phase ≡ sweeping (item ∷ items)
      → (get_message_by_id item.message_id now s.db).0 ≡ ok msg
      → Step senders max_attempts s (record s { phase = fetched item msg items })
  unread :
      (now : ℕ) (item : OutboxItem) (e : Text) (items : List OutboxItem)
      → s.phase ≡ sweeping (item ∷ items)
      → (get_message_by_id item.message_id now s.db).0 ≡ err e
      → Step senders max_attempts s (record s { phase = sweeping items })
  send :
      (item : OutboxItem) (msg : Message) (items : List OutboxItem) (answer : Outcome (Unit {0}))
      → s.phase ≡ fetched item msg items
      → Step senders max_attempts s (record s {
        phase = answered item answer items;
        sends =
            record { item = item.id; channel = item.channel; success = succeeded answer } ∷ s.sends;
      })
  update :
      (now : ℕ) (item : OutboxItem) (answer : Outcome (Unit {0})) (items : List OutboxItem)
      → s.phase ≡ answered item answer items
      → Step senders max_attempts s
          (record s { phase = marked item answer items; db = mark item.id answer now s.db })
  append_log :
      (now : ℕ) (item : OutboxItem) (answer : Outcome (Unit {0})) (items : List OutboxItem)
      → s.phase ≡ marked item answer items
      → Step senders max_attempts s (record s {
        phase = sweeping items;
        db = (append_delivery_log item.id (succeeded answer) (error_text answer) now s.db).1;
      })
  -- the retry worker
  look :
      (now : ℕ)
      → s.retrying ≡ []
      → Step senders max_attempts s
          (record s { retrying = read_items (get_failed_outbox max_attempts now s.db).0 })
  early :
      (item : RetryItem) (items : List RetryItem)
      → s.retrying ≡ item ∷ items
      → Step senders max_attempts s (record s { retrying = items })
  reset :
      (now : ℕ) (item : RetryItem) (items : List RetryItem)
      → s.retrying ≡ item ∷ items
      → Step senders max_attempts s
          (record s { retrying = items; db = (reset_to_pending item.id now s.db).1 })
  -- main and saveAndEnqueue
  cancel :
      (cutoff now : ℕ)
      → Step senders max_attempts s (record s { db = (cancel_stale_outbox cutoff now s.db).1 })
  insert :
      (m : Message) (now : ℕ)
      → Step senders max_attempts s (record s { db = (insert_message m now s.db).1 })
  translate :
      (id : ℕ) (t : Text) (now : ℕ)
      → Step senders max_attempts s (record s { db = (update_translation id t now s.db).1 })
  enqueue :
      (id : ℕ) (ch : Text) (now : ℕ)
      → Step senders max_attempts s (record s { db = (create_outbox_entry id ch now s.db).1 })

-- The state before the goroutines are started, with what earlier runs have left.
abbrev pub initial : Db → System
initial d = record { db = d; sends = []; phase = idle; retrying = [] }

pub data Reach (senders : Senders) (max_attempts : ℕ) (from : System) : System → Type 0 where
  here : Reach senders max_attempts from from
  next :
      {s t : System}
      → Reach senders max_attempts from s
      → Step senders max_attempts s t
      → Reach senders max_attempts from t
