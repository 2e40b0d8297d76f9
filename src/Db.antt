-- ===== src/Db.antt =====
-- internal/db/db.go: the three tables that `migrate` creates, as lists of rows in rowid order, and
-- the session through which the program reaches them.
-- A DATETIME column holds whole seconds, as CURRENT_TIMESTAMP writes them. A column that is not
-- declared NOT NULL is an `Option`. The columns body_edited, created_at and messages.status, which
-- no statement of the program reads or writes, are left out.
pub mod Messages
pub mod Outbox
pub mod Times
pub mod Rows
pub mod Session
use abb_app.Base.{
  ℕ, zero, suc, ◌+◌, Bool, true, false, Option, none, some, List, [], ◌∷◌, map, max, ◌==◌,
  if◌then◌else◌,
}
use abb_app.Base.Text.{Text}
use abb_app.Model.{Status, pending, sent, failed, cancelled}

pub record MessageRow : Type 0 where
  pub id : ℕ
  pub android_id : Text
  pub address : Text
  pub body : Text
  pub device_name : Option Text
  pub sim_name : Option Text
  pub source : Option Text
  pub translation : Option Text
  pub received_at : ℕ

pub record OutboxRow : Type 0 where
  pub id : ℕ
  pub message_id : ℕ
  pub channel : Text
  pub status : Status
  pub attempts : ℕ
  pub last_error : Option Text
  pub scheduled_at : ℕ
  pub sent_at : Option ℕ

pub record LogRow : Type 0 where
  pub outbox_id : ℕ
  pub attempted_at : ℕ
  pub success : Bool
  pub error : Text

pub record Db : Type 0 where
  pub messages : List MessageRow
  pub outbox : List OutboxRow
  pub delivery_log : List LogRow

abbrev pub empty : Db
empty = record { messages = []; outbox = []; delivery_log = [] }

abbrev pub second : ℕ
second = 1_000_000_000

abbrev pub status_eq : Status → Status → Bool
status_eq pending pending = true
status_eq sent sent = true
status_eq failed failed = true
status_eq cancelled cancelled = true
status_eq _ _ = false

abbrev pub coalesce {ℓ} : {A : Type ℓ} → Option A → A → A
coalesce none d = d
coalesce (some a) d = a

-- The largest id of a table, 0 for an empty one. A new INTEGER PRIMARY KEY is one more.
unfoldable pub max_outbox_id : List OutboxRow → ℕ
max_outbox_id [] = 0
max_outbox_id (r ∷ rs) = max r.id (max_outbox_id rs)

unfoldable pub max_message_id : List MessageRow → ℕ
max_message_id [] = 0
max_message_id (r ∷ rs) = max r.id (max_message_id rs)

-- SELECT ... FROM outbox WHERE id = ?
unfoldable pub find_outbox : ℕ → List OutboxRow → Option OutboxRow
find_outbox k [] = none
find_outbox k (r ∷ rs) = if r.id == k then some r else find_outbox k rs

-- SELECT ... FROM messages WHERE id = ?
unfoldable pub find_message : ℕ → List MessageRow → Option MessageRow
find_message k [] = none
find_message k (r ∷ rs) = if r.id == k then some r else find_message k rs

-- UPDATE outbox SET f WHERE id = ?
unfoldable pub update_outbox : ℕ → (OutboxRow → OutboxRow) → List OutboxRow → List OutboxRow
update_outbox k f [] = []
update_outbox k f (r ∷ rs) = (if r.id == k then f r else r) ∷ update_outbox k f rs
