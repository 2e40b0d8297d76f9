-- ===== src/Db/Outbox.antt =====
-- internal/db/outbox.go: the statements on outbox and delivery_log.
use abb_app.Base.{
  ℕ, ◌+◌, ◌*◌, Bool, ◌&&◌, ◌||◌, Option, none, some, List, [], ◌∷◌, ◌++◌, map, length, filter, max,
  ltb, leb, ◌==◌, if◌then◌else◌,
}
use abb_app.Base.Text.{Text, codes}
use abb_app.Model.{OutboxItem, RetryItem, Status, pending, sent, failed, cancelled}
use abb_app.Db.{
  Db, OutboxRow, LogRow, second, coalesce, status_eq, max_outbox_id, find_outbox, find_message,
  update_outbox,
}
use abb_app.Db.Session.{Outcome, ok, err}

abbrev foreign_key : Text
foreign_key = codes "FOREIGN KEY constraint failed"

-- The row that the INSERT makes, with the table's defaults.
abbrev pub new_row : ℕ → ℕ → Text → ℕ → OutboxRow
new_row id message_id channel now = record {
  id = id;
  message_id = message_id;
  channel = channel;
  status = pending;
  attempts = 0;
  last_error = none;
  scheduled_at = now;
  sent_at = none;
}

-- CreateOutboxEntry. `message_id` references messages(id), with PRAGMA foreign_keys on.
unfoldable pub create_outbox_entry : ℕ → Text → ℕ → Db → Outcome (Unit {0}) × Db
create_outbox_entry message_id channel now d = elim (find_message message_id d.messages) [
  | none ↦ (err foreign_key, d)
  | some m ↦ (
    ok tt,
    record d {
      outbox = d.outbox ++ new_row (max_outbox_id d.outbox + 1) message_id channel now ∷ [];
    },
  )
]

-- CountOutbox
unfoldable pub count_outbox : Status → ℕ → Db → Outcome ℕ × Db
count_outbox status now d = (ok (length (filter (λ r. status_eq r.status status) d.outbox)), d)

abbrev pub to_item : OutboxRow → OutboxItem
to_item r = record {
  id = r.id;
  message_id = r.message_id;
  channel = r.channel;
  status = r.status;
  attempts = r.attempts;
  last_error = coalesce r.last_error [];
  scheduled_at = r.scheduled_at * second;
}

-- ORDER BY scheduled_at ASC, with equal keys in rowid order.
unfoldable pub insert_by_schedule : OutboxRow → List OutboxRow → List OutboxRow
insert_by_schedule r [] = r ∷ []
insert_by_schedule r (s ∷ rs) =
    if leb r.scheduled_at s.scheduled_at then r ∷ s ∷ rs else s ∷ insert_by_schedule r rs

unfoldable pub by_schedule : List OutboxRow → List OutboxRow
unfolding insert_by_schedule
by_schedule [] = []
by_schedule (r ∷ rs) = insert_by_schedule r (by_schedule rs)

-- The rows of GetPendingOutbox, before they are scanned.
unfoldable pub pending_rows : List OutboxRow → List OutboxRow
unfolding by_schedule
pending_rows rows = by_schedule (filter (λ r. status_eq r.status pending) rows)

-- GetPendingOutbox
unfoldable pub get_pending_outbox : ℕ → Db → Outcome (List OutboxItem) × Db
unfolding pending_rows
get_pending_outbox now d = (ok (map to_item (pending_rows d.outbox)), d)

-- UpdateOutboxStatus
unfoldable pub update_outbox_status : ℕ → Status → Text → ℕ → Db → Outcome (Unit {0}) × Db
update_outbox_status id status last_error now d = (
  ok tt,
  record d {
    outbox =
        update_outbox id (λ r. record r { status = status; last_error = some last_error }) d.outbox;
  },
)

-- MarkOutboxSent
abbrev pub as_sent : ℕ → OutboxRow → OutboxRow
as_sent now r = record r { status = sent; sent_at = some now; attempts = r.attempts + 1 }

unfoldable pub mark_outbox_sent : ℕ → ℕ → Db → Outcome (Unit {0}) × Db
mark_outbox_sent id now d = (ok tt, record d { outbox = update_outbox id (as_sent now) d.outbox })

-- MarkOutboxFailed
abbrev pub as_failed : Text → OutboxRow → OutboxRow
as_failed e r = record r { status = failed; last_error = some e; attempts = r.attempts + 1 }

unfoldable pub mark_outbox_failed : ℕ → Text → ℕ → Db → Outcome (Unit {0}) × Db
mark_outbox_failed id last_error now d =
    (ok tt, record d { outbox = update_outbox id (as_failed last_error) d.outbox })

-- AppendDeliveryLog. `outbox_id` references outbox(id).
unfoldable pub append_delivery_log : ℕ → Bool → Text → ℕ → Db → Outcome (Unit {0}) × Db
append_delivery_log outbox_id success error now d = elim (find_outbox outbox_id d.outbox) [
  | none ↦ (err foreign_key, d)
  | some r ↦ (
    ok tt,
    record d {
      delivery_log =
          d.delivery_log
          ++ record { outbox_id = outbox_id; attempted_at = now; success = success; error = error }
            ∷ [];
    },
  )
]

-- CountDeliveryLog
unfoldable pub count_delivery_log : ℕ → ℕ → Db → Outcome ℕ × Db
count_delivery_log outbox_id now d =
    (ok (length (filter (λ l. l.outbox_id == outbox_id) d.delivery_log)), d)

-- SELECT MAX(dl.attempted_at) FROM delivery_log dl WHERE dl.outbox_id = ?
unfoldable pub last_attempt : ℕ → List LogRow → Option ℕ
last_attempt id [] = none
last_attempt id (l ∷ ls) =
    let rest = last_attempt id ls in
    if l.outbox_id == id then some (max l.attempted_at (coalesce rest 0)) else rest

abbrev pub to_retry_item : List LogRow → OutboxRow → RetryItem
to_retry_item log r = record {
  id = r.id;
  message_id = r.message_id;
  channel = r.channel;
  attempts = r.attempts;
  last_attempt_at = coalesce (last_attempt r.id log) r.scheduled_at * second;
}

abbrev pub is_retryable : ℕ → OutboxRow → Bool
is_retryable max_attempts r = status_eq r.status failed && ltb r.attempts max_attempts

-- GetFailedOutbox. The rows stand in rowid order already.
unfoldable pub get_failed_outbox : ℕ → ℕ → Db → Outcome (List RetryItem) × Db
get_failed_outbox max_attempts now d =
    (ok (map (to_retry_item d.delivery_log) (filter (is_retryable max_attempts) d.outbox)), d)

-- ResetToPending
abbrev pub as_pending : OutboxRow → OutboxRow
as_pending r = record r { status = pending; last_error = none }

unfoldable pub reset_to_pending : ℕ → ℕ → Db → Outcome (Unit {0}) × Db
reset_to_pending id now d = (ok tt, record d { outbox = update_outbox id as_pending d.outbox })

abbrev pub is_stale : ℕ → OutboxRow → Bool
is_stale cutoff r =
    (status_eq r.status pending || status_eq r.status failed) && ltb r.scheduled_at cutoff

abbrev pub as_cancelled : OutboxRow → OutboxRow
as_cancelled r = record r { status = cancelled }

-- CancelStaleOutbox. The cutoff is computed by the program, to whole seconds.
unfoldable pub cancel_stale_outbox : ℕ → ℕ → Db → Outcome ℕ × Db
cancel_stale_outbox cutoff now d = (
  ok (length (filter (is_stale cutoff) d.outbox)),
  record d { outbox = map (λ r. if is_stale cutoff r then as_cancelled r else r) d.outbox },
)

-- CountExhaustedOutbox
unfoldable pub count_exhausted_outbox : ℕ → ℕ → Db → Outcome ℕ × Db
count_exhausted_outbox max_attempts now d = (
  ok (length (filter (λ r. status_eq r.status failed && leb max_attempts r.attempts) d.outbox)),
  d,
)
