-- ===== src/Tests/Threads.antt =====
-- A run of the goroutines: a message is stored and queued, cancelled while the sweep sends it, and
-- marked as sent.
use abb_app.Base.{◌+◌, ◌≤◌, ◌≡◌, refl, false, some, [], ◌∷◌, arith}
use abb_app.Base.Text.{codes}
use abb_app.Model.{Message}
use abb_app.Db.{
  OutboxRow, empty, find_outbox, find_message, max_message_id, max_outbox_id, update_outbox,
}
use abb_app.Db.Session.{ok, err}
use abb_app.Db.Messages.{insert_message, find_android, get_message_by_id}
use abb_app.Db.Outbox.{
  create_outbox_entry, get_pending_outbox, cancel_stale_outbox, mark_outbox_sent, to_item, new_row,
  as_sent, as_cancelled, as_failed, as_pending, mark_outbox_failed, reset_to_pending,
  get_failed_outbox, append_delivery_log, last_attempt, to_retry_item,
}
use abb_app.App.Pipeline.Delivery.{successes}
use abb_app.App.Threads.{
  System, Reach, here, next, append_log, begin, fetch, look, reset, send, update, cancel, insert,
  enqueue, initial, mark,
}
use abb_app.App.Threads.Attempts.{attempts_below}
use abb_app.App.Threads.Life.{Later}
use abb_app.App.Threads.Faults.{
  FaultyRun, FaultyReach, here, next, works, update_fails, restarts, times, sends_bounded,
  sent_counts,
}

abbrev note : Message
note = record {
  android_id = codes "12";
  subscription_id = [];
  address = codes "+995";
  body = codes "hello";
  translation = [];
  device_name = [];
  sim_name = [];
  source = codes "adb";
  recipient = [];
  received_at = 5;
}

-- The row, with its message queued at second 7.
abbrev queued : OutboxRow
queued = new_row 1 1 (codes "ntfy") 7

abbrev stored : Message
stored = record note { translation = [] }

pub record Ran : Type 0 where
  pub last : System
  pub reach : Reach [] 5 (initial empty) last

raced : Ran
unfolding insert_message find_android max_message_id max_outbox_id create_outbox_entry find_message
    get_pending_outbox get_message_by_id
raced = record {
  last = _;
  reach =
      next
        (next
          (next
            (next
              (next (next (next here (insert note 7)) (enqueue 1 (codes "ntfy") 7)) (begin 8 refl))
              (fetch 8 (to_item queued) stored [] refl refl))
            (cancel 9 9))
          (send (to_item queued) stored [] (ok tt) refl))
        (update 9 (to_item queued) (ok tt) [] refl);
}

raced_row : find_outbox 1 raced.last.db.outbox ≡ some (as_sent 9 (as_cancelled queued))
unfolding raced find_outbox update_outbox mark mark_outbox_sent cancel_stale_outbox insert_message
    find_android max_message_id max_outbox_id create_outbox_entry find_message
raced_row = refl

-- A call of Send succeeds, MarkOutboxSent fails, and the next sweep sends once more.
pub record FaultyRan : Type 0 where
  pub last : FaultyRun
  pub reach : FaultyReach [] 5 last

doubled : FaultyRan
unfolding insert_message find_android max_message_id max_outbox_id create_outbox_entry find_message
    get_pending_outbox get_message_by_id
doubled = record {
  last = _;
  reach =
      next
        (next
          (next
            (next
              (next
                (next
                  (next
                    (next
                      (next
                        (next (next here (works _ (insert note 7)))
                          (works _ (enqueue 1 (codes "ntfy") 7)))
                        (works _ (begin 8 refl)))
                      (works _ (fetch 8 (to_item queued) stored [] refl refl)))
                    (works _ (send (to_item queued) stored [] (ok tt) refl)))
                  (update_fails (to_item queued) (ok tt) [] refl))
                restarts)
              (works _ (begin 9 refl)))
            (works _ (fetch 9 (to_item queued) stored [] refl refl)))
          (works _ (send (to_item queued) stored [] (ok tt) refl)))
        (works _ (update 9 (to_item queued) (ok tt) [] refl));
}

sends_bounded_example : successes 1 doubled.last.system.sends ≤ 1 + times 1 doubled.last.lost
sends_bounded_example = sends_bounded [] 5 doubled.last 1 doubled.reach

sent_twice : successes 1 doubled.last.system.sends ≡ 2
unfolding doubled
sent_twice = refl

doubled_row : find_outbox 1 doubled.last.system.db.outbox ≡ some (as_sent 9 queued)
unfolding doubled find_outbox update_outbox mark mark_outbox_sent insert_message find_android
    max_message_id max_outbox_id create_outbox_entry find_message
doubled_row = refl

sent_counts_example : successes 1 doubled.last.system.sends ≡ 1 + times 1 doubled.last.lost
sent_counts_example =
    sent_counts [] 5 doubled.last 1 (as_sent 9 queued) doubled.reach doubled_row refl

-- The retry worker has read a failed row, which is cancelled before it is made pending again: the row is
-- waiting once more.

abbrev refused : OutboxRow
refused = as_failed (codes "timeout") queued

pub record Revived : Type 0 where
  last : System
  reach : Reach [] 5 (initial empty) last

revived : Revived
unfolding insert_message find_android max_message_id max_outbox_id create_outbox_entry find_message
    get_pending_outbox get_message_by_id mark mark_outbox_failed update_outbox get_failed_outbox
    last_attempt append_delivery_log find_outbox
revived = record {
  last = _;
  reach =
      next
        (next
          (next
            (next
              (next
                (next
                  (next
                    (next (next (next here (insert note 7)) (enqueue 1 (codes "ntfy") 7))
                      (begin 8 refl))
                    (fetch 8 (to_item queued) stored [] refl refl))
                  (send (to_item queued) stored [] (err (codes "timeout")) refl))
                (update 8 (to_item queued) (err (codes "timeout")) [] refl))
              (append_log 8 (to_item queued) (err (codes "timeout")) [] refl))
            (look 9 refl))
          (cancel 9 9))
        (reset 9
          (to_retry_item
            (record { outbox_id = 1; attempted_at = 8; success = false; error = codes "timeout" }
              ∷ [])
            refused)
          [] refl);
}

waits_again : find_outbox 1 revived.last.db.outbox ≡ some (as_pending (as_cancelled refused))
unfolding revived find_outbox update_outbox reset_to_pending cancel_stale_outbox mark
    mark_outbox_failed append_delivery_log insert_message find_android max_message_id max_outbox_id
    create_outbox_entry find_message
waits_again = refl

attempts_below_example : 1 + 0 ≤ 5
attempts_below_example =
    attempts_below [] 5 doubled.last 1 (as_sent 9 queued) (omega arith) doubled.reach doubled_row

-- A row is cancelled while the sweep holds its item, and the call of Send succeeds.
pub record Overtaken : Type 0 where
  before : FaultyRun
  after : FaultyRun
  reach : FaultyReach [] 5 before
  later : Later [] 5 before after
