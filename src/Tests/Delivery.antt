-- ===== src/Tests/Delivery.antt =====
-- The path of a message from its receipt to its delivery, on one message and one channel.
use abb_app.Base.{
  length, ℕ, ◌+◌, ◌-◌, ◌*◌, ◌^◌, ◌≤◌, ◌<◌, ◌≡◌, ◌≢◌, refl, min, Bool, true, false, subst, Option,
  none, some, List, [], ◌∷◌, ◌==◌, leb, ltb, arith, if◌then◌else◌,
}
use abb_app.Base.Text.{Text, codes, text_eq, atoi, span_digits}
use abb_app.Model.{Message, Status, pending, sent, failed}
use abb_app.Db.{
  Db, OutboxRow, MessageRow, find_outbox, find_message, update_outbox, max_outbox_id,
  max_message_id, status_eq,
}
use abb_app.Db.Session.{ok, err, Tick, World, exec}
use abb_app.Db.Outbox.{
  mark_outbox_sent, mark_outbox_failed, append_delivery_log, get_pending_outbox,
  create_outbox_entry, last_attempt, as_pending, get_failed_outbox, to_retry_item,
}
use abb_app.Db.Messages.{save_message, insert_message, select_by_android, get_message_by_id}
use abb_app.Db.Rows.{keep}
use abb_app.Dispatcher.{
  Senders, background, stops_before, dispatch_once, deliver_items, deliver, find_sender,
}
use abb_app.Dispatcher.Backoff.{backoff, backoff-eq-min, max_backoff}
use abb_app.Dispatcher.Retry.{due, work}
use abb_app.Dispatcher.Ticker.{Wake, tick, retry_loop}
use abb_app.App.Pipeline.Retried.{work-Attempted}
use abb_app.App.Pipeline.Served.{Ended, retry_loop-IsOver}
use abb_app.App.Pipeline.Hours.{hours}
use abb_app.Dispatcher.Drain.{Attempted, Settles, References, dispatch_once-Settles}
use abb_app.App.Save.{save_and_enqueue}
use abb_app.App.Again.{save_and_enqueue_again}
use abb_app.App.Start.{cast_integer, max_android_id, get_max_android_id, start_id, start_id-covers}
use abb_app.Db.Messages.{find_android}
use abb_app.App.Pipeline.{Config, Action, receive, dispatch, run, step, start}
use abb_app.App.Pipeline.Tally.{sent_channels, failed_channels}
use abb_app.App.Pipeline.Tally.Runs.{metrics_agree}
use abb_app.App.Pipeline.Delivery.{
  successes, quota, delivered_once, sent_was_delivered, attempts_bounded,
}

abbrev sms : Message
sms = record {
  android_id = codes "12";
  subscription_id = [];
  address = codes "+995";
  body = codes "hello";
  translation = [];
  device_name = codes "phone";
  sim_name = [];
  source = codes "adb";
  recipient = [];
  received_at = 5_000_000_000;
}

-- A channel whose first call of Send fails.
abbrev shaky : Senders
shaky =
    (codes "telegram", record { send = λ n m. if n == 0 then err (codes "timeout") else ok tt })
    ∷ []

abbrev steady : Senders
steady = (codes "telegram", record { send = λ n m. ok tt }) ∷ []

abbrev config : Senders → Config
config senders = record {
  translator = none;
  channels = codes "telegram" ∷ [];
  senders = senders;
  max_attempts = 3;
  retry_base = 30_000_000_000;
}

abbrev quiet : List Tick
quiet =
    record { fails = false; elapsed = 1_000_000_000 } ∷ record { fails = false; elapsed = 0 } ∷ []

-- The message is queued, and swept twice.
abbrev day : List Action
day = receive sms ∷ dispatch background ∷ dispatch background ∷ []

abbrev begin : ℕ
begin = 7_000_000_000

abbrev outbox_row : Status → ℕ → Option Text → Option ℕ → OutboxRow
outbox_row st n e at = record {
  id = 1;
  message_id = 1;
  channel = codes "telegram";
  status = st;
  attempts = n;
  last_error = e;
  scheduled_at = 8;
  sent_at = at;
}

delivered_row :
    find_outbox 1 (run (config steady) day (start begin quiet)).db.outbox
    ≡ some (outbox_row sent 1 none (some 8))
unfolding run step save_and_enqueue dispatch_once deliver_items deliver exec save_message
    insert_message select_by_android create_outbox_entry get_pending_outbox get_message_by_id
    mark_outbox_sent mark_outbox_failed append_delivery_log find_outbox find_message update_outbox
    max_outbox_id max_message_id find_sender text_eq
delivered_row = refl

failed_row :
    find_outbox 1 (run (config shaky) day (start begin quiet)).db.outbox
    ≡ some (outbox_row failed 1 (some (codes "timeout")) none)
unfolding run step save_and_enqueue dispatch_once deliver_items deliver exec save_message
    insert_message select_by_android create_outbox_entry get_pending_outbox get_message_by_id
    mark_outbox_sent mark_outbox_failed append_delivery_log find_outbox find_message update_outbox
    max_outbox_id max_message_id find_sender text_eq
failed_row = refl

delivered_once_example :
    successes 1 (run (config steady) day (start begin quiet)).sends
    ≤ quota (find_outbox 1 (run (config steady) day (start begin quiet)).db.outbox)
delivered_once_example = delivered_once (config steady) day begin quiet 1 (refl, (refl, tt))

sent_was_delivered_example : 0 < successes 1 (run (config steady) day (start begin quiet)).sends
sent_was_delivered_example =
    sent_was_delivered (config steady) day begin quiet 1 (outbox_row sent 1 none (some 8))
      delivered_row refl

attempts_bounded_example : 1 + 0 ≤ 3
attempts_bounded_example =
    attempts_bounded (config shaky) day begin quiet 1
      (outbox_row failed 1 (some (codes "timeout")) none) (omega arith) failed_row

-- A database with one message and one pending row.

abbrev message_row : MessageRow
message_row = record {
  id = 1;
  android_id = codes "12";
  address = codes "+995";
  body = codes "hello";
  device_name = none;
  sim_name = none;
  source = none;
  translation = none;
  received_at = 5;
}

abbrev one_pending : Db
one_pending = record {
  messages = message_row ∷ [];
  outbox = outbox_row pending 0 none none ∷ [];
  delivery_log = [];
}

abbrev one_pending_world : World
one_pending_world = record {
  db = one_pending;
  now = begin;
  ticks = quiet;
  sends = [];
  metrics = record { sms_received = 0; sms_sent = []; sms_failed = [] };
}

message_found : (o : Option MessageRow) → o ≡ some message_row → o ≢ none
message_found o e h = cc

same_row : (b : Bool) (o r : OutboxRow) → (if b then some o else none) ≡ some r → o ≡ r
same_row true o r h = cc
same_row false o r h = cc

one_pending-References : References one_pending
unfolding find_outbox find_message
one_pending-References k r h =
    subst (λ r. find_message r.message_id one_pending.messages ≢ none)
      (same_row (1 == k) (outbox_row pending 0 none none) r h) (message_found _ refl)

undisturbed : (i : ℕ) → stops_before background i ≡ false
undisturbed i = ground arith

dispatch_once-Settles_example :
    Settles
      (keep (λ r. status_eq r.status pending) (find_outbox 1 one_pending.outbox))
      (find_outbox 1 one_pending.outbox)
      (find_outbox 1 (dispatch_once background (config shaky).senders one_pending_world).db.outbox)
unfolding find_outbox
dispatch_once-Settles_example =
    dispatch_once-Settles background (config shaky).senders one_pending_world undisturbed (refl, tt)
      one_pending-References (refl, (refl, tt)) 1

-- The same database behind a failed attempt, whose wait is over.

abbrev failed_once : OutboxRow
failed_once = outbox_row failed 1 (some (codes "timeout")) none

abbrev one_failed : Db
one_failed = record one_pending { outbox = failed_once ∷ [] }

abbrev one_failed_world : World
one_failed_world = record one_pending_world { db = one_failed; now = 9_000_000_000 }

one_failed-References : References one_failed
unfolding find_outbox find_message
one_failed-References k r h =
    subst (λ r. find_message r.message_id one_failed.messages ≢ none)
      (same_row (1 == k) failed_once r h) (message_found _ refl)

wait_is_over :
    ltb
      (exec (get_failed_outbox 3) one_failed_world).1.now
      (due 1_000 (to_retry_item one_failed.delivery_log failed_once))
    ≡ false
unfolding exec due backoff last_attempt
wait_is_over = refl

work-Attempted_example :
    Attempted
      (as_pending failed_once)
      (find_outbox 1 (work background (config shaky).senders 3 1_000 one_failed_world).db.outbox)
unfolding find_outbox
work-Attempted_example =
    work-Attempted background (config shaky).senders 3 1_000 one_failed_world 1 failed_once
      undisturbed (refl, (refl, tt)) (refl, tt) one_failed-References refl refl wait_is_over

-- Four ticks, half an hour apart, in which the channel goes on as it likes.

abbrev half_hour : ℕ
half_hour = 1_800_000_000_000

abbrev two_hours : List Wake
two_hours =
    tick half_hour background
    ∷ tick half_hour background
    ∷ tick half_hour background
    ∷ tick half_hour background
    ∷ []

two_hours_long : hours 0 two_hours ≡ 2
unfolding hours
two_hours_long = refl

retry_loop-IsOver_example : Ended (config shaky) 1 (
    retry_loop
      (config shaky).senders
      (config shaky).max_attempts
      (config shaky).retry_base
      two_hours
      one_failed_world)
unfolding find_outbox
retry_loop-IsOver_example =
    retry_loop-IsOver (config shaky) 1 failed_once two_hours one_failed_world (omega arith)
      (refl, (refl, tt)) (refl, tt) one_failed-References (omega arith, tt) refl (omega arith) refl
      (undisturbed, (undisturbed, (undisturbed, (undisturbed, tt))))
      (rw two_hours_long (omega arith))

backoff-eq-min_example :
    backoff 4 30_000_000_000
    ≡ (if leb 4 1 then 30_000_000_000 else min (30_000_000_000 * 2 ^ (4 - 1)) max_backoff)
backoff-eq-min_example = backoff-eq-min 4 30_000_000_000 (omega arith)

-- Four minutes, and an hour for the tenth attempt.
backoff_values :
    (backoff 4 30_000_000_000 ≡ 240_000_000_000) × (backoff 10 30_000_000_000 ≡ 3_600_000_000_000)
unfolding backoff
backoff_values = (refl, refl)

abbrev fresh : World
fresh = start begin quiet

save_and_enqueue_again_example :
    ((save_and_enqueue none []
        (record sms { body = codes "again" })
        (save_and_enqueue none (codes "telegram" ∷ []) sms fresh).1).0
      ≡ ok false)
    × ((save_and_enqueue none []
          (record sms { body = codes "again" })
          (save_and_enqueue none (codes "telegram" ∷ []) sms fresh).1).1.db
        ≡ (save_and_enqueue none (codes "telegram" ∷ []) sms fresh).1.db)
save_and_enqueue_again_example =
    save_and_enqueue_again none none (codes "telegram" ∷ []) [] sms
      (record sms { body = codes "again" }) fresh (refl, (refl, tt)) refl

first_message : find_android (codes "12") one_pending.messages ≡ some message_row
unfolding find_android text_eq
first_message = refl

start_id-covers_example :
    cast_integer (codes "12")
    ≤ start_id false (get_max_android_id 7 one_pending).0 (some (err (codes "offline")))
start_id-covers_example =
    start_id-covers 7 one_pending (some (err (codes "offline"))) (codes "12") message_row
      first_message refl

start_value : start_id false (get_max_android_id 7 one_pending).0 (some (ok 40)) ≡ 40
unfolding start_id get_max_android_id max_android_id cast_integer atoi span_digits
start_value = refl

metrics_agree_example :
    let w : World = run (config shaky) day (start begin quiet) in
    (w.metrics.sms_received ≡ length w.db.messages)
    × (w.metrics.sms_sent ≡ sent_channels w.sends)
    × (w.metrics.sms_failed ≡ failed_channels w.sends)
metrics_agree_example = metrics_agree (config shaky) day begin quiet
