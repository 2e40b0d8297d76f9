-- ===== src/App/Pipeline/Tally.antt =====
-- The counters of internal/metrics/metrics.go against the tables and the calls of Send.
pub mod Sweeps
pub mod Runs
use abb_app.Base.{
  ℕ, ◌+◌, ◌-◌, ◌/◌, ◌≡◌, refl, ◌∙◌, ap, inl, inr, Bool, true, false, Bool-cases, Option,
  Option-cases, none, some, List, [], ◌∷◌, ◌++◌, length, length-append, ltb, ◌==◌, arith,
  if◌then◌else◌,
}
use abb_app.Base.Text.{Text, text_eq}
use abb_app.Model.{Message, OutboxItem, RetryItem}
use abb_app.Db.{Db, MessageRow, second}
use abb_app.Db.Session.{
  Outcome, ok, err, World, SendEvent, Tick, exec, exec-cases, sends-exec, metrics-exec,
}
use abb_app.Db.Messages.{
  insert_message, insert_or_ignore, find_android, select_by_android, save_message, after_insert,
  update_translation, set_translation, get_message_by_id,
}
use abb_app.Db.Outbox.{
  mark_outbox_sent, mark_outbox_failed, append_delivery_log, create_outbox_entry, reset_to_pending,
  cancel_stale_outbox, get_pending_outbox, get_failed_outbox, count_exhausted_outbox,
}
use abb_app.Dispatcher.{
  Context, Sender, Senders, find_sender, send_item, record_failure, record_success, after_send,
  deliver_message, deliver, deliver_items, sweep, dispatch_once, stops_before, succeeded,
}
use abb_app.Dispatcher.Effect.{db-get_message_by_id}
use abb_app.Dispatcher.Sweep.{messages-append_delivery_log}
use abb_app.Dispatcher.Retry.{due, reset_due, reschedule, work_items, work}
use abb_app.App.Save.{
  Translator, store_translation, translate, enqueue, after_save, save_and_enqueue, count_received,
}
use abb_app.App.Pipeline.{
  Config, Action, receive, dispatch, retry, cancel_stale, cancel_older, step, run, start,
}
use abb_app.App.Pipeline.Changes.{create_outbox_entry-cases}

-- The channels of the calls of Send that succeeded, and of those that failed, newest first.
unfoldable pub sent_channels : List SendEvent → List Text
sent_channels [] = []
sent_channels (e ∷ es) = let rest = sent_channels es in if e.success then e.channel ∷ rest else rest

unfoldable pub failed_channels : List SendEvent → List Text
failed_channels [] = []
failed_channels (e ∷ es) =
    let rest = failed_channels es in if e.success then rest else e.channel ∷ rest

-- `new` is the number of stored messages that are not counted yet.
pub record Tally (new : ℕ) (w : World) : Type 0 where
  pub received : w.metrics.sms_received + new ≡ length w.db.messages
  pub sent : w.metrics.sms_sent ≡ sent_channels w.sends
  pub failed : w.metrics.sms_failed ≡ failed_channels w.sends

-- A statement that keeps the number of messages.
abbrev pub KeepsCount : {A : Type 0} → (ℕ → Db → Outcome A × Db) → Type 0
KeepsCount op = (t : ℕ) (d : Db) → length (op t d).1.messages ≡ length d.messages

-- Two worlds that agree in all that is counted.
pub record Same (w w' : World) : Type 0 where
  pub messages : length w'.db.messages ≡ length w.db.messages
  pub sends : w'.sends ≡ w.sends
  pub metrics : w'.metrics ≡ w.metrics

Same-trans : (w w' v : World) → Same w w' → Same w' v → Same w v
Same-trans w w' v a b = record {
  messages = b.messages ∙ a.messages;
  sends = b.sends ∙ a.sends;
  metrics = b.metrics ∙ a.metrics;
}

exec-Same :
    {A : Type 0} (op : ℕ → Db → Outcome A × Db) (w : World) → KeepsCount op → Same w (exec op w).1
exec-Same op w keeps = record {
  messages = elim (exec-cases op w) [
    | inl (t, _, left) ↦ rw left (keeps t w.db)
    | inr (_, kept, _) ↦ rw kept refl
  ];
  sends = sends-exec op w;
  metrics = metrics-exec op w;
}

Tally-Same : (n : ℕ) (w w' : World) → Same w w' → Tally n w → Tally n w'
Tally-Same n w w' same h = record {
  received = rw (same.metrics, same.messages) h.received;
  sent = rw (same.metrics, same.sends) h.sent;
  failed = rw (same.metrics, same.sends) h.failed;
}

pub exec-Tally :
    {A : Type 0} (op : ℕ → Db → Outcome A × Db) (n : ℕ) (w : World)
    → KeepsCount op
    → Tally n w
    → Tally n (exec op w).1
exec-Tally op n w keeps = Tally-Same n w _ (exec-Same op w keeps)

append_delivery_log-KeepsCount :
    (id : ℕ) (b : Bool) (e : Text) → KeepsCount (append_delivery_log id b e)
append_delivery_log-KeepsCount id b e t d = ap length (messages-append_delivery_log id b e t d)

get_message_by_id-KeepsCount : (id : ℕ) → KeepsCount (get_message_by_id id)
get_message_by_id-KeepsCount id t d = rw (db-get_message_by_id id t d) refl

pub create_outbox_entry-KeepsCount : (id : ℕ) (ch : Text) → KeepsCount (create_outbox_entry id ch)
create_outbox_entry-KeepsCount id ch t d = elim (create_outbox_entry-cases id ch t d) [
  | inl same ↦ rw same refl
  | inr (stored, grown) ↦ rw grown refl
]

length-set_translation :
    (id : ℕ) (t : Text) (rows : List MessageRow) → length (set_translation id t rows) ≡ length rows
unfolding set_translation
length-set_translation id t [] = refl
length-set_translation id t (r ∷ rows) = ground (arith, length-set_translation id t rows)

pub update_translation-KeepsCount : (id : ℕ) (t : Text) → KeepsCount (update_translation id t)
unfolding update_translation
update_translation-KeepsCount id t now d = length-set_translation id t d.messages

pub select_by_android-KeepsCount : (k : Text) → KeepsCount (select_by_android k)
unfolding select_by_android
select_by_android-KeepsCount k t d = ground arith

-- The dispatcher and the retry worker.
record_failure-Same : (id : ℕ) (e : Text) (w : World) → Same w (record_failure id e w)
unfolding record_failure mark_outbox_failed
record_failure-Same id e w =
    Same-trans w _ _ (exec-Same (mark_outbox_failed id e) w (λ t d. refl))
      (exec-Same (append_delivery_log id false e) _ (append_delivery_log-KeepsCount id false e))

record_success-Same : (id : ℕ) (w : World) → Same w (record_success id w)
unfolding record_success mark_outbox_sent
record_success-Same id w =
    Same-trans w _ _ (exec-Same (mark_outbox_sent id) w (λ t d. refl))
      (exec-Same (append_delivery_log id true []) _ (append_delivery_log-KeepsCount id true []))

-- A call of Send, and the counter behind it.
after_send-Tally :
    (item : OutboxItem) (o : Outcome (Unit {0})) (n : ℕ) (w : World)
    → Tally n w
    → Tally n (
        after_send item o (record w {
          sends =
              record { item = item.id; channel = item.channel; success = succeeded o } ∷ w.sends;
        }))
unfolding after_send sent_channels failed_channels
after_send-Tally item (ok u) n w h =
    let same = record_success-Same item.id (record w {
      sends = record { item = item.id; channel = item.channel; success = true } ∷ w.sends;
    }) in
    record {
      received = rw (same.metrics, same.messages) h.received;
      sent = rw (same.metrics, same.sends) (ap (λ cs. item.channel ∷ cs) h.sent);
      failed = rw (same.metrics, same.sends) h.failed;
    }
after_send-Tally item (err e) n w h =
    let same = record_failure-Same item.id e (record w {
      sends = record { item = item.id; channel = item.channel; success = false } ∷ w.sends;
    }) in
    record {
      received = rw (same.metrics, same.messages) h.received;
      sent = rw (same.metrics, same.sends) h.sent;
      failed = rw (same.metrics, same.sends) (ap (λ cs. item.channel ∷ cs) h.failed);
    }

deliver_message-Tally :
    (s : Sender) (item : OutboxItem) (m : Outcome Message) (n : ℕ) (w : World)
    → Tally n w
    → Tally n (deliver_message s item m w)
unfolding deliver_message send_item
deliver_message-Tally s item (err e) n w h = h
deliver_message-Tally s item (ok msg) n w h =
    after_send-Tally item (s.send (length w.sends) msg) n w h

pub deliver-Tally :
    (senders : Senders) (item : OutboxItem) (n : ℕ) (w : World)
    → Tally n w
    → Tally n (deliver senders item w)
unfolding deliver
deliver-Tally senders item n w h = elim (Option-cases (find_sender item.channel senders)) [
  | inl e ↦ rw (e, deliver) (Tally-Same n w _ (record_failure-Same item.id _ w) h)
  | inr (s, e) ↦
      let read = exec (get_message_by_id item.message_id) w in
      let read-Tally : Tally n read.1 =
        exec-Tally (get_message_by_id item.message_id) n w
          (get_message_by_id-KeepsCount item.message_id) h in
      rw (e, deliver) (deliver_message-Tally s item read.0 n read.1 read-Tally)
]
