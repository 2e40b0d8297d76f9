-- ===== src/Dispatcher.antt =====
-- internal/dispatcher/dispatcher.go: the sweep over the pending outbox rows.
-- `DispatchOnce` holds the mutex `mu` throughout, so sweeps do not overlap: each is one function.
pub mod Backoff
pub mod Retry
pub mod Ticker
pub mod Effect
pub mod Sweep
pub mod Drain
pub mod Reschedule
use abb_app.Base.{
  ℕ, zero, suc, ◌+◌, Bool, true, false, ◌&&◌, ◌||◌, Option, none, some, List, [], ◌∷◌, ◌++◌, length,
  ltb, if◌then◌else◌,
}
use abb_app.Base.Text.{Text, codes, text_eq}
use abb_app.Model.{Message, OutboxItem}
use abb_app.Db.Session.{Outcome, ok, err, World, SendEvent, exec}
use abb_app.Db.Outbox.{
  get_pending_outbox, mark_outbox_sent, mark_outbox_failed, append_delivery_log,
}
use abb_app.Db.Messages.{get_message_by_id}

-- sender.Sender. What a call of Send answers may depend on the calls before it: the number is how
-- many were made.
pub record Sender : Type 0 where
  pub send : ℕ → Message → Outcome (Unit {0})

-- The map `senders`.
abbrev pub Senders : Type 0
Senders = List (Text × Sender)

unfoldable pub find_sender : Text → Senders → Option Sender
find_sender channel [] = none
find_sender channel ((name, s) ∷ rest) =
    if text_eq name channel then some s else find_sender channel rest

abbrev pub no_sender : Text → Text
no_sender channel = codes "no sender for channel: " ++ channel

abbrev pub succeeded : Outcome (Unit {0}) → Bool
succeeded (ok u) = true
succeeded (err e) = false

-- The call of Send, recorded.
unfoldable pub send_item : Sender → OutboxItem → Message → World → Outcome (Unit {0}) × World
send_item s item msg w =
    let r = s.send (length w.sends) msg in
    (
      r,
      record w {
        sends = record { item = item.id; channel = item.channel; success = succeeded r } ∷ w.sends;
      },
    )

-- hooks.OnSent and hooks.OnFailed, as main.go sets them.
abbrev on_sent : Text → World → World
on_sent channel w = record w {
  metrics = record w.metrics { sms_sent = channel ∷ w.metrics.sms_sent };
}

abbrev on_failed : Text → World → World
on_failed channel w = record w {
  metrics = record w.metrics { sms_failed = channel ∷ w.metrics.sms_failed };
}

-- Both statements are run whatever the first one answers: their errors are only logged.
unfoldable pub record_failure : ℕ → Text → World → World
record_failure id e w =
    (exec (append_delivery_log id false e) (exec (mark_outbox_failed id e) w).1).1

unfoldable pub record_success : ℕ → World → World
record_success id w = (exec (append_delivery_log id true []) (exec (mark_outbox_sent id) w).1).1

-- The part of `deliver` behind a call of Send.
unfoldable pub after_send : OutboxItem → Outcome (Unit {0}) → World → World
unfolding record_failure record_success
after_send item (err e) w = on_failed item.channel (record_failure item.id e w)
after_send item (ok u) w = on_sent item.channel (record_success item.id w)

-- The part of `deliver` behind the lookup of the message.
unfoldable pub deliver_message : Sender → OutboxItem → Outcome Message → World → World
unfolding after_send send_item
deliver_message s item (err e) w = w
deliver_message s item (ok msg) w = let (r, w') = send_item s item msg w in after_send item r w'

unfoldable pub deliver : Senders → OutboxItem → World → World
unfolding deliver_message record_failure
deliver senders item w = elim (find_sender item.channel senders) [
  | none ↦ record_failure item.id (no_sender item.channel) w
  | some s ↦ let (r, w') = exec (get_message_by_id item.message_id) w in deliver_message s item r w'
]

-- The context of one sweep: what ctx.Err() answers before item i, and whether ctx.Done() ends the
-- pause before it.
pub record Context : Type 0 where
  pub err_before : ℕ → Bool
  pub done_in_pause : ℕ → Bool

abbrev pub stops_before : Context → ℕ → Bool
stops_before ctx i = ctx.err_before i || (ltb 0 i && ctx.done_in_pause i)

-- The loop of DispatchOnce, from item i on.
unfoldable pub deliver_items : Context → Senders → ℕ → List OutboxItem → World → World
deliver_items ctx senders i [] w = w
deliver_items ctx senders i (item ∷ items) w =
    let rest = deliver_items ctx senders (i + 1) items (deliver senders item w) in
    if stops_before ctx i then w else rest

-- The end of the sweep behind the read of the pending rows.
unfoldable pub sweep : Context → Senders → Outcome (List OutboxItem) → World → World
sweep ctx senders (err e) w = w
sweep ctx senders (ok items) w = deliver_items ctx senders 0 items w

unfoldable pub dispatch_once : Context → Senders → World → World
unfolding sweep
dispatch_once ctx senders w = let (r, w') = exec get_pending_outbox w in sweep ctx senders r w'

-- A context that is never cancelled.
abbrev pub background : Context
background = record { err_before = λ i. false; done_in_pause = λ i. false }
