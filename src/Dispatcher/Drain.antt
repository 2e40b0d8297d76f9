-- ===== src/Dispatcher/Drain.antt =====
-- A sweep that nothing disturbs settles every pending row.
use native.Mathlib.Decide.{ℕ_discrete}
use abb_app.Base.{
  ℕ, ◌+◌, ◌≡◌, refl, ◌≢◌, ◌⊎◌, ◌∙◌, ap, subst, true, false, inl, inr, Option, Option-cases, none,
  some, List, [], ◌∷◌, map, All, All-imp,
}
use abb_app.Base.Text.{Text}
use abb_app.Model.{Message, OutboxItem, pending}
use abb_app.Db.{Db, OutboxRow, find_outbox, find_message, status_eq}
use abb_app.Db.Session.{Outcome, ok, err, World, exec, NoFaults, exec-cases, NoFaults-exec}
use abb_app.Db.Outbox.{as_sent, as_failed, to_item, get_pending_outbox, pending_rows}
use abb_app.Db.Messages.{get_message_by_id}
use abb_app.Db.Rows.{Distinct, find_outbox-here, find_outbox-there, keep}
use abb_app.Db.Rows.Pending.{pending_rows-Distinct, find_outbox-pending_rows}
use abb_app.Dispatcher.{
  Context, Sender, Senders, find_sender, send_item, record_failure, record_success, after_send,
  deliver_message, deliver, deliver_items, sweep, dispatch_once, stops_before,
}
use abb_app.Dispatcher.Effect.{deliver-Effect, unread, unsent, delivered, rejected, lost}
use abb_app.Dispatcher.Sweep.{
  Present, Present-deliver, Present-pending_rows, db-get_pending_outbox, deliver-frame,
  deliver-messages,
}

NoFaults-record_failure :
    (id : ℕ) (e : Text) (w : World) → NoFaults w.ticks → NoFaults (record_failure id e w).ticks
unfolding record_failure
NoFaults-record_failure id e w h = NoFaults-exec _ _ (NoFaults-exec _ _ h)

NoFaults-record_success :
    (id : ℕ) (w : World) → NoFaults w.ticks → NoFaults (record_success id w).ticks
unfolding record_success
NoFaults-record_success id w h = NoFaults-exec _ _ (NoFaults-exec _ _ h)

NoFaults-after_send :
    (item : OutboxItem) (o : Outcome (Unit {0})) (w : World)
    → NoFaults w.ticks
    → NoFaults (after_send item o w).ticks
unfolding after_send
NoFaults-after_send item (ok u) w h = NoFaults-record_success item.id w h
NoFaults-after_send item (err e) w h = NoFaults-record_failure item.id e w h

NoFaults-deliver_message :
    (s : Sender) (item : OutboxItem) (m : Outcome Message) (w : World)
    → NoFaults w.ticks
    → NoFaults (deliver_message s item m w).ticks
unfolding deliver_message
NoFaults-deliver_message s item (err e) w h = h
NoFaults-deliver_message s item (ok msg) w h =
    NoFaults-after_send item _ (send_item s item msg w).1 h

pub NoFaults-deliver :
    (senders : Senders) (item : OutboxItem) (w : World)
    → NoFaults w.ticks
    → NoFaults (deliver senders item w).ticks
unfolding deliver
NoFaults-deliver senders item w h = elim (Option-cases (find_sender item.channel senders)) [
  | inl e ↦ rw (e, deliver) (NoFaults-record_failure item.id _ w h)
  | inr (s, e) ↦
      rw (e, deliver)
        (NoFaults-deliver_message s item _ _
          (NoFaults-exec (get_message_by_id item.message_id) w h))
]

-- The row with one more attempt behind it, delivered or failed.
abbrev pub Attempted : OutboxRow → Option OutboxRow → Type 0
Attempted r o = ((t : ℕ) × (o ≡ some (as_sent t r))) ⊎ ((e : Text) × (o ≡ some (as_failed e r)))

-- What a sweep does at one id: a row that it read is attempted, anything else stays.
abbrev pub Settles : Option OutboxRow → Option OutboxRow → Option OutboxRow → Type 0
Settles none before after = after ≡ before
Settles (some r) before after = Attempted r after

deliver-Attempted :
    (senders : Senders) (r : OutboxRow) (w : World)
    → NoFaults w.ticks
    → find_message r.message_id w.db.messages ≢ none
    → find_outbox r.id w.db.outbox ≡ some r
    → Attempted r (find_outbox r.id (deliver senders (to_item r) w).db.outbox)
deliver-Attempted senders r w calm stored here =
    elim (deliver-Effect senders (to_item r) w r here) [
      | unread faulty _ _ ↦ absurd (faulty (calm, stored))
      | unsent e row _ ↦ inr (e, row)
      | delivered t _ row _ ↦ inl (t, row)
      | rejected e _ row _ ↦ inr (e, row)
      | lost _ _ faulty _ _ ↦ absurd (faulty (calm, stored))
    ]

abbrev Stored : World → List OutboxRow → Type 0
Stored w = All (λ r. find_message r.message_id w.db.messages ≢ none)

Stored-deliver :
    (senders : Senders) (item : OutboxItem) (w : World) (rows : List OutboxRow)
    → Stored w rows
    → Stored (deliver senders item w) rows
Stored-deliver senders item w rows h = rw (deliver-messages senders item w) h

Settles-before :
    (o before between after : Option OutboxRow)
    → between ≡ before
    → Settles o between after
    → Settles o before after
Settles-before none before between after same h = h ∙ same
Settles-before (some r) before between after same h = h

module _ (ctx : Context) (senders : Senders) (undisturbed : (i : ℕ) → stops_before ctx i ≡ false)
    (k : ℕ) where
  deliver_items-Settles :
      (i : ℕ) (rows : List OutboxRow) (w : World)
      → Distinct rows
      → Present w rows
      → Stored w rows
      → NoFaults w.ticks
      → Settles
          (find_outbox k rows)
          (find_outbox k w.db.outbox)
          (find_outbox k (deliver_items ctx senders i (map to_item rows) w).db.outbox)
  unfolding deliver_items
  deliver_items-Settles i [] w d p s calm = unfold find_outbox in refl
  deliver_items-Settles i (r ∷ rs) w d p s calm =
      let w1 = deliver senders (to_item r) w in
      let tried : Attempted r (find_outbox r.id w1.db.outbox) =
        deliver-Attempted senders r w calm s.0 p.0.0 in
      let rest =
        deliver_items-Settles (i + 1) rs w1 d.1 (Present-deliver senders r w rs d.0 p.1)
          (Stored-deliver senders (to_item r) w rs s.1)
          (NoFaults-deliver senders (to_item r) w calm) in
      rw (undisturbed i) (elim (ℕ_discrete r.id k) [
        | yes same ↦
            let gone : find_outbox k rs ≡ none = rw (← same) d.0 in
            let kept : find_outbox k
                  (deliver_items ctx senders (i + 1) (map to_item rs) w1).db.outbox
                ≡ find_outbox k w1.db.outbox =
              subst
                (λ o.
                  Settles o (find_outbox k w1.db.outbox) (
                    find_outbox k
                      (deliver_items ctx senders (i + 1) (map to_item rs) w1).db.outbox))
                gone rest in
            rw (find_outbox-here r rs k same, kept, ← same) tried
        | no apart ↦ rw (find_outbox-there r rs k apart) (
            Settles-before (find_outbox k rs) _ _ _
              (deliver-frame senders (to_item r) w k _ apart refl) rest)
      ])

-- Every outbox row belongs to a stored message.
abbrev pub References : Db → Type 0
References d =
    (k : ℕ) (r : OutboxRow)
    → find_outbox k d.outbox ≡ some r
    → find_message r.message_id d.messages ≢ none

Stored-pending_rows :
    (w : World) → Distinct w.db.outbox → References w.db → Stored w (pending_rows w.db.outbox)
Stored-pending_rows w d refs =
    All-imp (λ r. (find_outbox r.id w.db.outbox ≡ some r) × (status_eq r.status pending ≡ true))
      (λ r. find_message r.message_id w.db.messages ≢ none) (pending_rows w.db.outbox)
      (λ r h. refs r.id r h.0) (Present-pending_rows w d)

read-get_pending_outbox :
    (w : World)
    → NoFaults w.ticks
    → (exec get_pending_outbox w).0 ≡ ok (map to_item (pending_rows w.db.outbox))
unfolding get_pending_outbox
read-get_pending_outbox w calm = elim (exec-cases get_pending_outbox w) [
  | inl (t, answer, _) ↦ answer
  | inr (_, _, faulty) ↦ absurd (faulty calm)
]

-- If no statement fails, the context is not cancelled, ids are distinct and every outbox row has its
-- message, then after a sweep each row that was pending is marked as sent or as failed with one more
-- attempt, and every other row is as it was.
pub dispatch_once-Settles :
    (ctx : Context) (senders : Senders) (w : World)
    → ((i : ℕ) → stops_before ctx i ≡ false)
    → Distinct w.db.outbox
    → References w.db
    → NoFaults w.ticks
    → (k : ℕ)
    → Settles
        (keep (λ r. status_eq r.status pending) (find_outbox k w.db.outbox))
        (find_outbox k w.db.outbox)
        (find_outbox k (dispatch_once ctx senders w).db.outbox)
unfolding dispatch_once
dispatch_once-Settles ctx senders w undisturbed d refs calm k =
    let w1 = (exec get_pending_outbox w).1 in
    let rows = pending_rows w.db.outbox in
    let same : w1.db ≡ w.db = db-get_pending_outbox w in
    rw (← find_outbox-pending_rows w.db.outbox d k, read-get_pending_outbox w calm, sweep)
      (Settles-before (find_outbox k rows) (find_outbox k w.db.outbox) (find_outbox k w1.db.outbox)
        _ (ap (λ (x : Db). find_outbox k x.outbox) same)
        (deliver_items-Settles ctx senders undisturbed k 0 rows w1
          (pending_rows-Distinct w.db.outbox d) (rw same (Present-pending_rows w d))
          (rw same (Stored-pending_rows w d refs)) (NoFaults-exec get_pending_outbox w calm)))
