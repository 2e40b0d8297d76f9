-- ===== src/Dispatcher/Effect.antt =====
-- What one call of `deliver` does to the rows, whatever the database and the sender answer.
use abb_app.Base.{
  ℕ, ◌≡◌, refl, ◌≢◌, ◌⊎◌, ◌∙◌, subst, Bool, true, false, inl, inr, Option, Option-cases, none, some,
  List, [], ◌∷◌, arith,
}
use abb_app.Base.Text.{Text}
use abb_app.Model.{Message, OutboxItem}
use abb_app.Db.{Db, OutboxRow, find_outbox, find_message}
use abb_app.Db.Session.{
  Outcome, ok, err, World, SendEvent, exec, NoFaults, exec-keeps, exec-cases, NoFaults-exec,
  sends-exec,
}
use abb_app.Db.Outbox.{
  mark_outbox_sent, mark_outbox_failed, append_delivery_log, as_sent, as_failed,
}
use abb_app.Db.Messages.{get_message_by_id}
use abb_app.Db.Rows.{find_outbox-update_self}
use abb_app.Dispatcher.{
  Sender, Senders, find_sender, send_item, record_failure, record_success, after_send,
  deliver_message, deliver, succeeded,
}

-- No statement is going to fail, and the item's message is stored.
abbrev pub Faultless : OutboxItem → World → Type 0
Faultless item w = NoFaults w.ticks × (find_message item.message_id w.db.messages ≢ none)

-- The row of the item and the calls of Send, before and after. A database fault may lose what the
-- call of Send answered.
pub data Effect (faultless : Type 0) (id : ℕ) (r : OutboxRow) (sends : List SendEvent)
    (row : Option OutboxRow) (sends' : List SendEvent) : Type 0 where
  unread : (faultless → ⊥) → row ≡ some r → sends' ≡ sends → Effect faultless id r sends row sends'
  unsent :
      (e : Text)
      → row ≡ some (as_failed e r)
      → sends' ≡ sends
      → Effect faultless id r sends row sends'
  delivered :
      (t : ℕ) (channel : Text)
      → row ≡ some (as_sent t r)
      → sends' ≡ record { item = id; channel = channel; success = true } ∷ sends
      → Effect faultless id r sends row sends'
  rejected :
      (e channel : Text)
      → row ≡ some (as_failed e r)
      → sends' ≡ record { item = id; channel = channel; success = false } ∷ sends
      → Effect faultless id r sends row sends'
  lost :
      (channel : Text) (success : Bool)
      → (faultless → ⊥)
      → row ≡ some r
      → sends' ≡ record { item = id; channel = channel; success = success } ∷ sends
      → Effect faultless id r sends row sends'

pub outbox-append_delivery_log :
    (id : ℕ) (b : Bool) (e : Text) (t : ℕ) (d : Db)
    → (append_delivery_log id b e t d).1.outbox ≡ d.outbox
unfolding append_delivery_log
outbox-append_delivery_log id b e t d = ground arith

pub db-get_message_by_id : (id t : ℕ) (d : Db) → (get_message_by_id id t d).1 ≡ d
unfolding get_message_by_id
db-get_message_by_id id t d = ground arith

ok-get_message_by_id :
    (id t : ℕ) (d : Db) (e : Text)
    → find_message id d.messages ≢ none
    → (get_message_by_id id t d).0 ≢ err e
unfolding get_message_by_id
ok-get_message_by_id id t d e h = elim (Option-cases (find_message id d.messages)) [
  | inl missing ↦ absurd (h missing)
  | inr (m, found) ↦ rw (found, get_message_by_id) (λ p. cc)
]

read-get_message_by_id :
    (id : ℕ) (w : World)
    → NoFaults w.ticks
    → find_message id w.db.messages ≢ none
    → (e : Text) → (exec (get_message_by_id id) w).0 ≢ err e
read-get_message_by_id id w h m e = elim (exec-cases (get_message_by_id id) w) [
  | inl (t, answer, _) ↦ rw answer (ok-get_message_by_id id t w.db e m)
  | inr (_, _, faulty) ↦ absurd (faulty h)
]

-- A row that the statement's key does not name, or names and updates.
find_outbox-log :
    (k id : ℕ) (b : Bool) (e : Text) (w : World) (o : Option OutboxRow)
    → find_outbox k w.db.outbox ≡ o
    → find_outbox k (exec (append_delivery_log id b e) w).1.db.outbox ≡ o
find_outbox-log k id b e w o h =
    exec-keeps (append_delivery_log id b e) w (λ d. find_outbox k d.outbox ≡ o)
      (λ t p. rw (outbox-append_delivery_log id b e t w.db) p) h

abbrev Updated : Type 0 → (OutboxRow → OutboxRow) → OutboxRow → Option OutboxRow → Type 0
Updated faultless f r o = (o ≡ some (f r)) ⊎ ((faultless → ⊥) × (o ≡ some r))

record_failure-row :
    (id : ℕ) (e : Text) (w : World) (r : OutboxRow)
    → find_outbox id w.db.outbox ≡ some r
    → Updated (NoFaults w.ticks) (as_failed e) r (find_outbox id (record_failure id e w).db.outbox)
unfolding record_failure mark_outbox_failed
record_failure-row id e w r h =
    let w1 = (exec (mark_outbox_failed id e) w).1 in
    elim (exec-cases (mark_outbox_failed id e) w) [
      | inl (t, _, ran) ↦ inl (
          find_outbox-log id id false e w1 _
            (rw ran (find_outbox-update_self (as_failed e) (λ s. refl) id w.db.outbox r h)))
      | inr (_, kept, faulty) ↦ inr (faulty, find_outbox-log id id false e w1 _ (rw kept h))
    ]

record_success-row :
    (id : ℕ) (w : World) (r : OutboxRow)
    → find_outbox id w.db.outbox ≡ some r
    → ((t : ℕ) × (find_outbox id (record_success id w).db.outbox ≡ some (as_sent t r)))
      ⊎ ((NoFaults w.ticks → ⊥) × (find_outbox id (record_success id w).db.outbox ≡ some r))
unfolding record_success mark_outbox_sent
record_success-row id w r h =
    let w1 = (exec (mark_outbox_sent id) w).1 in
    elim (exec-cases (mark_outbox_sent id) w) [
      | inl (t, _, ran) ↦ inl (
        t,
        find_outbox-log id id true [] w1 _
            (rw ran (find_outbox-update_self (as_sent t) (λ s. refl) id w.db.outbox r h)),
      )
      | inr (_, kept, faulty) ↦ inr (faulty, find_outbox-log id id true [] w1 _ (rw kept h))
    ]

sends-record_failure : (id : ℕ) (e : Text) (w : World) → (record_failure id e w).sends ≡ w.sends
unfolding record_failure
sends-record_failure id e w = sends-exec _ _ ∙ sends-exec _ _

sends-record_success : (id : ℕ) (w : World) → (record_success id w).sends ≡ w.sends
unfolding record_success
sends-record_success id w = sends-exec _ _ ∙ sends-exec _ _

module _ (faultless : Type 0) (item : OutboxItem) (r : OutboxRow) (sends : List SendEvent)
    (w : World) (possible : faultless → NoFaults w.ticks)
    (here : find_outbox item.id w.db.outbox ≡ some r) where
  after_send-Effect :
      (o : Outcome (Unit {0}))
      → w.sends ≡ record { item = item.id; channel = item.channel; success = succeeded o } ∷ sends
      → Effect faultless item.id r sends
          (find_outbox item.id (after_send item o w).db.outbox)
          (after_send item o w).sends
  unfolding after_send
  after_send-Effect (ok u) called = elim (record_success-row item.id w r here) [
    | inl (t, row) ↦ delivered t item.channel row (sends-record_success item.id w ∙ called)
    | inr (faulty, row) ↦
        lost item.channel true (λ p. faulty (possible p)) row
          (sends-record_success item.id w ∙ called)
  ]
  after_send-Effect (err e) called = elim (record_failure-row item.id e w r here) [
    | inl row ↦ rejected e item.channel row (sends-record_failure item.id e w ∙ called)
    | inr (faulty, row) ↦
        lost item.channel false (λ p. faulty (possible p)) row
          (sends-record_failure item.id e w ∙ called)
  ]

deliver_message-Effect :
    (faultless : Type 0) (s : Sender) (item : OutboxItem) (r : OutboxRow) (m : Outcome Message)
    (w : World)
    → (faultless → NoFaults w.ticks)
    → (faultless → (e : Text) → m ≢ err e)
    → find_outbox item.id w.db.outbox ≡ some r
    → Effect faultless item.id r w.sends
        (find_outbox item.id (deliver_message s item m w).db.outbox)
        (deliver_message s item m w).sends
unfolding deliver_message
deliver_message-Effect faultless s item r (err e) w possible found h =
    unread (λ p. found p e refl) h refl
deliver_message-Effect faultless s item r (ok msg) w possible found h =
    after_send-Effect faultless item r w.sends (send_item s item msg w).1 possible h _ refl

-- What `deliver` does to the row that the item was read from, and to the calls of Send.
pub deliver-Effect :
    (senders : Senders) (item : OutboxItem) (w : World) (r : OutboxRow)
    → find_outbox item.id w.db.outbox ≡ some r
    → Effect
        (Faultless item w)
        item.id
        r
        w.sends
        (find_outbox item.id (deliver senders item w).db.outbox)
        (deliver senders item w).sends
unfolding deliver
deliver-Effect senders item w r h = elim (Option-cases (find_sender item.channel senders)) [
  | inl e ↦
      rw (e, deliver)
        (elim (record_failure-row item.id _ w r h) [
          | inl row ↦ unsent _ row (sends-record_failure item.id _ w)
          | inr (faulty, row) ↦ unread (λ p. faulty p.0) row (sends-record_failure item.id _ w)
        ])
  | inr (s, e) ↦
      let read = exec (get_message_by_id item.message_id) w in
      rw (e, deliver)
        (subst
          (λ l.
            Effect (Faultless item w) item.id r l
              (find_outbox item.id (deliver_message s item read.0 read.1).db.outbox)
              (deliver_message s item read.0 read.1).sends)
          (sends-exec (get_message_by_id item.message_id) w)
          (deliver_message-Effect (Faultless item w) s item r read.0 read.1
            (λ p. NoFaults-exec (get_message_by_id item.message_id) w p.0)
            (λ p. read-get_message_by_id item.message_id w p.0 p.1)
            (exec-keeps (get_message_by_id item.message_id) w
              (λ d. find_outbox item.id d.outbox ≡ some r)
              (λ t p. rw (db-get_message_by_id item.message_id t w.db) p) h)))
]
