-- ===== src/Dispatcher/Sweep.antt =====
-- The loop of `dispatch_once`: what each delivery keeps, the sweep keeps.
use abb_app.Base.{
  ℕ, ◌+◌, ◌≡◌, refl, ◌≢◌, ◌∙◌, Bool, true, false, Bool-cases, inl, inr, Option, Option-cases, none,
  some, List, [], ◌∷◌, map, All, All-imp, arith,
}
use abb_app.Base.Text.{Text}
use abb_app.Model.{Message, OutboxItem, pending}
use abb_app.Db.{Db, OutboxRow, find_outbox, update_outbox, status_eq}
use abb_app.Db.Session.{Outcome, ok, err, World, exec, exec-keeps, exec-cases}
use abb_app.Db.Outbox.{
  mark_outbox_sent, mark_outbox_failed, append_delivery_log, as_sent, as_failed, to_item,
  get_pending_outbox, pending_rows,
}
use abb_app.Db.Messages.{get_message_by_id}
use abb_app.Db.Rows.{find_outbox-update_outbox, update_outbox-Distinct, Distinct, Distinct-self}
use abb_app.Db.Rows.Pending.{pending_rows-Distinct, find_outbox-pending_rows}
use abb_app.Dispatcher.{
  Context, Sender, Senders, find_sender, send_item, record_failure, record_success, after_send,
  deliver_message, deliver, deliver_items, sweep, dispatch_once, stops_before,
}
use abb_app.Dispatcher.Effect.{db-get_message_by_id, outbox-append_delivery_log}

-- The statements of `deliver` keep what holds of the tables and is kept by the two updates of the
-- item's row and by a new log row.
module _ (P : Db → Type 0) (item : OutboxItem)
    (keep_sent : (t : ℕ) (d : Db)
      → P d
      → P (record d { outbox = update_outbox item.id (as_sent t) d.outbox }))
    (keep_failed : (e : Text) (d : Db)
      → P d
      → P (record d { outbox = update_outbox item.id (as_failed e) d.outbox }))
    (keep_log : (b : Bool) (e : Text) (t : ℕ) (d : Db)
      → P d
      → P (append_delivery_log item.id b e t d).1) where
  record_failure-keeps : (e : Text) (w : World) → P w.db → P (record_failure item.id e w).db
  unfolding record_failure mark_outbox_failed
  record_failure-keeps e w h =
      let w1 = (exec (mark_outbox_failed item.id e) w).1 in
      let h1 : P w1.db =
        exec-keeps (mark_outbox_failed item.id e) w P (λ t p. keep_failed e w.db p) h in
      exec-keeps (append_delivery_log item.id false e) w1 P (λ t p. keep_log false e t w1.db p) h1

  record_success-keeps : (w : World) → P w.db → P (record_success item.id w).db
  unfolding record_success mark_outbox_sent
  record_success-keeps w h =
      let w1 = (exec (mark_outbox_sent item.id) w).1 in
      let h1 : P w1.db = exec-keeps (mark_outbox_sent item.id) w P (λ t p. keep_sent t w.db p) h in
      exec-keeps (append_delivery_log item.id true []) w1 P (λ t p. keep_log true [] t w1.db p) h1

  deliver_message-keeps :
      (s : Sender) (m : Outcome Message) (w : World) → P w.db → P (deliver_message s item m w).db
  unfolding deliver_message after_send
  deliver_message-keeps s (err e) w h = h
  deliver_message-keeps s (ok msg) w h = go (send_item s item msg w).0
    where
      go : (o : Outcome (Unit {0})) → P (after_send item o (send_item s item msg w).1).db
      go (ok u) = record_success-keeps (send_item s item msg w).1 h
      go (err e) = record_failure-keeps e (send_item s item msg w).1 h

  pub deliver-keeps : (senders : Senders) (w : World) → P w.db → P (deliver senders item w).db
  unfolding deliver
  deliver-keeps senders w h = elim (Option-cases (find_sender item.channel senders)) [
    | inl e ↦ rw (e, deliver) (record_failure-keeps _ w h)
    | inr (s, e) ↦
        let read = exec (get_message_by_id item.message_id) w in
        rw (e, deliver)
          (deliver_message-keeps s read.0 read.1 (
            exec-keeps (get_message_by_id item.message_id) w P
              (λ t p. rw (db-get_message_by_id item.message_id t w.db) p) h))
  ]

pub messages-append_delivery_log :
    (id : ℕ) (b : Bool) (e : Text) (t : ℕ) (d : Db)
    → (append_delivery_log id b e t d).1.messages ≡ d.messages
unfolding append_delivery_log
messages-append_delivery_log id b e t d = ground arith

-- `deliver` leaves the rows of other items as they are.
pub deliver-frame :
    (senders : Senders) (item : OutboxItem) (w : World) (k : ℕ) (o : Option OutboxRow)
    → item.id ≢ k
    → find_outbox k w.db.outbox ≡ o
    → find_outbox k (deliver senders item w).db.outbox ≡ o
deliver-frame senders item w k o apart h =
    deliver-keeps (λ d. find_outbox k d.outbox ≡ o) item
      (λ t d p. rw (find_outbox-update_outbox item.id (as_sent t) (λ s. refl)) (ground arith))
      (λ e d p. rw (find_outbox-update_outbox item.id (as_failed e) (λ s. refl)) (ground arith))
      (λ b e t d p. rw (outbox-append_delivery_log item.id b e t d) p) senders w h

pub deliver-Distinct :
    (senders : Senders) (item : OutboxItem) (w : World)
    → Distinct w.db.outbox
    → Distinct (deliver senders item w).db.outbox
deliver-Distinct senders item w h =
    deliver-keeps (λ d. Distinct d.outbox) item
      (λ t d p. update_outbox-Distinct item.id (as_sent t) (λ s. refl) d.outbox p)
      (λ e d p. update_outbox-Distinct item.id (as_failed e) (λ s. refl) d.outbox p)
      (λ b e t d p. rw (outbox-append_delivery_log item.id b e t d) p) senders w h

pub deliver-messages :
    (senders : Senders) (item : OutboxItem) (w : World)
    → (deliver senders item w).db.messages ≡ w.db.messages
deliver-messages senders item w =
    deliver-keeps (λ d. d.messages ≡ w.db.messages) item (λ t d p. p) (λ e d p. p)
      (λ b e t d p. messages-append_delivery_log item.id b e t d ∙ p) senders w refl

-- The rows that a sweep has still to deliver stand in the table as they were read.
abbrev pub Present : World → List OutboxRow → Type 0
Present w = All (λ r. (find_outbox r.id w.db.outbox ≡ some r) × (status_eq r.status pending ≡ true))

Distinct-apart :
    (k : ℕ) (rows : List OutboxRow) → find_outbox k rows ≡ none → All (λ r. k ≢ r.id) rows
unfolding find_outbox
Distinct-apart k [] h = tt
Distinct-apart k (r ∷ rs) h = (ground arith, Distinct-apart k rs (ground arith))

pub Present-deliver :
    (senders : Senders) (r : OutboxRow) (w : World) (rows : List OutboxRow)
    → find_outbox r.id rows ≡ none
    → Present w rows
    → Present (deliver senders (to_item r) w) rows
unfolding find_outbox
Present-deliver senders r w [] h p = tt
Present-deliver senders r w (s ∷ rs) h p = (
  (deliver-frame senders (to_item r) w s.id (some s) (ground arith) p.0.0, p.0.1),
  Present-deliver senders r w rs (ground arith) p.1,
)

pub db-get_pending_outbox : (w : World) → (exec get_pending_outbox w).1.db ≡ w.db
unfolding get_pending_outbox
db-get_pending_outbox w = exec-keeps get_pending_outbox w (λ d. d ≡ w.db) (λ t p. p) refl

-- The rule for an invariant of the loop.
module _ (ctx : Context) (senders : Senders) (I : World → Type 0)
    (step : (r : OutboxRow) (w : World)
      → find_outbox r.id w.db.outbox ≡ some r
      → status_eq r.status pending ≡ true
      → I w
      → I (deliver senders (to_item r) w)) where
  deliver_items-inv :
      (i : ℕ) (rows : List OutboxRow) (w : World)
      → Distinct rows
      → Present w rows
      → I w
      → I (deliver_items ctx senders i (map to_item rows) w)
  unfolding deliver_items
  deliver_items-inv i [] w d p h = h
  deliver_items-inv i (r ∷ rs) w d p h = elim (Bool-cases (stops_before ctx i)) [
    | inl stop ↦ rw stop h
    | inr go ↦ rw go (
        deliver_items-inv (i + 1) rs (deliver senders (to_item r) w) d.1
          (Present-deliver senders r w rs d.0 p.1) (step r w p.0.0 p.0.1 h))
  ]

pub Present-pending_rows : (w : World) → Distinct w.db.outbox → Present w (pending_rows w.db.outbox)
Present-pending_rows w d =
    All-imp (λ r. find_outbox r.id (pending_rows w.db.outbox) ≡ some r)
      (λ r. (find_outbox r.id w.db.outbox ≡ some r) × (status_eq r.status pending ≡ true))
      (pending_rows w.db.outbox)
      (λ r h. ground (arith, find_outbox-pending_rows w.db.outbox d r.id))
      (Distinct-self (pending_rows w.db.outbox) (pending_rows-Distinct w.db.outbox d))

answer-get_pending_outbox :
    (t : ℕ) (d : Db) → (get_pending_outbox t d).0 ≡ ok (map to_item (pending_rows d.outbox))
unfolding get_pending_outbox
answer-get_pending_outbox t d = refl

-- The rule for an invariant of a sweep.
pub dispatch_once-inv :
    (ctx : Context) (senders : Senders) (I : World → Type 0)
    → ((r : OutboxRow) (w : World)
        → find_outbox r.id w.db.outbox ≡ some r
        → status_eq r.status pending ≡ true
        → I w
        → I (deliver senders (to_item r) w))
    → (w : World) → Distinct w.db.outbox
    → I (exec get_pending_outbox w).1
    → I (dispatch_once ctx senders w)
unfolding dispatch_once sweep
dispatch_once-inv ctx senders I step w d h =
    let w1 = (exec get_pending_outbox w).1 in
    elim (exec-cases get_pending_outbox w) [
      | inl (t, answer, _) ↦
          rw (answer, answer-get_pending_outbox)
            (deliver_items-inv ctx senders I step 0 (pending_rows w.db.outbox) w1
              (pending_rows-Distinct w.db.outbox d)
              (rw (db-get_pending_outbox w) (Present-pending_rows w d)) h)
      | inr (answer, _, _) ↦ rw answer h
    ]
