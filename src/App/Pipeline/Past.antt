-- ===== src/App/Pipeline/Past.antt =====
-- What the retry worker finds at each of its rounds, where no statement fails: the rows have their
-- messages, and no attempt lies in the future.
use abb_app.Base.{
  ℕ, ◌+◌, ◌*◌, ◌≤◌, ◌≡◌, refl, ap, sym, subst, Bool, true, false, inl, inr, Option-cases, some,
  List, [], ◌∷◌, All, All-imp, All-append, arith,
}
use abb_app.Base.Text.{Text}
use abb_app.Model.{Message, pending, OutboxItem}
use abb_app.Db.{Db, OutboxRow, LogRow, find_outbox, second, coalesce, status_eq}
use abb_app.Db.Session.{Outcome, ok, err, World, exec, exec-keeps_at}
use abb_app.Db.Messages.{get_message_by_id}
use abb_app.Db.Outbox.{
  mark_outbox_sent, mark_outbox_failed, append_delivery_log, reset_to_pending, get_pending_outbox,
  last_attempt, to_item, to_retry_item, is_retryable,
}
use abb_app.Dispatcher.{
  Context, Sender, Senders, find_sender, record_failure, record_success, send_item, after_send,
  deliver_message, deliver,
}
use abb_app.Dispatcher.Effect.{db-get_message_by_id}
use abb_app.Dispatcher.Backoff.{backoff, max_backoff, backoff-eq-min}
use abb_app.Dispatcher.Retry.{due, work}
use abb_app.Dispatcher.Sweep.{dispatch_once-inv}
use abb_app.Dispatcher.Reschedule.{Stable, Stable-exec, work-inv}
use abb_app.App.Pipeline.{Config}
use abb_app.App.Pipeline.Rows.{Claim, RowLaws, Holds, Holds-Stable}
use abb_app.App.Pipeline.Rule.{IsInvariant, get_pending_outbox-reads}
use abb_app.App.Pipeline.Statements.{Holds-IsInvariant}

abbrev Anything : Claim
Anything s k o = Unit

Anything-laws : (calm : Bool) (m : ℕ) → RowLaws calm m Anything
Anything-laws calm m = record {
  create = λ s id message_id ch now h. tt;
  reset = λ s k r fit h. tt;
  cancel = λ s k cutoff r stale h. tt;
  delivery = λ F k r s s' row calm same p h effect. tt;
  other = λ s e k o apart h. tt;
}

-- Every attempt was made by the time `n`, which is not before `from`.
abbrev pub Past : ℕ → ℕ → Db → Type 0
Past from n d = (from ≤ n) × All (λ (l : LogRow). l.attempted_at * second ≤ n) d.delivery_log

module _ (from : ℕ) where
  Past-later : (n m : ℕ) (d : Db) → n ≤ m → Past from n d → Past from m d
  Past-later n m d h (f, p) = (
    omega arith,
    All-imp (λ (l : LogRow). l.attempted_at * second ≤ n) _ d.delivery_log (λ l q. omega arith) p,
  )

  Past-same :
      (n : ℕ) (d d' : Db) → d'.delivery_log ≡ d.delivery_log → Past from n d → Past from n d'
  Past-same n d d' same (f, p) =
      (f, subst (All (λ (l : LogRow). l.attempted_at * second ≤ n)) (sym same) p)

  -- A statement that leaves the log alone.
  exec-Past :
      {A : Type 0} (op : ℕ → Db → Outcome A × Db) (w : World)
      → ((t : ℕ) → (op t w.db).1.delivery_log ≡ w.db.delivery_log)
      → Past from w.now w.db
      → Past from (exec op w).1.now (exec op w).1.db
  exec-Past op w same h =
      exec-keeps_at op w (Past from) Past-later
        (λ t n late p. Past-same n w.db (op t w.db).1 (same t) p) h

  append-Past :
      (id : ℕ) (b : Bool) (e : Text) (t n : ℕ) (d : Db)
      → t * second ≤ n
      → Past from n d
      → Past from n (append_delivery_log id b e t d).1
  unfolding append_delivery_log
  append-Past id b e t n d late h = elim (Option-cases (find_outbox id d.outbox)) [
    | inl gone ↦ rw (append_delivery_log, gone) h
    | inr (r, found) ↦
        rw (append_delivery_log, found) (h.0, All-append _ d.delivery_log _ h.1 (late, tt))
  ]

  record_failure-Past :
      (id : ℕ) (e : Text) (w : World)
      → Past from w.now w.db
      → Past from (record_failure id e w).now (record_failure id e w).db
  unfolding record_failure mark_outbox_failed
  record_failure-Past id e w h =
      let w1 : World = (exec (mark_outbox_failed id e) w).1 in
      exec-keeps_at (append_delivery_log id false e) w1 (Past from) Past-later
        (λ t n. append-Past id false e t n w1.db)
        (exec-Past (mark_outbox_failed id e) w (λ t. refl) h)

  record_success-Past :
      (id : ℕ) (w : World)
      → Past from w.now w.db
      → Past from (record_success id w).now (record_success id w).db
  unfolding record_success mark_outbox_sent
  record_success-Past id w h =
      let w1 : World = (exec (mark_outbox_sent id) w).1 in
      exec-keeps_at (append_delivery_log id true []) w1 (Past from) Past-later
        (λ t n. append-Past id true [] t n w1.db) (exec-Past (mark_outbox_sent id) w (λ t. refl) h)

  after_send-Past :
      (item : OutboxItem) (o : Outcome (Unit {0})) (w : World)
      → Past from w.now w.db
      → Past from (after_send item o w).now (after_send item o w).db
  unfolding after_send
  after_send-Past item (ok u) w h = record_success-Past item.id w h
  after_send-Past item (err e) w h = record_failure-Past item.id e w h

  deliver_message-Past :
      (s : Sender) (item : OutboxItem) (m : Outcome Message) (w : World)
      → Past from w.now w.db
      → Past from (deliver_message s item m w).now (deliver_message s item m w).db
  unfolding deliver_message
  deliver_message-Past s item (err e) w h = h
  deliver_message-Past s item (ok msg) w h =
      after_send-Past item (send_item s item msg w).0 (send_item s item msg w).1 h

  deliver-Past :
      (senders : Senders) (item : OutboxItem) (w : World)
      → Past from w.now w.db
      → Past from (deliver senders item w).now (deliver senders item w).db
  unfolding deliver
  deliver-Past senders item w h = elim (Option-cases (find_sender item.channel senders)) [
    | inl e ↦ rw (e, deliver) (record_failure-Past item.id _ w h)
    | inr (s, e) ↦
        let read = exec (get_message_by_id item.message_id) w in
        rw (e, deliver)
          (deliver_message-Past s item read.0 read.1 (
            exec-Past (get_message_by_id item.message_id) w
              (λ t. ap (λ (d : Db). d.delivery_log) (db-get_message_by_id item.message_id t w.db))
              h))
  ]

-- What holds whenever the retry worker begins a round.
pub record Round (from : ℕ) (w : World) : Type 0 where
  pub holds : Holds true Anything w
  pub past : Past from w.now w.db

module _ (from : ℕ) (c : Config) where
  laws : IsInvariant c (Holds true Anything)
  laws = Holds-IsInvariant c true Anything (Anything-laws true c.max_attempts)

  pub Round-Stable : Stable (Round from)
  Round-Stable w w' same sends calmer later h = record {
    holds = Holds-Stable true Anything w w' same sends calmer later h.holds;
    past = subst (Past from w'.now) (sym same) (Past-later from w.now w'.now w.db later h.past);
  }

  pub Round-reset :
      (r : OutboxRow) (w : World)
      → find_outbox r.id w.db.outbox ≡ some r
      → is_retryable c.max_attempts r ≡ true
      → Round from w
      → Round from (exec (reset_to_pending r.id) w).1
  unfolding reset_to_pending
  Round-reset r w here fit h = record {
    holds = laws.reset r w here fit h.holds;
    past = exec-Past from (reset_to_pending r.id) w (λ t. refl) h.past;
  }

  pub Round-deliver :
      (r : OutboxRow) (w : World)
      → find_outbox r.id w.db.outbox ≡ some r
      → status_eq r.status pending ≡ true
      → Round from w
      → Round from (deliver c.senders (to_item r) w)
  Round-deliver r w here waiting h = record {
    holds = laws.delivery r w here waiting h.holds;
    past = deliver-Past from c.senders (to_item r) w h.past;
  }

  -- A round of the retry worker keeps it.
  pub Round-work :
      (ctx : Context) (w : World)
      → Round from w
      → Round from (work ctx c.senders c.max_attempts c.retry_base w)
  Round-work ctx w h =
      work-inv ctx c.senders c.max_attempts c.retry_base (Round from) Round-Stable Round-reset
        (λ v p.
          dispatch_once-inv ctx c.senders (Round from) Round-deliver v p.holds.distinct
            (Stable-exec (Round from) Round-Stable get_pending_outbox get_pending_outbox-reads v p))
        w h.holds.distinct h

-- The last attempt of an item, or the time at which it was queued, lies in the past.
last_attempt-Past :
    (id s n : ℕ) (log : List LogRow)
    → s * second ≤ n
    → All (λ (l : LogRow). l.attempted_at * second ≤ n) log
    → coalesce (last_attempt id log) s * second ≤ n
unfolding last_attempt
last_attempt-Past id s n [] hs h = hs
last_attempt-Past id s n (l ∷ ls) hs h =
    ground
      (arith, last_attempt-Past id s n ls hs h.1, last_attempt-Past id 0 n ls (omega arith) h.1)

backoff-le-max : (attempts base : ℕ) → base ≤ max_backoff → backoff attempts base ≤ max_backoff
backoff-le-max attempts base h = rw (backoff-eq-min attempts base (omega arith)) (ground arith)

-- No wait is longer than an hour.
pub due-le :
    (base n : ℕ) (log : List LogRow) (r : OutboxRow)
    → base ≤ max_backoff
    → r.scheduled_at * second ≤ n
    → All (λ (l : LogRow). l.attempted_at * second ≤ n) log
    → due base (to_retry_item log r) ≤ n + max_backoff
unfolding due
due-le base n log r hb hs h =
    let b = backoff-le-max r.attempts base hb in
    let p = last_attempt-Past r.id r.scheduled_at n log hs h in ground (arith, b, p)
