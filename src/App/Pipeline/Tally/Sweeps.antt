-- ===== src/App/Pipeline/Tally/Sweeps.antt =====
-- The counters in a sweep of the dispatcher and in a round of the retry worker.
use abb_app.Base.{ℕ, ◌+◌, refl, inl, inr, Bool-cases, List, [], ◌∷◌, ltb}
use abb_app.Model.{OutboxItem, RetryItem}
use abb_app.Db.Session.{Outcome, ok, err, World}
use abb_app.Db.Outbox.{
  reset_to_pending, get_pending_outbox, get_failed_outbox, count_exhausted_outbox,
}
use abb_app.Dispatcher.{Context, Senders, deliver_items, sweep, dispatch_once, stops_before}
use abb_app.Dispatcher.Retry.{due, reset_due, reschedule, work_items, work}
use abb_app.App.Pipeline.Tally.{Tally, exec-Tally, deliver-Tally}

deliver_items-Tally :
    (ctx : Context) (senders : Senders) (i : ℕ) (items : List OutboxItem) (n : ℕ) (w : World)
    → Tally n w
    → Tally n (deliver_items ctx senders i items w)
unfolding deliver_items
deliver_items-Tally ctx senders i [] n w h = h
deliver_items-Tally ctx senders i (item ∷ items) n w h = elim (Bool-cases (stops_before ctx i)) [
  | inl stop ↦ rw stop h
  | inr go ↦
      rw go (deliver_items-Tally ctx senders (i + 1) items n _ (deliver-Tally senders item n w h))
]

sweep-Tally :
    (ctx : Context) (senders : Senders) (o : Outcome (List OutboxItem)) (n : ℕ) (w : World)
    → Tally n w
    → Tally n (sweep ctx senders o w)
unfolding sweep
sweep-Tally ctx senders (ok items) n w h = deliver_items-Tally ctx senders 0 items n w h
sweep-Tally ctx senders (err e) n w h = h

pub dispatch_once-Tally :
    (ctx : Context) (senders : Senders) (n : ℕ) (w : World)
    → Tally n w
    → Tally n (dispatch_once ctx senders w)
unfolding dispatch_once get_pending_outbox
dispatch_once-Tally ctx senders n w h =
    sweep-Tally ctx senders _ n _ (exec-Tally get_pending_outbox n w (λ t d. refl) h)

reset_due-Tally :
    (base now : ℕ) (item : RetryItem) (count n : ℕ) (w : World)
    → Tally n w
    → Tally n (reset_due base now item count w).1
unfolding reset_due reset_to_pending
reset_due-Tally base now item count n w h = elim (Bool-cases (ltb now (due base item))) [
  | inl early ↦ rw early h
  | inr over ↦ rw over (exec-Tally (reset_to_pending item.id) n w (λ t d. refl) h)
]

reschedule-Tally :
    (base now : ℕ) (items : List RetryItem) (count n : ℕ) (w : World)
    → Tally n w
    → Tally n (reschedule base now items count w).1
unfolding reschedule
reschedule-Tally base now [] count n w h = h
reschedule-Tally base now (item ∷ items) count n w h =
    reschedule-Tally base now items _ n _ (reset_due-Tally base now item count n w h)

work_items-Tally :
    (ctx : Context) (senders : Senders) (m base : ℕ) (o : Outcome (List RetryItem)) (n : ℕ)
    (w : World)
    → Tally n w
    → Tally n (work_items ctx senders m base o w)
unfolding work_items count_exhausted_outbox
work_items-Tally ctx senders m base (err e) n w h = h
work_items-Tally ctx senders m base (ok items) n w h =
    let (rescheduled, w1) = reschedule base w.now items 0 w in
    let h1 : Tally n w1 = reschedule-Tally base w.now items 0 n w h in
    exec-Tally (count_exhausted_outbox m) n _ (λ t d. refl)
      (elim (Bool-cases (ltb 0 rescheduled)) [
        | inl some_due ↦ rw some_due (dispatch_once-Tally ctx senders n w1 h1)
        | inr idle ↦ rw idle h1
      ])

pub work-Tally :
    (ctx : Context) (senders : Senders) (m base n : ℕ) (w : World)
    → Tally n w
    → Tally n (work ctx senders m base w)
unfolding work get_failed_outbox
work-Tally ctx senders m base n w h =
    work_items-Tally ctx senders m base _ n _ (exec-Tally (get_failed_outbox m) n w (λ t d. refl) h)
