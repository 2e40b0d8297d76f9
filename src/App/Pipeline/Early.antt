-- ===== src/App/Pipeline/Early.antt =====
-- cmd/abb/main.go: a failed row whose wait is not over is left alone by a round of the retry worker.
use abb_app.Base.{
  ℕ, ◌≡◌, ◌≢◌, refl, ◌∙◌, ap, sym, subst, Bool, true, false, Bool-cases, inl, inr, Option,
  Option-cases, some, List, [], ◌∷◌, ◌++◌, map, filter, ltb, ◌==◌, ==_iff, if◌then◌else◌,
}
use mathlib.Core.Option.{some-injective}
use abb_app.Base.Text.{Text}
use abb_app.Model.{pending}
use abb_app.Db.{Db, OutboxRow, LogRow, find_outbox, status_eq}
use abb_app.Db.Session.{World, exec, exec-keeps, NoFaults}
use abb_app.Db.Outbox.{
  append_delivery_log, is_retryable, last_attempt, to_item, to_retry_item, get_failed_outbox,
  get_pending_outbox,
}
use abb_app.Db.Rows.{Distinct, find_outbox-filter, filter-Distinct, keep-some}
use abb_app.Dispatcher.{Context, Senders, deliver, dispatch_once}
use abb_app.Dispatcher.Retry.{due, reschedule, work_items, work}
use abb_app.Dispatcher.Sweep.{dispatch_once-inv, deliver-keeps, deliver-Distinct, deliver-frame}
use abb_app.App.Pipeline.Retried.{read-get_failed_outbox, work-db, Stable-count}
use abb_app.App.Pipeline.Waiting.{reschedule-Distinct, log-reschedule, reschedule-early}
use abb_app.App.Pipeline.Rule.{get_pending_outbox-reads}

last_attempt-append :
    (k : ℕ) (log : List LogRow) (l : LogRow)
    → l.outbox_id ≢ k
    → last_attempt k (log ++ l ∷ []) ≡ last_attempt k log
unfolding last_attempt
last_attempt-append k [] l apart = elim (Bool-cases (l.outbox_id == k)) [
  | inl same ↦ absurd (apart ((==_iff l.outbox_id k).0 same))
  | inr other ↦ rw other refl
]
last_attempt-append k (x ∷ log) l apart = rw (last_attempt-append k log l apart) refl

-- What is logged of another item does not count.
append-other :
    (k id : ℕ) (b : Bool) (e : Text) (t : ℕ) (d : Db)
    → id ≢ k
    → last_attempt k (append_delivery_log id b e t d).1.delivery_log ≡ last_attempt k d.delivery_log
unfolding append_delivery_log
append-other k id b e t d apart = elim (Option-cases (find_outbox id d.outbox)) [
  | inl gone ↦ rw (append_delivery_log, gone) refl
  | inr (r, found) ↦ rw (append_delivery_log, found) (last_attempt-append k d.delivery_log _ apart)
]

-- The row stands in the table, with its last attempt.
pub record Quiet (k : ℕ) (r : OutboxRow) (last : Option ℕ) (w : World) : Type 0 where
  pub distinct : Distinct w.db.outbox
  pub found : find_outbox k w.db.outbox ≡ some r
  pub attempted : last_attempt k w.db.delivery_log ≡ last

module _ (k : ℕ) (r : OutboxRow) (last : Option ℕ) where
  Quiet-same : (w w' : World) → w'.db ≡ w.db → Quiet k r last w → Quiet k r last w'
  Quiet-same w w' same h = record {
    distinct = subst (λ (d : Db). Distinct d.outbox) (sym same) h.distinct;
    found = ap (λ (d : Db). find_outbox k d.outbox) same ∙ h.found;
    attempted = ap (λ (d : Db). last_attempt k d.delivery_log) same ∙ h.attempted;
  }

  deliver-Quiet :
      (senders : Senders) (s : OutboxRow) (w : World)
      → status_eq r.status pending ≡ false
      → find_outbox s.id w.db.outbox ≡ some s
      → status_eq s.status pending ≡ true
      → Quiet k r last w
      → Quiet k r last (deliver senders (to_item s) w)
  deliver-Quiet senders s w idle here waiting h =
      let apart : s.id ≢ k = λ e.
        let same : s ≡ r =
          some-injective s r (sym here ∙ (ap (λ (i : ℕ). find_outbox i w.db.outbox) e ∙ h.found)) in
        cc (idle, subst (λ (x : OutboxRow). status_eq x.status pending ≡ true) same waiting) in
      record {
        distinct = deliver-Distinct senders (to_item s) w h.distinct;
        found = deliver-frame senders (to_item s) w k (some r) apart h.found;
        attempted =
            deliver-keeps (λ (d : Db). last_attempt k d.delivery_log ≡ last) (to_item s)
              (λ t d p. p) (λ e d p. p) (λ b e t d p. append-other k s.id b e t d apart ∙ p) senders
              w h.attempted;
      }

  dispatch_once-Quiet :
      (ctx : Context) (senders : Senders) (w : World)
      → status_eq r.status pending ≡ false
      → Quiet k r last w
      → Quiet k r last (dispatch_once ctx senders w)
  dispatch_once-Quiet ctx senders w idle h =
      dispatch_once-inv ctx senders (Quiet k r last) (λ s v. deliver-Quiet senders s v idle) w
        h.distinct
        (Quiet-same w (exec get_pending_outbox w).1
          (exec-keeps get_pending_outbox w (λ d. d ≡ w.db) (λ t p. get_pending_outbox-reads t w.db)
            refl)
          h)

  if-Quiet :
      (ctx : Context) (senders : Senders) (b : Bool) (w : World)
      → status_eq r.status pending ≡ false
      → Quiet k r last w
      → Quiet k r last (if b then dispatch_once ctx senders w else w)
  if-Quiet ctx senders true w idle h = dispatch_once-Quiet ctx senders w idle h
  if-Quiet ctx senders false w idle h = h

  reschedule-Quiet :
      (base now : ℕ) (log : List LogRow) (rows : List OutboxRow) (w : World)
      → ((s : OutboxRow) → find_outbox k rows ≡ some s → s ≡ r)
      → Distinct rows
      → ltb now (due base (to_retry_item log r)) ≡ true
      → Quiet k r last w
      → Quiet k r last (reschedule base now (map (to_retry_item log) rows) 0 w).1
  reschedule-Quiet base now log rows w same d early h = record {
    distinct = reschedule-Distinct base now log rows 0 w h.distinct;
    found = reschedule-early base now log r rows 0 k w same d early h.found;
    attempted =
        ap (λ (l : List LogRow). last_attempt k l) (log-reschedule base now log rows 0 w)
        ∙ h.attempted;
  }

  -- A round at which the wait of a failed row is not over.
  pub work-Quiet :
      (ctx : Context) (senders : Senders) (max_attempts base : ℕ) (w : World)
      → NoFaults w.ticks
      → status_eq r.status pending ≡ false
      → ltb
          (exec (get_failed_outbox max_attempts) w).1.now
          (due base (to_retry_item w.db.delivery_log r))
        ≡ true
      → Quiet k r last w
      → Quiet k r last (work ctx senders max_attempts base w)
  unfolding work_items
  work-Quiet ctx senders max_attempts base w calm idle early h =
      let w1 = (exec (get_failed_outbox max_attempts) w).1 in
      let log = w.db.delivery_log in
      let rows = filter (is_retryable max_attempts) w.db.outbox in
      let (answer, same) = read-get_failed_outbox max_attempts w calm in
      let done = reschedule base w1.now (map (to_retry_item log) rows) 0 w1 in
      let rescheduled : Quiet k r last done.1 =
        reschedule-Quiet base w1.now log rows w1 (listed-same max_attempts w h)
          (filter-Distinct (is_retryable max_attempts) w.db.outbox h.distinct) early
          (Quiet-same w w1 same h) in
      let swept : World = if ltb 0 done.0 then dispatch_once ctx senders done.1 else done.1 in
      Quiet-same swept (work ctx senders max_attempts base w)
        (work-db ctx senders max_attempts base w (map (to_retry_item log) rows) answer
          ∙ Stable-count max_attempts swept)
        (if-Quiet ctx senders (ltb 0 done.0) done.1 idle rescheduled)
    where
      listed-same :
          (max_attempts : ℕ) (w : World)
          → Quiet k r last w
          → (s : OutboxRow)
          → find_outbox k (filter (is_retryable max_attempts) w.db.outbox) ≡ some s
          → s ≡ r
      listed-same max_attempts w h s listed = some-injective s r (
          sym
            (keep-some (is_retryable max_attempts) (find_outbox k w.db.outbox) s (
              sym (find_outbox-filter (is_retryable max_attempts) w.db.outbox h.distinct k)
              ∙ listed)).0
          ∙ h.found)
