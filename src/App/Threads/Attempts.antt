-- ===== src/App/Threads/Attempts.antt =====
-- The attempts that an outbox row counts, under the goroutines of App/Threads and the faults of
-- App/Threads/Faults.
pub mod Bounds
pub mod Claims
use abb_app.Base.{
  ℕ, ◌+◌, ◌≤◌, ◌<◌, ◌≡◌, refl, ap, sym, subst, inl, inr, Bool-cases, some, List, [], ◌∷◌, ◌++◌, map,
  filter, ◌==◌, arith, if◌then◌else◌,
}
use abb_app.Base.Text.{Text}
use abb_app.Model.{Message, OutboxItem, RetryItem, pending}
use abb_app.Db.{Db, OutboxRow, LogRow, find_outbox, update_outbox, max_outbox_id, status_eq}
use abb_app.Db.Session.{Outcome, ok, err, SendEvent}
use abb_app.Db.Outbox.{
  new_row, to_item, to_retry_item, as_sent, as_failed, as_pending, is_retryable, pending_rows,
  get_pending_outbox, get_failed_outbox, mark_outbox_sent, mark_outbox_failed, reset_to_pending,
  cancel_stale_outbox, create_outbox_entry, append_delivery_log,
}
use abb_app.Db.Rows.{
  Distinct, find_outbox-update_outbox, find_outbox-map, find_outbox-append, find_outbox-filter,
  filter-Distinct,
}
use abb_app.Db.Rows.Pending.{pending_rows-Distinct, find_outbox-pending_rows}
use abb_app.Db.Messages.{insert_message, update_translation}
use abb_app.Dispatcher.{Senders, no_sender, succeeded}
use abb_app.Dispatcher.Effect.{outbox-append_delivery_log}
use abb_app.App.Pipeline.Changes.{create_outbox_entry-cases}
use abb_app.App.Threads.{
  System, Phase, idle, sweeping, fetched, answered, marked, mark, error_text, Step, begin, finish,
  unregistered, fetch, unread, send, update, append_log, look, early, reset, cancel, insert,
  translate, enqueue,
}
use abb_app.App.Threads.Counts.{one, count, waiting, busy, count-present, waiting-present}
use abb_app.App.Threads.Invariant.{Fine, cancelled_if}
use abb_app.App.Threads.Claims.{Good}
use abb_app.App.Threads.Steps.{Inv, at_phase, at_items, outbox-insert_message}
use abb_app.App.Threads.Faults.{
  FaultyRun, FaultyReach, here, next, FaultyStep, works, begin_fails, fetch_fails, update_fails,
  log_fails, restarts, times, FaultyReach-Inv,
}
use abb_app.App.Threads.Attempts.Bounds.{
  Within, Within-drop, Within-begin, Within-look, Within-sent, Within-failed, Within-pending,
  Within-cancelled, Within-spare,
}
use abb_app.App.Threads.Attempts.Claims.{
  Below, Below-drop, Below-begin, Below-look, Below-early, Below-reset, Below-update, Below-enqueue,
}

abbrev pub AllBelow : ℕ → System → Type 0
AllBelow m s = (k : ℕ) → Below m s.db.outbox s.phase s.retrying k

module _ (m : ℕ) (s : System) where
  -- What is claimed of an id, with the phase or the retry worker's items written out.
  Below-at_phase :
      (p : Phase) → s.phase ≡ p → AllBelow m s → (k : ℕ) → Below m s.db.outbox p s.retrying k
  Below-at_phase p e h k = subst (λ p. Below m s.db.outbox p s.retrying k) e (h k)

  pub Below-at_items :
      (r : List RetryItem)
      → s.retrying ≡ r
      → AllBelow m s
      → (k : ℕ) → Below m s.db.outbox s.phase r k
  Below-at_items r e h k = subst (λ r. Below m s.db.outbox s.phase r k) e (h k)

  phase-AllBelow :
      (p q : Phase)
      → s.phase ≡ p
      → ((k : ℕ) → busy k q ≤ busy k p)
      → AllBelow m s
      → AllBelow m (record s { phase = q })
  phase-AllBelow p q e le h k =
      Below-drop m s.db.outbox k p q s.retrying s.retrying (le k) (omega arith)
        (Below-at_phase p e h k)

  same_rows-AllBelow :
      (d : Db) → d.outbox ≡ s.db.outbox → AllBelow m s → AllBelow m (record s { db = d })
  same_rows-AllBelow d e h k =
      subst (λ (o : List OutboxRow). Below m o s.phase s.retrying k) (sym e) (h k)

  enqueue-AllBelow :
      (id : ℕ) (ch : Text) (now : ℕ)
      → 0 < m
      → AllBelow m s
      → AllBelow m (record s { db = (create_outbox_entry id ch now s.db).1 })
  enqueue-AllBelow id ch now pos h k = elim (create_outbox_entry-cases id ch now s.db) [
    | inl e ↦
        same_rows-AllBelow (create_outbox_entry id ch now s.db).1 (ap (λ (d : Db). d.outbox) e) h k
    | inr (found, e) ↦
        subst (λ (o : List OutboxRow). Below m o s.phase s.retrying k)
          (sym (ap (λ (d : Db). d.outbox) e))
          (Below-enqueue m s.db.outbox k s.phase s.retrying id ch now pos (h k))
  ]

  cancel-AllBelow :
      (lost : ℕ → ℕ) (cutoff now : ℕ)
      → Inv lost s
      → AllBelow m s
      → AllBelow m (record s { db = (cancel_stale_outbox cutoff now s.db).1 })
  unfolding cancel_stale_outbox
  cancel-AllBelow lost cutoff now inv h k =
      let (kept, n, g) = inv.good k in
      rw (find_outbox-map (cancelled_if cutoff) (λ s. ground arith)) (
        Within-cancelled m cutoff (find_outbox k s.db.outbox) (busy k s.phase)
          (waiting k s.retrying) _ _ g (h k))

pub Step-AllBelow :
    {senders : Senders} {m : ℕ} (lost : ℕ → ℕ) {s t : System}
    → 0 < m
    → Step senders m s t
    → Inv lost s
    → AllBelow m s
    → AllBelow m t
unfolding get_pending_outbox get_failed_outbox reset_to_pending update_translation count
Step-AllBelow {m = m} lost {s} pos (begin now e) inv h =
    λ k. Below-begin m s.db.outbox k s.retrying inv.distinct (Below-at_phase m s _ e h k)
Step-AllBelow {m = m} lost {s} pos (finish items e) inv h =
    phase-AllBelow m s _ idle e (λ k. omega arith) h
Step-AllBelow {m = m} lost {s} pos (unregistered item items e missing) inv h =
    phase-AllBelow m s _ (answered item (err (no_sender item.channel)) items) e (λ k. omega arith) h
Step-AllBelow {m = m} lost {s} pos (fetch now item msg items e found) inv h =
    phase-AllBelow m s _ (fetched item msg items) e (λ k. omega arith) h
Step-AllBelow {m = m} lost {s} pos (unread now item x items e gone) inv h =
    phase-AllBelow m s _ (sweeping items) e (λ k. omega arith) h
Step-AllBelow {m = m} lost {s} pos (send item msg items answer e) inv h =
    phase-AllBelow m s _ (answered item answer items) e (λ k. omega arith) h
Step-AllBelow {m = m} lost {s} pos (update now item answer items e) inv h = λ k.
    let (kept, n, g) = at_phase lost s inv k _ e in
    Below-update m s.db.outbox k kept now item answer items s.retrying s.db refl g
      (Below-at_phase m s _ e h k)
Step-AllBelow {m = m} lost {s} pos (append_log now item answer items e) inv h =
    same_rows-AllBelow m (record s { phase = sweeping items })
      (append_delivery_log item.id (succeeded answer) (error_text answer) now s.db).1
      (outbox-append_delivery_log item.id _ _ now s.db)
      (phase-AllBelow m s _ (sweeping items) e (λ k. omega arith) h)
Step-AllBelow {m = m} lost {s} pos (look now e) inv h = λ k.
    let (kept, n, g) = at_items lost s inv k _ e in
    Below-look m s.db.outbox k s.phase kept s.db.delivery_log inv.distinct g
      (Below-at_items m s _ e h k)
Step-AllBelow {m = m} lost {s} pos (early item items e) inv h =
    λ k. Below-early m s.db.outbox k s.phase item items (Below-at_items m s _ e h k)
Step-AllBelow {m = m} lost {s} pos (reset now item items e) inv h =
    λ k. Below-reset m s.db.outbox k s.phase item items (Below-at_items m s _ e h k)
Step-AllBelow {m = m} lost {s} pos (cancel cutoff now) inv h =
    cancel-AllBelow m s lost cutoff now inv h
Step-AllBelow {m = m} lost {s} pos (insert x now) inv h =
    same_rows-AllBelow m s (insert_message x now s.db).1 (outbox-insert_message x now s.db) h
Step-AllBelow {m = m} lost {s} pos (translate id x now) inv h =
    same_rows-AllBelow m s (update_translation id x now s.db).1 refl h
Step-AllBelow {m = m} lost {s} pos (enqueue id ch now) inv h = enqueue-AllBelow m s id ch now pos h

FaultyStep-AllBelow :
    {senders : Senders} {m : ℕ} {r t : FaultyRun}
    → 0 < m
    → FaultyStep senders m r t
    → Inv (λ k. times k r.lost) r.system
    → AllBelow m r.system
    → AllBelow m t.system
unfolding count waiting
FaultyStep-AllBelow {r = r} pos (works t step) inv h =
    Step-AllBelow (λ k. times k r.lost) pos step inv h
FaultyStep-AllBelow {m = m} {r} pos (begin_fails e) inv h =
    phase-AllBelow m r.system _ (sweeping []) e (λ k. omega arith) h
FaultyStep-AllBelow {m = m} {r} pos (fetch_fails item items e) inv h =
    phase-AllBelow m r.system _ (sweeping items) e (λ k. omega arith) h
FaultyStep-AllBelow {m = m} {r} pos (update_fails item answer items e) inv h =
    phase-AllBelow m r.system _ (marked item answer items) e (λ k. omega arith) h
FaultyStep-AllBelow {m = m} {r} pos (log_fails item answer items e) inv h =
    phase-AllBelow m r.system _ (sweeping items) e (λ k. omega arith) h
FaultyStep-AllBelow {m = m} {r} pos restarts inv h = λ k.
    Below-drop m r.system.db.outbox k r.system.phase idle r.system.retrying [] (omega arith)
      (omega arith) (h k)

pub FaultyReach-AllBelow :
    {senders : Senders} {m : ℕ} {r : FaultyRun}
    → 0 < m
    → FaultyReach senders m r
    → AllBelow m r.system
unfolding find_outbox
FaultyReach-AllBelow pos here = λ k. tt
FaultyReach-AllBelow pos (next reach step) =
    FaultyStep-AllBelow pos step (FaultyReach-Inv reach) (FaultyReach-AllBelow pos reach)

-- However the statements of the goroutines interleave, whatever the senders answer, whichever
-- statements fail, and however often the process is killed and started again, from a fresh database
-- on, with at least one attempt allowed: no outbox row counts more attempts than max_attempts, and one
-- that is waiting to be sent counts fewer.
pub attempts_below :
    (senders : Senders) (max_attempts : ℕ) (r : FaultyRun) (k : ℕ) (row : OutboxRow)
    → 0 < max_attempts
    → FaultyReach senders max_attempts r
    → find_outbox k r.system.db.outbox ≡ some row
    → row.attempts + (if status_eq row.status pending then 1 else 0) ≤ max_attempts
attempts_below senders max_attempts r k row pos reach found = Within-spare max_attempts row _ (
    subst (λ o. Within max_attempts o (busy k r.system.phase + waiting k r.system.retrying)) found
      (FaultyReach-AllBelow pos reach k))
