-- ===== src/App/Threads/Attempts/Claims.antt =====
-- What each step of the goroutines does to the attempts of one id.
use abb_app.Base.{
  ℕ, ◌+◌, ◌≤◌, ◌<◌, ◌≡◌, refl, inl, inr, Bool-cases, List, [], ◌∷◌, ◌++◌, map, filter, ◌==◌, arith,
}
use abb_app.Base.Text.{Text}
use abb_app.Model.{OutboxItem, RetryItem}
use abb_app.Db.{Db, OutboxRow, LogRow, find_outbox, update_outbox, max_outbox_id}
use abb_app.Db.Session.{Outcome, ok, err, SendEvent}
use abb_app.Db.Outbox.{
  new_row, to_item, to_retry_item, as_sent, as_failed, as_pending, is_retryable, pending_rows,
  mark_outbox_sent, mark_outbox_failed,
}
use abb_app.Db.Rows.{
  Distinct, find_outbox-update_outbox, find_outbox-append, find_outbox-filter, filter-Distinct,
}
use abb_app.Db.Rows.Pending.{pending_rows-Distinct, find_outbox-pending_rows}
use abb_app.App.Threads.{Phase, idle, sweeping, answered, marked, mark}
use abb_app.App.Threads.Counts.{count, waiting, busy, count-present, waiting-present}
use abb_app.App.Threads.Claims.{Good}
use abb_app.App.Threads.Attempts.Bounds.{
  Within, Within-drop, Within-begin, Within-look, Within-sent, Within-failed, Within-pending,
}

-- The row of an id, against the items of it that the goroutines hold.
abbrev pub Below : ℕ → List OutboxRow → Phase → List RetryItem → ℕ → Type 0
Below m rows p r k = Within m (find_outbox k rows) (busy k p + waiting k r)

module _ (m : ℕ) (rows : List OutboxRow) (k : ℕ) where
  pub Below-drop :
      (p q : Phase) (r r' : List RetryItem)
      → busy k q ≤ busy k p
      → waiting k r' ≤ waiting k r
      → Below m rows p r k
      → Below m rows q r' k
  Below-drop p q r r' hb hw h = Within-drop m (find_outbox k rows) _ _ (omega (arith, hb, hw)) h

  pub Below-begin :
      (r : List RetryItem)
      → Distinct rows
      → Below m rows idle r k
      → Below m rows (sweeping (map to_item (pending_rows rows))) r k
  Below-begin r d h =
      rw
        (
          count-present k (pending_rows rows) (pending_rows-Distinct rows d),
          find_outbox-pending_rows rows d k,
        )
        (Within-begin m (find_outbox k rows) (waiting k r)
          (Within-drop m (find_outbox k rows) _ _ (omega arith) h))

  pub Below-look :
      (p : Phase) (sends : List SendEvent) (log : List LogRow)
      → Distinct rows
      → Good rows sends p [] k
      → Below m rows p [] k
      → Below m rows p (map (to_retry_item log) (filter (is_retryable m) rows)) k
  unfolding waiting
  Below-look p sends log d g h =
      rw
        (
          waiting-present k log (filter (is_retryable m) rows)
              (filter-Distinct (is_retryable m) rows d),
          find_outbox-filter (is_retryable m) rows d k,
        )
        (Within-look m (find_outbox k rows) (busy k p) _ _ g
          (Within-drop m (find_outbox k rows) _ _ (omega arith) h))

  pub Below-early :
      (p : Phase) (item : RetryItem) (items : List RetryItem)
      → Below m rows p (item ∷ items) k
      → Below m rows p items k
  unfolding waiting
  Below-early p item items h = Below-drop p p (item ∷ items) items (omega arith) (omega arith) h

  pub Below-reset :
      (p : Phase) (item : RetryItem) (items : List RetryItem)
      → Below m rows p (item ∷ items) k
      → Below m (update_outbox item.id as_pending rows) p items k
  unfolding waiting
  Below-reset p item items h = elim (Bool-cases (item.id == k)) [
    | inl e ↦
        rw (find_outbox-update_outbox item.id as_pending (λ s. refl), e)
          (Within-pending m (find_outbox k rows) (busy k p) (waiting k items) (rw e at h))
    | inr e ↦
        rw (find_outbox-update_outbox item.id as_pending (λ s. refl), e)
          (Below-early p item items h)
  ]

  pub Below-update :
      (sends : List SendEvent) (t : ℕ) (item : OutboxItem) (answer : Outcome (Unit {0}))
      (items : List OutboxItem) (r : List RetryItem) (d : Db)
      → d.outbox ≡ rows
      → Good rows sends (answered item answer items) r k
      → Below m rows (answered item answer items) r k
      → Below m (mark item.id answer t d).outbox (marked item answer items) r k
  unfolding mark mark_outbox_sent mark_outbox_failed
  Below-update sends t item (ok u) items r d same g h = elim (Bool-cases (item.id == k)) [
    | inl e ↦
        rw (same, find_outbox-update_outbox item.id (as_sent t) (λ s. refl), e)
          (Within-sent m t (find_outbox k rows) (count k items) (waiting k r) _ _ (rw e at g)
            (rw e at h))
    | inr e ↦
        rw (same, find_outbox-update_outbox item.id (as_sent t) (λ s. refl), e)
          (Within-drop m (find_outbox k rows) _ _ (omega arith) h)
  ]
  Below-update sends t item (err x) items r d same g h = elim (Bool-cases (item.id == k)) [
    | inl e ↦
        rw (same, find_outbox-update_outbox item.id (as_failed x) (λ s. refl), e)
          (Within-failed m x (find_outbox k rows) (count k items) (waiting k r) _ _ (rw e at g)
            (rw e at h))
    | inr e ↦
        rw (same, find_outbox-update_outbox item.id (as_failed x) (λ s. refl), e)
          (Within-drop m (find_outbox k rows) _ _ (omega arith) h)
  ]

  pub Below-enqueue :
      (p : Phase) (r : List RetryItem) (id : ℕ) (ch : Text) (now : ℕ)
      → 0 < m
      → Below m rows p r k
      → Below m (rows ++ new_row (max_outbox_id rows + 1) id ch now ∷ []) p r k
  Below-enqueue p r id ch now pos h = elim (Bool-cases (max_outbox_id rows + 1 == k)) [
    | inl e ↦
        rw (find_outbox-append (new_row (max_outbox_id rows + 1) id ch now) rows refl k, e)
          (omega arith)
    | inr e ↦ rw (find_outbox-append (new_row (max_outbox_id rows + 1) id ch now) rows refl k, e) h
  ]
