-- ===== src/App/Threads/Claims.antt =====
-- What each step of the goroutines does to the claim about one id.
use abb_app.Base.{
  ℕ, ◌+◌, ◌≡◌, refl, subst, inl, inr, Bool-cases, none, List, [], ◌∷◌, ◌++◌, map, filter, ◌==◌,
  arith,
}
use abb_app.Base.Text.{Text}
use abb_app.Model.{OutboxItem, RetryItem}
use abb_app.Db.{Db, OutboxRow, LogRow, find_outbox, update_outbox, max_outbox_id}
use abb_app.Db.Session.{Outcome, ok, err, SendEvent}
use abb_app.Db.Outbox.{
  new_row, to_item, to_retry_item, as_sent, as_failed, as_pending, is_retryable, pending_rows,
  mark_outbox_sent, mark_outbox_failed,
}
use abb_app.Db.Rows.{
  Distinct, find_outbox-update_outbox, find_outbox-map, find_outbox-append, find_outbox-beyond,
  find_outbox-filter, filter-Distinct,
}
use abb_app.Db.Rows.Pending.{pending_rows-Distinct, find_outbox-pending_rows}
use abb_app.Dispatcher.{succeeded}
use abb_app.App.Pipeline.Delivery.{successes}
use abb_app.App.Threads.{Phase, idle, sweeping, answered, marked, mark}
use abb_app.App.Threads.Counts.{
  one, count, waiting, busy, flying, flying-le-busy, count-present, waiting-present,
}
use abb_app.App.Threads.Invariant.{
  Fine, Fine-same, Fine-drop, Fine-early, Fine-send, Fine-sent, Fine-failed, Fine-pending,
  cancelled_if, Fine-cancelled, Fine-begin, Fine-look,
}

-- What is claimed of an id, from the parts of the state.
abbrev pub Good : List OutboxRow → List SendEvent → Phase → List RetryItem → ℕ → Type 0
Good rows sends p r k =
    Fine (find_outbox k rows) (busy k p) (waiting k r) (flying k p) (successes k sends)

-- The same of the calls that count: all but `lost`, whose success the row has not been told.
abbrev pub Claim : ℕ → List OutboxRow → List SendEvent → Phase → List RetryItem → ℕ → Type 0
Claim lost rows sends p r k =
    (kept : List SendEvent) × (successes k sends ≡ successes k kept + lost) × Good rows kept p r k

module _ (rows : List OutboxRow) (sends : List SendEvent) (r : List RetryItem) (k : ℕ) where
  pub Good-begin :
      Distinct rows
      → Good rows sends idle r k
      → Good rows sends (sweeping (map to_item (pending_rows rows))) r k
  Good-begin d h =
      rw
        (
          count-present k (pending_rows rows) (pending_rows-Distinct rows d),
          find_outbox-pending_rows rows d k,
        )
        (Fine-begin (find_outbox k rows) (waiting k r) (successes k sends) h)

  pub Good-next :
      (item : OutboxItem) (items : List OutboxItem)
      → Good rows sends (sweeping (item ∷ items)) r k
      → Good rows sends (sweeping items) r k
  unfolding count
  Good-next item items h =
      Fine-drop (find_outbox k rows) _ _ _ _ 0 _ (omega arith) (omega arith) refl h

  pub Good-finish :
      (items : List OutboxItem) → Good rows sends (sweeping items) r k → Good rows sends idle r k
  Good-finish items h =
      Fine-drop (find_outbox k rows) _ _ _ _ 0 _ (omega arith) (omega arith) refl h

  pub Good-send :
      (item : OutboxItem) (ch : Text) (answer : Outcome (Unit {0})) (items : List OutboxItem)
      → Fine
          (find_outbox k rows)
          (one item.id k + count k items)
          (waiting k r)
          0
          (successes k sends)
      → Good rows
          (record { item = item.id; channel = ch; success = succeeded answer } ∷ sends)
          (answered item answer items)
          r
          k
  Good-send item ch (ok u) items h =
      Fine-same (find_outbox k rows) _ _ _ _ _ _ (one item.id k + successes k sends) _ refl refl
        refl (ground arith)
        (Fine-send (find_outbox k rows) _ _ (one item.id k) (successes k sends) (omega arith)
          (ground arith) h)
  Good-send item ch (err e) items h =
      Fine-same (find_outbox k rows) _ _ _ _ _ _ (successes k sends) _ refl refl refl (ground arith)
        h

  pub Good-update :
      (t : ℕ) (item : OutboxItem) (answer : Outcome (Unit {0})) (items : List OutboxItem) (d : Db)
      → d.outbox ≡ rows
      → Good rows sends (answered item answer items) r k
      → Good (mark item.id answer t d).outbox sends (marked item answer items) r k
  unfolding mark mark_outbox_sent mark_outbox_failed
  Good-update t item (ok u) items d same h = elim (Bool-cases (item.id == k)) [
    | inl e ↦
        rw (same, find_outbox-update_outbox item.id (as_sent t) (λ s. refl), e)
          (Fine-sent t (find_outbox k rows) (count k items) (waiting k r) (successes k sends)
            (rw e at h))
    | inr e ↦
        rw (same, find_outbox-update_outbox item.id (as_sent t) (λ s. refl), e)
          (Fine-drop (find_outbox k rows) _ _ _ _ 0 _ (omega arith) (omega arith) refl (rw e at h))
  ]
  Good-update t item (err x) items d same h = elim (Bool-cases (item.id == k)) [
    | inl e ↦
        rw (same, find_outbox-update_outbox item.id (as_failed x) (λ s. refl), e)
          (Fine-failed x (find_outbox k rows) (count k items) (waiting k r) (successes k sends)
            (rw e at h))
    | inr e ↦
        rw (same, find_outbox-update_outbox item.id (as_failed x) (λ s. refl), e)
          (Fine-drop (find_outbox k rows) _ _ _ _ 0 _ (omega arith) (omega arith) refl (rw e at h))
  ]

module _ (rows : List OutboxRow) (sends : List SendEvent) (p : Phase) (k : ℕ) where
  pub Good-look :
      (m : ℕ) (log : List LogRow)
      → Distinct rows
      → Good rows sends p [] k
      → Good rows sends p (map (to_retry_item log) (filter (is_retryable m) rows)) k
  unfolding waiting
  Good-look m log d h =
      rw
        (
          waiting-present k log (filter (is_retryable m) rows)
              (filter-Distinct (is_retryable m) rows d),
          find_outbox-filter (is_retryable m) rows d k,
        )
        (Fine-look m (find_outbox k rows) (busy k p) (flying k p) (successes k sends)
          (flying-le-busy k p) h)

  pub Good-early :
      (item : RetryItem) (items : List RetryItem)
      → Good rows sends p (item ∷ items) k
      → Good rows sends p items k
  unfolding waiting
  Good-early item items h =
      Fine-early (find_outbox k rows) (busy k p) (waiting k (item ∷ items)) (waiting k items)
        (flying k p) (successes k sends) (omega arith) h

  pub Good-reset :
      (item : RetryItem) (items : List RetryItem)
      → Good rows sends p (item ∷ items) k
      → Good (update_outbox item.id as_pending rows) sends p items k
  unfolding waiting
  Good-reset item items h = elim (Bool-cases (item.id == k)) [
    | inl e ↦
        rw (find_outbox-update_outbox item.id as_pending (λ s. refl), e)
          (Fine-pending (find_outbox k rows) (busy k p) (waiting k items) (flying k p)
            (successes k sends) (flying-le-busy k p) (rw e at h))
    | inr e ↦
        rw (find_outbox-update_outbox item.id as_pending (λ s. refl), e) (Good-early item items h)
  ]

module _ (rows : List OutboxRow) (sends : List SendEvent) (p : Phase) (r : List RetryItem)
    (k : ℕ) where
  pub Good-cancel :
      (cutoff : ℕ) → Good rows sends p r k → Good (map (cancelled_if cutoff) rows) sends p r k
  Good-cancel cutoff h = rw (find_outbox-map (cancelled_if cutoff) (λ s. ground arith)) (
      Fine-cancelled cutoff (find_outbox k rows) (busy k p) (waiting k r) (flying k p)
        (successes k sends) (flying-le-busy k p) h)

  pub Good-enqueue :
      (id : ℕ) (ch : Text) (now : ℕ)
      → Good rows sends p r k
      → Good (rows ++ new_row (max_outbox_id rows + 1) id ch now ∷ []) sends p r k
  Good-enqueue id ch now h = elim (Bool-cases (max_outbox_id rows + 1 == k)) [
    | inl e ↦
        let gone : find_outbox k rows ≡ none = find_outbox-beyond k rows (ground arith) in
        let none_held : Fine none (busy k p) (waiting k r) (flying k p) (successes k sends) =
          subst (λ o. Fine o (busy k p) (waiting k r) (flying k p) (successes k sends)) gone h in
        rw (find_outbox-append (new_row (max_outbox_id rows + 1) id ch now) rows refl k, e)
          (omega (arith, flying-le-busy k p))
    | inr e ↦ rw (find_outbox-append (new_row (max_outbox_id rows + 1) id ch now) rows refl k, e) h
  ]
