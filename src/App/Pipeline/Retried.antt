-- ===== src/App/Pipeline/Retried.antt =====
-- A failed row whose wait is over is tried again.
use abb_app.Base.{
  ℕ, ◌+◌, ◌≡◌, ◌≤◌, refl, ◌≢◌, ◌∙◌, ap, sym, subst, true, false, Bool-cases, inl, inr, Option, none,
  some, List, [], ◌∷◌, map, filter, ltb, arith, if◌then◌else◌,
}
use mathlib.Core.Option.{some-injective, some-ne-none, none-ne-some}
use native.Mathlib.Decide.{ℕ_discrete}
use abb_app.Model.{RetryItem, pending}
use abb_app.Db.{Db, OutboxRow, LogRow, find_outbox, update_outbox, status_eq}
use abb_app.Db.Session.{ok, World, exec, NoFaults, exec-keeps, exec-cases, NoFaults-exec}
use abb_app.Db.Outbox.{
  get_failed_outbox, reset_to_pending, as_pending, is_retryable, to_retry_item,
  count_exhausted_outbox,
}
use abb_app.Db.Rows.{
  Distinct, find_outbox-update_self, update_outbox-Distinct, find_outbox-here, find_outbox-there,
  find_outbox-filter, filter-Distinct, keep,
}
use abb_app.Dispatcher.{Context, Senders, dispatch_once, stops_before}
use abb_app.App.Pipeline.Changes.{References-update}
use abb_app.Dispatcher.Drain.{Attempted, References, Settles, dispatch_once-Settles}
use abb_app.Dispatcher.Reschedule.{reset-frame}
use abb_app.Dispatcher.Retry.{due, reset_due, reschedule, work_items, work}

-- No fault is to come, ids are distinct, and each row has its message.
abbrev Calm : World → Type 0
Calm w = NoFaults w.ticks × Distinct w.db.outbox × References w.db

ran-reset :
    (id : ℕ) (w : World)
    → NoFaults w.ticks
    → ((exec (reset_to_pending id) w).0 ≡ ok tt)
      × ((exec (reset_to_pending id) w).1.db
          ≡ record w.db { outbox = update_outbox id as_pending w.db.outbox })
unfolding reset_to_pending
ran-reset id w calm = elim (exec-cases (reset_to_pending id) w) [
  | inl (t, answer, db) ↦ (answer, db)
  | inr (_, _, faulty) ↦ absurd (faulty calm)
]

Calm-reset : (id : ℕ) (w : World) → Calm w → Calm (exec (reset_to_pending id) w).1
Calm-reset id w (calm, distinct, refs) =
    let (answer, db) = ran-reset id w calm in
    (
      NoFaults-exec (reset_to_pending id) w calm,
      rw db (update_outbox-Distinct id as_pending (λ s. refl) w.db.outbox distinct),
      rw db (References-update w.db as_pending (λ s. refl) id (λ s. refl) refs),
    )

module _ (base now : ℕ) (log : List LogRow) where
  Calm-reset_due :
      (r : OutboxRow) (n : ℕ) (w : World)
      → Calm w
      → Calm (reset_due base now (to_retry_item log r) n w).1
  unfolding reset_due
  Calm-reset_due r n w h = elim (Bool-cases (ltb now (due base (to_retry_item log r)))) [
    | inl early ↦ rw early h
    | inr late ↦ rw late (Calm-reset r.id w h)
  ]

  Calm-reschedule :
      (rows : List OutboxRow) (n : ℕ) (w : World)
      → Calm w
      → Calm (reschedule base now (map (to_retry_item log) rows) n w).1
  unfolding reschedule
  Calm-reschedule [] n w h = h
  Calm-reschedule (r ∷ rs) n w h = Calm-reschedule rs _ _ (Calm-reset_due r n w h)

  reset_due-frame :
      (r : OutboxRow) (n : ℕ) (w : World) (k : ℕ) (o : Option OutboxRow)
      → r.id ≢ k
      → find_outbox k w.db.outbox ≡ o
      → find_outbox k (reset_due base now (to_retry_item log r) n w).1.db.outbox ≡ o
  unfolding reset_due
  reset_due-frame r n w k o apart h = elim (Bool-cases (ltb now (due base (to_retry_item log r)))) [
    | inl early ↦ rw early h
    | inr late ↦ rw late (reset-frame r.id w k o apart h)
  ]

  -- A due row becomes pending, and is counted.
  reset_due-due :
      (r : OutboxRow) (n : ℕ) (w : World)
      → Calm w
      → find_outbox r.id w.db.outbox ≡ some r
      → ltb now (due base (to_retry_item log r)) ≡ false
      → ((reset_due base now (to_retry_item log r) n w).0 ≡ n + 1)
        × (find_outbox r.id (reset_due base now (to_retry_item log r) n w).1.db.outbox
            ≡ some (as_pending r))
  unfolding reset_due
  reset_due-due r n w h here late =
      let (answer, db) = ran-reset r.id w h.0 in
      (
        rw (late, answer) refl,
        rw (late, db) (find_outbox-update_self as_pending (λ s. refl) r.id w.db.outbox r here),
      )

  reset_due-le :
      (r : OutboxRow) (n : ℕ) (w : World)
      → Calm w
      → n ≤ (reset_due base now (to_retry_item log r) n w).0
  unfolding reset_due
  reset_due-le r n w h = elim (Bool-cases (ltb now (due base (to_retry_item log r)))) [
    | inl early ↦ rw early (omega arith)
    | inr late ↦ rw (late, (ran-reset r.id w h.0).0) (omega arith)
  ]

  reschedule-le :
      (rows : List OutboxRow) (n : ℕ) (w : World)
      → Calm w
      → n ≤ (reschedule base now (map (to_retry_item log) rows) n w).0
  unfolding reschedule
  reschedule-le [] n w h = omega arith
  reschedule-le (r ∷ rs) n w h =
      let next = reset_due base now (to_retry_item log r) n w in
      let rest = reschedule-le rs next.0 next.1 (Calm-reset_due r n w h) in
      omega (arith, rest, reset_due-le r n w h)

  reschedule-frame :
      (rows : List OutboxRow) (n : ℕ) (w : World) (k : ℕ) (o : Option OutboxRow)
      → find_outbox k rows ≡ none
      → find_outbox k w.db.outbox ≡ o
      → find_outbox k (reschedule base now (map (to_retry_item log) rows) n w).1.db.outbox ≡ o
  unfolding reschedule find_outbox
  reschedule-frame [] n w k o absent h = h
  reschedule-frame (r ∷ rs) n w k o absent h = elim (ℕ_discrete r.id k) [
    | yes same ↦ absurd (some-ne-none r (sym (find_outbox-here r rs k same) ∙ absent))
    | no apart ↦
        reschedule-frame rs _ _ k o (sym (find_outbox-there r rs k apart) ∙ absent)
          (reset_due-frame r n w k o apart h)
  ]

  -- The loop makes a due row pending, and counts it.
  reschedule-due :
      (rows : List OutboxRow) (n : ℕ) (w : World) (k : ℕ) (r : OutboxRow)
      → Calm w
      → Distinct rows
      → find_outbox k rows ≡ some r
      → find_outbox k w.db.outbox ≡ some r
      → ltb now (due base (to_retry_item log r)) ≡ false
      → (n + 1 ≤ (reschedule base now (map (to_retry_item log) rows) n w).0)
        × (find_outbox k (reschedule base now (map (to_retry_item log) rows) n w).1.db.outbox
            ≡ some (as_pending r))
  unfolding reschedule find_outbox
  reschedule-due [] n w k r h d listed here late = absurd (none-ne-some r listed)
  reschedule-due (s ∷ rs) n w k r h d listed here late = elim (ℕ_discrete s.id k) [
    | yes same ↦
        let first : s ≡ r = some-injective s r (sym (find_outbox-here s rs k same) ∙ listed) in
        let found : find_outbox s.id w.db.outbox ≡ some s =
          subst (λ i. find_outbox i w.db.outbox ≡ some s) (sym same) (here ∙ ap some (sym first)) in
        let late_too : ltb now (due base (to_retry_item log s)) ≡ false =
          subst (λ x. ltb now (due base (to_retry_item log x)) ≡ false) (sym first) late in
        let (count, row) = reset_due-due s n w h found late_too in
        let next = reset_due base now (to_retry_item log s) n w in
        let rest = reschedule-le rs next.0 next.1 (Calm-reset_due s n w h) in
        (
          omega (arith, count, rest),
          reschedule-frame rs next.0 next.1 k (some (as_pending r))
              (subst (λ i. find_outbox i rs ≡ none) same d.0)
              (subst (λ i. find_outbox i next.1.db.outbox ≡ some (as_pending r)) same
                (row ∙ ap (λ (x : OutboxRow). some (as_pending x)) first)),
        )
    | no apart ↦
        let next = reset_due base now (to_retry_item log s) n w in
        let (count, row) =
          reschedule-due rs next.0 next.1 k r (Calm-reset_due s n w h) d.1
            (sym (find_outbox-there s rs k apart) ∙ listed)
            (reset_due-frame s n w k (some r) apart here) late in
        (omega (arith, count, reset_due-le s n w h), row)
  ]

pub Stable-count : (m : ℕ) (w : World) → (exec (count_exhausted_outbox m) w).1.db ≡ w.db
unfolding count_exhausted_outbox
Stable-count m w = exec-keeps (count_exhausted_outbox m) w (λ d. d ≡ w.db) (λ t p. refl) refl

-- What the retry worker reads.
pub read-get_failed_outbox :
    (m : ℕ) (w : World)
    → NoFaults w.ticks
    → ((exec (get_failed_outbox m) w).0
        ≡ ok (map (to_retry_item w.db.delivery_log) (filter (is_retryable m) w.db.outbox)))
      × ((exec (get_failed_outbox m) w).1.db ≡ w.db)
unfolding get_failed_outbox
read-get_failed_outbox m w calm = elim (exec-cases (get_failed_outbox m) w) [
  | inl (t, answer, db) ↦ (answer, db)
  | inr (_, _, faulty) ↦ absurd (faulty calm)
]

-- A round that has rescheduled something ends with a sweep.
work_items-db :
    (ctx : Context) (senders : Senders) (m base : ℕ) (items : List RetryItem) (w : World)
    → ltb 0 (reschedule base w.now items 0 w).0 ≡ true
    → (work_items ctx senders m base (ok items) w).db
      ≡ (dispatch_once ctx senders (reschedule base w.now items 0 w).1).db
unfolding work_items
work_items-db ctx senders m base items w counted =
    let done = reschedule base w.now items 0 w in
    let swept : World = if ltb 0 done.0 then dispatch_once ctx senders done.1 else done.1 in
    let same : swept ≡ dispatch_once ctx senders done.1 = rw counted refl in
    Stable-count m swept ∙ ap (λ (v : World). v.db) same

pub work-db :
    (ctx : Context) (senders : Senders) (m base : ℕ) (w : World) (items : List RetryItem)
    → (exec (get_failed_outbox m) w).0 ≡ ok items
    → (work ctx senders m base w).db
      ≡ (work_items ctx senders m base (ok items) (exec (get_failed_outbox m) w).1).db
unfolding work
work-db ctx senders m base w items answer = rw answer refl

-- If no statement fails, the context is not cancelled, ids are distinct and every outbox row has its
-- message, then a round of the retry worker attempts each failed row that may be retried and whose wait
-- is over when the rows were read: it is marked as sent or as failed, with one more attempt.
pub work-Attempted :
    (ctx : Context) (senders : Senders) (max_attempts base : ℕ) (w : World) (k : ℕ) (r : OutboxRow)
    → ((i : ℕ) → stops_before ctx i ≡ false)
    → NoFaults w.ticks
    → Distinct w.db.outbox
    → References w.db
    → find_outbox k w.db.outbox ≡ some r
    → is_retryable max_attempts r ≡ true
    → ltb
        (exec (get_failed_outbox max_attempts) w).1.now
        (due base (to_retry_item w.db.delivery_log r))
      ≡ false
    → Attempted (as_pending r) (find_outbox k (work ctx senders max_attempts base w).db.outbox)
work-Attempted ctx senders max_attempts base w k r undisturbed calm distinct refs here fit late =
    let w1 = (exec (get_failed_outbox max_attempts) w).1 in
    let log = w.db.delivery_log in
    let rows = filter (is_retryable max_attempts) w.db.outbox in
    let (answer, same) = read-get_failed_outbox max_attempts w calm in
    let calm1 : Calm w1 =
      (NoFaults-exec (get_failed_outbox max_attempts) w calm, rw same distinct, rw same refs) in
    let listed : find_outbox k rows ≡ some r =
      find_outbox-filter (is_retryable max_attempts) w.db.outbox distinct k
      ∙ ap (keep (is_retryable max_attempts)) here
      ∙ rw fit refl in
    let done = reschedule base w1.now (map (to_retry_item log) rows) 0 w1 in
    let (count, row) =
      reschedule-due base w1.now log rows 0 w1 k r calm1
        (filter-Distinct (is_retryable max_attempts) w.db.outbox distinct) listed (rw same here)
        late in
    let (calm2, distinct2, refs2) = Calm-reschedule base w1.now log rows 0 w1 calm1 in
    let counted : ltb 0 done.0 ≡ true = ground (arith, count) in
    let ended : (work ctx senders max_attempts base w).db ≡ (dispatch_once ctx senders done.1).db =
      work-db ctx senders max_attempts base w (map (to_retry_item log) rows) answer
      ∙ work_items-db ctx senders max_attempts base (map (to_retry_item log) rows) w1 counted in
    subst (λ (d : Db). Attempted (as_pending r) (find_outbox k d.outbox)) (sym ended)
      (subst
        (λ o.
          Settles o (find_outbox k done.1.db.outbox)
            (find_outbox k (dispatch_once ctx senders done.1).db.outbox))
        (ap (keep (λ (x : OutboxRow). status_eq x.status pending)) row)
        (dispatch_once-Settles ctx senders done.1 undisturbed distinct2 refs2 calm2 k))
