-- ===== src/Dispatcher/Reschedule.antt =====
-- The loop of the retry worker: what each reset keeps, the loop keeps.
use abb_app.Base.{
  ℕ, ◌≤◌, ◌≡◌, refl, ◌≢◌, ◌⊎◌, ◌∙◌, sym, Bool, true, false, Bool-cases, inl, inr, Option, none,
  some, List, [], ◌∷◌, map, filter, All, All-imp, ltb, arith, if◌then◌else◌,
}
use abb_app.Db.{Db, OutboxRow, LogRow, find_outbox}
use abb_app.Db.Session.{
  Outcome, ok, World, exec, NoFaults, exec-keeps, exec-cases, NoFaults-exec, sends-exec, now-exec,
}
use abb_app.Db.Outbox.{
  get_failed_outbox, reset_to_pending, as_pending, is_retryable, to_retry_item,
  count_exhausted_outbox,
}
use abb_app.Db.Rows.{
  find_outbox-update_outbox, Distinct, Distinct-self, filter-Distinct, find_outbox-filter,
  keep-some,
}
use abb_app.Dispatcher.{Context, Senders, dispatch_once}
use abb_app.Dispatcher.Retry.{due, reset_due, reschedule, work_items, work}

pub reset-frame :
    (id : ℕ) (w : World) (k : ℕ) (o : Option OutboxRow)
    → id ≢ k
    → find_outbox k w.db.outbox ≡ o
    → find_outbox k (exec (reset_to_pending id) w).1.db.outbox ≡ o
unfolding reset_to_pending
reset-frame id w k o apart h =
    exec-keeps (reset_to_pending id) w (λ d. find_outbox k d.outbox ≡ o)
      (λ t p. rw (find_outbox-update_outbox id as_pending (λ s. refl)) (ground arith)) h

pub reset-row :
    (id : ℕ) (w : World) (r : OutboxRow)
    → find_outbox id w.db.outbox ≡ some r
    → (find_outbox id (exec (reset_to_pending id) w).1.db.outbox ≡ some (as_pending r))
      ⊎ (find_outbox id (exec (reset_to_pending id) w).1.db.outbox ≡ some r)
unfolding reset_to_pending
reset-row id w r h = elim (exec-cases (reset_to_pending id) w) [
  | inl (t, _, ran) ↦
      inl (rw (ran, find_outbox-update_outbox id as_pending (λ s. refl)) (ground arith))
  | inr (_, kept, _) ↦ inr (rw kept h)
]

-- The rows that the loop has still to look at stand in the table as they were read.
abbrev Failed : ℕ → World → List OutboxRow → Type 0
Failed max_attempts w =
    All (λ r. (find_outbox r.id w.db.outbox ≡ some r) × (is_retryable max_attempts r ≡ true))

module _ (max_attempts base now : ℕ) (log : List LogRow) (I : World → Type 0)
    (step : (r : OutboxRow) (w : World)
      → find_outbox r.id w.db.outbox ≡ some r
      → is_retryable max_attempts r ≡ true
      → I w
      → I (exec (reset_to_pending r.id) w).1) where
  Failed-reset_due :
      (r : OutboxRow) (n : ℕ) (w : World) (rows : List OutboxRow)
      → find_outbox r.id rows ≡ none
      → Failed max_attempts w rows
      → Failed max_attempts (reset_due base now (to_retry_item log r) n w).1 rows
  unfolding reset_due find_outbox
  Failed-reset_due r n w [] h p = tt
  Failed-reset_due r n w (s ∷ rs) h p = (
    (ground (arith, reset-frame r.id w s.id (some s)), p.0.1),
    Failed-reset_due r n w rs (ground arith) p.1,
  )

  reset_due-inv :
      (r : OutboxRow) (n : ℕ) (w : World)
      → find_outbox r.id w.db.outbox ≡ some r
      → is_retryable max_attempts r ≡ true
      → I w
      → I (reset_due base now (to_retry_item log r) n w).1
  unfolding reset_due
  reset_due-inv r n w here fit h = elim (Bool-cases (ltb now (due base (to_retry_item log r)))) [
    | inl early ↦ rw early h
    | inr late ↦ rw late (step r w here fit h)
  ]

  reschedule-inv :
      (rows : List OutboxRow) (n : ℕ) (w : World)
      → Distinct rows
      → Failed max_attempts w rows
      → I w
      → I (reschedule base now (map (to_retry_item log) rows) n w).1
  unfolding reschedule
  reschedule-inv [] n w d p h = h
  reschedule-inv (r ∷ rs) n w d p h =
      let next = reset_due base now (to_retry_item log r) n w in
      reschedule-inv rs next.0 next.1 d.1 (Failed-reset_due r n w rs d.0 p.1)
        (reset_due-inv r n w p.0.0 p.0.1 h)

-- An invariant that looks at the tables, at the calls of Send, at whether faults are to come and at how
-- much time has passed.
abbrev pub Stable : (World → Type 0) → Type 0
Stable I =
    (w w' : World)
    → w'.db ≡ w.db
    → w'.sends ≡ w.sends
    → (NoFaults w.ticks → NoFaults w'.ticks)
    → w.now ≤ w'.now
    → I w
    → I w'

-- A statement that only reads keeps it.
pub Stable-exec :
    (I : World → Type 0)
    → Stable I
    → {A : Type 0} (op : ℕ → Db → Outcome A × Db) → ((t : ℕ) (d : Db) → (op t d).1 ≡ d)
    → (w : World) → I w
    → I (exec op w).1
Stable-exec I stable op reads w =
    stable w (exec op w).1 (exec-keeps op w (λ d. d ≡ w.db) (λ t p. reads t w.db) refl)
      (sends-exec op w) (NoFaults-exec op w) (now-exec op w)

get_failed_outbox-reads : (m t : ℕ) (d : Db) → (get_failed_outbox m t d).1 ≡ d
unfolding get_failed_outbox
get_failed_outbox-reads m t d = refl

count_exhausted_outbox-reads : (m t : ℕ) (d : Db) → (count_exhausted_outbox m t d).1 ≡ d
unfolding count_exhausted_outbox
count_exhausted_outbox-reads m t d = refl

answer-get_failed_outbox :
    (m t : ℕ) (d : Db)
    → (get_failed_outbox m t d).0
      ≡ ok (map (to_retry_item d.delivery_log) (filter (is_retryable m) d.outbox))
unfolding get_failed_outbox
answer-get_failed_outbox m t d = refl

Failed-filter :
    (m : ℕ) (w : World) → Distinct w.db.outbox → Failed m w (filter (is_retryable m) w.db.outbox)
Failed-filter m w d =
    All-imp (λ r. find_outbox r.id (filter (is_retryable m) w.db.outbox) ≡ some r)
      (λ r. (find_outbox r.id w.db.outbox ≡ some r) × (is_retryable m r ≡ true))
      (filter (is_retryable m) w.db.outbox)
      (λ r h.
        keep-some (is_retryable m) (find_outbox r.id w.db.outbox) r
          (sym (find_outbox-filter (is_retryable m) w.db.outbox d r.id) ∙ h))
      (Distinct-self (filter (is_retryable m) w.db.outbox)
        (filter-Distinct (is_retryable m) w.db.outbox d))

-- The rule for an invariant of the retry worker.
module _ (ctx : Context) (senders : Senders) (max_attempts base : ℕ) (I : World → Type 0)
    (stable : Stable I)
    (step : (r : OutboxRow) (w : World)
      → find_outbox r.id w.db.outbox ≡ some r
      → is_retryable max_attempts r ≡ true
      → I w
      → I (exec (reset_to_pending r.id) w).1)
    (sweep : (w : World) → I w → I (dispatch_once ctx senders w)) where
  if-dispatch : (b : Bool) (w : World) → I w → I (if b then dispatch_once ctx senders w else w)
  if-dispatch true w h = sweep w h
  if-dispatch false w h = h

  work_items-inv :
      (log : List LogRow) (rows : List OutboxRow) (w : World)
      → Distinct rows
      → Failed max_attempts w rows
      → I w
      → I (work_items ctx senders max_attempts base (ok (map (to_retry_item log) rows)) w)
  unfolding work_items
  work_items-inv log rows w d p h =
      let done = reschedule base w.now (map (to_retry_item log) rows) 0 w in
      Stable-exec I stable (count_exhausted_outbox max_attempts)
        (count_exhausted_outbox-reads max_attempts) _
        (if-dispatch (ltb 0 done.0) done.1
          (reschedule-inv max_attempts base w.now log I step rows 0 w d p h))

  pub work-inv : (w : World) → Distinct w.db.outbox → I w → I (work ctx senders max_attempts base w)
  unfolding work
  work-inv w d h =
      let w1 = (exec (get_failed_outbox max_attempts) w).1 in
      let h1 : I w1 =
        Stable-exec I stable (get_failed_outbox max_attempts) (get_failed_outbox-reads max_attempts)
          w h in
      let same : w1.db ≡ w.db =
        exec-keeps (get_failed_outbox max_attempts) w (λ d. d ≡ w.db)
          (λ t p. get_failed_outbox-reads max_attempts t w.db) refl in
      elim (exec-cases (get_failed_outbox max_attempts) w) [
        | inl (t, answer, _) ↦
            rw (answer, answer-get_failed_outbox)
              (work_items-inv w.db.delivery_log (filter (is_retryable max_attempts) w.db.outbox) w1
                (filter-Distinct (is_retryable max_attempts) w.db.outbox d)
                (rw same (Failed-filter max_attempts w d)) h1)
        | inr (answer, _, _) ↦ rw (answer, work_items) h1
      ]
