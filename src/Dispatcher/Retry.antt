-- ===== src/Dispatcher/Retry.antt =====
-- internal/dispatcher/retry.go: the retry worker.
use abb_app.Base.{ℕ, ◌+◌, ◌-◌, List, [], ◌∷◌, ltb, if◌then◌else◌}
use abb_app.Model.{RetryItem}
use abb_app.Db.Session.{Outcome, ok, err, World, exec}
use abb_app.Db.Outbox.{get_failed_outbox, reset_to_pending, count_exhausted_outbox}
use abb_app.Dispatcher.{Context, Senders, dispatch_once}
use abb_app.Dispatcher.Backoff.{backoff, word, sign_bit}

-- t.Add(d), for the bit pattern of a duration.
abbrev add_duration : ℕ → ℕ → ℕ
add_duration t d = if ltb d sign_bit then t + d else t - (word - d)

-- The time from which an item may be tried again.
unfoldable pub due : ℕ → RetryItem → ℕ
due base item = add_duration item.last_attempt_at (backoff item.attempts base)

-- The end of a round, behind ResetToPending: a failed statement is logged, and not counted.
abbrev count_reset : Outcome (Unit {0}) → ℕ → ℕ
count_reset (ok u) n = n + 1
count_reset (err e) n = n

-- One round of the loop of `work`: how many items were rescheduled so far, and the world.
unfoldable pub reset_due : ℕ → ℕ → RetryItem → ℕ → World → ℕ × World
reset_due base now item n w =
    let (r, w') = exec (reset_to_pending item.id) w in
    if ltb now (due base item) then (n, w) else (count_reset r n, w')

unfoldable pub reschedule : ℕ → ℕ → List RetryItem → ℕ → World → ℕ × World
reschedule base now [] n w = (n, w)
reschedule base now (item ∷ items) n w =
    let (n', w') = reset_due base now item n w in reschedule base now items n' w'

-- `work` behind the read of the failed items.
unfoldable pub work_items : Context → Senders → ℕ → ℕ → Outcome (List RetryItem) → World → World
unfolding reschedule
work_items ctx senders max_attempts base (err e) w = w
work_items ctx senders max_attempts base (ok items) w =
    let (rescheduled, w1) = reschedule base w.now items 0 w in
    let w2 = if ltb 0 rescheduled then dispatch_once ctx senders w1 else w1 in
    (exec (count_exhausted_outbox max_attempts) w2).1

unfoldable pub work : Context → Senders → ℕ → ℕ → World → World
unfolding work_items
work ctx senders max_attempts base w =
    let (r, w') = exec (get_failed_outbox max_attempts) w in
    work_items ctx senders max_attempts base r w'
