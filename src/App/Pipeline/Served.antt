-- ===== src/App/Pipeline/Served.antt =====
-- cmd/abb/main.go: the retry worker brings every failed row to an end.
use abb_app.Base.{
  ℕ, subst, sym, Bool, ◌+◌, ◌*◌, ◌≤◌, ◌≡◌, ◌⊎◌, refl, ◌∙◌, true, false, Bool-cases, inl, inr, some,
  List, [], ◌∷◌, All, ltb, arith,
}
use abb_app.Model.{pending, sent, failed}
use abb_app.Db.{OutboxRow, LogRow, find_outbox, second, status_eq}
use abb_app.Db.Session.{World, exec, now-exec, NoFaults}
use abb_app.Db.Rows.{Distinct, find_outbox-id}
use abb_app.Db.Outbox.{
  as_sent, as_failed, as_pending, is_retryable, last_attempt, to_retry_item, get_failed_outbox,
}
use abb_app.Dispatcher.{Context, stops_before}
use abb_app.Dispatcher.Backoff.{max_backoff}
use abb_app.Dispatcher.Drain.{Attempted, References}
use abb_app.Dispatcher.Retry.{due, work}
use abb_app.Dispatcher.Ticker.{Wake, tick, context_done, passed, ticking, retry_loop}
use abb_app.App.Pipeline.{Config}
use abb_app.App.Pipeline.Past.{Past, Round, Round-work, due-le}
use abb_app.App.Pipeline.Early.{Quiet, work-Quiet}
use abb_app.App.Pipeline.Hours.{hours, hours-nil, hours-waiting, hours-tick}
use abb_app.App.Pipeline.Rests.{FoundRow, passed-FoundRow, retry_loop-FoundRow}
use abb_app.App.Pipeline.Retried.{work-Attempted}

-- The row was sent, or it has failed as often as is allowed.
abbrev pub IsOver : ℕ → OutboxRow → Type 0
IsOver max_attempts r = (r.status ≡ sent) ⊎ ((r.status ≡ failed) × (max_attempts ≤ r.attempts))

abbrev pub Ended : Config → ℕ → World → Type 0
Ended c k w = (r : OutboxRow) × (find_outbox k w.db.outbox ≡ some r) × IsOver c.max_attempts r

-- A tick, in a context that lives.
abbrev pub IsLive : Wake → Type 0
IsLive (tick elapsed ctx) = (i : ℕ) → stops_before ctx i ≡ false
IsLive context_done = false ≡ true

module _ (from : ℕ) (c : Config) (k : ℕ) where
  retryable-failed :
      (r : OutboxRow)
      → r.status ≡ failed
      → is_retryable c.max_attempts r ≡ ltb r.attempts c.max_attempts
  retryable-failed r e = rw e refl

  -- The round at a tick.
  abbrev after_tick : Context → ℕ → World → World
  after_tick ctx elapsed w = work ctx c.senders c.max_attempts c.retry_base (passed elapsed w)

  abbrev is_early : OutboxRow → ℕ → World → Bool
  is_early r elapsed w =
      ltb (exec (get_failed_outbox c.max_attempts) (passed elapsed w)).1.now
        (due c.retry_base (to_retry_item w.db.delivery_log r))

  -- What a tick makes of a failed row whose wait is over.
  tick-Attempted :
      (r : OutboxRow) (elapsed : ℕ) (ctx : Context) (w : World)
      → is_early r elapsed w ≡ false
      → ((i : ℕ) → stops_before ctx i ≡ false)
      → r.status ≡ failed
      → ltb r.attempts c.max_attempts ≡ true
      → FoundRow from c k r w
      → Attempted (as_pending r) (find_outbox k (after_tick ctx elapsed w).db.outbox)
  tick-Attempted r elapsed ctx w late alive was_failed few h =
      let v : FoundRow from c k r (passed elapsed w) = passed-FoundRow from c k r elapsed w h in
      work-Attempted ctx c.senders c.max_attempts c.retry_base (passed elapsed w) k r alive
        v.round.holds.mode v.round.holds.distinct v.round.holds.references v.found
        (retryable-failed r was_failed ∙ few) late

  -- And of one whose wait is not over.
  tick-Quiet :
      (r : OutboxRow) (elapsed : ℕ) (ctx : Context) (w : World)
      → is_early r elapsed w ≡ true
      → r.status ≡ failed
      → FoundRow from c k r w
      → Quiet k r (last_attempt k w.db.delivery_log) (after_tick ctx elapsed w)
  tick-Quiet r elapsed ctx w early was_failed h =
      work-Quiet k r (last_attempt k w.db.delivery_log) ctx c.senders c.max_attempts c.retry_base
        (passed elapsed w) h.round.holds.mode (rw was_failed refl) early
        (record { distinct = h.round.holds.distinct; found = h.found; attempted = refl })

  tick-Round :
      (r : OutboxRow) (elapsed : ℕ) (ctx : Context) (w : World)
      → FoundRow from c k r w
      → Round from (after_tick ctx elapsed w)
  tick-Round r elapsed ctx w h =
      Round-work from c ctx (passed elapsed w) (passed-FoundRow from c k r elapsed w h).round

  -- Time passes.
  now-after_tick :
      (r : OutboxRow) (elapsed : ℕ) (ctx : Context) (w : World)
      → FoundRow from c k r w
      → w.now + elapsed ≤ (after_tick ctx elapsed w).now
  now-after_tick r elapsed ctx w h =
      let v : FoundRow from c k r (passed elapsed w) = passed-FoundRow from c k r elapsed w h in
      (Round-work (w.now + elapsed) c ctx (passed elapsed w)
        (record { holds = v.round.holds; past = (omega arith, v.round.past.1) })).past.0

  due-same :
      (r : OutboxRow) (log later : List LogRow)
      → r.id ≡ k
      → last_attempt k later ≡ last_attempt k log
      → due c.retry_base (to_retry_item later r) ≡ due c.retry_base (to_retry_item log r)
  due-same r log later e same =
      let own : last_attempt r.id later ≡ last_attempt r.id log =
        subst (λ (i : ℕ). last_attempt i later ≡ last_attempt i log) (sym e) same in
      rw own refl

  -- A row that is over stays so.
  over-Ended :
      (r : OutboxRow) (wakes : List Wake) (w : World)
      → IsOver c.max_attempts r
      → FoundRow from c k r w
      → Ended c k (retry_loop c.senders c.max_attempts c.retry_base wakes w)
  over-Ended r wakes w over h = (
    r,
    (retry_loop-FoundRow from c k r wakes w (not_retryable over) (not_pending over) h).found,
    over,
  )
    where
      not_retryable : IsOver c.max_attempts r → is_retryable c.max_attempts r ≡ false
      not_retryable (inl e) = rw e refl
      not_retryable (inr (e, n)) = retryable-failed r e ∙ ground arith

      not_pending : IsOver c.max_attempts r → status_eq r.status pending ≡ false
      not_pending (inl e) = rw e refl
      not_pending (inr (e, n)) = rw e refl

  -- The row has failed, and its wait has begun at `since` at the latest, `waited` ago or more.
  failed-Ended :
      (r : OutboxRow) (wakes : List Wake) (since waited : ℕ) (w : World)
      → c.retry_base ≤ max_backoff
      → r.scheduled_at * second ≤ from
      → r.status ≡ failed
      → r.id ≡ k
      → All IsLive wakes
      → c.max_attempts ≤ r.attempts + hours waited wakes
      → since + waited ≤ w.now
      → due c.retry_base (to_retry_item w.db.delivery_log r) ≤ since + max_backoff
      → FoundRow from c k r w
      → Ended c k (retry_loop c.senders c.max_attempts c.retry_base wakes w)
  unfolding retry_loop ticking
  failed-Ended r [] since waited w base queued was_failed e live enough late wait h =
      over-Ended r [] w (inr (was_failed, omega (arith, hours-nil waited))) h
  failed-Ended r (context_done ∷ wakes) since waited w base queued was_failed e live enough late
        wait h =
      cc (live.0)
  failed-Ended r (tick elapsed ctx ∷ wakes) since waited w base queued was_failed e live enough late
        wait h =
      let next : World = after_tick ctx elapsed w in
      let round : Round from next = tick-Round r elapsed ctx w h in
      let soon = now-after_tick r elapsed ctx w h in
      let read = now-exec (get_failed_outbox c.max_attempts) (passed elapsed w) in
      elim (Bool-cases (ltb r.attempts c.max_attempts)) [
        | inr used ↦ over-Ended r (tick elapsed ctx ∷ wakes) w (inr (was_failed, ground arith)) h
        | inl few ↦ elim (Bool-cases (is_early r elapsed w)) [
          | inl early ↦
              let quiet = tick-Quiet r elapsed ctx w early was_failed h in
              failed-Ended r wakes since (waited + elapsed) next base queued was_failed e live.1
                (omega (arith, hours-waiting waited elapsed ctx wakes (ground (arith, read))))
                (omega (arith, soon))
                (rw (due-same r w.db.delivery_log next.db.delivery_log e quiet.attempted) wait)
                (record { round = round; found = quiet.found })
          | inr due_now ↦ elim (tick-Attempted r elapsed ctx w due_now live.0 was_failed few h) [
            | inl (t, row) ↦
                over-Ended (as_sent t (as_pending r)) wakes next (inl refl)
                  (record { round = round; found = row })
            | inr (x, row) ↦
                let again : OutboxRow = as_failed x (as_pending r) in
                failed-Ended again wakes next.now 0 next base queued refl e live.1
                  (omega (arith, hours-tick waited elapsed ctx wakes)) (omega arith)
                  (due-le c.retry_base next.now next.db.delivery_log again base
                    (omega (arith, round.past.0)) round.past.1)
                  (record { round = round; found = row })
          ]
        ]
      ]

-- If no statement fails, ids are distinct and every row has its message, no logged attempt and no queueing
-- of the row lies in the future, the base of the backoff is at most an hour, and the loop of
-- RetryWorker.Run wakes at ticks of any distance, in a context that lives: once these make up as many
-- hours as a failed row has attempts left, the row is marked as sent, or as failed with max_attempts
-- attempts.
pub retry_loop-IsOver :
    (c : Config) (k : ℕ) (r : OutboxRow) (wakes : List Wake) (w : World)
    → c.retry_base ≤ max_backoff
    → NoFaults w.ticks
    → Distinct w.db.outbox
    → References w.db
    → Past w.now w.now w.db
    → find_outbox k w.db.outbox ≡ some r
    → r.scheduled_at * second ≤ w.now
    → r.status ≡ failed
    → All IsLive wakes
    → c.max_attempts ≤ r.attempts + hours 0 wakes
    → Ended c k (retry_loop c.senders c.max_attempts c.retry_base wakes w)
retry_loop-IsOver c k r wakes w base calm distinct refs past here queued was_failed live enough =
    failed-Ended w.now c k r wakes w.now 0 w base queued was_failed
      (find_outbox-id k w.db.outbox r here) live enough (omega arith)
      (due-le c.retry_base w.now w.db.delivery_log r base queued past.1)
      (record {
        round = record {
          holds = record { distinct = distinct; references = refs; mode = calm; rows = λ i. tt };
          past = past;
        };
        found = here;
      })
