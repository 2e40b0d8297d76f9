-- ===== src/Dispatcher/Ticker.antt =====
-- internal/dispatcher: Dispatcher.Run and RetryWorker.Run, each of which acts once and then at every
-- tick, until its context is done.
use abb_app.Base.{ℕ, ◌+◌, List, [], ◌∷◌}
use abb_app.Db.Session.{World}
use abb_app.Dispatcher.{Context, Senders, dispatch_once}
use abb_app.Dispatcher.Retry.{work}

-- What the `select` of the loop receives: a tick, with the time that has passed since the loop came to
-- wait and what the context answers from then on, or the end of the context.
pub data Wake : Type 0 where
  tick : ℕ → Context → Wake
  context_done : Wake

abbrev pub passed : ℕ → World → World
passed elapsed w = record w { now = w.now + elapsed }

-- The loop.
unfoldable pub ticking : (Context → World → World) → List Wake → World → World
ticking act [] w = w
ticking act (context_done ∷ wakes) w = w
ticking act (tick elapsed ctx ∷ wakes) w = ticking act wakes (act ctx (passed elapsed w))

-- Dispatcher.Run
unfoldable pub dispatcher_run : Senders → Context → List Wake → World → World
unfolding ticking
dispatcher_run senders ctx wakes w =
    ticking (λ c v. dispatch_once c senders v) wakes (dispatch_once ctx senders w)

-- The loop of RetryWorker.Run, behind its first round.
unfoldable pub retry_loop : Senders → ℕ → ℕ → List Wake → World → World
unfolding ticking
retry_loop senders max_attempts base wakes w =
    ticking (λ c v. work c senders max_attempts base v) wakes w

-- RetryWorker.Run
unfoldable pub retry_worker_run : Senders → ℕ → ℕ → Context → List Wake → World → World
unfolding retry_loop
retry_worker_run senders max_attempts base ctx wakes w =
    retry_loop senders max_attempts base wakes (work ctx senders max_attempts base w)
