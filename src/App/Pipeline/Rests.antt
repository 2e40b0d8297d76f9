-- ===== src/App/Pipeline/Rests.antt =====
-- cmd/abb/main.go: a row that is neither pending nor retryable is left alone by the retry worker.
use abb_app.Base.{ℕ, ◌≡◌, refl, ◌∙◌, ap, sym, subst, true, false, some, List, [], ◌∷◌, arith}
use mathlib.Core.Option.{some-injective}
use native.Mathlib.Decide.{ℕ_discrete}
use abb_app.Model.{pending}
use abb_app.Db.{Db, OutboxRow, find_outbox, status_eq}
use abb_app.Db.Session.{World, exec}
use abb_app.Db.Outbox.{is_retryable, to_item, get_pending_outbox, reset_to_pending}
use abb_app.Dispatcher.{Context, deliver}
use abb_app.Dispatcher.Retry.{work}
use abb_app.Dispatcher.Sweep.{dispatch_once-inv, deliver-frame}
use abb_app.Dispatcher.Reschedule.{Stable, Stable-exec, reset-frame, work-inv}
use abb_app.Dispatcher.Ticker.{Wake, tick, context_done, passed, ticking, retry_loop}
use abb_app.App.Pipeline.{Config}
use abb_app.App.Pipeline.Past.{Round, Round-Stable, Round-reset, Round-deliver}
use abb_app.App.Pipeline.Rule.{get_pending_outbox-reads}

module _ (from : ℕ) (c : Config) (k : ℕ) where
  -- The row stands in the table, with this value.
  pub record FoundRow (r : OutboxRow) (w : World) : Type 0 where
    pub round : Round from w
    pub found : find_outbox k w.db.outbox ≡ some r

  FoundRow-Stable : (r : OutboxRow) → Stable (FoundRow r)
  FoundRow-Stable r w w' same sends calmer later h = record {
    round = Round-Stable from c w w' same sends calmer later h.round;
    found = ap (λ (d : Db). find_outbox k d.outbox) same ∙ h.found;
  }

  same_row :
      (r s : OutboxRow) (w : World)
      → s.id ≡ k
      → find_outbox s.id w.db.outbox ≡ some s
      → find_outbox k w.db.outbox ≡ some r
      → s ≡ r
  same_row r s w e here found =
      some-injective s r (sym here ∙ (ap (λ (i : ℕ). find_outbox i w.db.outbox) e ∙ found))

  -- A row that is neither pending nor retryable is left alone.
  reset-FoundRow :
      (r s : OutboxRow) (w : World)
      → is_retryable c.max_attempts r ≡ false
      → find_outbox s.id w.db.outbox ≡ some s
      → is_retryable c.max_attempts s ≡ true
      → FoundRow r w
      → FoundRow r (exec (reset_to_pending s.id) w).1
  reset-FoundRow r s w over here fit h = record {
    round = Round-reset from c s w here fit h.round;
    found = elim (ℕ_discrete s.id k) [
      | yes e ↦
          let same : s ≡ r = same_row r s w e here h.found in
          cc (over, (subst (λ (x : OutboxRow). is_retryable c.max_attempts x ≡ true) same fit))
      | no apart ↦ reset-frame s.id w k (some r) apart h.found
    ];
  }

  deliver-FoundRow :
      (r s : OutboxRow) (w : World)
      → status_eq r.status pending ≡ false
      → find_outbox s.id w.db.outbox ≡ some s
      → status_eq s.status pending ≡ true
      → FoundRow r w
      → FoundRow r (deliver c.senders (to_item s) w)
  deliver-FoundRow r s w over here waiting h = record {
    round = Round-deliver from c s w here waiting h.round;
    found = elim (ℕ_discrete s.id k) [
      | yes e ↦
          let same : s ≡ r = same_row r s w e here h.found in
          cc (over, (subst (λ (x : OutboxRow). status_eq x.status pending ≡ true) same waiting))
      | no apart ↦ deliver-frame c.senders (to_item s) w k (some r) apart h.found
    ];
  }

  work-FoundRow :
      (r : OutboxRow) (ctx : Context) (w : World)
      → is_retryable c.max_attempts r ≡ false
      → status_eq r.status pending ≡ false
      → FoundRow r w
      → FoundRow r (work ctx c.senders c.max_attempts c.retry_base w)
  work-FoundRow r ctx w over idle h =
      work-inv ctx c.senders c.max_attempts c.retry_base (FoundRow r) (FoundRow-Stable r)
        (λ s v. reset-FoundRow r s v over)
        (λ v p.
          dispatch_once-inv ctx c.senders (FoundRow r) (λ s u. deliver-FoundRow r s u idle) v
            p.round.holds.distinct
            (Stable-exec (FoundRow r) (FoundRow-Stable r) get_pending_outbox
              get_pending_outbox-reads v p))
        w h.round.holds.distinct h

  pub passed-FoundRow :
      (r : OutboxRow) (elapsed : ℕ) (w : World) → FoundRow r w → FoundRow r (passed elapsed w)
  passed-FoundRow r elapsed w h =
      FoundRow-Stable r w (passed elapsed w) refl refl (λ calm. calm) (omega arith) h

  -- It is left alone at every tick.
  pub retry_loop-FoundRow :
      (r : OutboxRow) (wakes : List Wake) (w : World)
      → is_retryable c.max_attempts r ≡ false
      → status_eq r.status pending ≡ false
      → FoundRow r w
      → FoundRow r (retry_loop c.senders c.max_attempts c.retry_base wakes w)
  unfolding retry_loop ticking
  retry_loop-FoundRow r [] w over idle h = h
  retry_loop-FoundRow r (context_done ∷ wakes) w over idle h = h
  retry_loop-FoundRow r (tick elapsed ctx ∷ wakes) w over idle h =
      retry_loop-FoundRow r wakes _ over idle
        (work-FoundRow r ctx (passed elapsed w) over idle (passed-FoundRow r elapsed w h))
