-- ===== src/App/Pipeline/Waiting.antt =====
-- internal/dispatcher/retry.go: what the loop of `work` does to a row whose wait is not over.
use abb_app.Base.{
  ℕ, ◌≡◌, refl, ◌∙◌, sym, subst, true, Bool-cases, inl, inr, none, some, List, [], ◌∷◌, map, ltb,
}
use mathlib.Core.Option.{none-ne-some}
use native.Mathlib.Decide.{ℕ_discrete}
use abb_app.Db.{OutboxRow, LogRow, find_outbox}
use abb_app.Db.Session.{World, exec-keeps}
use abb_app.Db.Outbox.{as_pending, to_retry_item, reset_to_pending}
use abb_app.Db.Rows.{Distinct, update_outbox-Distinct, find_outbox-here, find_outbox-there}
use abb_app.Dispatcher.Retry.{due, reset_due, reschedule}
use abb_app.Dispatcher.Reschedule.{reset-frame}

module _ (base now : ℕ) (log : List LogRow) where
  Distinct-reset_due :
      (r : OutboxRow) (n : ℕ) (w : World)
      → Distinct w.db.outbox
      → Distinct (reset_due base now (to_retry_item log r) n w).1.db.outbox
  unfolding reset_due reset_to_pending
  Distinct-reset_due r n w h = elim (Bool-cases (ltb now (due base (to_retry_item log r)))) [
    | inl early ↦ rw early h
    | inr late ↦ rw late (
        exec-keeps (reset_to_pending r.id) w (λ d. Distinct d.outbox)
          (λ t p. update_outbox-Distinct r.id as_pending (λ s. refl) w.db.outbox p) h)
  ]

  log-reset_due :
      (r : OutboxRow) (n : ℕ) (w : World)
      → (reset_due base now (to_retry_item log r) n w).1.db.delivery_log ≡ w.db.delivery_log
  unfolding reset_due reset_to_pending
  log-reset_due r n w = elim (Bool-cases (ltb now (due base (to_retry_item log r)))) [
    | inl early ↦ rw early refl
    | inr late ↦ rw late (
        exec-keeps (reset_to_pending r.id) w (λ d. d.delivery_log ≡ w.db.delivery_log) (λ t p. p)
          refl)
  ]

  pub reschedule-Distinct :
      (rows : List OutboxRow) (n : ℕ) (w : World)
      → Distinct w.db.outbox
      → Distinct (reschedule base now (map (to_retry_item log) rows) n w).1.db.outbox
  unfolding reschedule
  reschedule-Distinct [] n w h = h
  reschedule-Distinct (r ∷ rs) n w h =
      let next = reset_due base now (to_retry_item log r) n w in
      reschedule-Distinct rs next.0 next.1 (Distinct-reset_due r n w h)

  pub log-reschedule :
      (rows : List OutboxRow) (n : ℕ) (w : World)
      → (reschedule base now (map (to_retry_item log) rows) n w).1.db.delivery_log
        ≡ w.db.delivery_log
  unfolding reschedule
  log-reschedule [] n w = refl
  log-reschedule (r ∷ rs) n w =
      let next = reset_due base now (to_retry_item log r) n w in
      log-reschedule rs next.0 next.1 ∙ log-reset_due r n w

  reset_due-early :
      (r s : OutboxRow) (n k : ℕ) (w : World)
      → (s.id ≡ k → s ≡ r)
      → ltb now (due base (to_retry_item log r)) ≡ true
      → find_outbox k w.db.outbox ≡ some r
      → find_outbox k (reset_due base now (to_retry_item log s) n w).1.db.outbox ≡ some r
  unfolding reset_due
  reset_due-early r s n k w same early h =
      elim (Bool-cases (ltb now (due base (to_retry_item log s)))) [
        | inl kept ↦ rw kept h
        | inr late ↦ elim (ℕ_discrete s.id k) [
          | yes e ↦
              let wrong : ltb now (due base (to_retry_item log s)) ≡ true =
                subst (λ (x : OutboxRow). ltb now (due base (to_retry_item log x)) ≡ true)
                  (sym (same e)) early in
              cc (wrong, late)
          | no apart ↦ rw late (reset-frame s.id w k (some r) apart h)
        ]
      ]

  pub reschedule-early :
      (r : OutboxRow) (rows : List OutboxRow) (n k : ℕ) (w : World)
      → ((s : OutboxRow) → find_outbox k rows ≡ some s → s ≡ r)
      → Distinct rows
      → ltb now (due base (to_retry_item log r)) ≡ true
      → find_outbox k w.db.outbox ≡ some r
      → find_outbox k (reschedule base now (map (to_retry_item log) rows) n w).1.db.outbox ≡ some r
  unfolding reschedule
  reschedule-early r [] n k w same d early h = h
  reschedule-early r (s ∷ rs) n k w same d early h =
      let next = reset_due base now (to_retry_item log s) n w in
      reschedule-early r rs next.0 k next.1 (in_rest d.0) d.1 early
        (reset_due-early r s n k w (λ e. same s (find_outbox-here s rs k e)) early h)
    where
      in_rest : find_outbox s.id rs ≡ none → (t : OutboxRow) → find_outbox k rs ≡ some t → t ≡ r
      in_rest fresh t listed = elim (ℕ_discrete s.id k) [
        | yes e ↦
            absurd
              (none-ne-some t (sym (subst (λ (i : ℕ). find_outbox i rs ≡ none) e fresh) ∙ listed))
        | no apart ↦ same t (find_outbox-there s rs k apart ∙ listed)
      ]
