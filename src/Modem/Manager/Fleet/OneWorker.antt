-- ===== src/Modem/Manager/Fleet/OneWorker.antt =====
-- At most one goroutine for each modem, and hooks that are called in turn.
use abb_app.Base.{ℕ, ◌≤◌, ◌≡◌, ◌∙◌, refl, sym, true, false, arith, ◌↔◌, if◌then◌else◌}
use abb_app.Base.Text.{Text, text_eq}
use abb_app.Modem.Manager.{contains_text, backoff, init_succeeded}
use abb_app.Modem.Manager.Fleet.{
  initialising, working, leaving, Fleet, Step, Reach, here, more, forgets, starts, init_fails,
  connects, run_returns, leaves, waits, ends, initial,
}
use abb_app.Modem.Manager.Fleet.Counts.{
  count, count_working, shown, running-forget_absent, running-init_succeeded,
}
use abb_app.Modem.Manager.Fleet.Turns.{
  InTurn, Holds, Counted-phase, Counted-starts, Counted-leaves, running-after_init,
  count_working-idle, shown-connects, was_gone, Noticed-returns, bit-le, bit-true, bit-off,
}

step-Holds : {f g : Fleet} → Step f g → Holds f → Holds g
unfolding init_succeeded
step-Holds (forgets {f} present) (c, n) =
    ((λ u. rw (running-forget_absent present f.manager.fails f.manager) (c u)), n)
step-Holds (starts {f} usb free) (c, n) = (
  Counted-starts f.manager usb f.jobs free c,
  (λ e. ((n e).0, λ u. omega (arith, (n e).1 u, bit-off (text_eq usb u)))),
)
step-Holds (init_fails {m} usb before after {ns} {ended}) (c, n) = (
  Counted-phase m (if ended then m else (backoff usb m).1) usb initialising leaving before after
      (running-after_init ended usb m) c,
  (λ e. (
    (n e).0,
    λ u.
        count_working-idle u usb leaving before after refl
        ∙ sym (count_working-idle u usb initialising before after refl)
        ∙ (n e).1 u,
  )),
)
step-Holds (connects {m} usb before after {ns} {ended}) (c, n) = (
  Counted-phase m (init_succeeded usb m) usb initialising working before after
      (running-init_succeeded usb m) c,
  (λ e.
      let (turn, show) = n e in
      (
        (was_gone m usb before after ns c (show usb), turn),
        (λ u. shown-connects m usb u before after ns c (show u)),
      )),
)
step-Holds (run_returns {m} usb before after {ns} {ended}) (c, n) = (
  Counted-phase m m usb working leaving before after refl c,
  Noticed-returns ended m usb before after ns c n,
)
step-Holds (leaves {m} usb before after {ns} {ended}) (c, n) = (
  Counted-leaves m usb before after c,
  (λ e. ((n e).0, λ u. sym (count_working-idle u usb leaving before after refl) ∙ (n e).1 u)),
)
step-Holds (waits {f} d) h = h
step-Holds (ends {f}) (c, n) = (c, λ e. absurd cc)

Reach-Holds : {f g : Fleet} → Reach f g → Holds f → Holds g
Reach-Holds here h = h
Reach-Holds (more r s) h = step-Holds s (Reach-Holds r h)

-- However the scans, the goroutines of the workers and the end of the context are ordered: there is at
-- most one goroutine for each modem, and it is there exactly where `running` has the modem.
pub one_worker :
    (interval now : ℕ) (f : Fleet)
    → Reach (initial interval now) f
    → (u : Text)
    → (count u f.jobs ≤ 1) × ((contains_text u f.manager.running ≡ true) ↔ (count u f.jobs ≡ 1))
unfolding contains_text
one_worker interval now f r u =
    let (c, n) = Reach-Holds r ((λ v. refl), (λ e. (tt, λ v. refl))) in
    (
      omega (arith, c u, bit-le (contains_text u f.manager.running)),
      ((λ h. c u ∙ rw h refl), (λ h. bit-true (contains_text u f.manager.running) (sym (c u) ∙ h))),
    )

-- However these are ordered, as long as the context has not ended: the calls of OnConnect and of
-- OnDisconnect for one modem alternate, beginning with OnConnect, and the newest one is OnConnect
-- exactly where a worker of the modem is in Run.
pub hooks-InTurn :
    (interval now : ℕ) (f : Fleet)
    → Reach (initial interval now) f
    → f.ended ≡ false
    → InTurn f.notices × ((u : Text) → (shown u f.notices ≡ true) ↔ (count_working u f.jobs ≡ 1))
unfolding contains_text
hooks-InTurn interval now f r alive =
    let (c, n) = Reach-Holds r ((λ v. refl), (λ e. (tt, λ v. refl))) in
    let (turn, show) = n alive in
    (turn, λ u. ((λ h. show u ∙ rw h refl), (λ h. bit-true (shown u f.notices) (sym (show u) ∙ h))))
