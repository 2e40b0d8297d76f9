-- ===== src/Modem/Worker/Setup/Ready.antt =====
-- waitSIM ends, and so do setup and Init.
use abb_app.Base.{
  ℕ, zero, suc, ◌+◌, ◌*◌, ◌≤◌, ◌<◌, ◌≡◌, refl, false, Bool-cases, inl, inr, Option, none, some,
  List, [], ◌∷◌, ◌++◌, length, ltb, arith,
}
use abb_app.Base.Text.{Text, codes}
use abb_app.Modem.Worker.Setup.{
  sim_not_ready, stopped, no_port, Modem, Session, SetupConfig, Ports, Found, WaitResult, pause,
  sim_ready_wait, cmd, is_ready, wait_loop, wait_sim, before_sim, after_sim, set_up, find_at_port,
  ended, with_port, init,
}

-- That it ends, and after how many more questions at most.
abbrev pub EndsWithin : ℕ → Session → Option WaitResult → Type 0
EndsWithin n s o = (r : WaitResult) × (o ≡ some r) × (length r.1.asked ≤ length s.asked + n)

module _ (m : Modem) (deadline : ℕ) where
  -- One question that is not the last: its three ends, or the rest of the loop.
  one_more :
      (fuel : ℕ) (s : Session)
      → (ltb deadline (cmd m (codes "AT+CPIN?") s).1.now ≡ false
          → EndsWithin fuel (cmd m (codes "AT+CPIN?") s).1 (
              wait_loop fuel m deadline (record (cmd m (codes "AT+CPIN?") s).1 {
                now = (cmd m (codes "AT+CPIN?") s).1.now + pause;
              })))
      → EndsWithin (suc fuel) s (wait_loop (suc fuel) m deadline s)
  unfolding wait_loop cmd
  one_more fuel s rest =
      let s' = (cmd m (codes "AT+CPIN?") s).1 in
      let r = m.reply (length s.asked) (codes "AT+CPIN?") in
      elim (Bool-cases (is_ready (m.reply (length s.asked) (codes "AT+CPIN?")))) [
        | inl ready ↦ ((none, s'), rw ready refl, omega arith)
        | inr not_ready ↦ elim (Bool-cases (ltb deadline (s.now + m.took (length s.asked)))) [
          | inl late ↦
              ((some (sim_not_ready s'.info.imei r), s'), rw (not_ready, late) refl, omega arith)
          | inr early ↦ elim (Bool-cases (m.cancelled (length s.asked))) [
            | inl stop ↦
                ((some (stopped s'.info.imei), s'), rw (not_ready, early, stop) refl, omega arith)
            | inr alive ↦
                let (end, e, few) = rest early in
                (end, rw (not_ready, early, alive) e, omega (arith, few))
          ]
        ]
      ]

  pub wait_loop_ends :
      (fuel : ℕ) (s : Session)
      → deadline < s.now + pause * fuel
      → EndsWithin (suc fuel) s (wait_loop (suc fuel) m deadline s)
  unfolding cmd
  wait_loop_ends zero s h = one_more zero s (λ early. absurd (ground arith))
  wait_loop_ends (suc fuel) s h = one_more (suc fuel) s (λ early.
      wait_loop_ends fuel
        (record (cmd m (codes "AT+CPIN?") s).1 { now = (cmd m (codes "AT+CPIN?") s).1.now + pause })
        (omega arith))

wait_sim_ends : (m : Modem) (s : Session) → EndsWithin 17 s (wait_sim m s)
unfolding wait_sim
wait_sim_ends m s = wait_loop_ends m (s.now + sim_ready_wait) 16 s (omega arith)

set_up_ends :
    (m : Modem) (c : SetupConfig) (s : Session) → (r : WaitResult) × (set_up m c s ≡ some r)
unfolding set_up
set_up_ends m c s =
    let (r, e, few) = wait_sim_ends m (before_sim m s) in (after_sim m c r, rw (e, set_up) refl)

finished : Text → Found → WaitResult → WaitResult × Found
finished path f (none, s) = ((none, s), f)
finished path f (some e, s) = ((some e, s), record f { closed = f.closed ++ path ∷ [] })

ended_ends :
    (path : Text) (f : Found) (r : WaitResult) → ended path f (some r) ≡ some (finished path f r)
unfolding finished
ended_ends path f (none, s) = refl
ended_ends path f (some e, s) = refl

with_port_ends :
    (modem : Text → Modem) (c : SetupConfig) (usb_path : Text) (s : Session) (f : Found)
    (o : Option Text)
    → (r : WaitResult × Found) × (with_port modem c usb_path s f o ≡ some r)
unfolding with_port
with_port_ends modem c usb_path s f none = (((some no_port, s), f), refl)
with_port_ends modem c usb_path s f (some path) =
    let (r, e) =
      set_up_ends (modem path) c
        (record s { info = record s.info { usb_path = usb_path; port = path } }) in
    (finished path f r, rw e (ended_ends path f r))

-- waitSIM ends, whatever the modem answers and however long the commands take, and asks at most
-- seventeen times; so Init returns, whatever the ports and the modem answer.
pub init_ends :
    (p : Ports) (modem : Text → Modem) (c : SetupConfig) (usb_path : Text) (candidates : List Text)
    (s : Session) (m : Modem) (t : Session)
    → EndsWithin 17 t (wait_sim m t)
      × ((r : WaitResult × Found) × (init p modem c usb_path candidates s ≡ some r))
unfolding init
init_ends p modem c usb_path candidates s m t = (
  wait_sim_ends m t,
  with_port_ends modem c usb_path s (find_at_port p candidates) (find_at_port p candidates).port,
)
