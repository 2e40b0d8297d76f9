-- ===== src/Modem/Worker/Setup/Probe.antt =====
-- What findATPort and Init leave open, and what a successful Init has told the modem.
use abb_app.Base.{
  ℕ, suc, ◌≡◌, ◌∙◌, refl, ap, sym, subst, ◌||◌, Bool-cases, inl, inr, Option, Option-cases, none,
  some, List, [], ◌∷◌, ◌++◌, length,
}
use mathlib.Core.Option.{some-injective, some-ne-none}
use mathlib.Core.List.{append-nil}
use abb_app.Base.Text.{Text}
use abb_app.Modem.At.{CommandError}
use abb_app.Modem.Worker.Fields.{Info, resolve_name, probe_order}
use abb_app.Modem.Worker.Setup.{
  SetupError, command_failed, no_port, Modem, Session, SetupConfig, Ports, Found, WaitResult, cmd,
  run_all, named, read_sim, wait_sim, before_sim, after_sim, set_up, find_in, find_at_port, ended,
  with_port, init, final_commands,
}

-- The ports that are in use.
abbrev pub in_use : Option SetupError → Option Text → List Text
in_use none (some path) = path ∷ []
in_use none none = []
in_use (some e) port = []

abbrev as_list : Option Text → List Text
as_list none = []
as_list (some path) = path ∷ []

opened-find_in :
    (p : Ports) (paths : List Text)
    → (find_in p paths).opened ≡ (find_in p paths).closed ++ as_list (find_in p paths).port
unfolding find_in
opened-find_in p [] = refl
opened-find_in p (path ∷ paths) = elim (Bool-cases (p.opens path)) [
  | inl opens ↦ elim (Bool-cases (p.answers path 0 || p.answers path 1)) [
    | inl answers ↦ rw (opens, answers) refl
    | inr mute ↦ rw (opens, mute) (ap (λ (l : List Text). path ∷ l) (opened-find_in p paths))
  ]
  | inr fails ↦ rw fails (opened-find_in p paths)
]

-- Every port that was opened is closed or in use.
Balanced : Option (WaitResult × Found) → Type 0
Balanced none = Unit
Balanced (some (r, f)) = f.opened ≡ f.closed ++ in_use r.0 f.port

ended-Balanced :
    (path : Text) (f : Found) (o : Option WaitResult)
    → f.port ≡ some path
    → f.opened ≡ f.closed ++ path ∷ []
    → Balanced (ended path f o)
unfolding Balanced
ended-Balanced path f none h k = tt
ended-Balanced path f (some (none, s)) h k = rw h k
ended-Balanced path f (some (some x, s)) h k = rw append-nil k

with_port-Balanced :
    (modem : Text → Modem) (c : SetupConfig) (usb_path : Text) (s : Session) (f : Found)
    (o : Option Text)
    → f.port ≡ o
    → f.opened ≡ f.closed ++ as_list o
    → Balanced (with_port modem c usb_path s f o)
unfolding Balanced with_port
with_port-Balanced modem c usb_path s f none h k = k
with_port-Balanced modem c usb_path s f (some path) h k = ended-Balanced path f _ h k

-- When Init returns, each port that findATPort opened was closed again, in the order in which they were
-- opened, but for the last one where Init succeeds: that is the port in use.
pub opened-init :
    (p : Ports) (modem : Text → Modem) (c : SetupConfig) (usb_path : Text) (candidates : List Text)
    (s : Session) (r : WaitResult) (f : Found)
    → init p modem c usb_path candidates s ≡ some (r, f)
    → f.opened ≡ f.closed ++ in_use r.0 f.port
unfolding init find_at_port Balanced
opened-init p modem c usb_path candidates s r f e =
    let found = find_at_port p candidates in
    subst Balanced e (
      with_port-Balanced modem c usb_path s found found.port refl
        (opened-find_in p (probe_order candidates)))

-- What a successful Init has told the modem.

-- The commands, sent when `n` others were, are answered without an error.
abbrev pub Accepted : Modem → ℕ → List Text → Type 0
Accepted m n [] = Unit
Accepted m n (c ∷ cs) = ((m.reply n c).error ≡ none) × Accepted m (suc n) cs

-- The commands put on top of those before them, the newest first.
abbrev pub pushed : List Text → List Text → List Text
pushed [] before = before
pushed (c ∷ cs) before = pushed cs (c ∷ before)

-- A session that ends with the commands, all accepted.
abbrev pub Told : Modem → List Text → Session → Type 0
Told m cs s = (before : List Text) × (s.asked ≡ pushed cs before) × Accepted m (length before) cs

-- What a loop over the commands that meets no error does.
abbrev AllSent : Modem → List Text → Session → WaitResult → Type 0
AllSent m cs s r =
    (r.1.asked ≡ pushed cs s.asked) × Accepted m (length s.asked) cs × (r.1.info ≡ s.info)

goes_on :
    (m : Modem) (c : Text) (cs : List Text) (s : Session)
    → (m.reply (length s.asked) c).error ≡ none
    → run_all m (c ∷ cs) s ≡ run_all m cs (cmd m c s).1
unfolding run_all cmd
goes_on m c cs s h = rw h refl

fails_there :
    (m : Modem) (c : Text) (cs : List Text) (s : Session) (e : CommandError)
    → (m.reply (length s.asked) c).error ≡ some e
    → (run_all m (c ∷ cs) s).0 ≡ some (command_failed e)
unfolding run_all cmd
fails_there m c cs s e h = rw h refl

run_all-AllSent :
    (m : Modem) (cs : List Text) (s : Session)
    → (run_all m cs s).0 ≡ none
    → AllSent m cs s (run_all m cs s)
unfolding run_all cmd
run_all-AllSent m [] s h = (refl, tt, refl)
run_all-AllSent m (c ∷ cs) s h = elim (Option-cases (m.reply (length s.asked) c).error) [
  | inl ok ↦
      let step = goes_on m c cs s ok in
      let (asked, all, info) =
        run_all-AllSent m cs (cmd m c s).1 (ap (λ (r : WaitResult). r.0) (sym step) ∙ h) in
      (
        ap (λ (r : WaitResult). r.1.asked) step ∙ asked,
        (ok, all),
        ap (λ (r : WaitResult). r.1.info) step ∙ info,
      )
  | inr (e, failed) ↦ absurd (some-ne-none _ (sym (fails_there m c cs s e failed) ∙ h))
]

-- A session as a successful setup leaves it.
abbrev pub IsReady : Modem → SetupConfig → Session → Type 0
IsReady m c s =
    Told m (final_commands c) s
    × ((i : Info) × (s.info ≡ record i { name = resolve_name c.labels i }))

after_sim-IsReady :
    (m : Modem) (c : SetupConfig) (r : WaitResult)
    → (after_sim m c r).0 ≡ none
    → IsReady m c (after_sim m c r).1
unfolding after_sim
after_sim-IsReady m c (some e, s) h = absurd (some-ne-none _ h)
after_sim-IsReady m c (none, s) h =
    let t = named c.labels (read_sim m s) in
    let (asked, all, info) = run_all-AllSent m (final_commands c) t h in
    ((t.asked, asked, all), ((read_sim m s).info, info))

set_up-IsReady :
    (m : Modem) (c : SetupConfig) (s t : Session) → set_up m c s ≡ some (none, t) → IsReady m c t
unfolding set_up
set_up-IsReady m c s t h = go (wait_sim m (before_sim m s)) h
  where
    go :
        (o : Option WaitResult)
        → elim o [ none ↦ none | some r ↦ some (after_sim m c r) ] ≡ some (none, t)
        → IsReady m c t
    go none k = absurd (some-ne-none _ (sym k))
    go (some r) k =
        let e = some-injective _ _ k in
        subst (λ (q : WaitResult). q.0 ≡ none → IsReady m c q.1) e (after_sim-IsReady m c r) refl

-- What `ended` and `with_port` return when there is no error.
NoError : Modem → SetupConfig → Option Text → Option (WaitResult × Found) → Type 0
NoError m c path none = Unit
NoError m c path (some ((some e, s), f)) = Unit
NoError m c path (some ((none, s), f)) = (f.port ≡ path) × IsReady m c s

ended-NoError :
    (m : Modem) (c : SetupConfig) (path : Text) (f : Found) (o : Option WaitResult)
    → f.port ≡ some path
    → ((t : Session) → o ≡ some (none, t) → IsReady m c t)
    → NoError m c (some path) (ended path f o)
unfolding NoError
ended-NoError m c path f none h k = tt
ended-NoError m c path f (some (none, s)) h k = (h, k s refl)
ended-NoError m c path f (some (some e, s)) h k = tt

no_error : WaitResult × Found → Option SetupError
no_error r = r.0.0

-- When Init succeeds, a port was found, and the modem on it has answered each of the three final commands
-- without an error, as the last ones it was sent; and its name is the one that resolveName gives it.
pub init-IsReady :
    (p : Ports) (modem : Text → Modem) (c : SetupConfig) (usb_path : Text) (candidates : List Text)
    (s t : Session) (f : Found)
    → init p modem c usb_path candidates s ≡ some ((none, t), f)
    → (path : Text) × (f.port ≡ some path) × IsReady (modem path) c t
unfolding init with_port NoError no_error
init-IsReady p modem c usb_path candidates s t f e = go (find_at_port p candidates).port refl e
  where
    go :
        (o : Option Text)
        → (find_at_port p candidates).port ≡ o
        → with_port modem c usb_path s (find_at_port p candidates) o ≡ some ((none, t), f)
        → (path : Text) × (f.port ≡ some path) × IsReady (modem path) c t
    go none h k = absurd (some-ne-none no_port (ap no_error (some-injective _ _ k)))
    go (some path) h k =
        let (port, ready) = subst (NoError (modem path) c (some path)) k (
          ended-NoError (modem path) c path (find_at_port p candidates) _ h
            (set_up-IsReady (modem path) c _)) in
        (path, port, ready)
