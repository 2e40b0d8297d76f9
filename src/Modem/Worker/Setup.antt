-- ===== src/Modem/Worker/Setup.antt =====
-- internal/modem/worker.go: findATPort, setup, waitSIM and Init. What the modem answers, and how long
-- a command takes, may depend on the commands before it: the number is how many were sent.
pub mod Ready
pub mod Probe
use abb_app.Base.{
  ℕ, zero, suc, ◌+◌, ◌*◌, Bool, true, false, ◌&&◌, ◌||◌, Option, none, some, List, [], ◌∷◌, ◌++◌,
  length, ltb, if◌then◌else◌,
}
use abb_app.Base.Text.{Text, codes, text_eq, contains}
use abb_app.Modem.At.{Reply, CommandError}
use abb_app.Config.{ModemLabel}
use abb_app.Modem.Worker.Fields.{
  Info, resolve_name, first_digits, parse_iccid, quoted_field, probe_order,
}

-- The AT port, as `Command` uses it, and `ctx.Done()` in the pause behind a command.
pub record Modem : Type 0 where
  pub reply : ℕ → Text → Reply
  pub took : ℕ → ℕ
  pub cancelled : ℕ → Bool

-- `asked` holds the commands, newest first; the time is in nanoseconds.
pub record Session : Type 0 where
  pub info : Info
  pub now : ℕ
  pub asked : List Text

-- Why Init fails: no port answers, the SIM is not ready (with the IMEI, and the answer to the last
-- question), the context has ended, or a command fails.
pub data SetupError : Type 0 where
  no_port : SetupError
  sim_not_ready : Text → Reply → SetupError
  stopped : Text → SetupError
  command_failed : CommandError → SetupError

-- simReadyWait
abbrev pub sim_ready_wait : ℕ
sim_ready_wait = 30 * 1_000_000_000

-- The pause between two questions.
abbrev pub pause : ℕ
pause = 2 * 1_000_000_000

-- cmd. A failed command is only logged.
unfoldable pub cmd : Modem → Text → Session → Reply × Session
cmd m c s =
    let n = length s.asked in
    (m.reply n c, record s { now = s.now + m.took n; asked = c ∷ s.asked })

-- err == nil
abbrev pub succeeds : Reply → Bool
succeeds r = elim r.error [ none ↦ true | some e ↦ false ]

abbrev first_contains : List Text → Text → Bool
first_contains [] t = false
first_contains (l ∷ ls) t = contains l t

abbrev pub is_ready : Reply → Bool
is_ready r = succeeds r && first_contains r.lines (codes "READY")

-- How waitSIM ends; `none` is a nil error.
abbrev pub WaitResult : Type 0
WaitResult = Option SetupError × Session

-- The loop of waitSIM on fuel; `none` means that the fuel ran out.
unfoldable pub wait_loop : ℕ → Modem → ℕ → Session → Option WaitResult
unfolding cmd
wait_loop zero m deadline s = none
wait_loop (suc fuel) m deadline s =
    let (r, s') = cmd m (codes "AT+CPIN?") s in
    let rest = wait_loop fuel m deadline (record s' { now = s'.now + pause }) in
    if is_ready r
    then some (none, s')
    else if ltb deadline s'.now
    then some (some (sim_not_ready s'.info.imei r), s')
    else if m.cancelled (length s.asked)
    then some (some (stopped s'.info.imei), s')
    else rest

-- waitSIM: seventeen questions are enough.
unfoldable pub wait_sim : Modem → Session → Option WaitResult
unfolding wait_loop
wait_sim m s = wait_loop 17 m (s.now + sim_ready_wait) s

-- `if lines, err := w.cmd(ctx, c); err == nil { ... }`
unfoldable pub read_into : Modem → Text → (List Text → Info → Info) → Session → Session
unfolding cmd
read_into m c f s =
    let (r, s') = cmd m c s in if succeeds r then record s' { info = f r.lines s'.info } else s'

abbrev set_imei : List Text → Info → Info
set_imei lines i = record i { imei = first_digits lines }

abbrev set_iccid : List Text → Info → Info
set_iccid lines i = record i { iccid = parse_iccid lines }

abbrev set_number : List Text → Info → Info
set_number lines i = record i { number = quoted_field lines (codes "+CNUM:") 1 }

abbrev set_operator : List Text → Info → Info
set_operator lines i = record i { operator = quoted_field lines (codes "+COPS:") 0 }

-- The part of the configuration that Init reads.
pub record SetupConfig : Type 0 where
  pub labels : List ModemLabel
  pub storage : Text

abbrev storage_of : SetupConfig → Text
storage_of c = if text_eq c.storage [] then codes "SM" else c.storage

abbrev quoted : Text → Text
quoted t = codes "\"" ++ (t ++ codes "\"")

-- The commands that must succeed.
abbrev pub final_commands : SetupConfig → List Text
final_commands c =
    let st = quoted (storage_of c) in
    codes "AT+CMGF=0"
    ∷ (codes "AT+CPMS=" ++ (st ++ (codes "," ++ (st ++ (codes "," ++ st)))))
    ∷ codes "AT+CNMI=2,1,0,0,0"
    ∷ []

-- The loop over them, to the first error.
unfoldable pub run_all : Modem → List Text → Session → WaitResult
unfolding cmd
run_all m [] s = (none, s)
run_all m (c ∷ cs) s =
    let (r, s') = cmd m c s in
    elim r.error [ none ↦ run_all m cs s' | some e ↦ (some (command_failed e), s') ]

-- setup, before waitSIM and behind it.
unfoldable pub before_sim : Modem → Session → Session
unfolding cmd read_into
before_sim m s =
    read_into m (codes "AT+CGSN") set_imei (cmd m (codes "AT+CMEE=2") (cmd m (codes "ATE0") s).1).1

unfoldable pub read_sim : Modem → Session → Session
unfolding cmd read_into
read_sim m s =
    let s1 = read_into m (codes "AT+CICCID") set_iccid s in
    let s2 = read_into m (codes "AT+CNUM") set_number s1 in
    read_into m (codes "AT+COPS?") set_operator (cmd m (codes "AT+COPS=3,0") s2).1

abbrev pub named : List ModemLabel → Session → Session
named labels s = record s { info = record s.info { name = resolve_name labels s.info } }

unfoldable pub after_sim : Modem → SetupConfig → WaitResult → WaitResult
unfolding read_sim run_all
after_sim m c (some e, s) = (some e, s)
after_sim m c (none, s) = run_all m (final_commands c) (named c.labels (read_sim m s))

-- setup; `none` means that waitSIM ran out of fuel.
unfoldable pub set_up : Modem → SetupConfig → Session → Option WaitResult
unfolding before_sim wait_sim after_sim
set_up m c s = elim (wait_sim m (before_sim m s)) [ none ↦ none | some r ↦ some (after_sim m c r) ]

-- What the ports answer: whether one can be opened, and whether a try of "AT" on it succeeds.
pub record Ports : Type 0 where
  pub opens : Text → Bool
  pub answers : Text → ℕ → Bool

-- The port that is found, and what was opened and closed on the way, in order.
pub record Found : Type 0 where
  pub port : Option Text
  pub opened : List Text
  pub closed : List Text

-- The loop of findATPort.
unfoldable pub find_in : Ports → List Text → Found
find_in p [] = record { port = none; opened = []; closed = [] }
find_in p (path ∷ paths) =
    let rest = find_in p paths in
    if p.opens path
    then (if p.answers path 0 || p.answers path 1
        then record { port = some path; opened = path ∷ []; closed = [] }
        else record rest { opened = path ∷ rest.opened; closed = path ∷ rest.closed })
    else rest

-- findATPort
unfoldable pub find_at_port : Ports → List Text → Found
unfolding find_in
find_at_port p candidates = find_in p (probe_order candidates)

abbrev pub ended : Text → Found → Option WaitResult → Option (WaitResult × Found)
ended path f none = none
ended path f (some (none, s)) = some ((none, s), f)
ended path f (some (some e, s)) = some ((some e, s), record f { closed = f.closed ++ path ∷ [] })

-- Init behind findATPort: the result of setup, and the ports opened and closed by then.
unfoldable pub with_port :
    (Text → Modem)
    → SetupConfig
    → Text
    → Session
    → Found
    → Option Text
    → Option (WaitResult × Found)
with_port modem c usb_path s f none = some ((some no_port, s), f)
with_port modem c usb_path s f (some path) =
    ended path f (
      set_up (modem path) c
        (record s { info = record s.info { usb_path = usb_path; port = path } }))

-- Init; `modem` is the one behind a port.
unfoldable pub init :
    Ports → (Text → Modem) → SetupConfig → Text → List Text → Session → Option (WaitResult × Found)
unfolding with_port
init p modem c usb_path candidates s =
    let f = find_at_port p candidates in with_port modem c usb_path s f f.port
