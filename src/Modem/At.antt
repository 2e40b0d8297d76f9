-- ===== src/Modem/At.antt =====
-- internal/modem/at.go: AT commands over a serial line.
-- The goroutine of `readLoop` hands each line on as `dispatch` says; `command` is the loop of
-- Command over what its `select` receives, one event after the other.
pub mod Lines
pub mod Reader
pub mod Exchange
use mathlib.Core.List.{append-nil, append_assoc}
use abb_app.Base.{
  ℕ, ◌+◌, ◌≡◌, ◌≤◌, ◌<◌, ◌⊎◌, ◌∙◌, ap, Bool, true, false, ◌&&◌, ◌||◌, not, Bool-cases, inl, inr,
  Option, none, some, List, [], ◌∷◌, ◌++◌, length, length-append, filter, All, ltb, arith,
  if◌then◌else◌,
}
use abb_app.Base.Text.{Text, codes, text_eq, has_prefix}

abbrev urc_prefixes : List Text
urc_prefixes =
    codes "+CMTI:"
    ∷ codes "+CDSI:"
    ∷ codes "+CMT:"
    ∷ codes "+CDS:"
    ∷ codes "RING"
    ∷ codes "+CLIP:"
    ∷ codes "+CGEV:"
    ∷ codes "SMS DONE"
    ∷ codes "PB DONE"
    ∷ codes "*ATREADY"
    ∷ codes "+CPIN: NOT READY"
    ∷ codes "NO CARRIER"
    ∷ []

unfoldable pub has_any_prefix : Text → List Text → Bool
has_any_prefix line [] = false
has_any_prefix line (p ∷ ps) = has_prefix line p || has_any_prefix line ps

unfoldable pub is_urc : Text → Bool
is_urc line = has_any_prefix line urc_prefixes

-- The channels of an ATPort with their capacities, and whether a command waits for its response.
pub record AtPort : Type 0 where
  pub waiting : Bool
  pub resp : List Text
  pub urc : List Text

abbrev pub resp_capacity : ℕ
resp_capacity = 256

abbrev pub urc_capacity : ℕ
urc_capacity = 32

-- `dispatch`. Where nobody takes a response for a second the channel stays full, and the line is
-- dropped; an unsolicited line is dropped at once.
unfoldable pub dispatch : AtPort → Text → AtPort
unfolding is_urc
dispatch p line =
    if p.waiting && not (is_urc line)
    then (if ltb (length p.resp) resp_capacity then record p { resp = p.resp ++ line ∷ [] } else p)
    else (if ltb (length p.urc) urc_capacity then record p { urc = p.urc ++ line ∷ [] } else p)

pub data PortEvent : Type 0 where
  line : Text → PortEvent
  cancelled closed timeout : PortEvent

pub data CommandError : Type 0 where
  port_closed write_failed context_done timed_out : CommandError
  -- the line that the modem answered
  refused : Text → CommandError

-- The lines and the error that Command returns; `none` is a nil error.
pub record Reply : Type 0 where
  pub lines : List Text
  pub error : Option CommandError

abbrev pub fail : CommandError → Reply
fail e = record { lines = []; error = some e }

unfoldable pub is_error : Text → Bool
is_error l =
    text_eq l (codes "ERROR")
    || has_prefix l (codes "+CME ERROR")
    || has_prefix l (codes "+CMS ERROR")

-- The reply that a line ends, if it does.
unfoldable pub ending : Text → List Text → Option Reply
ending l lines =
    if text_eq l (codes "OK")
    then some (record { lines = lines; error = none })
    else if is_error l
    then some (record { lines = lines; error = some (refused l) })
    else none

-- The loop of Command. It waits for ever on no event, which the timer excludes: the end of the
-- events stands for the timeout.
unfoldable pub command_loop : Text → List Text → List PortEvent → Reply
command_loop cmd lines [] = fail timed_out
command_loop cmd lines (cancelled ∷ es) = fail context_done
command_loop cmd lines (closed ∷ es) = fail port_closed
command_loop cmd lines (timeout ∷ es) = fail timed_out
command_loop cmd lines (line l ∷ es) = elim (text_eq l cmd) [
  | true ↦ command_loop cmd lines es
  | false ↦ elim (ending l lines) [
    | none ↦ command_loop cmd (lines ++ l ∷ []) es
    | some reply ↦ reply
  ]
]

-- Before the write, Command drops what a command that timed out has left, and sets `waiting`; the
-- deferred call resets it.
unfoldable pub begin_command : AtPort → AtPort
begin_command p = record p { resp = []; waiting = true }

unfoldable pub end_command : AtPort → AtPort
end_command p = record p { waiting = false }

-- Command: a port that is closed already, a failed write, or the loop.
unfoldable pub command : Bool → Bool → Text → List PortEvent → Reply
unfolding command_loop
command is_done write_fails cmd events =
    if is_done
    then fail port_closed
    else if write_fails
    then fail write_failed
    else command_loop cmd [] events

-- What `readLoop` does with the trimmed lines, none of them empty, that arrive one after the other.
unfoldable pub dispatch_lines : AtPort → List Text → AtPort
unfolding dispatch
dispatch_lines p [] = p
dispatch_lines p (l ∷ ls) = dispatch_lines (dispatch p l) ls
