-- ===== src/Modem/At/Exchange.antt =====
-- internal/modem/at.go: Command and readLoop side by side. The two goroutines meet in the channel of
-- responses; either may take its next step first.
pub mod Held
pub mod Take
pub mod Confluent
use mathlib.Core.List.{append-nil, append_assoc}
use abb_app.Base.{
  ℕ, ◌+◌, ◌≤◌, ◌<◌, ◌≡◌, ◌⊎◌, refl, ◌∙◌, ap, sym, subst, Bool, true, false, not, Bool-cases, inl,
  inr, Option, none, some, List, [], ◌∷◌, ◌++◌, map, filter, length, length-append, ◌==◌, arith,
  if◌then◌else◌,
}
use abb_app.Base.Text.{Text, text_eq, trim_space, split_at}
use abb_app.Modem.At.{
  AtPort, Reply, CommandError, timed_out, context_done, port_closed, fail, is_urc, dispatch,
  resp_capacity, begin_command, end_command, ending, command_loop, line,
}
use abb_app.Modem.At.Lines.{lines_of}
use abb_app.Modem.At.Reader.{
  Reader, read_byte, read_error, hand_on, is_line, continued, continued-cut, continued-kept,
  read_byte-newline, read_byte-other,
}

-- The reader, the line for which dispatch has read `waiting` and which it has not handed on yet, with
-- what it has read; the bytes that are still to arrive before the port fails, the lines that Command has
-- collected, and what it returns once it does.
pub record Exchange : Type 0 where
  pub reader : Reader
  pub hand : Option (Bool × Text)
  pub incoming : Text
  pub collected : List Text
  pub reply : Option Reply

-- Command takes a line from the channel of responses.
unfoldable pub take_line : Text → Text → List Text → Exchange → Exchange
unfolding ending
take_line cmd l rest x =
    let port : AtPort = record (x.reader.port) { resp = rest } in
    let y : Exchange = record x { reader = record (x.reader) { port = port } } in
    if text_eq l cmd then y else elim (ending l x.collected) [
      | none ↦ record y { collected = x.collected ++ l ∷ [] }
      | some reply ↦ record y { reply = some reply }
    ]

-- The other cases of the `select` of Command.
pub data Interrupt : Type 0 where
  by_context by_timer by_close : Interrupt

unfoldable pub interrupted : Interrupt → Reply
interrupted by_context = fail context_done
interrupted by_timer = fail timed_out
interrupted by_close = fail port_closed

-- `done` is ready once the reader has stopped.
unfoldable pub case_is_ready : Interrupt → Reader → Bool
case_is_ready by_context r = true
case_is_ready by_timer r = true
case_is_ready by_close r = elim r.stopped [ none ↦ false | some e ↦ true ]

-- readLoop has a raw line: unless it is empty, dispatch reads `waiting`.
unfoldable pub take_up : Text → AtPort → Option (Bool × Text)
take_up raw p = if text_eq (trim_space raw) [] then none else some (p.waiting, trim_space raw)

-- dispatch behind its critical section, with what it has read there.
unfoldable pub put : Bool → Text → AtPort → AtPort
unfolding dispatch
put waiting l p = record (dispatch (record p { waiting = waiting }) l) { waiting = p.waiting }

-- The reader, when it holds no line, reads one byte.
unfoldable pub next_byte : ℕ → Exchange → Exchange
unfolding take_up
next_byte c x =
    let raw = x.reader.raw ++ c ∷ [] in
    if c == 10
    then record x { reader = record (x.reader) { raw = [] }; hand = take_up raw x.reader.port }
    else record x { reader = record (x.reader) { raw = raw } }

pub data Step (cmd : Text) : Exchange → Exchange → Type 0 where
  arrives :
      (x : Exchange) (c : ℕ) (s : Text)
      → x.reader.stopped ≡ none
      → x.hand ≡ none
      → x.incoming ≡ c ∷ s
      → Step cmd x (record (next_byte c x) { incoming = s })
  hands_on :
      (x : Exchange) (waiting : Bool) (l : Text)
      → x.hand ≡ some (waiting, l)
      → Step cmd x (record x {
        reader = record (x.reader) { port = put waiting l x.reader.port };
        hand = none;
      })
  -- The read fails: the last line may lack its line feed.
  breaks_off :
      (x : Exchange)
      → x.reader.stopped ≡ none
      → x.hand ≡ none
      → x.incoming ≡ []
      → Step cmd x (record x {
        reader = record (x.reader) { raw = [] };
        hand = take_up x.reader.raw x.reader.port;
      })
  fails :
      (x : Exchange) (e : Text)
      → x.reader.stopped ≡ none
      → x.hand ≡ none
      → x.incoming ≡ []
      → x.reader.raw ≡ []
      → Step cmd x (record x { reader = record (x.reader) { stopped = some e } })
  takes :
      (x : Exchange) (l : Text) (rest : List Text)
      → x.reply ≡ none
      → x.reader.port.resp ≡ l ∷ rest
      → Step cmd x (take_line cmd l rest x)
  gives_up :
      (x : Exchange) (i : Interrupt)
      → x.reply ≡ none
      → case_is_ready i x.reader ≡ true
      → Step cmd x (record x { reply = some (interrupted i) })
  -- the deferred setWaiting(false)
  returns :
      (x : Exchange) (r : Reply)
      → x.reply ≡ some r
      → Step cmd x (record x { reader = record (x.reader) { port = end_command x.reader.port } })

pub data Steps (cmd : Text) : Exchange → Exchange → Type 0 where
  done : (x : Exchange) → Steps cmd x x
  next : (x y z : Exchange) → Step cmd x y → Steps cmd y z → Steps cmd x z

-- Command has written its command. The reader may be in the middle of a line, but it is not between
-- the two halves of dispatch.
unfoldable pub started : AtPort → Text → Text → Exchange
unfolding begin_command
started p raw bytes = record {
  reader = record { port = begin_command p; raw = raw; stopped = none };
  hand = none;
  incoming = bytes;
  collected = [];
  reply = none;
}

-- The lines that are no unsolicited ones.
abbrev pub responses : List Text → List Text
responses ls = filter (λ l. not (is_urc l)) ls

-- The lines that the reader is still to hand on.
unfoldable pub pending_lines : Text → Text → List Text
pending_lines raw bytes = filter is_line (map trim_space (continued raw (split_at 10 bytes)))
