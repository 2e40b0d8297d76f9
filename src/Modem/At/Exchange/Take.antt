-- ===== src/Modem/At/Exchange/Take.antt =====
-- internal/modem/at.go: what Command does with one line.
use abb_app.Base.{◌≡◌, refl, true, false, none, some, List, [], ◌∷◌, ◌++◌}
use abb_app.Base.Text.{Text, text_eq}
use abb_app.Modem.At.{Reply, ending, command_loop}
use abb_app.Modem.At.Lines.{lines_of}
use abb_app.Modem.At.Exchange.{Exchange, take_line}

pub command_loop-continues :
    (cmd l : Text) (acc rest : List Text)
    → text_eq l cmd ≡ false
    → ending l acc ≡ none
    → command_loop cmd acc (lines_of (l ∷ rest) [])
      ≡ command_loop cmd (acc ++ l ∷ []) (lines_of rest [])
unfolding command_loop
command_loop-continues cmd l acc rest h e = rw (command_loop, h, e) refl

pub command_loop-ends :
    (cmd l : Text) (acc rest : List Text) (r : Reply)
    → text_eq l cmd ≡ false
    → ending l acc ≡ some r
    → command_loop cmd acc (lines_of (l ∷ rest) []) ≡ r
unfolding command_loop
command_loop-ends cmd l acc rest r h e = rw (command_loop, h, e) refl

-- The channel without its first line.
abbrev pub popped : List Text → Exchange → Exchange
popped rest x = record x {
  reader = record (x.reader) { port = record (x.reader.port) { resp = rest } };
}

module _ (cmd : Text) where
  pub take_line-echo :
      (l : Text) (rest : List Text) (x : Exchange)
      → text_eq l cmd ≡ true
      → take_line cmd l rest x ≡ popped rest x
  unfolding take_line
  take_line-echo l rest x h = rw (take_line, h) refl

  pub take_line-keeps :
      (l : Text) (rest : List Text) (x : Exchange)
      → text_eq l cmd ≡ false
      → ending l x.collected ≡ none
      → take_line cmd l rest x ≡ record (popped rest x) { collected = x.collected ++ l ∷ [] }
  unfolding take_line
  take_line-keeps l rest x h e = rw (take_line, h, e) refl

  pub take_line-ends :
      (l : Text) (rest : List Text) (x : Exchange) (r : Reply)
      → text_eq l cmd ≡ false
      → ending l x.collected ≡ some r
      → take_line cmd l rest x ≡ record (popped rest x) { reply = some r }
  unfolding take_line
  take_line-ends l rest x r h e = rw (take_line, h, e) refl
