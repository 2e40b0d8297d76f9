-- ===== src/Modem/At/Lines.antt =====
-- What becomes of the lines that the modem sends.
use mathlib.Core.List.{append-nil, append_assoc}
use abb_app.Base.{
  ◌≡◌, ◌<◌, ◌⊎◌, ◌∙◌, ap, true, false, not, Bool-cases, inl, inr, none, some, List, [], ◌∷◌, ◌++◌,
  length, filter, All, arith, if◌then◌else◌,
}
use abb_app.Base.Text.{Text, codes, text_eq}
use abb_app.Modem.At.{
  is_urc, resp_capacity, dispatch, is_error, ending, command_loop, command, AtPort, PortEvent, line,
  refused,
}

-- A line that neither ends the response nor is an error.
abbrev pub IsPlain : Text → Type 0
IsPlain l = (text_eq l (codes "OK") ≡ false) × (is_error l ≡ false)

abbrev pub lines_of : List Text → List PortEvent → List PortEvent
lines_of [] es = es
lines_of (l ∷ ls) es = line l ∷ lines_of ls es

abbrev pub without_echo : Text → List Text → List Text
without_echo cmd ls = filter (λ l. not (text_eq l cmd)) ls

pub command_loop-echo :
    (cmd l : Text) (acc : List Text) (es : List PortEvent)
    → text_eq l cmd ≡ true
    → command_loop cmd acc (line l ∷ es) ≡ command_loop cmd acc es
unfolding command_loop
command_loop-echo cmd l acc es h = ground arith

command_loop-line :
    (cmd l : Text) (acc : List Text) (es : List PortEvent)
    → text_eq l cmd ≡ false
    → IsPlain l
    → command_loop cmd acc (line l ∷ es) ≡ command_loop cmd (acc ++ l ∷ []) es
unfolding command_loop ending
command_loop-line cmd l acc es h p = ground arith

command_loop-plain :
    (cmd : Text) (body acc : List Text) (es : List PortEvent)
    → All IsPlain body
    → command_loop cmd acc (lines_of body es) ≡ command_loop cmd (acc ++ without_echo cmd body) es
command_loop-plain cmd [] acc es h = rw append-nil
command_loop-plain cmd (l ∷ ls) acc es h = elim (Bool-cases (text_eq l cmd)) [
  | inl echo ↦
      command_loop-echo cmd l acc (lines_of ls es) echo
      ∙ rw echo (command_loop-plain cmd ls acc es h.1)
  | inr other ↦
      command_loop-line cmd l acc (lines_of ls es) other h.0
      ∙ rw other (
          command_loop-plain cmd ls (acc ++ l ∷ []) es h.1
          ∙ ap (λ (x : List Text). command_loop cmd x es)
              (append_assoc acc (l ∷ []) (without_echo cmd ls)))
]

-- On an open port, lines that end no response followed by a final line, which is not the command's
-- echo, give exactly those lines that are not the echo, in their order; the error is nil for "OK",
-- and the final line for "ERROR", "+CME ERROR" and "+CMS ERROR". What comes later is not looked at.
pub command-collects :
    (cmd final : Text) (body : List Text) (later : List PortEvent)
    → All IsPlain body
    → text_eq final cmd ≡ false
    → (text_eq final (codes "OK") ≡ true) ⊎ (is_error final ≡ true)
    → command false false cmd (lines_of body (line final ∷ later)) ≡ record {
      lines = without_echo cmd body;
      error = if text_eq final (codes "OK") then none else some (refused final);
    }
unfolding command ending
command-collects cmd final body later plain other ends =
    command_loop-plain cmd body [] (line final ∷ later) plain ∙ final_line (without_echo cmd body)
  where
    final_line :
        (acc : List Text)
        → command_loop cmd acc (line final ∷ later) ≡ record {
          lines = acc;
          error = if text_eq final (codes "OK") then none else some (refused final);
        }
    final_line acc = ground arith

pub dispatch_resp :
    (p : AtPort) (l : Text)
    → p.waiting ≡ true
    → is_urc l ≡ false
    → length p.resp < resp_capacity
    → dispatch p l ≡ record p { resp = p.resp ++ l ∷ [] }
unfolding dispatch
dispatch_resp p l w u room = ground arith
