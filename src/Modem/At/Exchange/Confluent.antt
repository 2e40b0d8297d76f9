-- ===== src/Modem/At/Exchange/Confluent.antt =====
-- internal/modem/at.go: the reply of Command does not depend on how the reader and Command take turns.
use abb_app.Base.{
  ℕ, ◌≤◌, ◌≡◌, ◌≢◌, ◌⊎◌, Bool, refl, ◌∙◌, ap, sym, subst, true, false, not, Bool-cases, inl, inr,
  Option, none, some, List, [], ◌∷◌, ◌++◌, length, length-filter, arith,
}
use abb_app.Base.Text.{Text, text_eq}
use abb_app.Modem.At.{
  AtPort, Reply, is_urc, resp_capacity, begin_command, end_command, ending, command_loop, command,
  fail, timed_out,
}
use abb_app.Modem.At.Lines.{lines_of, command_loop-echo}
use abb_app.Modem.At.Exchange.Take.{
  command_loop-continues, command_loop-ends, popped, take_line-echo, take_line-keeps,
  take_line-ends,
}
use abb_app.Modem.At.Exchange.Held.{
  to_come, in_hand, all_lines, next_byte-lines, next_byte-waiting, next_byte-collected,
  next_byte-reply, breaks_off-lines, hands_on-lines, put-waiting, fails-lines,
}
use abb_app.Modem.At.Exchange.{
  Exchange, take_line, Interrupt, interrupted, next_byte, take_up, put, Step, arrives, hands_on,
  breaks_off, fails, takes, gives_up, returns, Steps, done, next, started, responses, pending_lines,
}

abbrev alone : Text → Exchange → Reply
alone cmd x = command_loop cmd x.collected (lines_of (all_lines x) [])

-- Until Command returns, what it would return of all the lines does not change.
record Waits (cmd : Text) (final : Reply) (x : Exchange) : Type 0 where
  listening : x.reader.port.waiting ≡ true
  room : length (all_lines x) ≤ resp_capacity
  outcome : alone cmd x ≡ final

abbrev pub IsInterrupted : Reply → Type 0
IsInterrupted r = (i : Interrupt) × (r ≡ interrupted i)

abbrev Settled : Text → Reply → Exchange → Option Reply → Type 0
Settled cmd final x none = Waits cmd final x
Settled cmd final x (some r) = IsInterrupted r ⊎ (r ≡ final)

module _ (cmd : Text) (final : Reply) where
  Waits-same :
      (x y : Exchange)
      → y.reader.port.waiting ≡ x.reader.port.waiting
      → all_lines y ≡ all_lines x
      → y.collected ≡ x.collected
      → Waits cmd final x
      → Waits cmd final y
  Waits-same x y same lines collected w = record {
    listening = same ∙ w.listening;
    room = subst (λ (u : List Text). length u ≤ resp_capacity) (sym lines) w.room;
    outcome = rw (lines, collected) w.outcome;
  }

  Settled-map :
      (x y : Exchange) (o : Option Reply)
      → (Waits cmd final x → Waits cmd final y)
      → Settled cmd final x o
      → Settled cmd final y o
  Settled-map x y none f h = f h
  Settled-map x y (some r) f h = h

  arrives-Waits :
      (x : Exchange) (c : ℕ) (s : Text)
      → x.reader.stopped ≡ none
      → x.hand ≡ none
      → x.incoming ≡ c ∷ s
      → Waits cmd final x
      → Waits cmd final (record (next_byte c x) { incoming = s })
  arrives-Waits x c s open_ free inc w =
      Waits-same x (record (next_byte c x) { incoming = s }) (next_byte-waiting c x)
        (next_byte-lines x c s open_ free inc w.listening) (next_byte-collected c x) w

  breaks_off-Waits :
      (x : Exchange)
      → x.reader.stopped ≡ none
      → x.hand ≡ none
      → x.incoming ≡ []
      → Waits cmd final x
      → Waits cmd final (record x {
        reader = record (x.reader) { raw = [] };
        hand = take_up x.reader.raw x.reader.port;
      })
  breaks_off-Waits x open_ free inc w =
      Waits-same x
        (record x {
          reader = record (x.reader) { raw = [] };
          hand = take_up x.reader.raw x.reader.port;
        })
        refl (breaks_off-lines x open_ free inc w.listening) refl w

  hands_on-Waits :
      (x : Exchange) (waiting : Bool) (l : Text)
      → x.hand ≡ some (waiting, l)
      → Waits cmd final x
      → Waits cmd final (record x {
        reader = record (x.reader) { port = put waiting l x.reader.port };
        hand = none;
      })
  hands_on-Waits x waiting l has w =
      Waits-same x
        (record x {
          reader = record (x.reader) { port = put waiting l x.reader.port };
          hand = none;
        })
        (put-waiting waiting l x.reader.port) (hands_on-lines x waiting l has w.room) refl w

  fails-Waits :
      (x : Exchange) (e : Text)
      → x.reader.stopped ≡ none
      → x.incoming ≡ []
      → x.reader.raw ≡ []
      → Waits cmd final x
      → Waits cmd final (record x { reader = record (x.reader) { stopped = some e } })
  fails-Waits x e open_ inc empty w =
      Waits-same x (record x { reader = record (x.reader) { stopped = some e } }) refl
        (fails-lines x e open_ inc empty) refl w

  all_lines-popped :
      (x : Exchange) (l : Text) (rest : List Text)
      → x.reader.port.resp ≡ l ∷ rest
      → all_lines x ≡ l ∷ all_lines (popped rest x)
  all_lines-popped x l rest h =
      ap (λ (u : List Text). u ++ (in_hand x.hand ++ to_come x.reader x.incoming)) h

  -- After a line that does not end the response, Command waits for the rest.
  keeps-Waits :
      (x y : Exchange) (l : Text)
      → Waits cmd final x
      → all_lines x ≡ l ∷ all_lines y
      → y.reader.port.waiting ≡ x.reader.port.waiting
      → alone cmd x ≡ alone cmd y
      → Waits cmd final y
  keeps-Waits x y l w lines same h = record {
    listening = same ∙ w.listening;
    room = omega (arith, subst (λ (u : List Text). length u ≤ resp_capacity) lines w.room);
    outcome = sym h ∙ w.outcome;
  }

  abbrev IsSettled : Exchange → Type 0
  IsSettled x = Settled cmd final x x.reply

  not_echo-IsSettled :
      (x : Exchange) (l : Text) (rest : List Text) (o : Option Reply)
      → x.reply ≡ none
      → x.reader.port.resp ≡ l ∷ rest
      → Waits cmd final x
      → text_eq l cmd ≡ false
      → ending l x.collected ≡ o
      → IsSettled (take_line cmd l rest x)
  not_echo-IsSettled x l rest none open_ has w h e =
      let lines : all_lines x ≡ l ∷ all_lines (popped rest x) = all_lines-popped x l rest has in
      let y : Exchange = record (popped rest x) { collected = x.collected ++ l ∷ [] } in
      subst IsSettled (sym (take_line-keeps cmd l rest x h e)) (
        subst (Settled cmd final y) (sym open_) (
          keeps-Waits x y l w lines refl (
            ap (λ (u : List Text). command_loop cmd x.collected (lines_of u [])) lines
            ∙ command_loop-continues cmd l x.collected (all_lines y) h e)))
  not_echo-IsSettled x l rest (some r) open_ has w h e =
      subst IsSettled (sym (take_line-ends cmd l rest x r h e)) (
        inr (
          sym (command_loop-ends cmd l x.collected (all_lines (popped rest x)) r h e)
          ∙ (ap (λ (u : List Text). command_loop cmd x.collected (lines_of u []))
                (sym (all_lines-popped x l rest has))
              ∙ w.outcome)))

  takes-IsSettled :
      (x : Exchange) (l : Text) (rest : List Text)
      → x.reply ≡ none
      → x.reader.port.resp ≡ l ∷ rest
      → Waits cmd final x
      → IsSettled (take_line cmd l rest x)
  takes-IsSettled x l rest open_ has w = elim (Bool-cases (text_eq l cmd)) [
    | inl echo ↦
        let lines : all_lines x ≡ l ∷ all_lines (popped rest x) = all_lines-popped x l rest has in
        subst IsSettled (sym (take_line-echo cmd l rest x echo)) (
          subst (Settled cmd final (popped rest x)) (sym open_) (
            keeps-Waits x (popped rest x) l w lines refl (
              ap (λ (u : List Text). command_loop cmd x.collected (lines_of u [])) lines
              ∙ command_loop-echo cmd l x.collected (lines_of (all_lines (popped rest x)) [])
                  echo)))
    | inr other ↦ not_echo-IsSettled x l rest (ending l x.collected) open_ has w other refl
  ]

  Step-IsSettled : {x y : Exchange} → Step cmd x y → IsSettled x → IsSettled y
  Step-IsSettled (arrives x c s open_ free inc) h =
      subst (Settled cmd final (record (next_byte c x) { incoming = s }))
        (sym (next_byte-reply c x))
        (Settled-map x (record (next_byte c x) { incoming = s }) x.reply
          (arrives-Waits x c s open_ free inc) h)
  Step-IsSettled (hands_on x waiting l has) h =
      Settled-map x _ x.reply (hands_on-Waits x waiting l has) h
  Step-IsSettled (breaks_off x open_ free inc) h =
      Settled-map x _ x.reply (breaks_off-Waits x open_ free inc) h
  Step-IsSettled (fails x e open_ free inc empty) h =
      Settled-map x (record x { reader = record (x.reader) { stopped = some e } }) x.reply
        (fails-Waits x e open_ inc empty) h
  Step-IsSettled (takes x l rest open_ has) h =
      takes-IsSettled x l rest open_ has (subst (Settled cmd final x) open_ h)
  Step-IsSettled (gives_up x i open_ ready) h = inl (i, refl)
  Step-IsSettled (returns x r e) h =
      let y : Exchange = record x {
        reader = record (x.reader) { port = end_command x.reader.port };
      } in
      subst (Settled cmd final y) (sym e) (subst (Settled cmd final x) e h)

  Steps-IsSettled : {x y : Exchange} → Steps cmd x y → IsSettled x → IsSettled y
  Steps-IsSettled (done x) h = h
  Steps-IsSettled (next x y z s ss) h = Steps-IsSettled ss (Step-IsSettled s h)

-- The reply of Command over the lines that the modem sends, one after the other.
abbrev pub reply_alone : Text → Text → Text → Reply
reply_alone cmd raw bytes =
    command false false cmd (lines_of (responses (pending_lines raw bytes)) [])

started-IsSettled :
    (cmd : Text) (p : AtPort) (raw bytes : Text)
    → length (pending_lines raw bytes) ≤ resp_capacity
    → IsSettled cmd (reply_alone cmd raw bytes) (started p raw bytes)
unfolding started begin_command command in_hand
started-IsSettled cmd p raw bytes room = record {
  listening = refl;
  room = omega (arith, length-filter (λ l. not (is_urc l)) (pending_lines raw bytes), room);
  outcome = refl;
}

-- If the reader is not between the two halves of dispatch when Command has written its command, no more
-- than 256 lines arrive, and the lines that are not unsolicited, read one after the other,
-- end the response, then Command has returned by the time that there is nothing left for it to take:
-- no line that it waits for is lost between the two goroutines.
pub reply-reached :
    (cmd raw bytes : Text) (p : AtPort) (x : Exchange)
    → length (pending_lines raw bytes) ≤ resp_capacity
    → reply_alone cmd raw bytes ≢ fail timed_out
    → Steps cmd (started p raw bytes) x
    → all_lines x ≡ []
    → x.reply ≢ none
unfolding command_loop
reply-reached cmd raw bytes p x room ends steps nothing open_ =
    let w : Waits cmd (reply_alone cmd raw bytes) x =
      subst (Settled cmd (reply_alone cmd raw bytes) x) open_ (
        Steps-IsSettled cmd (reply_alone cmd raw bytes) steps
          (started-IsSettled cmd p raw bytes room)) in
    ends
      (sym w.outcome ∙ ap (λ (u : List Text). command_loop cmd x.collected (lines_of u [])) nothing)
