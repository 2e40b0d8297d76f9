-- ===== src/Modem/Worker/Run.antt =====
-- internal/modem/worker.go: the loop of Run.
use abb_app.Base.{
  ◌≡◌, ◌∙◌, refl, ap, sym, Bool, true, false, Bool-cases, inl, inr, Option, none, some, List, [],
  ◌∷◌, ◌++◌, All, if◌then◌else◌,
}
use mathlib.Core.List.{append-nil}
use mathlib.Core.Option.{some-ne-none, none-ne-some}
use abb_app.Base.Text.{Text, codes, has_prefix}
use abb_app.Modem.At.{Reply, CommandError, port_closed}
use abb_app.Modem.Worker.{Codec, Worker}
use abb_app.Modem.Worker.ReadAll.{read_listing}

-- What the `select` receives: the end of the context, that of the port, an unsolicited line, or a tick;
-- the last two with what the modem answers to AT+CMGL=4, if it is asked.
pub data Wake : Type 0 where
  context_done port_done : Wake
  urc : Text → Reply → Wake
  tick : Reply → Wake

-- How Run returns: with ctx.Err(), or with the error of the port.
pub data RunEnd : Type 0 where
  context_ended port_failed : RunEnd

-- ReadAll, for the answer to AT+CMGL=4.
unfoldable pub read_reply : Codec → Option CommandError → List Text → Worker → Worker
read_reply c none lines w = read_listing c lines w
read_reply c (some e) lines w = w

-- errors.Is(err, ErrPortClosed)
unfoldable pub is_port_closed : Option CommandError → Bool
is_port_closed (some port_closed) = true
is_port_closed _ = false

-- The loop over what the `select` receives, one after the other; `none` means that it still waits.
unfoldable pub run_loop : Codec → List Wake → Worker → Option RunEnd × Worker
unfolding read_reply is_port_closed
run_loop c [] w = (none, w)
run_loop c (context_done ∷ ws) w = (some context_ended, w)
run_loop c (port_done ∷ ws) w = (some port_failed, w)
run_loop c (urc line r ∷ ws) w =
    let ignored = run_loop c ws w in
    let later = run_loop c ws (read_reply c r.error r.lines w) in
    if has_prefix line (codes "+CMTI:")
    then (if is_port_closed r.error then (some port_failed, w) else later)
    else ignored
run_loop c (tick r ∷ ws) w =
    let later = run_loop c ws (read_reply c r.error r.lines w) in
    if is_port_closed r.error then (some port_failed, w) else later

-- Run: a first ReadAll, whose error is only logged, and the loop.
unfoldable pub run : Codec → Reply → List Wake → Worker → Option RunEnd × Worker
unfolding run_loop read_reply
run c r ws w = run_loop c ws (read_reply c r.error r.lines w)

-- How Run is to behave.

-- Whether the modem is asked for its messages, and what it answers.
abbrev pub asks : Wake → Option Reply
asks context_done = none
asks port_done = none
asks (urc line r) = if has_prefix line (codes "+CMTI:") then some r else none
asks (tick r) = some r

abbrev pub closes : Option Reply → Option RunEnd
closes none = none
closes (some r) = if is_port_closed r.error then some port_failed else none

abbrev pub ends_by : Wake → Option RunEnd
ends_by context_done = some context_ended
ends_by port_done = some port_failed
ends_by wake = closes (asks wake)

-- The listings that the modem has given, in order.
abbrev pub listed : Option CommandError → List Text → List (List Text) → List (List Text)
listed none lines rest = lines ∷ rest
listed (some e) lines rest = rest

abbrev pub with_listing : Option Reply → List (List Text) → List (List Text)
with_listing none rest = rest
with_listing (some r) rest = listed r.error r.lines rest

abbrev pub listings : List Wake → List (List Text)
listings [] = []
listings (x ∷ ws) = with_listing (asks x) (listings ws)

abbrev pub read_each : Codec → List (List Text) → Worker → Worker
read_each c [] w = w
read_each c (lines ∷ ls) w = read_each c ls (read_listing c lines w)

abbrev pub GoesOn : Wake → Type 0
GoesOn x = ends_by x ≡ none

read_each-listed :
    (c : Codec) (o : Option CommandError) (lines : List Text) (ls : List (List Text)) (w : Worker)
    → read_each c (listed o lines ls) w ≡ read_each c ls (read_reply c o lines w)
unfolding read_reply
read_each-listed c none lines ls w = refl
read_each-listed c (some e) lines ls w = refl

-- One wake that does not end the loop.
run_loop-GoesOn :
    (c : Codec) (x : Wake) (ws : List Wake) (w : Worker)
    → GoesOn x
    → run_loop c (x ∷ ws) w ≡ run_loop c ws (read_each c (with_listing (asks x) []) w)
unfolding run_loop
run_loop-GoesOn c context_done ws w h = absurd cc
run_loop-GoesOn c port_done ws w h = absurd cc
run_loop-GoesOn c (urc line r) ws w h = elim (Bool-cases (has_prefix line (codes "+CMTI:"))) [
  | inl news ↦ elim (Bool-cases (is_port_closed r.error)) [
    | inl closed ↦ absurd (some-ne-none port_failed (rw (news, closed) at h))
    | inr working ↦
        rw (news, working) (ap (run_loop c ws) (sym (read_each-listed c r.error r.lines [] w)))
  ]
  | inr other ↦ rw other refl
]
run_loop-GoesOn c (tick r) ws w h = elim (Bool-cases (is_port_closed r.error)) [
  | inl closed ↦ absurd (some-ne-none port_failed (rw closed at h))
  | inr working ↦ rw working (ap (run_loop c ws) (sym (read_each-listed c r.error r.lines [] w)))
]

-- One wake that ends it.
run_loop-ends :
    (c : Codec) (x : Wake) (ws : List Wake) (w : Worker) (e : RunEnd)
    → ends_by x ≡ some e
    → run_loop c (x ∷ ws) w ≡ (some e, w)
unfolding run_loop
run_loop-ends c context_done ws w e h = ap (λ (o : Option RunEnd). (o, w)) h
run_loop-ends c port_done ws w e h = ap (λ (o : Option RunEnd). (o, w)) h
run_loop-ends c (urc line r) ws w e h = elim (Bool-cases (has_prefix line (codes "+CMTI:"))) [
  | inl news ↦ elim (Bool-cases (is_port_closed r.error)) [
    | inl closed ↦ rw (news, closed) (ap (λ (o : Option RunEnd). (o, w)) (rw (news, closed) at h))
    | inr working ↦ absurd (none-ne-some e (rw (news, working) at h))
  ]
  | inr other ↦ absurd (none-ne-some e (rw other at h))
]
run_loop-ends c (tick r) ws w e h = elim (Bool-cases (is_port_closed r.error)) [
  | inl closed ↦ rw closed (ap (λ (o : Option RunEnd). (o, w)) (rw closed at h))
  | inr working ↦ absurd (none-ne-some e (rw working at h))
]

read_each-with_listing :
    (c : Codec) (o : Option Reply) (ls : List (List Text)) (w : Worker)
    → read_each c (with_listing o ls) w ≡ read_each c ls (read_each c (with_listing o []) w)
read_each-with_listing c none ls w = refl
read_each-with_listing c (some r) ls w =
    read_each-listed c r.error r.lines ls w
    ∙ ap (read_each c ls) (sym (read_each-listed c r.error r.lines [] w))

run_loop-through :
    (c : Codec) (before ws : List Wake) (w : Worker)
    → All GoesOn before
    → run_loop c (before ++ ws) w ≡ run_loop c ws (read_each c (listings before) w)
run_loop-through c [] ws w h = refl
run_loop-through c (x ∷ before) ws w h =
    run_loop-GoesOn c x (before ++ ws) w h.0
    ∙ run_loop-through c before ws _ h.1
    ∙ ap (run_loop c ws) (sym (read_each-with_listing c (asks x) (listings before) w))

-- Run goes on while no wake ends the context or the port and none finds the port closed while the modem
-- is asked, and returns at the first one that does, whatever would follow, with the matching error. By
-- then it has gone through the listings that the modem has given, in order and each once: the first,
-- and one for each tick and each line with "+CMTI:" to which the modem has given one; other unsolicited
-- lines and other errors make it neither read nor return.
pub run_lem :
    (c : Codec) (first : Reply) (before : List Wake) (x : Wake) (after : List Wake) (e : RunEnd)
    (w : Worker)
    → All GoesOn before
    → ends_by x ≡ some e
    → let w' = read_each c (with_listing (some first) (listings before)) w in
      (run c first before w ≡ (none, w')) × (run c first (before ++ x ∷ after) w ≡ (some e, w'))
unfolding run run_loop
run_lem c first before x after e w h ends =
    let start = read_reply c first.error first.lines w in
    let same : read_each c (listings before) start
        ≡ read_each c (with_listing (some first) (listings before)) w =
      sym (read_each-listed c first.error first.lines (listings before) w) in
    (
      ap (λ l. run_loop c l start) (sym (append-nil before))
          ∙ run_loop-through c before [] start h
          ∙ ap (run_loop c []) same,
      run_loop-through c before (x ∷ after) start h
          ∙ run_loop-ends c x after _ e ends
          ∙ ap (λ (v : Worker). (some e, v)) same,
    )
