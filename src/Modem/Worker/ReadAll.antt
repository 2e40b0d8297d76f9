-- ===== src/Modem/Worker/ReadAll.antt =====
-- internal/modem/worker.go: the second half of ReadAll. The complete messages, and those that waited
-- long enough, go to the handler, and what it stored is deleted from the modem.
use abb_app.Base.{
  ℕ, ◌-◌, ◌/◌, Bool, true, false, not, Option, none, some, List, [], ◌∷◌, ◌++◌, map, length, filter,
  ltb, leb, ◌==◌, if◌then◌else◌,
}
use abb_app.Base.Text.{Text, codes, text_eq, decimal}
use abb_app.Model.{Message}
use abb_app.Db.Session.{Outcome, ok, err}
use abb_app.Modem.Worker.{
  Codec, Tpdu, Key, key_eq, StoredPdu, Group, stored, deleted, Worker, incomplete_timeout,
  list_lines, sort_segments,
}

-- SimName
abbrev pub sim_name : Worker → Text
sim_name w = if text_eq w.number [] then w.operator else w.number

-- messageKey. The time is given in nanoseconds, and printed in seconds.
unfoldable pub message_key : Codec → Text → Text → ℕ → Text → Text
message_key c imei sender received body =
    codes "modem:"
    ++ (imei
        ++ (codes ":"
            ++ c.digest (
                sender
                ++ (codes "|" ++ (decimal (received / 1_000_000_000) ++ (codes "|" ++ body))))))

-- The text " […]" in UTF-8.
abbrev incomplete_mark : Text
incomplete_mark = 32 ∷ 91 ∷ 0xe2 ∷ 0x80 ∷ 0xa6 ∷ 93 ∷ []

abbrev zero_tpdu : Tpdu
zero_tpdu = record { is_deliver = false; concat = none; number = []; time = 0; payload = [] }

-- tpdus[0]. A group has a segment.
abbrev first_of_segments : List StoredPdu → Tpdu
first_of_segments [] = zero_tpdu
first_of_segments (s ∷ ss) = s.tpdu

abbrev or_now : ℕ → ℕ → ℕ
or_now t now = if t == 0 then now else t

-- buildMessage
unfoldable pub build_message : Codec → Worker → Group → Bool → Outcome Message
unfolding message_key
build_message c w g complete =
    let segments = sort_segments g.segments in
    let first = first_of_segments segments in
    elim (c.decode_text (map (λ s. s.tpdu) segments)) [
      | err e ↦ err e
      | ok text ↦
          let body = if complete then text else text ++ incomplete_mark in
          let received = or_now first.time w.now in
          ok (record {
            android_id = message_key c w.imei first.number received body;
            subscription_id = [];
            address = first.number;
            body = body;
            translation = [];
            device_name = w.name;
            sim_name = sim_name w;
            source = codes "modem";
            recipient = w.number;
            received_at = received;
          })
    ]

unfoldable pub seen_at : Key → List (Key × ℕ) → Option ℕ
seen_at k [] = none
seen_at k ((j, t) ∷ rest) = if key_eq j k then some t else seen_at k rest

unfoldable pub forget : Key → List (Key × ℕ) → List (Key × ℕ)
forget k [] = []
forget k ((j, t) ∷ rest) =
    let others = forget k rest in if key_eq j k then others else (j, t) ∷ others

abbrev pub next_answer : List Bool → Bool
next_answer [] = true
next_answer (b ∷ bs) = b

abbrev pub later_answers : List Bool → List Bool
later_answers [] = []
later_answers (b ∷ bs) = bs

-- One AT+CMGD command. The answer is whether the modem accepted it.
unfoldable pub delete_index : ℕ → Worker → Bool × Worker
delete_index idx w = (
  next_answer w.commands,
  record w { commands = later_answers w.commands; events = deleted idx ∷ w.events },
)

-- One round of deleteSegments.
unfoldable pub delete_segment : StoredPdu → Worker → Worker
unfolding delete_index
delete_segment s w =
    let (accepted, w') = delete_index s.index w in
    if accepted then record w' { bad_pdu = filter (λ i. not (i == s.index)) w'.bad_pdu } else w'

unfoldable pub delete_loop : List StoredPdu → Worker → Worker
unfolding delete_segment
delete_loop [] w = w
delete_loop (s ∷ ss) w = delete_loop ss (delete_segment s w)

unfoldable pub delete_segments : List StoredPdu → Worker → Worker
unfolding delete_loop
delete_segments ss w = if w.delete_after_read then delete_loop ss w else w

-- What the worker knows when the handler has stored a message.
unfoldable pub note_stored : Group → Message → Worker → Worker
unfolding forget
note_stored g msg w = record w {
  handled = later_answers w.handled;
  first_seen = forget g.key w.first_seen;
  events = stored msg (map (λ s. s.index) g.segments) ∷ w.events;
}

-- The call of the handler. A message that it stored is recorded with its storage indexes.
unfoldable pub hand_over : Group → Message → Worker → Worker
unfolding delete_segments note_stored
hand_over g msg w =
    if next_answer w.handled
    then delete_segments g.segments (note_stored g msg w)
    else record w { handled = later_answers w.handled }

-- Behind buildMessage: an error is only logged.
unfoldable pub hand_built : Group → Outcome Message → Worker → Worker
unfolding hand_over
hand_built g (err e) w = w
hand_built g (ok msg) w = hand_over g msg w

unfoldable pub deliver_group : Codec → Group → Bool → Worker → Worker
unfolding hand_built
deliver_group c g complete w = hand_built g (build_message c w g complete) w

-- Whether a group is handed over, and what is noted of one that has to wait.
unfoldable pub process_group : Codec → Group → Worker → Worker
unfolding deliver_group seen_at
process_group c g w =
    if leb g.total (length g.segments)
    then deliver_group c g true w
    else elim (seen_at g.key w.first_seen) [
      | none ↦ record w { first_seen = (g.key, w.now) ∷ w.first_seen }
      | some first ↦ if ltb (w.now - first) incomplete_timeout then w else deliver_group c g false w
    ]

unfoldable pub process_groups : Codec → List Group → Worker → Worker
process_groups c [] w = w
process_groups c (g ∷ gs) w = process_groups c gs (process_group c g w)

-- The status reports and the like are dropped, whatever the modem answers.
unfoldable pub drop_orphans : List ℕ → Worker → Worker
unfolding delete_index
drop_orphans [] w = w
drop_orphans (i ∷ is) w = drop_orphans is (delete_index i w).1

-- ReadAll behind a successful AT+CMGL=4. A failed one returns its error and changes nothing.
unfoldable pub read_listing : Codec → List Text → Worker → Worker
unfolding process_groups drop_orphans
read_listing c lines w =
    let l = list_lines c lines (record { groups = []; orphans = []; bad = w.bad_pdu }) in
    let w' = process_groups c l.groups (record w { bad_pdu = l.bad }) in
    if w'.delete_after_read then drop_orphans l.orphans w' else w'

unfoldable pub read_all : Codec → Outcome (List Text) → Worker → Outcome (Unit {0}) × Worker
unfolding read_listing
read_all c (err e) w = (err e, w)
read_all c (ok lines) w = (ok tt, read_listing c lines w)
