-- ===== src/App/Pipeline/Tally/Runs.antt =====
-- The counters in the runs of App/Pipeline.
use abb_app.Base.{
  ℕ, ◌+◌, ◌-◌, ◌/◌, ◌≡◌, refl, sym, ◌⊎◌, inl, inr, Bool, true, false, Bool-cases, Option,
  Option-cases, none, some, List, [], ◌∷◌, ◌++◌, length, length-append, arith, if◌then◌else◌,
}
use abb_app.Base.Text.{Text, text_eq}
use abb_app.Model.{Message}
use abb_app.Db.{Db, MessageRow, max_message_id, second}
use abb_app.Db.Session.{Outcome, ok, err, World, Tick, exec, exec-cases, sends-exec, metrics-exec}
use abb_app.Db.Messages.{
  insert_message, to_row, find_android, select_by_android, save_message, after_insert, as_duplicate,
  update_translation,
}
use abb_app.Db.Outbox.{create_outbox_entry, cancel_stale_outbox}
use abb_app.App.Save.{
  Translator, store_translation, translate, enqueue, after_save, save_and_enqueue, count_received,
}
use abb_app.App.Pipeline.{
  Config, Action, receive, dispatch, retry, cancel_stale, cancel_older, step, run, start,
}
use abb_app.App.Pipeline.Tally.{
  Tally, sent_channels, failed_channels, exec-Tally, create_outbox_entry-KeepsCount,
  update_translation-KeepsCount, select_by_android-KeepsCount,
}
use abb_app.App.Pipeline.Tally.Sweeps.{dispatch_once-Tally, work-Tally}

enqueue-Tally :
    (id : ℕ) (channels : List Text) (n : ℕ) (w : World)
    → Tally n w
    → Tally n (enqueue id channels w)
unfolding enqueue
enqueue-Tally id [] n w h = h
enqueue-Tally id (ch ∷ channels) n w h =
    enqueue-Tally id channels n _
      (exec-Tally (create_outbox_entry id ch) n w (create_outbox_entry-KeepsCount id ch) h)

store_translation-Tally :
    (tr : Translator) (id : ℕ) (o : Outcome (Text × Text)) (n : ℕ) (w : World)
    → Tally n w
    → Tally n (store_translation tr id o w)
unfolding store_translation
store_translation-Tally tr id (err e) n w h = h
store_translation-Tally tr id (ok (translated, lang)) n w h =
    elim (Bool-cases (text_eq lang tr.target_lang)) [
      | inl same ↦ rw same h
      | inr other ↦ rw other (
          exec-Tally (update_translation id translated) n w
            (update_translation-KeepsCount id translated) h)
    ]

translate-Tally :
    (tr : Option Translator) (msg : Message) (id n : ℕ) (w : World)
    → Tally n w
    → Tally n (translate tr msg id w)
unfolding translate
translate-Tally none msg id n w h = h
translate-Tally (some tr) msg id n w h = store_translation-Tally tr id _ n w h

-- A message that is stored is counted next.
stored : Outcome (ℕ × Bool) → ℕ
stored (err e) = 0
stored (ok (id, is_new)) = if is_new then 1 else 0

after_save-Tally :
    (tr : Option Translator) (channels : List Text) (msg : Message) (o : Outcome (ℕ × Bool))
    (w : World)
    → Tally (stored o) w
    → Tally 0 (after_save tr channels msg o w).1
unfolding after_save stored
after_save-Tally tr channels msg (err e) w h = h
after_save-Tally tr channels msg (ok (id, false)) w h = h
after_save-Tally tr channels msg (ok (id, true)) w h =
    let counted : Tally 0 (count_received w) = record {
      received = omega (arith, h.received);
      sent = h.sent;
      failed = h.failed;
    } in
    enqueue-Tally id channels 0 _ (translate-Tally tr msg id 0 (count_received w) counted)

inserted : Outcome (Option ℕ) → ℕ
inserted (err e) = 0
inserted (ok none) = 0
inserted (ok (some id)) = 1

insert_message-stored :
    (m : Message) (t : ℕ) (d : Db)
    → (insert_message m t d ≡ (ok none, d))
      ⊎ ((id : ℕ) × (row : MessageRow) × (insert_message m t d
            ≡ (ok (some id), record d { messages = d.messages ++ row ∷ [] })))
unfolding insert_message
insert_message-stored m t d = elim (Option-cases (find_android m.android_id d.messages)) [
  | inl new ↦
      inr (max_message_id d.messages + 1, to_row (max_message_id d.messages + 1) m, ground arith)
  | inr (r, known) ↦ inl (ground arith)
]

insert_message-count :
    (m : Message) (t : ℕ) (d : Db)
    → length d.messages + inserted (insert_message m t d).0
      ≡ length (insert_message m t d).1.messages
unfolding inserted
insert_message-count m t d = elim (insert_message-stored m t d) [
  | inl known ↦ rw known (omega arith)
  | inr (id, row, new) ↦ rw new (sym (length-append d.messages (row ∷ [])))
]

insert_message-Tally :
    (m : Message) (w : World)
    → Tally 0 w
    → Tally (inserted (exec (insert_message m) w).0) (exec (insert_message m) w).1
unfolding inserted
insert_message-Tally m w h = record {
  received = rw (metrics-exec (insert_message m) w) (elim (exec-cases (insert_message m) w) [
    | inl (t, answer, left) ↦
        rw (answer, left) (omega (arith, h.received, insert_message-count m t w.db))
    | inr (answer, kept, _) ↦ rw (answer, kept) (omega (arith, h.received))
  ]);
  sent = rw (metrics-exec (insert_message m) w, sends-exec (insert_message m) w) h.sent;
  failed = rw (metrics-exec (insert_message m) w, sends-exec (insert_message m) w) h.failed;
}

stored-as_duplicate : (o : Outcome ℕ) → stored (as_duplicate o) ≡ 0
unfolding stored
stored-as_duplicate (ok id) = refl
stored-as_duplicate (err e) = refl

after_insert-Tally :
    (k : Text) (o : Outcome (Option ℕ)) (w : World)
    → Tally (inserted o) w
    → Tally (stored (after_insert k o w).0) (after_insert k o w).1
unfolding after_insert inserted
after_insert-Tally k (err e) w h = unfold stored in h
after_insert-Tally k (ok (some id)) w h = unfold stored in h
after_insert-Tally k (ok none) w h =
    rw stored-as_duplicate (exec-Tally (select_by_android k) 0 w (select_by_android-KeepsCount k) h)

step-Tally : (c : Config) (a : Action) (w : World) → Tally 0 w → Tally 0 (step c a w)
unfolding step save_and_enqueue save_message cancel_older cancel_stale_outbox
step-Tally c (receive msg) w h =
    after_save-Tally c.translator c.channels msg _ _
      (after_insert-Tally msg.android_id _ _ (insert_message-Tally msg w h))
step-Tally c (dispatch ctx) w h = dispatch_once-Tally ctx c.senders 0 w h
step-Tally c (retry ctx) w h = work-Tally ctx c.senders c.max_attempts c.retry_base 0 w h
step-Tally c (cancel_stale older_than) w h =
    exec-Tally (cancel_stale_outbox ((w.now - older_than) / second)) 0 w (λ t d. refl) h

run-Tally : (c : Config) (actions : List Action) (w : World) → Tally 0 w → Tally 0 (run c actions w)
unfolding run
run-Tally c [] w h = h
run-Tally c (a ∷ rest) w h = run-Tally c rest (step c a w) (step-Tally c a w h)

-- In every run of whole actions, one after the other, from a fresh database, whatever statements fail and whatever the senders answer: the
-- counter of received messages is the number of stored messages, and the counters of sent and failed
-- deliveries have one entry for each call of Send that succeeded, or that failed, under its channel.
pub metrics_agree :
    (c : Config) (actions : List Action) (now : ℕ) (ticks : List Tick)
    → let w : World = run c actions (start now ticks) in
      (w.metrics.sms_received ≡ length w.db.messages)
      × (w.metrics.sms_sent ≡ sent_channels w.sends)
      × (w.metrics.sms_failed ≡ failed_channels w.sends)
unfolding sent_channels failed_channels
metrics_agree c actions now ticks =
    let h =
      run-Tally c actions (start now ticks)
        (record { received = refl; sent = refl; failed = refl }) in
    (omega (arith, h.received), h.sent, h.failed)
