-- ===== src/App/Again.antt =====
-- `saveAndEnqueue` of cmd/abb/main.go, for a message that was received before.
pub mod Stays
pub mod Stored
mod Calm
use abb_app.Base.{
  ℕ, ◌+◌, ◌≡◌, ◌≢◌, ◌∙◌, refl, ap, sym, Bool, true, false, Bool-cases, Option, Option-cases, none,
  some, inl, inr, List, [], ◌∷◌, ◌++◌, ◌==◌, arith, if◌then◌else◌,
}
use abb_app.Base.Text.{Text, text_eq, text_eq_refl}
use abb_app.Model.{Message}
use abb_app.Db.{Db, MessageRow, find_message, max_message_id}
use abb_app.Db.Session.{
  Outcome, ok, err, World, exec, NoFaults, NoFaults-exec, exec-keeps, exec-cases,
}
use abb_app.Db.Messages.{
  find_android, to_row, insert_message, select_by_android, set_translation, update_translation,
  after_insert, save_message,
}
use abb_app.Db.Outbox.{create_outbox_entry}
use abb_app.App.Save.{
  Translator, store_translation, translate, enqueue, after_save, save_and_enqueue, count_received,
}
use abb_app.App.Again.Stays.{Known, insert_again}
use abb_app.App.Again.Stored.{save_and_enqueue-Known}
use abb_app.App.Again.Calm.{NoFaults-save_message, NoFaults-after_save}

select_known :
    (k : Text) (w : World) (r : MessageRow)
    → NoFaults w.ticks
    → find_android k w.db.messages ≡ some r
    → ((exec (select_by_android k) w).0 ≡ ok r.id) × ((exec (select_by_android k) w).1.db ≡ w.db)
unfolding select_by_android
select_known k w r calm e = elim (exec-cases (select_by_android k) w) [
  | inl (t, answer, db) ↦
      (answer ∙ rw (select_by_android, e) refl, db ∙ rw (select_by_android, e) refl)
  | inr (lost, db, faulty) ↦ absurd (faulty calm)
]

insert_known :
    (m : Message) (w : World) (r : MessageRow)
    → NoFaults w.ticks
    → find_android m.android_id w.db.messages ≡ some r
    → ((exec (insert_message m) w).0 ≡ ok none) × ((exec (insert_message m) w).1.db ≡ w.db)
insert_known m w r calm e = elim (exec-cases (insert_message m) w) [
  | inl (t, answer, db) ↦ let again = insert_again m t w.db r e in (answer ∙ again.0, db ∙ again.1)
  | inr (lost, db, faulty) ↦ absurd (faulty calm)
]

save_known :
    (m : Message) (w : World) (r : MessageRow)
    → NoFaults w.ticks
    → find_android m.android_id w.db.messages ≡ some r
    → ((save_message m w).0 ≡ ok (r.id, false)) × ((save_message m w).1.db ≡ w.db)
unfolding save_message after_insert
save_known m w r calm e =
    let (answer, db) = insert_known m w r calm e in
    let (found, same) =
      select_known m.android_id (exec (insert_message m) w).1 r
        (NoFaults-exec (insert_message m) w calm) (rw db e) in
    (rw (answer, found) refl, rw (answer, same, db) refl)

save_and_enqueue_stored :
    (tr : Option Translator) (channels : List Text) (m : Message) (w : World)
    → NoFaults w.ticks
    → Known m.android_id w.db
    → ((save_and_enqueue tr channels m w).0 ≡ ok false)
      × ((save_and_enqueue tr channels m w).1.db ≡ w.db)
unfolding save_and_enqueue
save_and_enqueue_stored tr channels m w calm known =
    elim (Option-cases (find_android m.android_id w.db.messages)) [
      | inl e ↦ absurd (known e)
      | inr (r, e) ↦
          let (answer, db) = save_known m w r calm e in (rw answer refl, rw (answer, db) refl)
    ]

pub later_ticks :
    (tr : Option Translator) (channels : List Text) (m : Message) (w : World)
    → NoFaults w.ticks
    → NoFaults (save_and_enqueue tr channels m w).1.ticks
unfolding save_and_enqueue
later_ticks tr channels m w calm =
    NoFaults-after_save tr channels m (save_message m w).0 _ (NoFaults-save_message m w calm)

-- If no statement fails, a message whose android_id was received before, whatever the translators and
-- the channels are, is answered as known, and the tables are left as they were.
pub save_and_enqueue_again :
    (tr tr' : Option Translator) (channels channels' : List Text) (m m' : Message) (w : World)
    → NoFaults w.ticks
    → m'.android_id ≡ m.android_id
    → let w' = (save_and_enqueue tr channels m w).1 in
      ((save_and_enqueue tr' channels' m' w').0 ≡ ok false)
      × ((save_and_enqueue tr' channels' m' w').1.db ≡ w'.db)
save_and_enqueue_again tr tr' channels channels' m m' w calm same =
    save_and_enqueue_stored tr' channels' m' _ (later_ticks tr channels m w calm)
      (rw same (save_and_enqueue-Known tr channels m w calm))
