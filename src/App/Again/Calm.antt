-- ===== src/App/Again/Calm.antt =====
-- `saveAndEnqueue` of cmd/abb/main.go takes its faults from those that are to come.
use abb_app.Base.{ℕ, Bool, true, false, Bool-cases, Option, none, some, inl, inr, List, [], ◌∷◌}
use abb_app.Base.Text.{Text, text_eq}
use abb_app.Model.{Message}
use abb_app.Db.Session.{Outcome, ok, err, World, exec, NoFaults, NoFaults-exec}
use abb_app.Db.Messages.{
  insert_message, select_by_android, update_translation, after_insert, save_message,
}
use abb_app.Db.Outbox.{create_outbox_entry}
use abb_app.App.Save.{Translator, store_translation, translate, enqueue, after_save, count_received}

pub NoFaults-save_message :
    (m : Message) (w : World) → NoFaults w.ticks → NoFaults (save_message m w).1.ticks
unfolding save_message after_insert
NoFaults-save_message m w calm =
    go (exec (insert_message m) w).0 _ (NoFaults-exec (insert_message m) w calm)
  where
    go :
        (o : Outcome (Option ℕ)) (w : World)
        → NoFaults w.ticks
        → NoFaults (after_insert m.android_id o w).1.ticks
    go (err e) w h = h
    go (ok (some id)) w h = h
    go (ok none) w h = NoFaults-exec (select_by_android m.android_id) w h

NoFaults-enqueue :
    (id : ℕ) (channels : List Text) (w : World)
    → NoFaults w.ticks
    → NoFaults (enqueue id channels w).ticks
unfolding enqueue
NoFaults-enqueue id [] w h = h
NoFaults-enqueue id (ch ∷ channels) w h =
    NoFaults-enqueue id channels _ (NoFaults-exec (create_outbox_entry id ch) w h)

NoFaults-store_translation :
    (tr : Translator) (id : ℕ) (o : Outcome (Text × Text)) (w : World)
    → NoFaults w.ticks
    → NoFaults (store_translation tr id o w).ticks
unfolding store_translation
NoFaults-store_translation tr id (err e) w h = h
NoFaults-store_translation tr id (ok (translated, lang)) w h =
    elim (Bool-cases (text_eq lang tr.target_lang)) [
      | inl same ↦ rw same h
      | inr other ↦ rw other (NoFaults-exec (update_translation id translated) w h)
    ]

NoFaults-translate :
    (tr : Option Translator) (m : Message) (id : ℕ) (w : World)
    → NoFaults w.ticks
    → NoFaults (translate tr m id w).ticks
unfolding translate
NoFaults-translate none m id w h = h
NoFaults-translate (some tr) m id w h = NoFaults-store_translation tr id _ w h

pub NoFaults-after_save :
    (tr : Option Translator) (channels : List Text) (m : Message) (o : Outcome (ℕ × Bool))
    (w : World)
    → NoFaults w.ticks
    → NoFaults (after_save tr channels m o w).1.ticks
unfolding after_save
NoFaults-after_save tr channels m (err e) w h = h
NoFaults-after_save tr channels m (ok (id, false)) w h = h
NoFaults-after_save tr channels m (ok (id, true)) w h =
    NoFaults-enqueue id channels _ (NoFaults-translate tr m id (count_received w) h)
