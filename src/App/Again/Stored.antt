-- ===== src/App/Again/Stored.antt =====
-- `SaveMessage` of internal/db/messages.go under `saveAndEnqueue`: which row it adds.
use abb_app.Base.{
  ℕ, ◌+◌, ◌≡◌, ◌∙◌, refl, sym, false, Option, Option-cases, none, some, inl, inr, List, [], ◌∷◌,
  ◌++◌,
}
use abb_app.Base.Text.{Text, text_eq, text_eq_refl}
use abb_app.Model.{Message}
use abb_app.Db.{Db, MessageRow, max_message_id}
use abb_app.Db.Session.{World, exec, NoFaults, exec-keeps, exec-cases}
use abb_app.Db.Messages.{find_android, to_row, insert_message, save_message}
use abb_app.App.Save.{Translator, save_and_enqueue}
use abb_app.App.Again.Stays.{
  Sees, Spares, Known, Sees-Known, face, seen, seen-found, seen-missed, insert_again, insert_new,
  find_android-found, find_android-missed, Sees-after_save, Sees-after_insert,
}

find_android-single_ne :
    (k : Text) (r : MessageRow) → text_eq r.android_id k ≡ false → find_android k (r ∷ []) ≡ none
unfolding find_android
find_android-single_ne k r e = rw e refl

find_android-single : (r : MessageRow) → find_android r.android_id (r ∷ []) ≡ some r
unfolding find_android
find_android-single r = rw (text_eq_refl r.android_id) refl

seen-append :
    (k : Text) (o : Option MessageRow) (rows : List MessageRow) (r : MessageRow)
    → Spares k o r.android_id
    → seen k rows ≡ o
    → seen k (rows ++ r ∷ []) ≡ o
seen-append k o rows r spared h = elim (Option-cases (find_android k rows)) [
  | inl e ↦
      seen-missed k (rows ++ r ∷ []) (
        find_android-missed k rows (r ∷ []) e
        ∙ find_android-single_ne k r (spared (sym h ∙ seen-missed k rows e)))
      ∙ sym (seen-missed k rows e)
      ∙ h
  | inr (s, e) ↦
      seen-found k (rows ++ r ∷ []) s (find_android-found k rows (r ∷ []) s e)
      ∙ sym (seen-found k rows s e)
      ∙ h
]

Sees-insert :
    (k : Text) (o : Option MessageRow) (m : Message) (t : ℕ) (d : Db)
    → Spares k o m.android_id
    → Sees k o d
    → Sees k o (insert_message m t d).1
Sees-insert k o m t d spared h = elim (Option-cases (find_android m.android_id d.messages)) [
  | inl new ↦
      rw (insert_new m t d new)
        (seen-append k o d.messages (to_row (max_message_id d.messages + 1) m) spared h)
  | inr (r, e) ↦ rw (insert_again m t d r e).1 h
]

-- Saving a message, or another one, does not change what is shown under a key that it spares.
pub Sees-save_and_enqueue :
    (k : Text) (o : Option MessageRow) (tr : Option Translator) (channels : List Text) (m : Message)
    (w : World)
    → Spares k o m.android_id
    → Sees k o w.db
    → Sees k o (save_and_enqueue tr channels m w).1.db
unfolding save_and_enqueue save_message
Sees-save_and_enqueue k o tr channels m w spared h =
    Sees-after_save k o tr channels m (save_message m w).0 _ (
      Sees-after_insert m.android_id k o (exec (insert_message m) w).0 _
        (exec-keeps (insert_message m) w (Sees k o) (λ t g. Sees-insert k o m t w.db spared g) h))

insert-stored :
    (m : Message) (t : ℕ) (d : Db)
    → find_android m.android_id d.messages ≡ none
    → Sees m.android_id (some (to_row 0 m)) (insert_message m t d).1
insert-stored m t d new =
    let r = to_row (max_message_id d.messages + 1) m in
    rw (insert_new m t d new) (
      seen-found m.android_id (d.messages ++ r ∷ []) r
        (find_android-missed m.android_id d.messages (r ∷ []) new ∙ find_android-single r))

pub Sees-stored :
    (tr : Option Translator) (channels : List Text) (m : Message) (w : World)
    → NoFaults w.ticks
    → find_android m.android_id w.db.messages ≡ none
    → Sees m.android_id (some (to_row 0 m)) (save_and_enqueue tr channels m w).1.db
unfolding save_and_enqueue save_message
Sees-stored tr channels m w calm new =
    let k = m.android_id in
    let o : Option MessageRow = some (to_row 0 m) in
    Sees-after_save k o tr channels m (save_message m w).0 _ (
      Sees-after_insert k k o (exec (insert_message m) w).0 _
        (elim (exec-cases (insert_message m) w) [
          | inl (t, answer, db) ↦ rw db (insert-stored m t w.db new)
          | inr (lost, db, faulty) ↦ absurd (faulty calm)
        ]))

pub save_and_enqueue-Known :
    (tr : Option Translator) (channels : List Text) (m : Message) (w : World)
    → NoFaults w.ticks
    → Known m.android_id (save_and_enqueue tr channels m w).1.db
save_and_enqueue-Known tr channels m w calm =
    elim (Option-cases (find_android m.android_id w.db.messages)) [
      | inl new ↦
          Sees-Known m.android_id (to_row 0 m) (save_and_enqueue tr channels m w).1.db
            (Sees-stored tr channels m w calm new)
      | inr (r, e) ↦ Sees-Known m.android_id (face r) (save_and_enqueue tr channels m w).1.db (
          Sees-save_and_enqueue m.android_id (some (face r)) tr channels m w (λ bad. cc)
            (seen-found m.android_id w.db.messages r e))
    ]
