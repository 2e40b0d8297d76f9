-- ===== src/App/Again/Stays.antt =====
-- What a stored message shows, and that it stays so under `saveAndEnqueue` of cmd/abb/main.go.
use abb_app.Base.{
  ℕ, ◌+◌, ◌≡◌, ◌≢◌, ◌∙◌, refl, Bool, true, false, Bool-cases, Option, Option-cases, none, some, inl,
  inr, List, [], ◌∷◌, ◌++◌, arith,
}
use abb_app.Base.Text.{Text, text_eq}
use abb_app.Model.{Message}
use abb_app.Db.{Db, MessageRow, find_message, max_message_id}
use abb_app.Db.Session.{Outcome, ok, err, World, exec-keeps}
use abb_app.Db.Messages.{
  find_android, to_row, insert_message, select_by_android, set_translation, update_translation,
  after_insert,
}
use abb_app.Db.Outbox.{create_outbox_entry}
use abb_app.App.Save.{Translator, store_translation, translate, enqueue, after_save, count_received}

-- A row less what comes from elsewhere than the message: its id and its translation.
abbrev pub face : MessageRow → MessageRow
face r = record r { id = 0; translation = none }

abbrev pub seen : Text → List MessageRow → Option MessageRow
seen k rows = elim (find_android k rows) [ none ↦ none | some r ↦ some (face r) ]

-- What the table shows under this key.
abbrev pub Sees : Text → Option MessageRow → Db → Type 0
Sees k o d = seen k d.messages ≡ o

-- The message with this key is stored.
abbrev pub Known : Text → Db → Type 0
Known k d = find_android k d.messages ≢ none

-- An insertion of this key does not touch what is shown.
abbrev pub Spares : Text → Option MessageRow → Text → Type 0
Spares k o j = o ≡ none → text_eq j k ≡ false

pub seen-row :
    (k : Text) (o : MessageRow) (rows : List MessageRow)
    → seen k rows ≡ some o
    → (r : MessageRow) × (find_android k rows ≡ some r) × (face r ≡ o)
seen-row k o rows h = elim (Option-cases (find_android k rows)) [
  | inl e ↦ cc (rw (e, seen) at h)
  | inr (r, e) ↦ (r, e, cc (rw (e, seen) at h))
]

pub Sees-Known : (k : Text) (o : MessageRow) (d : Db) → Sees k (some o) d → Known k d
Sees-Known k o d h e = let (r, found, same) = seen-row k o d.messages h in cc

pub seen-found :
    (k : Text) (rows : List MessageRow) (r : MessageRow)
    → find_android k rows ≡ some r
    → seen k rows ≡ some (face r)
seen-found k rows r e = rw (e, seen) refl

pub seen-missed :
    (k : Text) (rows : List MessageRow) → find_android k rows ≡ none → seen k rows ≡ none
seen-missed k rows e = rw (e, seen) refl

pub unseen : (k : Text) (rows : List MessageRow) → seen k rows ≡ none → find_android k rows ≡ none
unseen k rows h = elim (Option-cases (find_android k rows)) [
  | inl e ↦ e
  | inr (r, e) ↦ cc (rw (e, seen) at h)
]

pub insert_again :
    (m : Message) (t : ℕ) (d : Db) (r : MessageRow)
    → find_android m.android_id d.messages ≡ some r
    → ((insert_message m t d).0 ≡ ok none) × ((insert_message m t d).1 ≡ d)
unfolding insert_message
insert_again m t d r e = ground arith

pub insert_new :
    (m : Message) (t : ℕ) (d : Db)
    → find_android m.android_id d.messages ≡ none
    → (insert_message m t d).1.messages
      ≡ d.messages ++ to_row (max_message_id d.messages + 1) m ∷ []
unfolding insert_message
insert_new m t d e = ground arith

pub find_android-found :
    (k : Text) (rows extra : List MessageRow) (r : MessageRow)
    → find_android k rows ≡ some r
    → find_android k (rows ++ extra) ≡ some r
unfolding find_android
find_android-found k [] extra r h = cc
find_android-found k (s ∷ rs) extra r h = elim (Bool-cases (text_eq s.android_id k)) [
  | inl here ↦ rw here (rw here at h)
  | inr there ↦ rw there (find_android-found k rs extra r (rw there at h))
]

pub find_android-missed :
    (k : Text) (rows extra : List MessageRow)
    → find_android k rows ≡ none
    → find_android k (rows ++ extra) ≡ find_android k extra
unfolding find_android
find_android-missed k [] extra h = refl
find_android-missed k (s ∷ rs) extra h = elim (Bool-cases (text_eq s.android_id k)) [
  | inl here ↦ cc (rw here at h)
  | inr there ↦ rw there (find_android-missed k rs extra (rw there at h))
]

seen-set_translation :
    (k : Text) (id : ℕ) (t : Text) (rows : List MessageRow)
    → seen k (set_translation id t rows) ≡ seen k rows
unfolding find_android set_translation
seen-set_translation k id t [] = refl
seen-set_translation k id t (r ∷ rs) = ground (arith, seen-set_translation k id t rs)

-- The statements on the tables, one after the other.

Sees-create :
    (k : Text) (o : Option MessageRow) (id : ℕ) (ch : Text) (t : ℕ) (d : Db)
    → Sees k o d
    → Sees k o (create_outbox_entry id ch t d).1
unfolding create_outbox_entry
Sees-create k o id ch t d h = elim (Option-cases (find_message id d.messages)) [
  | inl e ↦ rw (e, create_outbox_entry) h
  | inr (m, e) ↦ rw (e, create_outbox_entry) h
]

Sees-enqueue :
    (k : Text) (o : Option MessageRow) (id : ℕ) (channels : List Text) (w : World)
    → Sees k o w.db
    → Sees k o (enqueue id channels w).db
unfolding enqueue
Sees-enqueue k o id [] w h = h
Sees-enqueue k o id (ch ∷ channels) w h =
    Sees-enqueue k o id channels _ (
      exec-keeps (create_outbox_entry id ch) w (Sees k o) (λ t g. Sees-create k o id ch t w.db g) h)

Sees-store_translation :
    (k : Text) (o : Option MessageRow) (tr : Translator) (id : ℕ) (a : Outcome (Text × Text))
    (w : World)
    → Sees k o w.db
    → Sees k o (store_translation tr id a w).db
unfolding store_translation update_translation
Sees-store_translation k o tr id (err e) w h = h
Sees-store_translation k o tr id (ok (translated, lang)) w h =
    elim (Bool-cases (text_eq lang tr.target_lang)) [
      | inl same ↦ rw same h
      | inr other ↦ rw other (
          exec-keeps (update_translation id translated) w (Sees k o)
            (λ t g. seen-set_translation k id translated w.db.messages ∙ g) h)
    ]

Sees-translate :
    (k : Text) (o : Option MessageRow) (tr : Option Translator) (m : Message) (id : ℕ) (w : World)
    → Sees k o w.db
    → Sees k o (translate tr m id w).db
unfolding translate
Sees-translate k o none m id w h = h
Sees-translate k o (some tr) m id w h = Sees-store_translation k o tr id _ w h

pub Sees-after_save :
    (k : Text) (o : Option MessageRow) (tr : Option Translator) (channels : List Text) (m : Message)
    (a : Outcome (ℕ × Bool)) (w : World)
    → Sees k o w.db
    → Sees k o (after_save tr channels m a w).1.db
unfolding after_save
Sees-after_save k o tr channels m (err e) w h = h
Sees-after_save k o tr channels m (ok (id, false)) w h = h
Sees-after_save k o tr channels m (ok (id, true)) w h =
    Sees-enqueue k o id channels _ (Sees-translate k o tr m id (count_received w) h)

Sees-select :
    (j k : Text) (o : Option MessageRow) (t : ℕ) (d : Db)
    → Sees k o d
    → Sees k o (select_by_android j t d).1
unfolding select_by_android
Sees-select j k o t d h = elim (Option-cases (find_android j d.messages)) [
  | inl e ↦ rw (e, select_by_android) h
  | inr (r, e) ↦ rw (e, select_by_android) h
]

pub Sees-after_insert :
    (j k : Text) (o : Option MessageRow) (a : Outcome (Option ℕ)) (w : World)
    → Sees k o w.db
    → Sees k o (after_insert j a w).1.db
unfolding after_insert
Sees-after_insert j k o (err e) w h = h
Sees-after_insert j k o (ok (some id)) w h = h
Sees-after_insert j k o (ok none) w h =
    exec-keeps (select_by_android j) w (Sees k o) (λ t g. Sees-select j k o t w.db g) h
