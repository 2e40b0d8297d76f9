-- ===== src/Db/Messages.antt =====
-- internal/db/messages.go: the statements on messages.
use abb_app.Base.{
  ℕ, ◌+◌, Bool, true, false, Option, none, some, List, [], ◌∷◌, ◌++◌, length, ◌==◌, if◌then◌else◌,
}
use abb_app.Base.Text.{Text, codes, text_eq}
use abb_app.Model.{Message}
use abb_app.Db.{Db, MessageRow, coalesce, max_message_id, find_message}
use abb_app.Db.Session.{Outcome, ok, err, World, exec}

-- SELECT ... FROM messages WHERE android_id = ?
unfoldable pub find_android : Text → List MessageRow → Option MessageRow
find_android k [] = none
find_android k (r ∷ rs) = if text_eq r.android_id k then some r else find_android k rs

abbrev pub to_row : ℕ → Message → MessageRow
to_row id m = record {
  id = id;
  android_id = m.android_id;
  address = m.address;
  body = m.body;
  device_name = some m.device_name;
  sim_name = some m.sim_name;
  source = some m.source;
  translation = none;
  received_at = m.received_at;
}

-- INSERT OR IGNORE, with its RowsAffected() > 0: a conflict on the unique android_id ignores the row.
abbrev pub insert_or_ignore : Message → Db → Option ℕ × Db
insert_or_ignore m d = elim (find_android m.android_id d.messages) [
  | some r ↦ (none, d)
  | none ↦
      (let id = max_message_id d.messages + 1 in
        (some id, record d { messages = d.messages ++ to_row id m ∷ [] }))
]

-- The first statement of SaveMessage.
unfoldable pub insert_message : Message → ℕ → Db → Outcome (Option ℕ) × Db
insert_message m now d = let (r, d') = insert_or_ignore m d in (ok r, d')

abbrev no_rows : Text
no_rows = codes "sql: no rows in result set"

-- The second statement of SaveMessage: the id of the row that was there.
unfoldable pub select_by_android : Text → ℕ → Db → Outcome ℕ × Db
unfolding find_android
select_by_android k now d = elim (find_android k d.messages) [
  | none ↦ (err no_rows, d)
  | some r ↦ (ok r.id, d)
]

-- UpdateTranslation
unfoldable pub set_translation : ℕ → Text → List MessageRow → List MessageRow
set_translation id t [] = []
set_translation id t (r ∷ rs) =
    (if r.id == id then record r { translation = some t } else r) ∷ set_translation id t rs

unfoldable pub update_translation : ℕ → Text → ℕ → Db → Outcome (Unit {0}) × Db
unfolding set_translation
update_translation id t now d = (ok tt, record d { messages = set_translation id t d.messages })

-- CountMessages
unfoldable pub count_messages : ℕ → Db → Outcome ℕ × Db
count_messages now d = (ok (length d.messages), d)

abbrev pub to_message : MessageRow → Message
to_message r = record {
  android_id = r.android_id;
  subscription_id = [];
  address = r.address;
  body = r.body;
  translation = coalesce r.translation [];
  device_name = coalesce r.device_name [];
  sim_name = coalesce r.sim_name [];
  source = coalesce r.source [];
  recipient = [];
  received_at = r.received_at;
}

-- GetMessageByID
unfoldable pub get_message_by_id : ℕ → ℕ → Db → Outcome Message × Db
get_message_by_id id now d = elim (find_message id d.messages) [
  | none ↦ (err no_rows, d)
  | some r ↦ (ok (to_message r), d)
]

abbrev pub as_duplicate : Outcome ℕ → Outcome (ℕ × Bool)
as_duplicate (err e) = err e
as_duplicate (ok id) = ok (id, false)

-- SaveMessage behind its first statement.
unfoldable pub after_insert : Text → Outcome (Option ℕ) → World → Outcome (ℕ × Bool) × World
after_insert k (err e) w = (err e, w)
after_insert k (ok (some id)) w = (ok (id, true), w)
after_insert k (ok none) w = let (s, w') = exec (select_by_android k) w in (as_duplicate s, w')

-- SaveMessage: the row's id, and whether the message is new.
unfoldable pub save_message : Message → World → Outcome (ℕ × Bool) × World
unfolding after_insert
save_message m w = let (r, w') = exec (insert_message m) w in after_insert m.android_id r w'
