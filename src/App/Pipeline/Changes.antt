-- ===== src/App/Pipeline/Changes.antt =====
-- What the statements on messages, and the creation of outbox rows, do to the tables and to an
-- invariant of the rows.
use mathlib.Core.Option
use abb_app.Base.{
  ℕ, ◌+◌, ◌≡◌, refl, ◌≢◌, ◌⊎◌, ◌∙◌, ap, sym, inl, inr, Bool, true, false, Option, Option-cases,
  none, some, List, [], ◌∷◌, ◌++◌, map, ◌==◌, arith, if◌then◌else◌,
}
use abb_app.Base.Text.{Text}
use abb_app.Model.{Message}
use abb_app.Db.{
  Db, MessageRow, OutboxRow, find_outbox, find_message, max_outbox_id, max_message_id,
  update_outbox,
}
use abb_app.Db.Session.{World, exec}
use abb_app.Db.Messages.{insert_message, update_translation, find_android, to_row}
use abb_app.Db.Outbox.{create_outbox_entry, new_row}
use abb_app.Db.Rows.{
  KeepsId, find_outbox-append, find_outbox-map, find_outbox-update_outbox, find_message-append,
  find_message-set_translation,
}
use abb_app.Dispatcher.Drain.{References}
use abb_app.App.Pipeline.Rows.{Claim, Holds, exec-Holds}

References-append :
    (d : Db) (extra : List MessageRow)
    → References d
    → References (record d { messages = d.messages ++ extra })
References-append d extra refs k r h =
    find_message-append r.message_id d.messages extra (refs k r h)

-- A row found after an update was there before, with the same message.
module _ (d : Db) (f : OutboxRow → OutboxRow)
    (kept : (r : OutboxRow) → (f r).message_id ≡ r.message_id) where
  References-origin :
      (outbox : List OutboxRow)
      → ((k : ℕ) (r : OutboxRow)
          → find_outbox k outbox ≡ some r
          → (s : OutboxRow) × (find_outbox k d.outbox ≡ some s) × (r.message_id ≡ s.message_id))
      → References d
      → References (record d { outbox = outbox })
  References-origin outbox origin refs k r h =
      let (s, found, same) = origin k r h in rw same (refs k s found)

  origin-update :
      (b : Bool) (o : Option OutboxRow) (r : OutboxRow)
      → (if b then Option.map f o else o) ≡ some r
      → (s : OutboxRow) × (o ≡ some s) × (r.message_id ≡ s.message_id)
  origin-update b none r h = absurd (ground arith)
  origin-update true (some s) r h = (
    s,
    refl,
    ap (λ (x : Option OutboxRow). elim x [ none ↦ 0 | some y ↦ y.message_id ]) (sym h) ∙ kept s,
  )
  origin-update false (some s) r h = (s, refl, ground arith)

  pub References-update :
      (id : ℕ)
      → KeepsId f
      → References d
      → References (record d { outbox = update_outbox id f d.outbox })
  References-update id same refs =
      References-origin (update_outbox id f d.outbox)
        (λ k r h.
          origin-update (id == k) (find_outbox k d.outbox) r
            (sym (find_outbox-update_outbox id f same k d.outbox) ∙ h))
        refs

  pub References-map : KeepsId f → References d → References (record d { outbox = map f d.outbox })
  References-map same refs =
      References-origin (map f d.outbox)
        (λ k r h.
          origin-update true (find_outbox k d.outbox) r
            (sym (find_outbox-map f same k d.outbox) ∙ h))
        refs

insert_message-cases :
    (m : Message) (t : ℕ) (d : Db)
    → ((insert_message m t d).1 ≡ d)
      ⊎ ((row : MessageRow) × ((insert_message m t d).1
            ≡ record d { messages = d.messages ++ row ∷ [] }))
unfolding insert_message
insert_message-cases m t d = elim (Option-cases (find_android m.android_id d.messages)) [
  | inl new ↦ inr (to_row (max_message_id d.messages + 1) m, ground arith)
  | inr (r, old) ↦ inl (ground arith)
]

pub create_outbox_entry-cases :
    (id : ℕ) (ch : Text) (t : ℕ) (d : Db)
    → ((create_outbox_entry id ch t d).1 ≡ d)
      ⊎ ((find_message id d.messages ≢ none)
          × ((create_outbox_entry id ch t d).1 ≡ record d {
            outbox = d.outbox ++ new_row (max_outbox_id d.outbox + 1) id ch t ∷ [];
          }))
unfolding create_outbox_entry
create_outbox_entry-cases id ch t d = elim (Option-cases (find_message id d.messages)) [
  | inl missing ↦ inl (rw (missing, create_outbox_entry))
  | inr (m, found) ↦ inr (rw found (λ e. cc), rw (found, create_outbox_entry))
]

module _ (calm : Bool) (P : Claim) where
  pub insert-Holds :
      (m : Message) (w : World) → Holds calm P w → Holds calm P (exec (insert_message m) w).1
  insert-Holds m w h =
      exec-Holds calm P (insert_message m) w
        (λ t. elim (insert_message-cases m t w.db) [
          | inl same ↦ rw same (h.distinct, h.references, h.rows)
          | inr (row, grown) ↦
              rw grown (h.distinct, References-append w.db (row ∷ []) h.references, h.rows)
        ])
        h

  pub translation-Holds :
      (id : ℕ) (text : Text) (w : World)
      → Holds calm P w
      → Holds calm P (exec (update_translation id text) w).1
  unfolding update_translation
  translation-Holds id text w h =
      exec-Holds calm P (update_translation id text) w
        (λ t. (
          h.distinct,
          λ k r e.
              find_message-set_translation r.message_id id text w.db.messages (h.references k r e),
          h.rows,
        ))
        h

new-message :
    (b : Bool) (o : Option OutboxRow) (n r : OutboxRow)
    → (if b then some n else o) ≡ some r
    → (r.message_id ≡ n.message_id) ⊎ (o ≡ some r)
new-message true o n r h = inl (ground arith)
new-message false o n r h = inr h

pub References-new :
    (d : Db) (n : OutboxRow)
    → n.id ≡ max_outbox_id d.outbox + 1
    → find_message n.message_id d.messages ≢ none
    → References d
    → References (record d { outbox = d.outbox ++ n ∷ [] })
References-new d n e stored refs k r h =
    elim (new-message (n.id == k) (find_outbox k d.outbox) n r
      (sym (find_outbox-append n d.outbox e k) ∙ h)) [
        | inl new ↦ rw new stored
        | inr old ↦ refs k r old
      ]

pub same_eq : (a b : ℕ) → a ≡ b → (a == b) ≡ true
same_eq a b h = ground arith

pub ne_eq : (a b : ℕ) → a ≢ b → (a == b) ≡ false
ne_eq a b h = ground arith
