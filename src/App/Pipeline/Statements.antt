-- ===== src/App/Pipeline/Statements.antt =====
-- Each statement of the program keeps an invariant whose laws hold.
use native.Mathlib.Decide.{ℕ_discrete}
use mathlib.Core.Option
use abb_app.Base.{
  ℕ, ◌+◌, ◌≡◌, refl, ◌≢◌, subst, inl, inr, Bool, true, Bool-cases, Option, none, some, List, [],
  ◌∷◌, ◌++◌, arith, if◌then◌else◌,
}
use abb_app.Base.Text.{Text}
use abb_app.Model.{pending}
use abb_app.Db.{Db, OutboxRow, find_outbox, max_outbox_id, status_eq}
use abb_app.Db.Session.{World, SendEvent, exec}
use abb_app.Db.Outbox.{
  to_item, create_outbox_entry, new_row, reset_to_pending, cancel_stale_outbox, as_cancelled,
  is_retryable, is_stale, as_pending, as_sent, as_failed,
}
use abb_app.Db.Rows.{
  append-Distinct, map-Distinct, update_outbox-Distinct, find_outbox-append, find_outbox-map,
  find_outbox-beyond, find_outbox-update_self, find_outbox-update_ne,
}
use abb_app.Dispatcher.{Senders, deliver}
use abb_app.Dispatcher.Effect.{
  Effect, Faultless, deliver-Effect, unread, unsent, delivered, rejected, lost,
  outbox-append_delivery_log,
}
use abb_app.Dispatcher.Sweep.{
  deliver-frame, deliver-Distinct, deliver-keeps, messages-append_delivery_log,
}
use abb_app.Dispatcher.Drain.{References}
use abb_app.App.Pipeline.{Config}
use abb_app.App.Pipeline.Rule.{IsInvariant}
use abb_app.App.Pipeline.Rows.{
  Claim, RowLaws, Holds, Mode-true, Mode-deliver, exec-Holds, Holds-Stable,
}
use abb_app.App.Pipeline.Changes.{
  References-update, References-map, create_outbox_entry-cases, insert-Holds, translation-Holds,
  References-new, same_eq, ne_eq,
}

module _ (calm : Bool) (max_attempts : ℕ) (P : Claim) (laws : RowLaws calm max_attempts P) where
  create-rows :
      (d : Db) (s : List SendEvent) (id : ℕ) (ch : Text) (t : ℕ)
      → ((k : ℕ) → P s k (find_outbox k d.outbox))
      → (k : ℕ)
      → P s k (find_outbox k (d.outbox ++ new_row (max_outbox_id d.outbox + 1) id ch t ∷ []))
  create-rows d s id ch t rows k =
      rw (find_outbox-append (new_row new id ch t) d.outbox refl) (elim (ℕ_discrete new k) [
        | yes same ↦ rw (same_eq new k same) (
            rw (← same) (
              laws.create s new id ch t
                (subst (P s new) (find_outbox-beyond new d.outbox (omega arith)) (rows new))))
        | no apart ↦ rw (ne_eq new k apart) (rows k)
      ])
    where
      new : ℕ
      new = max_outbox_id d.outbox + 1

  create-Holds :
      (id : ℕ) (ch : Text) (w : World)
      → Holds calm P w
      → Holds calm P (exec (create_outbox_entry id ch) w).1
  create-Holds id ch w h =
      exec-Holds calm P (create_outbox_entry id ch) w
        (λ t. elim (create_outbox_entry-cases id ch t w.db) [
          | inl same ↦ rw same (h.distinct, h.references, h.rows)
          | inr (stored, grown) ↦ rw grown (
            append-Distinct _ w.db.outbox (find_outbox-beyond _ w.db.outbox (omega arith))
                h.distinct,
            References-new w.db (new_row (max_outbox_id w.db.outbox + 1) id ch t) refl stored
                h.references,
            create-rows w.db w.sends id ch t h.rows,
          )
        ])
        h

  reset-Holds :
      (r : OutboxRow) (w : World)
      → find_outbox r.id w.db.outbox ≡ some r
      → is_retryable max_attempts r ≡ true
      → Holds calm P w
      → Holds calm P (exec (reset_to_pending r.id) w).1
  unfolding reset_to_pending
  reset-Holds r w here fit h =
      exec-Holds calm P (reset_to_pending r.id) w
        (λ t. (
          update_outbox-Distinct r.id as_pending (λ s. refl) w.db.outbox h.distinct,
          References-update w.db as_pending (λ s. refl) r.id (λ s. refl) h.references,
          λ k. elim (ℕ_discrete r.id k) [
            | yes same ↦
                rw (← same, find_outbox-update_self as_pending (λ s. refl) r.id w.db.outbox r here)
                  (laws.reset w.sends r.id r fit (subst (P w.sends r.id) here (h.rows r.id)))
            | no apart ↦
                rw (find_outbox-update_ne as_pending (λ s. refl) r.id k w.db.outbox apart)
                  (h.rows k)
          ],
        ))
        h

  cancel-row :
      (s : List SendEvent) (k cutoff : ℕ) (o : Option OutboxRow)
      → P s k o
      → P s k (Option.map (λ r. if is_stale cutoff r then as_cancelled r else r) o)
  cancel-row s k cutoff none h = h
  cancel-row s k cutoff (some r) h = elim (Bool-cases (is_stale cutoff r)) [
    | inl stale ↦ rw stale (laws.cancel s k cutoff r stale h)
    | inr fresh ↦ rw fresh h
  ]

  cancel-Holds :
      (cutoff : ℕ) (w : World)
      → Holds calm P w
      → Holds calm P (exec (cancel_stale_outbox cutoff) w).1
  unfolding cancel_stale_outbox
  cancel-Holds cutoff w h =
      exec-Holds calm P (cancel_stale_outbox cutoff) w
        (λ t. (
          map-Distinct _ (λ r. ground arith) w.db.outbox h.distinct,
          References-map w.db _ (λ r. ground arith) (λ r. ground arith) h.references,
          λ k.
              rw
                (find_outbox-map (λ r. if is_stale cutoff r then as_cancelled r else r)
                  (λ r. ground arith) k w.db.outbox)
                (cancel-row w.sends k cutoff (find_outbox k w.db.outbox) (h.rows k)),
        ))
        h

  other-row :
      (F : Type 0) (r : OutboxRow) (s s' : List SendEvent) (row : Option OutboxRow) (k : ℕ)
      (o : Option OutboxRow)
      → r.id ≢ k
      → P s k o
      → Effect F r.id r s row s'
      → P s' k o
  other-row F r s s' row k o apart h (unread _ _ e) = rw e h
  other-row F r s s' row k o apart h (unsent _ _ e) = rw e h
  other-row F r s s' row k o apart h (delivered _ _ _ e) = rw e (laws.other s _ k o apart h)
  other-row F r s s' row k o apart h (rejected _ _ _ e) = rw e (laws.other s _ k o apart h)
  other-row F r s s' row k o apart h (lost _ _ _ _ e) = rw e (laws.other s _ k o apart h)

  deliver-Holds :
      (senders : Senders) (r : OutboxRow) (w : World)
      → find_outbox r.id w.db.outbox ≡ some r
      → status_eq r.status pending ≡ true
      → Holds calm P w
      → Holds calm P (deliver senders (to_item r) w)
  deliver-Holds senders r w here waiting h =
      let effect = deliver-Effect senders (to_item r) w r here in
      record {
        distinct = deliver-Distinct senders (to_item r) w h.distinct;
        references =
            deliver-keeps References (to_item r)
              (λ t d p. References-update d (as_sent t) (λ s. refl) r.id (λ s. refl) p)
              (λ e d p. References-update d (as_failed e) (λ s. refl) r.id (λ s. refl) p)
              (λ b e t d p.
                rw
                  (
                    outbox-append_delivery_log r.id b e t d,
                    messages-append_delivery_log r.id b e t d,
                  )
                  p)
              senders w h.references;
        mode = Mode-deliver calm senders r w h.mode;
        rows = λ k. elim (ℕ_discrete r.id k) [
          | yes same ↦ rw (← same) (
              laws.delivery (Faultless (to_item r) w) r.id r w.sends _ _
                (λ c. (Mode-true calm w.ticks h.mode c, h.references r.id r here)) refl waiting
                (subst (P w.sends r.id) here (h.rows r.id)) effect)
          | no apart ↦
              rw (deliver-frame senders (to_item r) w k _ apart refl)
                (other-row _ r w.sends _ _ k _ apart (h.rows k) effect)
        ];
      }

-- An invariant whose laws hold is kept by every statement.
pub Holds-IsInvariant :
    (c : Config) (calm : Bool) (P : Claim)
    → RowLaws calm c.max_attempts P
    → IsInvariant c (Holds calm P)
Holds-IsInvariant c calm P laws = record {
  distinct = λ w h. h.distinct;
  stable = Holds-Stable calm P;
  insert = insert-Holds calm P;
  translation = translation-Holds calm P;
  create = create-Holds calm c.max_attempts P laws;
  delivery = deliver-Holds calm c.max_attempts P laws c.senders;
  reset = reset-Holds calm c.max_attempts P laws;
  cancel = cancel-Holds calm c.max_attempts P laws;
}
