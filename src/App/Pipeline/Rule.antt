-- ===== src/App/Pipeline/Rule.antt =====
-- The rule by which an invariant of the single statements holds of every run.
use abb_app.Base.{
  ℕ, ◌≡◌, refl, inl, inr, Bool, true, false, Bool-cases, Option, none, some, List, [], ◌∷◌, ◌-◌,
  ◌/◌, arith,
}
use abb_app.Base.Text.{Text, text_eq}
use abb_app.Model.{Message, pending}
use abb_app.Db.{Db, OutboxRow, find_outbox, status_eq, second}
use abb_app.Db.Session.{Outcome, ok, err, World, exec}
use abb_app.Db.Messages.{
  insert_message, select_by_android, save_message, after_insert, update_translation,
}
use abb_app.Db.Outbox.{
  to_item, create_outbox_entry, reset_to_pending, cancel_stale_outbox, is_retryable,
  get_pending_outbox,
}
use abb_app.Db.Rows.{Distinct}
use abb_app.Dispatcher.{deliver}
use abb_app.Dispatcher.Sweep.{dispatch_once-inv}
use abb_app.Dispatcher.Reschedule.{Stable, Stable-exec, work-inv}
use abb_app.App.Save.{
  Translator, store_translation, translate, enqueue, after_save, save_and_enqueue, count_received,
}
use abb_app.App.Pipeline.{
  Config, Action, receive, dispatch, retry, cancel_stale, cancel_older, step, run,
}

-- What there is to show of the statements that write.
pub record IsInvariant (c : Config) (I : World → Type 0) : Type 0 where
  pub distinct : (w : World) → I w → Distinct w.db.outbox
  pub stable : Stable I
  pub insert : (m : Message) (w : World) → I w → I (exec (insert_message m) w).1
  pub translation : (id : ℕ) (t : Text) (w : World) → I w → I (exec (update_translation id t) w).1
  pub create : (id : ℕ) (ch : Text) (w : World) → I w → I (exec (create_outbox_entry id ch) w).1
  pub delivery :
      (r : OutboxRow) (w : World)
      → find_outbox r.id w.db.outbox ≡ some r
      → status_eq r.status pending ≡ true
      → I w
      → I (deliver c.senders (to_item r) w)
  pub reset :
      (r : OutboxRow) (w : World)
      → find_outbox r.id w.db.outbox ≡ some r
      → is_retryable c.max_attempts r ≡ true
      → I w
      → I (exec (reset_to_pending r.id) w).1
  pub cancel : (cutoff : ℕ) (w : World) → I w → I (exec (cancel_stale_outbox cutoff) w).1

select_by_android-reads : (k : Text) (t : ℕ) (d : Db) → (select_by_android k t d).1 ≡ d
unfolding select_by_android
select_by_android-reads k t d = ground arith

pub get_pending_outbox-reads : (t : ℕ) (d : Db) → (get_pending_outbox t d).1 ≡ d
unfolding get_pending_outbox
get_pending_outbox-reads t d = refl

module _ (c : Config) (I : World → Type 0) (inv : IsInvariant c I) where
  enqueue-inv : (id : ℕ) (channels : List Text) (w : World) → I w → I (enqueue id channels w)
  unfolding enqueue
  enqueue-inv id [] w h = h
  enqueue-inv id (ch ∷ channels) w h = enqueue-inv id channels _ (inv.create id ch w h)

  store_translation-inv :
      (tr : Translator) (id : ℕ) (o : Outcome (Text × Text)) (w : World)
      → I w
      → I (store_translation tr id o w)
  unfolding store_translation
  store_translation-inv tr id (err e) w h = h
  store_translation-inv tr id (ok (translated, lang)) w h =
      elim (Bool-cases (text_eq lang tr.target_lang)) [
        | inl same ↦ rw same h
        | inr other ↦ rw other (inv.translation id translated w h)
      ]

  translate-inv :
      (tr : Option Translator) (msg : Message) (id : ℕ) (w : World)
      → I w
      → I (translate tr msg id w)
  unfolding translate
  translate-inv none msg id w h = h
  translate-inv (some tr) msg id w h = store_translation-inv tr id _ w h

  after_save-inv :
      (tr : Option Translator) (channels : List Text) (msg : Message) (o : Outcome (ℕ × Bool))
      (w : World)
      → I w
      → I (after_save tr channels msg o w).1
  unfolding after_save
  after_save-inv tr channels msg (err e) w h = h
  after_save-inv tr channels msg (ok (id, false)) w h = h
  after_save-inv tr channels msg (ok (id, true)) w h = enqueue-inv id channels _ (
      translate-inv tr msg id (count_received w)
        (inv.stable w (count_received w) refl refl (λ calm. calm) (omega arith) h))

  after_insert-inv :
      (k : Text) (o : Outcome (Option ℕ)) (w : World) → I w → I (after_insert k o w).1
  unfolding after_insert
  after_insert-inv k (err e) w h = h
  after_insert-inv k (ok (some id)) w h = h
  after_insert-inv k (ok none) w h =
      Stable-exec I inv.stable (select_by_android k) (select_by_android-reads k) w h

  save_message-inv : (m : Message) (w : World) → I w → I (save_message m w).1
  unfolding save_message
  save_message-inv m w h = after_insert-inv m.android_id _ _ (inv.insert m w h)

  step-inv : (a : Action) (w : World) → I w → I (step c a w)
  unfolding step
  step-inv (receive msg) w h =
      unfold save_and_enqueue in
      after_save-inv c.translator c.channels msg _ _ (save_message-inv msg w h)
  step-inv (dispatch ctx) w h =
      dispatch_once-inv ctx c.senders I inv.delivery w (inv.distinct w h)
        (Stable-exec I inv.stable get_pending_outbox get_pending_outbox-reads w h)
  step-inv (retry ctx) w h =
      work-inv ctx c.senders c.max_attempts c.retry_base I inv.stable inv.reset
        (λ w' h'.
          dispatch_once-inv ctx c.senders I inv.delivery w' (inv.distinct w' h')
            (Stable-exec I inv.stable get_pending_outbox get_pending_outbox-reads w' h'))
        w (inv.distinct w h) h
  step-inv (cancel_stale older_than) w h =
      unfold cancel_older in inv.cancel ((w.now - older_than) / second) w h

  pub run-inv : (actions : List Action) (w : World) → I w → I (run c actions w)
  unfolding run
  run-inv [] w h = h
  run-inv (a ∷ rest) w h = run-inv rest (step c a w) (step-inv a w h)
