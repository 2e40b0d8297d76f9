-- ===== src/App/Threads/Steps.antt =====
-- What every step of the goroutines preserves.
use abb_app.Base.{ℕ, ◌+◌, ◌≡◌, refl, ap, sym, subst, inl, inr, List, [], ◌∷◌, ◌++◌, arith}
use abb_app.Base.Text.{Text}
use abb_app.Model.{Message, OutboxItem, RetryItem}
use abb_app.Db.{Db, OutboxRow, max_outbox_id}
use abb_app.Db.Session.{Outcome, ok, err, SendEvent}
use abb_app.Db.Messages.{insert_message, update_translation}
use abb_app.Db.Outbox.{
  new_row, as_sent, as_failed, as_pending, get_pending_outbox, get_failed_outbox, mark_outbox_sent,
  mark_outbox_failed, reset_to_pending, cancel_stale_outbox, create_outbox_entry,
}
use abb_app.Db.Rows.{
  Distinct, update_outbox-Distinct, map-Distinct, append-Distinct, find_outbox-beyond,
}
use abb_app.Dispatcher.{Senders, succeeded}
use abb_app.Dispatcher.Effect.{outbox-append_delivery_log}
use abb_app.App.Pipeline.Changes.{create_outbox_entry-cases}
use abb_app.App.Threads.{
  System, Phase, sweeping, fetched, answered, mark, Step, begin, finish, unregistered, fetch,
  unread, send, update, append_log, look, early, reset, cancel, insert, translate, enqueue,
}
use abb_app.App.Threads.Counts.{count}
use abb_app.App.Threads.Invariant.{cancelled_if}
use abb_app.App.Threads.Claims.{
  Good, Claim, Good-begin, Good-next, Good-finish, Good-send, Good-update, Good-look, Good-early,
  Good-reset, Good-cancel, Good-enqueue,
}

-- `lost k` says how many deliveries of the item k its row has not been told of.
pub record Inv (lost : ℕ → ℕ) (s : System) : Type 0 where
  pub distinct : Distinct s.db.outbox
  pub good : (k : ℕ) → Claim (lost k) s.db.outbox s.sends s.phase s.retrying k

module _ (lost : ℕ → ℕ) (s : System) (inv : Inv lost s) (k : ℕ) where
  -- The claim, with the phase or the retry worker's items written out.
  pub at_phase : (p : Phase) → s.phase ≡ p → Claim (lost k) s.db.outbox s.sends p s.retrying k
  at_phase p e = subst (λ p. Claim (lost k) s.db.outbox s.sends p s.retrying k) e (inv.good k)

  pub at_items :
      (r : List RetryItem) → s.retrying ≡ r → Claim (lost k) s.db.outbox s.sends s.phase r k
  at_items r e = subst (λ r. Claim (lost k) s.db.outbox s.sends s.phase r k) e (inv.good k)

-- The statements on messages leave the outbox alone.
pub outbox-insert_message :
    (m : Message) (t : ℕ) (d : Db) → (insert_message m t d).1.outbox ≡ d.outbox
unfolding insert_message
outbox-insert_message m t d = ground arith

outbox-mark-Distinct :
    (id : ℕ) (answer : Outcome (Unit {0})) (t : ℕ) (d : Db)
    → Distinct d.outbox
    → Distinct (mark id answer t d).outbox
unfolding mark mark_outbox_sent mark_outbox_failed
outbox-mark-Distinct id (ok u) t d h = update_outbox-Distinct id (as_sent t) (λ s. refl) d.outbox h
outbox-mark-Distinct id (err e) t d h =
    update_outbox-Distinct id (as_failed e) (λ s. refl) d.outbox h

-- A statement that leaves the outbox as it was.
same_outbox :
    (lost : ℕ → ℕ) (s : System) (d : Db)
    → d.outbox ≡ s.db.outbox
    → Inv lost s
    → Inv lost (record s { db = d })
same_outbox lost s d e inv = record {
  distinct = rw e inv.distinct;
  good = λ k.
      subst (λ (o : List OutboxRow). Claim (lost k) o s.sends s.phase s.retrying k) (sym e)
        (inv.good k);
}

enqueue-Inv :
    (lost : ℕ → ℕ) (s : System) (id : ℕ) (ch : Text) (now : ℕ)
    → Inv lost s
    → Inv lost (record s { db = (create_outbox_entry id ch now s.db).1 })
enqueue-Inv lost s id ch now inv = elim (create_outbox_entry-cases id ch now s.db) [
  | inl e ↦ same_outbox lost s _ (ap (λ (d : Db). d.outbox) e) inv
  | inr (found, e) ↦
      let row : OutboxRow = new_row (max_outbox_id s.db.outbox + 1) id ch now in
      let added : (create_outbox_entry id ch now s.db).1.outbox ≡ s.db.outbox ++ row ∷ [] =
        ap (λ (d : Db). d.outbox) e in
      record {
        distinct = rw added (
            append-Distinct row s.db.outbox
              (find_outbox-beyond (max_outbox_id s.db.outbox + 1) s.db.outbox (omega arith))
              inv.distinct);
        good = λ k.
            subst (λ (o : List OutboxRow). Claim (lost k) o s.sends s.phase s.retrying k)
              (sym added)
              (let (kept, n, g) = inv.good k in
                (kept, n, Good-enqueue s.db.outbox kept s.phase s.retrying k id ch now g));
      }
]

-- A step of a goroutine, by what it does to the claim of each id.
pub phase-Inv :
    (lost : ℕ → ℕ) (s : System) (p q : Phase)
    → s.phase ≡ p
    → ((k : ℕ) (kept : List SendEvent)
        → Good s.db.outbox kept p s.retrying k
        → Good s.db.outbox kept q s.retrying k)
    → Inv lost s
    → Inv lost (record s { phase = q })
phase-Inv lost s p q e f inv = record {
  distinct = inv.distinct;
  good = λ k. let (kept, n, g) = at_phase lost s inv k p e in (kept, n, f k kept g);
}

send-Inv :
    (lost : ℕ → ℕ) (s : System) (item : OutboxItem) (msg : Message) (items : List OutboxItem)
    (answer : Outcome (Unit {0}))
    → s.phase ≡ fetched item msg items
    → Inv lost s
    → Inv lost (record s {
      phase = answered item answer items;
      sends =
          record { item = item.id; channel = item.channel; success = succeeded answer } ∷ s.sends;
    })
send-Inv lost s item msg items answer e inv = record {
  distinct = inv.distinct;
  good = λ k.
      let (kept, n, g) = at_phase lost s inv k _ e in
      let event : SendEvent = record {
        item = item.id;
        channel = item.channel;
        success = succeeded answer;
      } in
      (
        event ∷ kept,
        omega (arith, n),
        Good-send s.db.outbox kept s.retrying k item item.channel answer items g,
      );
}

pub Step-Inv :
    {senders : Senders} {m : ℕ} (lost : ℕ → ℕ) {s t : System}
    → Step senders m s t
    → Inv lost s
    → Inv lost t
unfolding get_pending_outbox get_failed_outbox reset_to_pending cancel_stale_outbox
    update_translation count
Step-Inv lost {s} (begin now e) inv =
    phase-Inv lost s _ _ e (λ k kept. Good-begin s.db.outbox kept s.retrying k inv.distinct) inv
Step-Inv lost {s} (finish items e) inv =
    phase-Inv lost s _ _ e (λ k kept. Good-finish s.db.outbox kept s.retrying k items) inv
Step-Inv lost {s} (unregistered item items e missing) inv =
    phase-Inv lost s _ _ e (λ k kept g. g) inv
Step-Inv lost {s} (fetch now item msg items e found) inv =
    phase-Inv lost s _ _ e (λ k kept g. g) inv
Step-Inv lost {s} (unread now item x items e gone) inv =
    phase-Inv lost s _ _ e (λ k kept. Good-next s.db.outbox kept s.retrying k item items) inv
Step-Inv lost {s} (send item msg items answer e) inv = send-Inv lost s item msg items answer e inv
Step-Inv lost {s} (update now item answer items e) inv = record {
  distinct = outbox-mark-Distinct item.id answer now s.db inv.distinct;
  good = λ k.
      let (kept, n, g) = at_phase lost s inv k _ e in
      (kept, n, Good-update s.db.outbox kept s.retrying k now item answer items s.db refl g);
}
Step-Inv lost {s} (append_log now item answer items e) inv =
    same_outbox lost (record s { phase = sweeping items }) _
      (outbox-append_delivery_log item.id _ _ now s.db) (phase-Inv lost s _ _ e (λ k kept g. g) inv)
Step-Inv {m = m} lost {s} (look now e) inv = record {
  distinct = inv.distinct;
  good = λ k.
      let (kept, n, g) = at_items lost s inv k _ e in
      (kept, n, Good-look s.db.outbox kept s.phase k m s.db.delivery_log inv.distinct g);
}
Step-Inv lost {s} (early item items e) inv = record {
  distinct = inv.distinct;
  good = λ k.
      let (kept, n, g) = at_items lost s inv k _ e in
      (kept, n, Good-early s.db.outbox kept s.phase k item items g);
}
Step-Inv lost {s} (reset now item items e) inv = record {
  distinct = update_outbox-Distinct item.id as_pending (λ r. refl) s.db.outbox inv.distinct;
  good = λ k.
      let (kept, n, g) = at_items lost s inv k _ e in
      (kept, n, Good-reset s.db.outbox kept s.phase k item items g);
}
Step-Inv lost {s} (cancel cutoff now) inv = record {
  distinct = map-Distinct (cancelled_if cutoff) (λ r. ground arith) s.db.outbox inv.distinct;
  good = λ k.
      let (kept, n, g) = inv.good k in
      (kept, n, Good-cancel s.db.outbox kept s.phase s.retrying k cutoff g);
}
Step-Inv lost {s} (insert x now) inv = same_outbox lost s _ (outbox-insert_message x now s.db) inv
Step-Inv lost {s} (translate id x now) inv = same_outbox lost s _ refl inv
Step-Inv lost {s} (enqueue id ch now) inv = enqueue-Inv lost s id ch now inv
