-- ===== src/Db/Rows/Pending.antt =====
-- The rows that GetPendingOutbox reads.
use abb_app.Base.{
  ℕ, ◌≡◌, refl, ◌∙◌, Bool-cases, inl, inr, none, some, List, [], ◌∷◌, leb, ◌==◌, arith,
  if◌then◌else◌,
}
use abb_app.Db.{OutboxRow, find_outbox, status_eq}
use abb_app.Db.Outbox.{insert_by_schedule, by_schedule, pending_rows}
use abb_app.Model.{pending}
use abb_app.Db.Rows.{Distinct, filter-Distinct, find_outbox-filter, keep}

find_outbox-insert_by_schedule :
    (r : OutboxRow) (rows : List OutboxRow)
    → find_outbox r.id rows ≡ none
    → (k : ℕ)
    → find_outbox k (insert_by_schedule r rows) ≡ (if r.id == k then some r else find_outbox k rows)
unfolding find_outbox insert_by_schedule
find_outbox-insert_by_schedule r [] h k = refl
find_outbox-insert_by_schedule r (s ∷ rs) h k =
    ground (arith, find_outbox-insert_by_schedule r rs (ground arith) k)

insert_by_schedule-Distinct :
    (r : OutboxRow) (rows : List OutboxRow)
    → find_outbox r.id rows ≡ none
    → Distinct rows
    → Distinct (insert_by_schedule r rows)
unfolding find_outbox insert_by_schedule
insert_by_schedule-Distinct r [] h d = (refl, tt)
insert_by_schedule-Distinct r (s ∷ rs) h d = elim (Bool-cases (leb r.scheduled_at s.scheduled_at)) [
  | inl le ↦ rw le (h, d)
  | inr gt ↦
      let apart : find_outbox r.id rs ≡ none = ground arith in
      rw gt (
        ground (arith, find_outbox-insert_by_schedule r rs apart s.id),
        insert_by_schedule-Distinct r rs apart d.1,
      )
]

by_schedule_lem :
    (rows : List OutboxRow)
    → Distinct rows
    → Distinct (by_schedule rows)
      × ((k : ℕ) → find_outbox k (by_schedule rows) ≡ find_outbox k rows)
unfolding by_schedule find_outbox
by_schedule_lem [] d = (tt, λ k. refl)
by_schedule_lem (r ∷ rs) d =
    let (distinct, same) = by_schedule_lem rs d.1 in
    let apart : find_outbox r.id (by_schedule rs) ≡ none = same r.id ∙ d.0 in
    (
      insert_by_schedule-Distinct r (by_schedule rs) apart distinct,
      λ k. ground (arith, find_outbox-insert_by_schedule r (by_schedule rs) apart k, same k),
    )

-- The rows that GetPendingOutbox reads have distinct ids, and are those with the status pending.
pub pending_rows-Distinct : (rows : List OutboxRow) → Distinct rows → Distinct (pending_rows rows)
unfolding pending_rows
pending_rows-Distinct rows d = (by_schedule_lem _ (filter-Distinct _ rows d)).0

pub find_outbox-pending_rows :
    (rows : List OutboxRow)
    → Distinct rows
    → (k : ℕ)
    → find_outbox k (pending_rows rows)
      ≡ keep (λ r. status_eq r.status pending) (find_outbox k rows)
unfolding pending_rows
find_outbox-pending_rows rows d k =
    (by_schedule_lem _ (filter-Distinct _ rows d)).1 k ∙ find_outbox-filter _ rows d k
