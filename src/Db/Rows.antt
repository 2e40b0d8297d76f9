-- ===== src/Db/Rows.antt =====
-- Lookups in the table outbox, and what the statements do to them.
pub mod Pending
use abb_app.Base.{
  ℕ, ◌+◌, ◌≤◌, ◌<◌, ◌≡◌, refl, ◌≢◌, ◌∙◌, ap, Bool, true, Bool-cases, inl, inr, Option, Option-cases,
  none, some, List, [], ◌∷◌, ◌++◌, map, filter, All, All-imp, leb, ◌==◌, arith, if◌then◌else◌,
}
use mathlib.Core.Option
use abb_app.Db.Messages.{set_translation}
use abb_app.Base.Text.{Text}
use abb_app.Db.{
  MessageRow, find_message, OutboxRow, max_outbox_id, find_outbox, update_outbox, status_eq,
}
use abb_app.Db.Outbox.{insert_by_schedule, by_schedule, pending_rows}
use abb_app.Model.{pending}

-- The update writes other columns than the key.
abbrev pub KeepsId : (OutboxRow → OutboxRow) → Type 0
KeepsId f = (r : OutboxRow) → (f r).id ≡ r.id

pub find_outbox-update_outbox :
    (j : ℕ) (f : OutboxRow → OutboxRow)
    → KeepsId f
    → (k : ℕ) (rows : List OutboxRow)
    → find_outbox k (update_outbox j f rows)
      ≡ (if j == k then Option.map f (find_outbox k rows) else find_outbox k rows)
unfolding find_outbox update_outbox
find_outbox-update_outbox j f same k [] = ground arith
find_outbox-update_outbox j f same k (r ∷ rs) =
    ground (arith, same r, find_outbox-update_outbox j f same k rs)

pub find_outbox-update_self :
    (f : OutboxRow → OutboxRow)
    → KeepsId f
    → (id : ℕ) (rows : List OutboxRow) (r : OutboxRow) → find_outbox id rows ≡ some r
    → find_outbox id (update_outbox id f rows) ≡ some (f r)
find_outbox-update_self f same id rows r h = rw (find_outbox-update_outbox id f same) (ground arith)

pub find_outbox-update_ne :
    (f : OutboxRow → OutboxRow)
    → KeepsId f
    → (id k : ℕ) (rows : List OutboxRow) → id ≢ k
    → find_outbox k (update_outbox id f rows) ≡ find_outbox k rows
find_outbox-update_ne f same id k rows h = rw (find_outbox-update_outbox id f same) (ground arith)

pub find_outbox-map :
    (f : OutboxRow → OutboxRow)
    → KeepsId f
    → (k : ℕ) (rows : List OutboxRow)
    → find_outbox k (map f rows) ≡ Option.map f (find_outbox k rows)
unfolding find_outbox
find_outbox-map f same k [] = refl
find_outbox-map f same k (r ∷ rs) = ground (arith, same r, find_outbox-map f same k rs)

pub find_outbox-here :
    (r : OutboxRow) (rs : List OutboxRow) (k : ℕ) → r.id ≡ k → find_outbox k (r ∷ rs) ≡ some r
unfolding find_outbox
find_outbox-here r rs k h = ground arith

pub find_outbox-there :
    (r : OutboxRow) (rs : List OutboxRow) (k : ℕ)
    → r.id ≢ k
    → find_outbox k (r ∷ rs) ≡ find_outbox k rs
unfolding find_outbox
find_outbox-there r rs k h = ground arith

pub find_outbox-id :
    (k : ℕ) (rows : List OutboxRow) (r : OutboxRow) → find_outbox k rows ≡ some r → r.id ≡ k
unfolding find_outbox
find_outbox-id k [] r h = cc
find_outbox-id k (s ∷ rs) r h = ground (arith, find_outbox-id k rs r)

find_outbox-le-max :
    (k : ℕ) (rows : List OutboxRow) (r : OutboxRow)
    → find_outbox k rows ≡ some r
    → k ≤ max_outbox_id rows
unfolding find_outbox max_outbox_id
find_outbox-le-max k [] r h = cc
find_outbox-le-max k (s ∷ rs) r h = ground (arith, find_outbox-le-max k rs r)

-- No row has an id beyond the largest.
pub find_outbox-beyond :
    (k : ℕ) (rows : List OutboxRow) → max_outbox_id rows < k → find_outbox k rows ≡ none
find_outbox-beyond k rows h = elim (Option-cases (find_outbox k rows)) [
  | inl e ↦ e
  | inr (r, e) ↦ absurd (omega (arith, find_outbox-le-max k rows r e))
]

abbrev or_else : Option OutboxRow → Option OutboxRow → Option OutboxRow
or_else none y = y
or_else (some x) y = some x

find_outbox-append_or :
    (r : OutboxRow) (rows : List OutboxRow) (k : ℕ)
    → find_outbox k (rows ++ r ∷ [])
      ≡ or_else (find_outbox k rows) (if r.id == k then some r else none)
unfolding find_outbox
find_outbox-append_or r [] k = refl
find_outbox-append_or r (s ∷ rs) k = ground (arith, find_outbox-append_or r rs k)

-- A row is appended with an id that no row has.
pub find_outbox-append :
    (r : OutboxRow) (rows : List OutboxRow)
    → r.id ≡ max_outbox_id rows + 1
    → (k : ℕ) → find_outbox k (rows ++ r ∷ []) ≡ (if r.id == k then some r else find_outbox k rows)
find_outbox-append r rows e k = rw find_outbox-append_or (ground (arith, find_outbox-beyond k rows))

-- No two rows have the same id: a row's id is not found behind it.
abbrev pub Distinct : List OutboxRow → Type 0
Distinct [] = Unit
Distinct (r ∷ rs) = (find_outbox r.id rs ≡ none) × Distinct rs

find_outbox-update_none :
    (j : ℕ) (f : OutboxRow → OutboxRow)
    → KeepsId f
    → (k : ℕ) (rows : List OutboxRow) → find_outbox k rows ≡ none
    → find_outbox k (update_outbox j f rows) ≡ none
find_outbox-update_none j f same k rows h = rw (find_outbox-update_outbox j f same) (ground arith)

pub update_outbox-Distinct :
    (j : ℕ) (f : OutboxRow → OutboxRow)
    → KeepsId f
    → (rows : List OutboxRow) → Distinct rows
    → Distinct (update_outbox j f rows)
unfolding update_outbox
update_outbox-Distinct j f same [] h = tt
update_outbox-Distinct j f same (r ∷ rs) h = (
  find_outbox-update_none j f same _ rs (ground (arith, same r)),
  update_outbox-Distinct j f same rs h.1,
)

pub map-Distinct :
    (f : OutboxRow → OutboxRow)
    → KeepsId f
    → (rows : List OutboxRow) → Distinct rows
    → Distinct (map f rows)
map-Distinct f same [] h = tt
map-Distinct f same (r ∷ rs) h =
    (rw (find_outbox-map f same) (ground (arith, same r)), map-Distinct f same rs h.1)

pub append-Distinct :
    (r : OutboxRow) (rows : List OutboxRow)
    → find_outbox r.id rows ≡ none
    → Distinct rows
    → Distinct (rows ++ r ∷ [])
unfolding find_outbox
append-Distinct r [] h d = (refl, tt)
append-Distinct r (s ∷ rs) h d =
    (rw find_outbox-append_or (ground arith), append-Distinct r rs (ground arith) d.1)

-- The row, if it passes the test.
abbrev pub keep : (OutboxRow → Bool) → Option OutboxRow → Option OutboxRow
keep p none = none
keep p (some r) = if p r then some r else none

pub keep-some :
    (p : OutboxRow → Bool) (o : Option OutboxRow) (r : OutboxRow)
    → keep p o ≡ some r
    → (o ≡ some r) × (p r ≡ true)
keep-some p none r h = cc
keep-some p (some s) r h = elim (Bool-cases (p s)) [
  | inl t ↦ let e : s ≡ r = ground arith in (ap some e, rw (← e) t)
  | inr f ↦ absurd (ground arith)
]

pub find_outbox-filter :
    (p : OutboxRow → Bool) (rows : List OutboxRow)
    → Distinct rows
    → (k : ℕ) → find_outbox k (filter p rows) ≡ keep p (find_outbox k rows)
unfolding find_outbox
find_outbox-filter p [] d k = refl
find_outbox-filter p (r ∷ rs) d k = elim (Bool-cases (r.id == k)) [
  | inl here ↦
      let same : r.id ≡ k = ground arith in
      let gone : find_outbox k rs ≡ none = rw (← same) d.0 in
      ground (arith, find_outbox-filter p rs d.1 k)
  | inr there ↦ ground (arith, find_outbox-filter p rs d.1 k)
]

pub filter-Distinct :
    (p : OutboxRow → Bool) (rows : List OutboxRow) → Distinct rows → Distinct (filter p rows)
filter-Distinct p [] d = tt
filter-Distinct p (r ∷ rs) d = elim (Bool-cases (p r)) [
  | inl t ↦ rw t (rw (find_outbox-filter p rs d.1 r.id, d.0) refl, filter-Distinct p rs d.1)
  | inr f ↦ rw f (filter-Distinct p rs d.1)
]

-- With distinct ids, each row is what its id finds.
pub Distinct-self :
    (rows : List OutboxRow) → Distinct rows → All (λ r. find_outbox r.id rows ≡ some r) rows
unfolding find_outbox
Distinct-self [] d = tt
Distinct-self (r ∷ rs) d = (
  ground arith,
  All-imp (λ s. find_outbox s.id rs ≡ some s) (λ s. find_outbox s.id (r ∷ rs) ≡ some s) rs
      (λ s h. ground (arith, ap (λ (k : ℕ). find_outbox k rs))) (Distinct-self rs d.1),
)

-- A message that is found stays found under the statements on messages.
pub find_message-append :
    (k : ℕ) (rows extra : List MessageRow)
    → find_message k rows ≢ none
    → find_message k (rows ++ extra) ≢ none
unfolding find_message
find_message-append k [] extra h = absurd (h refl)
find_message-append k (r ∷ rs) extra h = elim (Bool-cases (r.id == k)) [
  | inl here ↦ rw here (λ e. cc)
  | inr there ↦ rw there (find_message-append k rs extra (rw there at h))
]

pub find_message-set_translation :
    (k id : ℕ) (t : Text) (rows : List MessageRow)
    → find_message k rows ≢ none
    → find_message k (set_translation id t rows) ≢ none
unfolding find_message set_translation
find_message-set_translation k id t [] h = h
find_message-set_translation k id t (r ∷ rs) h =
    ground (arith, find_message-set_translation k id t rs)
