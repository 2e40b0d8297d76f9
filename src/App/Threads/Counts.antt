-- ===== src/App/Threads/Counts.antt =====
-- How often the goroutines hold an outbox id.
use abb_app.Base.{
  ℕ, ◌+◌, ◌≤◌, ◌≡◌, Option, none, some, List, [], ◌∷◌, ◌==◌, ==_iff, Bool-cases, inl, inr, true,
  refl, map, arith, if◌then◌else◌,
}
use abb_app.Model.{OutboxItem, RetryItem}
use abb_app.Db.{OutboxRow, LogRow, find_outbox}
use abb_app.Db.Session.{ok, err}
use abb_app.Db.Outbox.{to_item, to_retry_item}
use abb_app.Db.Rows.{Distinct}
use abb_app.App.Threads.{Phase, idle, sweeping, fetched, answered, marked}

abbrev pub one : ℕ → ℕ → ℕ
one i k = if i == k then 1 else 0

unfoldable pub count : ℕ → List OutboxItem → ℕ
count k [] = 0
count k (item ∷ items) = one item.id k + count k items

unfoldable pub waiting : ℕ → List RetryItem → ℕ
waiting k [] = 0
waiting k (item ∷ items) = one item.id k + waiting k items

-- The items that the sweep is at, or has still to come to.
abbrev pub busy : ℕ → Phase → ℕ
busy k idle = 0
busy k (sweeping items) = count k items
busy k (fetched item msg items) = one item.id k + count k items
busy k (answered item answer items) = one item.id k + count k items
busy k (marked item answer items) = count k items

-- A delivery that the row does not show yet.
abbrev pub flying : ℕ → Phase → ℕ
flying k (answered item (ok u) items) = one item.id k
flying k p = 0

pub flying-le-busy : (k : ℕ) (p : Phase) → flying k p ≤ busy k p
flying-le-busy k idle = omega arith
flying-le-busy k (sweeping items) = omega arith
flying-le-busy k (fetched item msg items) = omega arith
flying-le-busy k (answered item (ok u) items) = omega arith
flying-le-busy k (answered item (err e) items) = omega arith
flying-le-busy k (marked item answer items) = omega arith

-- One for a row that is found.
abbrev pub present : Option OutboxRow → ℕ
present none = 0
present (some r) = 1

absent :
    (i k : ℕ) (rows : List OutboxRow)
    → find_outbox i rows ≡ none
    → (i == k) ≡ true
    → present (find_outbox k rows) ≡ 0
absent i k rows h e = rw (← (==_iff i k).0 e, h)

pub count-present :
    (k : ℕ) (rows : List OutboxRow)
    → Distinct rows
    → count k (map to_item rows) ≡ present (find_outbox k rows)
unfolding count find_outbox
count-present k [] d = refl
count-present k (r ∷ rows) d = elim (Bool-cases (r.id == k)) [
  | inl here ↦ rw here (ground (arith, count-present k rows d.1, absent r.id k rows d.0))
  | inr there ↦ rw there (omega (arith, count-present k rows d.1))
]

pub waiting-present :
    (k : ℕ) (log : List LogRow) (rows : List OutboxRow)
    → Distinct rows
    → waiting k (map (to_retry_item log) rows) ≡ present (find_outbox k rows)
unfolding waiting find_outbox
waiting-present k log [] d = refl
waiting-present k log (r ∷ rows) d = elim (Bool-cases (r.id == k)) [
  | inl here ↦ rw here (ground (arith, waiting-present k log rows d.1, absent r.id k rows d.0))
  | inr there ↦ rw there (omega (arith, waiting-present k log rows d.1))
]
