-- ===== src/App/Threads/Attempts/Bounds.antt =====
-- What the attempts of an outbox row have to do with the goroutines that hold its item.
use abb_app.Base.{ℕ, ◌+◌, ◌≤◌, inl, inr, Bool-cases, Option, none, some, arith, if◌then◌else◌}
use mathlib.Core.Option
use abb_app.Base.Text.{Text}
use abb_app.Model.{Status, pending, sent, failed, cancelled}
use abb_app.Db.{OutboxRow, status_eq}
use abb_app.Db.Outbox.{as_sent, as_failed, as_pending, is_stale, is_retryable}
use abb_app.Db.Rows.{keep}
use abb_app.App.Threads.Counts.{present}
use abb_app.App.Threads.Invariant.{FineRow, Fine, cancelled_if, present-keep}

-- A row that waits has an attempt left, and so has one whose item the sweep or the retry worker holds,
-- which they do `h` times.
abbrev pub WithinRow : ℕ → Status → ℕ → ℕ → Type 0
WithinRow m pending h a = a + 1 ≤ m
WithinRow m sent h a = a + h ≤ m
WithinRow m failed h a = a + h ≤ m
WithinRow m cancelled h a = a + h ≤ m

abbrev pub Within : ℕ → Option OutboxRow → ℕ → Type 0
Within m none h = Unit {0}
Within m (some r) h = WithinRow m r.status h r.attempts

module _ (m : ℕ) where
  row_drop : (s : Status) (h h' a : ℕ) → h' ≤ h → WithinRow m s h a → WithinRow m s h' a
  row_drop pending h h' a le p = p
  row_drop sent h h' a le p = omega arith
  row_drop failed h h' a le p = omega arith
  row_drop cancelled h h' a le p = omega arith

  pub Within-drop : (o : Option OutboxRow) (h h' : ℕ) → h' ≤ h → Within m o h → Within m o h'
  Within-drop none h h' le p = tt
  Within-drop (some r) h h' le p = row_drop r.status h h' r.attempts le p

  row_begin :
      (s : Status) (w a : ℕ)
      → WithinRow m s w a
      → WithinRow m s ((if status_eq s pending then 1 else 0) + w) a
  row_begin pending w a p = p
  row_begin sent w a p = omega arith
  row_begin failed w a p = omega arith
  row_begin cancelled w a p = omega arith

  pub Within-begin :
      (o : Option OutboxRow) (w : ℕ)
      → Within m o w
      → Within m o (present (keep (λ r. status_eq r.status pending) o) + w)
  Within-begin none w p = tt
  Within-begin (some r) w p = rw present-keep (row_begin r.status w r.attempts p)

  row_look :
      (s : Status) (x b f n a : ℕ)
      → x ≤ (if status_eq s failed then 1 else 0)
      → a + x ≤ m
      → FineRow s b 0 f n
      → WithinRow m s b a
      → WithinRow m s (b + x) a
  row_look pending x b f n a le fit g p = p
  row_look sent x b f n a le fit g p = omega arith
  row_look failed x b f n a le fit g p = omega arith
  row_look cancelled x b f n a le fit g p = omega arith

  retryable-fits :
      (r : OutboxRow)
      → r.attempts ≤ m
      → (present (keep (is_retryable m) (some r)) ≤ (if status_eq r.status failed then 1 else 0))
        × (r.attempts + present (keep (is_retryable m) (some r)) ≤ m)
  retryable-fits r le = rw present-keep (ground arith)

  row_le : (s : Status) (h a : ℕ) → WithinRow m s h a → a ≤ m
  row_le pending h a p = omega arith
  row_le sent h a p = omega arith
  row_le failed h a p = omega arith
  row_le cancelled h a p = omega arith

  pub Within-look :
      (o : Option OutboxRow) (b f n : ℕ)
      → Fine o b 0 f n
      → Within m o b
      → Within m o (b + present (keep (is_retryable m) o))
  Within-look none b f n g p = tt
  Within-look (some r) b f n g p =
      let (le, fit) = retryable-fits r (row_le r.status b r.attempts p) in
      row_look r.status _ b f n r.attempts le fit g p

  row_update :
      (s : Status) (b w f n a : ℕ)
      → FineRow s (1 + b) w f n
      → WithinRow m s (1 + b + w) a
      → (a + 1) + (b + w) ≤ m
  row_update pending b w f n a g p = omega arith
  row_update sent b w f n a g p = omega arith
  row_update failed b w f n a g p = omega arith
  row_update cancelled b w f n a g p = omega arith

  pub Within-sent :
      (t : ℕ) (o : Option OutboxRow) (b w f n : ℕ)
      → Fine o (1 + b) w f n
      → Within m o (1 + b + w)
      → Within m (Option.map (as_sent t) o) (b + w)
  Within-sent t none b w f n g p = tt
  Within-sent t (some r) b w f n g p = row_update r.status b w f n r.attempts g p

  pub Within-failed :
      (e : Text) (o : Option OutboxRow) (b w f n : ℕ)
      → Fine o (1 + b) w f n
      → Within m o (1 + b + w)
      → Within m (Option.map (as_failed e) o) (b + w)
  Within-failed e none b w f n g p = tt
  Within-failed e (some r) b w f n g p = row_update r.status b w f n r.attempts g p

  row_pending : (s : Status) (b w a : ℕ) → WithinRow m s (b + (1 + w)) a → a + 1 ≤ m
  row_pending pending b w a p = p
  row_pending sent b w a p = omega arith
  row_pending failed b w a p = omega arith
  row_pending cancelled b w a p = omega arith

  pub Within-pending :
      (o : Option OutboxRow) (b w : ℕ)
      → Within m o (b + (1 + w))
      → Within m (Option.map as_pending o) (b + w)
  Within-pending none b w p = tt
  Within-pending (some r) b w p = row_pending r.status b w r.attempts p

  row_cancelled :
      (s : Status) (b w f n a : ℕ) → FineRow s b w f n → WithinRow m s (b + w) a → a + (b + w) ≤ m
  row_cancelled pending b w f n a g p = omega arith
  row_cancelled sent b w f n a g p = p
  row_cancelled failed b w f n a g p = p
  row_cancelled cancelled b w f n a g p = p

  pub Within-cancelled :
      (cutoff : ℕ) (o : Option OutboxRow) (b w f n : ℕ)
      → Fine o b w f n
      → Within m o (b + w)
      → Within m (Option.map (cancelled_if cutoff) o) (b + w)
  Within-cancelled cutoff none b w f n g p = tt
  Within-cancelled cutoff (some r) b w f n g p = elim (Bool-cases (is_stale cutoff r)) [
    | inl old ↦ rw old (row_cancelled r.status b w f n r.attempts g p)
    | inr new ↦ rw new p
  ]

  row_spare :
      (s : Status) (h a : ℕ) → WithinRow m s h a → a + (if status_eq s pending then 1 else 0) ≤ m
  row_spare pending h a p = p
  row_spare sent h a p = omega arith
  row_spare failed h a p = omega arith
  row_spare cancelled h a p = omega arith

  pub Within-spare :
      (r : OutboxRow) (h : ℕ)
      → Within m (some r) h
      → r.attempts + (if status_eq r.status pending then 1 else 0) ≤ m
  Within-spare r h p = row_spare r.status h r.attempts p
