-- ===== src/App/Threads/Invariant.antt =====
-- What the goroutines that hold an outbox id, its row and the calls of Send have to do with one another.
use abb_app.Base.{
  ℕ, ◌+◌, ◌≤◌, ◌≡◌, inl, inr, Bool, true, ◌||◌, Bool-cases, Option, none, some, arith,
  if◌then◌else◌,
}
use mathlib.Core.Option
use abb_app.Base.Text.{Text}
use abb_app.Model.{Status, pending, sent, failed, cancelled}
use abb_app.Db.{OutboxRow, status_eq}
use abb_app.Db.Outbox.{as_sent, as_failed, as_pending, as_cancelled, is_stale, is_retryable}
use abb_app.Db.Rows.{keep}
use abb_app.App.Threads.Counts.{present}

-- One id: the status of its row, how often the sweep and the retry worker hold it, whether a delivery
-- is under way that the row does not show, and how many calls of Send succeeded.
abbrev pub FineRow : Status → ℕ → ℕ → ℕ → ℕ → Type 0
FineRow pending b w f n = (b ≤ 1) × (w ≡ 0) × (n ≡ f)
FineRow sent b w f n = (b ≡ 0) × (w ≡ 0) × (n ≡ 1)
FineRow failed b w f n = (b ≡ 0) × (w ≤ 1) × (n ≡ 0)
FineRow cancelled b w f n = (b + w ≤ 1) × (n ≡ f)

abbrev pub Fine : Option OutboxRow → ℕ → ℕ → ℕ → ℕ → Type 0
Fine none b w f n = (b ≡ 0) × (w ≡ 0) × (n ≡ 0)
Fine (some r) b w f n = FineRow r.status b w f n

FineRow-le-one : (s : Status) (b w f n : ℕ) → f ≤ b → FineRow s b w f n → n ≤ 1
FineRow-le-one pending b w f n h p = omega arith
FineRow-le-one sent b w f n h p = omega arith
FineRow-le-one failed b w f n h p = omega arith
FineRow-le-one cancelled b w f n h p = omega arith

pub Fine-le-one : (o : Option OutboxRow) (b w f n : ℕ) → f ≤ b → Fine o b w f n → n ≤ 1
Fine-le-one none b w f n h p = omega arith
Fine-le-one (some r) b w f n h p = FineRow-le-one r.status b w f n h p

-- The same numbers, written in another way.
pub Fine-same :
    (o : Option OutboxRow) (b b' w w' f f' n n' : ℕ)
    → b ≡ b'
    → w ≡ w'
    → f ≡ f'
    → n ≡ n'
    → Fine o b w f n
    → Fine o b' w' f' n'
Fine-same o b b' w w' f f' n n' hb hw hf hn h = rw (← hb, ← hw, ← hf, ← hn) h

-- The sweep or the retry worker gives up what it holds, with no delivery under way.
FineRow-drop :
    (s : Status) (b b' w w' f n : ℕ)
    → b' ≤ b
    → w' ≤ w
    → f ≡ 0
    → FineRow s b w f n
    → FineRow s b' w' 0 n
FineRow-drop pending b b' w w' f n hb hw hf p = omega arith
FineRow-drop sent b b' w w' f n hb hw hf p = omega arith
FineRow-drop failed b b' w w' f n hb hw hf p = omega arith
FineRow-drop cancelled b b' w w' f n hb hw hf p = omega arith

pub Fine-drop :
    (o : Option OutboxRow) (b b' w w' f n : ℕ)
    → b' ≤ b
    → w' ≤ w
    → f ≡ 0
    → Fine o b w f n
    → Fine o b' w' 0 n
Fine-drop none b b' w w' f n hb hw hf p = omega arith
Fine-drop (some r) b b' w w' f n hb hw hf p = FineRow-drop r.status b b' w w' f n hb hw hf p

-- The retry worker gives up what it holds.
FineRow-early : (s : Status) (b w w' f n : ℕ) → w' ≤ w → FineRow s b w f n → FineRow s b w' f n
FineRow-early pending b w w' f n h p = omega arith
FineRow-early sent b w w' f n h p = omega arith
FineRow-early failed b w w' f n h p = omega arith
FineRow-early cancelled b w w' f n h p = omega arith

pub Fine-early : (o : Option OutboxRow) (b w w' f n : ℕ) → w' ≤ w → Fine o b w f n → Fine o b w' f n
Fine-early none b w w' f n h p = omega arith
Fine-early (some r) b w w' f n h p = FineRow-early r.status b w w' f n h p

-- A call of Send, for an item that the sweep holds; `g` is 1 if it succeeds for this id.
FineRow-send :
    (s : Status) (b w g n : ℕ) → g ≤ b → g ≤ 1 → FineRow s b w 0 n → FineRow s b w g (g + n)
FineRow-send pending b w g n hb hg p = omega arith
FineRow-send sent b w g n hb hg p = omega arith
FineRow-send failed b w g n hb hg p = omega arith
FineRow-send cancelled b w g n hb hg p = omega arith

pub Fine-send :
    (o : Option OutboxRow) (b w g n : ℕ) → g ≤ b → g ≤ 1 → Fine o b w 0 n → Fine o b w g (g + n)
Fine-send none b w g n hb hg p = omega arith
Fine-send (some r) b w g n hb hg p = FineRow-send r.status b w g n hb hg p

-- The update of the row behind a call of Send.
FineRow-sent : (s : Status) (b w n : ℕ) → FineRow s (1 + b) w 1 n → FineRow sent b w 0 n
FineRow-sent pending b w n p = omega arith
FineRow-sent sent b w n p = absurd (omega arith)
FineRow-sent failed b w n p = absurd (omega arith)
FineRow-sent cancelled b w n p = omega arith

FineRow-failed : (s : Status) (b w n : ℕ) → FineRow s (1 + b) w 0 n → FineRow failed b w 0 n
FineRow-failed pending b w n p = omega arith
FineRow-failed sent b w n p = absurd (omega arith)
FineRow-failed failed b w n p = absurd (omega arith)
FineRow-failed cancelled b w n p = omega arith

-- ResetToPending, by the retry worker.
FineRow-pending :
    (s : Status) (b w f n : ℕ) → f ≤ b → FineRow s b (1 + w) f n → FineRow pending b w f n
FineRow-pending pending b w f n h p = absurd (omega arith)
FineRow-pending sent b w f n h p = absurd (omega arith)
FineRow-pending failed b w f n h p = omega arith
FineRow-pending cancelled b w f n h p = omega arith

FineRow-cancelled :
    (s : Status) (b w f n : ℕ)
    → f ≤ b
    → (status_eq s pending || status_eq s failed) ≡ true
    → FineRow s b w f n
    → FineRow cancelled b w f n
FineRow-cancelled pending b w f n h e p = omega arith
FineRow-cancelled sent b w f n h e p = cc
FineRow-cancelled failed b w f n h e p = omega arith
FineRow-cancelled cancelled b w f n h e p = cc

-- The updates in the table.
pub Fine-sent :
    (t : ℕ) (o : Option OutboxRow) (b w n : ℕ)
    → Fine o (1 + b) w 1 n
    → Fine (Option.map (as_sent t) o) b w 0 n
Fine-sent t none b w n p = absurd (omega arith)
Fine-sent t (some r) b w n p = FineRow-sent r.status b w n p

pub Fine-failed :
    (e : Text) (o : Option OutboxRow) (b w n : ℕ)
    → Fine o (1 + b) w 0 n
    → Fine (Option.map (as_failed e) o) b w 0 n
Fine-failed e none b w n p = absurd (omega arith)
Fine-failed e (some r) b w n p = FineRow-failed r.status b w n p

pub Fine-pending :
    (o : Option OutboxRow) (b w f n : ℕ)
    → f ≤ b
    → Fine o b (1 + w) f n
    → Fine (Option.map as_pending o) b w f n
Fine-pending none b w f n h p = absurd (omega arith)
Fine-pending (some r) b w f n h p = FineRow-pending r.status b w f n h p

abbrev pub cancelled_if : ℕ → OutboxRow → OutboxRow
cancelled_if cutoff r = if is_stale cutoff r then as_cancelled r else r

pub Fine-cancelled :
    (cutoff : ℕ) (o : Option OutboxRow) (b w f n : ℕ)
    → f ≤ b
    → Fine o b w f n
    → Fine (Option.map (cancelled_if cutoff) o) b w f n
Fine-cancelled cutoff none b w f n h p = p
Fine-cancelled cutoff (some r) b w f n h p = elim (Bool-cases (is_stale cutoff r)) [
  | inl old ↦ rw old (FineRow-cancelled r.status b w f n h (ground arith) p)
  | inr new ↦ rw new p
]

-- A read of the rows that wait, or that failed, by a goroutine that holds nothing.
FineRow-begin :
    (s : Status) (w n : ℕ)
    → FineRow s 0 w 0 n
    → FineRow s (if status_eq s pending then 1 else 0) w 0 n
FineRow-begin pending w n p = omega arith
FineRow-begin sent w n p = p
FineRow-begin failed w n p = p
FineRow-begin cancelled w n p = p

pub present-keep :
    (p : OutboxRow → Bool) (r : OutboxRow) → present (keep p (some r)) ≡ (if p r then 1 else 0)
present-keep p r = ground arith

pub Fine-begin :
    (o : Option OutboxRow) (w n : ℕ)
    → Fine o 0 w 0 n
    → Fine o (present (keep (λ r. status_eq r.status pending) o)) w 0 n
Fine-begin none w n p = p
Fine-begin (some r) w n p = rw present-keep (FineRow-begin r.status w n p)

FineRow-look :
    (s : Status) (x b f n : ℕ)
    → f ≤ b
    → x ≤ (if status_eq s failed then 1 else 0)
    → FineRow s b 0 f n
    → FineRow s b x f n
FineRow-look pending x b f n h e p = omega arith
FineRow-look sent x b f n h e p = omega arith
FineRow-look failed x b f n h e p = omega arith
FineRow-look cancelled x b f n h e p = omega arith

retryable-le :
    (m : ℕ) (r : OutboxRow)
    → present (keep (is_retryable m) (some r)) ≤ (if status_eq r.status failed then 1 else 0)
retryable-le m r = rw present-keep (ground arith)

pub Fine-look :
    (m : ℕ) (o : Option OutboxRow) (b f n : ℕ)
    → f ≤ b
    → Fine o b 0 f n
    → Fine o b (present (keep (is_retryable m) o)) f n
Fine-look m none b f n h p = p
Fine-look m (some r) b f n h p = FineRow-look r.status _ b f n h (retryable-le m r) p
