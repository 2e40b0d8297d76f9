-- ===== src/App/Threads/Once.antt =====
-- What holds in every reachable state of the goroutines, where no statement fails.
use abb_app.Base.{ℕ, ◌+◌, ◌≤◌, ◌≡◌, refl, subst, some, [], arith}
use abb_app.Model.{Status, pending, sent, failed, cancelled}
use abb_app.Db.{empty, OutboxRow, find_outbox}
use abb_app.Dispatcher.{Senders}
use abb_app.App.Pipeline.Delivery.{successes}
use abb_app.App.Threads.{System, Reach, here, next, initial}
use abb_app.App.Threads.Counts.{waiting, busy, flying, flying-le-busy}
use abb_app.App.Threads.Invariant.{FineRow, Fine, Fine-le-one}
use abb_app.App.Threads.Steps.{Inv, Step-Inv}
use abb_app.App.Threads.Claims.{Claim}

Reach-Inv :
    {senders : Senders} {m : ℕ} (lost : ℕ → ℕ) {from s : System}
    → Inv lost from
    → Reach senders m from s
    → Inv lost s
Reach-Inv lost inv here = inv
Reach-Inv lost inv (next r st) = Step-Inv lost st (Reach-Inv lost inv r)

pub empty-Inv : Inv (λ k. 0) (initial empty)
unfolding find_outbox waiting
empty-Inv = record { distinct = tt; good = λ k. ([], refl, (refl, refl, refl)) }

-- The calls of Send that succeeded, but for those that the row has not been told of.
pub Claim-le :
    (lost : ℕ) (s : System) (k : ℕ)
    → Claim lost s.db.outbox s.sends s.phase s.retrying k
    → successes k s.sends ≤ 1 + lost
Claim-le lost s k (kept, n, g) = omega (
  arith,
  n,
  Fine-le-one (find_outbox k s.db.outbox) (busy k s.phase) (waiting k s.retrying) (flying k s.phase)
      (successes k kept) (flying-le-busy k s.phase) g,
)

at_sent : (st : Status) (b w f n : ℕ) → st ≡ sent → FineRow st b w f n → n ≡ 1
at_sent sent b w f n e h = omega arith
at_sent pending b w f n e h = cc
at_sent failed b w f n e h = cc
at_sent cancelled b w f n e h = cc

pub Claim-sent :
    (lost : ℕ) (s : System) (k : ℕ) (r : OutboxRow)
    → find_outbox k s.db.outbox ≡ some r
    → r.status ≡ sent
    → Claim lost s.db.outbox s.sends s.phase s.retrying k
    → successes k s.sends ≡ 1 + lost
Claim-sent lost s k r found done (kept, n, g) =
    let row : FineRow r.status (busy k s.phase) (waiting k s.retrying) (flying k s.phase)
        (successes k kept) =
      subst
        (λ o. Fine o (busy k s.phase) (waiting k s.retrying) (flying k s.phase) (successes k kept))
        found g in
    omega (arith, n, at_sent r.status _ _ _ _ done row)

-- However the statements of the goroutines interleave, and whatever the senders answer, at most one
-- call of Send for an outbox item succeeds, from a fresh database on.
sends_once :
    (senders : Senders) (max_attempts : ℕ) (s : System) (k : ℕ)
    → Reach senders max_attempts (initial empty) s
    → successes k s.sends ≤ 1
sends_once senders max_attempts s k r = Claim-le 0 s k ((Reach-Inv (λ k. 0) empty-Inv r).good k)

-- However the statements of the goroutines interleave, from a fresh database on, a row that is marked
-- as sent has had exactly one call of Send that succeeded.
pub sent_once :
    (senders : Senders) (max_attempts : ℕ) (s : System) (k : ℕ) (r : OutboxRow)
    → Reach senders max_attempts (initial empty) s
    → find_outbox k s.db.outbox ≡ some r
    → r.status ≡ sent
    → successes k s.sends ≡ 1
sent_once senders max_attempts s k r reach found done =
    Claim-sent 0 s k r found done ((Reach-Inv (λ k. 0) empty-Inv reach).good k)
