-- ===== src/App/Threads/Faults.antt =====
-- The goroutines of cmd/abb/main.go, where statements may fail and the process may be killed and
-- started again.
use abb_app.Base.{
  ℕ, zero, suc, ◌+◌, ◌-◌, ◌≤◌, ◌≡◌, refl, sym, subst, true, Option, none, some, List, [], ◌∷◌, ◌++◌,
  arith,
}
use abb_app.Model.{Status, pending, sent, failed, cancelled, OutboxItem, RetryItem}
use abb_app.Db.{empty, OutboxRow, find_outbox}
use abb_app.Db.Session.{Outcome, ok, err, SendEvent}
use abb_app.Dispatcher.{Senders}
use abb_app.App.Pipeline.Delivery.{successes}
use abb_app.App.Threads.{System, Phase, idle, sweeping, fetched, answered, marked, Step, initial}
use abb_app.App.Threads.Counts.{one, count, waiting, busy, flying, flying-le-busy}
use abb_app.App.Threads.Invariant.{FineRow, Fine, Fine-same}
use abb_app.App.Threads.Claims.{Claim, Good-next}
use abb_app.App.Threads.Steps.{Inv, at_phase, phase-Inv, Step-Inv}
use abb_app.App.Threads.Once.{empty-Inv, Claim-le, Claim-sent}

-- `lost` has the id of an item once for each time that a call of Send for it succeeded and its row was
-- not told.
pub record FaultyRun : Type 0 where
  pub system : System
  pub lost : List ℕ

-- The delivery that the row does not show yet, if there is one.
unfoldable pub in_flight : Phase → List ℕ
in_flight (answered item (ok u) items) = item.id ∷ []
in_flight p = []

-- GetPendingOutbox that fails is `begin_fails`, GetMessageByID `fetch_fails`, and ResetToPending is the
-- step `early`. Any other statement that fails changes nothing.
pub data FaultyStep (senders : Senders) (max_attempts : ℕ) (r : FaultyRun)
    : FaultyRun → Type 0 where
  works :
      (t : System)
      → Step senders max_attempts r.system t
      → FaultyStep senders max_attempts r (record r { system = t })
  begin_fails :
      r.system.phase ≡ idle
      → FaultyStep senders max_attempts r
          (record r { system = record (r.system) { phase = sweeping [] } })
  fetch_fails :
      (item : OutboxItem) (items : List OutboxItem)
      → r.system.phase ≡ sweeping (item ∷ items)
      → FaultyStep senders max_attempts r
          (record r { system = record (r.system) { phase = sweeping items } })
  -- MarkOutboxSent or MarkOutboxFailed
  update_fails :
      (item : OutboxItem) (answer : Outcome (Unit {0})) (items : List OutboxItem)
      → r.system.phase ≡ answered item answer items
      → FaultyStep senders max_attempts r (record {
        system = record (r.system) { phase = marked item answer items };
        lost = in_flight (answered item answer items) ++ r.lost;
      })
  log_fails :
      (item : OutboxItem) (answer : Outcome (Unit {0})) (items : List OutboxItem)
      → r.system.phase ≡ marked item answer items
      → FaultyStep senders max_attempts r
          (record r { system = record (r.system) { phase = sweeping items } })
  -- the process is killed, at any point, and started again on the same database
  restarts : FaultyStep senders max_attempts r (record {
    system = record (r.system) { phase = idle; retrying = [] };
    lost = in_flight r.system.phase ++ r.lost;
  })

abbrev pub new_run : FaultyRun
new_run = record { system = initial empty; lost = [] }

pub data FaultyReach (senders : Senders) (max_attempts : ℕ) : FaultyRun → Type 0 where
  here : FaultyReach senders max_attempts new_run
  next :
      {r t : FaultyRun}
      → FaultyReach senders max_attempts r
      → FaultyStep senders max_attempts r t
      → FaultyReach senders max_attempts t

-- How often an id stands in a list.
unfoldable pub times : ℕ → List ℕ → ℕ
times k [] = 0
times k (i ∷ is) = one i k + times k is

times-in_flight :
    (k : ℕ) (p : Phase) (is : List ℕ) → times k (in_flight p ++ is) ≡ flying k p + times k is
unfolding times in_flight
times-in_flight k idle is = omega arith
times-in_flight k (sweeping items) is = omega arith
times-in_flight k (fetched item msg items) is = omega arith
times-in_flight k (answered item (ok u) items) is = refl
times-in_flight k (answered item (err e) items) is = omega arith
times-in_flight k (marked item answer items) is = omega arith

-- A delivery in flight is given up: the row counts it no more.
FineRow-lose :
    (s : Status) (b b' w w' f m : ℕ)
    → f ≤ b
    → b' + f ≤ b
    → w' ≤ w
    → FineRow s b w f (f + m)
    → FineRow s b' w' 0 m
FineRow-lose pending b b' w w' f m hf hb hw p = omega arith
FineRow-lose sent b b' w w' f m hf hb hw p = omega arith
FineRow-lose failed b b' w w' f m hf hb hw p = omega arith
FineRow-lose cancelled b b' w w' f m hf hb hw p = omega arith

FineRow-flying : (s : Status) (b w f n : ℕ) → f ≤ b → FineRow s b w f n → f ≤ n
FineRow-flying pending b w f n h p = omega arith
FineRow-flying sent b w f n h p = omega arith
FineRow-flying failed b w f n h p = omega arith
FineRow-flying cancelled b w f n h p = omega arith

Fine-lose :
    (o : Option OutboxRow) (b b' w w' f m : ℕ)
    → f ≤ b
    → b' + f ≤ b
    → w' ≤ w
    → Fine o b w f (f + m)
    → Fine o b' w' 0 m
Fine-lose none b b' w w' f m hf hb hw p = omega arith
Fine-lose (some r) b b' w w' f m hf hb hw p = FineRow-lose r.status b b' w w' f m hf hb hw p

Fine-flying : (o : Option OutboxRow) (b w f n : ℕ) → f ≤ b → Fine o b w f n → f ≤ n
Fine-flying none b w f n h p = omega arith
Fine-flying (some r) b w f n h p = FineRow-flying r.status b w f n h p

-- Calls of Send that succeeded, as many as wanted.
calls : ℕ → ℕ → List SendEvent
calls k zero = []
calls k (suc n) = record { item = k; channel = []; success = true } ∷ calls k n

successes-calls : (k n : ℕ) → successes k (calls k n) ≡ n
unfolding calls
successes-calls k zero = refl
successes-calls k (suc n) = ground (arith, successes-calls k n)

Claim-lose :
    (lost : ℕ) (rows : List OutboxRow) (sends : List SendEvent) (p q : Phase)
    (r r' : List RetryItem) (k : ℕ)
    → busy k q + flying k p ≤ busy k p
    → flying k q ≡ 0
    → waiting k r' ≤ waiting k r
    → Claim lost rows sends p r k
    → Claim (flying k p + lost) rows sends q r' k
Claim-lose lost rows sends p q r r' k hb hq hw (kept, n, g) =
    let f : ℕ = flying k p in
    let some_held : f ≤ successes k kept =
      Fine-flying (find_outbox k rows) _ _ f _ (flying-le-busy k p) g in
    let m : ℕ = successes k kept - f in
    let counted : successes k kept ≡ f + m = omega (arith, some_held) in
    let before : Fine (find_outbox k rows) (busy k p) (waiting k r) f (f + m) =
      Fine-same (find_outbox k rows) _ _ _ _ f f (successes k kept) (f + m) refl refl refl counted
        g in
    (
      calls k m,
      omega (arith, n, counted, successes-calls k m),
      Fine-same (find_outbox k rows) _ _ _ _ 0 (flying k q) m (successes k (calls k m)) refl refl
          (sym hq) (sym (successes-calls k m))
          (Fine-lose (find_outbox k rows) (busy k p) (busy k q) (waiting k r) (waiting k r') f m
            (flying-le-busy k p) hb hw before),
    )

busy-marked :
    (k : ℕ) (item : OutboxItem) (answer : Outcome (Unit {0})) (items : List OutboxItem)
    → busy k (marked item answer items) + flying k (answered item answer items)
      ≤ busy k (answered item answer items)
busy-marked k item (ok u) items = omega arith
busy-marked k item (err e) items = omega arith

-- What holds of a run.
abbrev RunInv : FaultyRun → Type 0
RunInv r = Inv (λ k. times k r.lost) r.system

lose-Inv :
    (r : FaultyRun) (p q : Phase) (items : List RetryItem)
    → r.system.phase ≡ p
    → ((k : ℕ) → busy k q + flying k p ≤ busy k p)
    → ((k : ℕ) → flying k q ≡ 0)
    → ((k : ℕ) → waiting k items ≤ waiting k r.system.retrying)
    → RunInv r
    → RunInv (record {
      system = record (r.system) { phase = q; retrying = items };
      lost = in_flight p ++ r.lost;
    })
lose-Inv r p q items e hb hq hw inv = record {
  distinct = inv.distinct;
  good = λ k.
      subst (λ (l : ℕ). Claim l r.system.db.outbox r.system.sends q items k)
        (sym (times-in_flight k p r.lost))
        (Claim-lose (times k r.lost) r.system.db.outbox r.system.sends p q r.system.retrying items k
          (hb k) (hq k) (hw k) (at_phase (λ k. times k r.lost) r.system inv k p e));
}

FaultyStep-Inv :
    {senders : Senders} {m : ℕ} {r t : FaultyRun} → FaultyStep senders m r t → RunInv r → RunInv t
unfolding count waiting
FaultyStep-Inv {r = r} (works t step) inv = Step-Inv (λ k. times k r.lost) step inv
FaultyStep-Inv {r = r} (begin_fails e) inv =
    phase-Inv (λ k. times k r.lost) r.system _ _ e (λ k kept g. g) inv
FaultyStep-Inv {r = r} (fetch_fails item items e) inv =
    phase-Inv (λ k. times k r.lost) r.system _ _ e
      (λ k kept. Good-next r.system.db.outbox kept r.system.retrying k item items) inv
FaultyStep-Inv {r = r} (update_fails item answer items e) inv =
    lose-Inv r (answered item answer items) (marked item answer items) r.system.retrying e
      (λ k. busy-marked k item answer items) (λ k. refl) (λ k. omega arith) inv
FaultyStep-Inv {r = r} (log_fails item answer items e) inv =
    phase-Inv (λ k. times k r.lost) r.system _ _ e (λ k kept g. g) inv
FaultyStep-Inv {r = r} restarts inv =
    lose-Inv r r.system.phase idle [] refl (λ k. omega (arith, flying-le-busy k r.system.phase))
      (λ k. refl) (λ k. omega arith) inv

pub FaultyReach-Inv :
    {senders : Senders} {m : ℕ} {r : FaultyRun} → FaultyReach senders m r → RunInv r
unfolding times
FaultyReach-Inv here = empty-Inv
FaultyReach-Inv (next reach step) = FaultyStep-Inv step (FaultyReach-Inv reach)

-- However the statements of the goroutines interleave, whatever the senders answer, whichever
-- statements fail, and however often the process is killed and started again, from a fresh database
-- on: an outbox item has at most one call of Send that succeeds, and one more for each time that its
-- row was not told of such a call, because MarkOutboxSent failed or the process was killed in between.
pub sends_bounded :
    (senders : Senders) (max_attempts : ℕ) (r : FaultyRun) (k : ℕ)
    → FaultyReach senders max_attempts r
    → successes k r.system.sends ≤ 1 + times k r.lost
sends_bounded senders max_attempts r k reach =
    Claim-le (times k r.lost) r.system k ((FaultyReach-Inv reach).good k)

-- Under the same faults, a row that is marked as sent has had one call of Send that succeeded, and one
-- more for each time that it was not told: none is marked without.
pub sent_counts :
    (senders : Senders) (max_attempts : ℕ) (r : FaultyRun) (k : ℕ) (row : OutboxRow)
    → FaultyReach senders max_attempts r
    → find_outbox k r.system.db.outbox ≡ some row
    → row.status ≡ sent
    → successes k r.system.sends ≡ 1 + times k r.lost
sent_counts senders max_attempts r k row reach found done =
    Claim-sent (times k r.lost) r.system k row found done ((FaultyReach-Inv reach).good k)
