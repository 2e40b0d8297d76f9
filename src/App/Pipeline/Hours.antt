-- ===== src/App/Pipeline/Hours.antt =====
-- The hours that the ticks of a loop make up.
use abb_app.Base.{ℕ, suc, leb, if◌then◌else◌, ◌+◌, ◌≤◌, ◌<◌, ◌≡◌, refl, List, [], ◌∷◌, arith}
use abb_app.Dispatcher.{Context}
use abb_app.Dispatcher.Backoff.{max_backoff}
use abb_app.Dispatcher.Ticker.{Wake, tick, context_done}

-- How many hours the ticks make up, one after the other, where each is counted at the first tick at
-- which it is over; `waited` is what has passed of the first one.
unfoldable pub hours : ℕ → List Wake → ℕ
hours waited [] = 0
hours waited (context_done ∷ wakes) = 0
hours waited (tick elapsed ctx ∷ wakes) =
    let next = suc (hours 0 wakes) in
    let same = hours (waited + elapsed) wakes in
    if leb max_backoff (waited + elapsed) then next else same

hours-le :
    (a b : ℕ) (wakes : List Wake)
    → (hours b wakes ≤ 1 + hours a wakes) × (a ≤ b → hours a wakes ≤ hours b wakes)
unfolding hours
hours-le a b [] = (omega arith, λ h. omega arith)
hours-le a b (context_done ∷ wakes) = (omega arith, λ h. omega arith)
hours-le a b (tick elapsed ctx ∷ wakes) =
    let both = hours-le (a + elapsed) (b + elapsed) wakes in
    let from_zero = hours-le 0 (a + elapsed) wakes in
    let to_zero = hours-le 0 (b + elapsed) wakes in
    (
      ground (arith, both.0, from_zero.1, to_zero.0),
      λ h. ground (arith, both.1, from_zero.0, to_zero.0),
    )

pub hours-nil : (waited : ℕ) → hours waited [] ≡ 0
unfolding hours
hours-nil waited = refl

-- A tick at which the hour is not over adds to it.
pub hours-waiting :
    (waited elapsed : ℕ) (ctx : Context) (wakes : List Wake)
    → waited + elapsed < max_backoff
    → hours waited (tick elapsed ctx ∷ wakes) ≡ hours (waited + elapsed) wakes
unfolding hours
hours-waiting waited elapsed ctx wakes h = ground arith

pub hours-tick :
    (waited elapsed : ℕ) (ctx : Context) (wakes : List Wake)
    → hours waited (tick elapsed ctx ∷ wakes) ≤ 1 + hours 0 wakes
unfolding hours
hours-tick waited elapsed ctx wakes = ground (arith, (hours-le 0 (waited + elapsed) wakes).0)
