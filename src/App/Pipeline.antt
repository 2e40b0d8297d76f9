-- ===== src/App/Pipeline.antt =====
-- The life of the stored messages: the goroutines of cmd/abb/main.go and of the workers that it
-- starts act on one database, each action as a whole, in any order and any number of times.
pub mod Rule
pub mod Rows
pub mod Changes
pub mod Statements
pub mod Delivery
pub mod Tally
pub mod Retried
pub mod Past
pub mod Rests
pub mod Waiting
pub mod Early
pub mod Hours
pub mod Served
use abb_app.Base.{ℕ, ◌-◌, ◌/◌, Option, List, [], ◌∷◌}
use abb_app.Base.Text.{Text}
use abb_app.Model.{Message}
use abb_app.Db.{second, empty}
use abb_app.Db.Session.{World, Tick, exec}
use abb_app.Db.Outbox.{cancel_stale_outbox}
use abb_app.Dispatcher.{Context, Senders, dispatch_once}
use abb_app.Dispatcher.Retry.{work}
use abb_app.App.Save.{Translator, save_and_enqueue}

pub record Config : Type 0 where
  pub translator : Option Translator
  pub channels : List Text
  pub senders : Senders
  pub max_attempts : ℕ
  pub retry_base : ℕ

-- `receive` is a message from the modem workers or the ADB poller.
pub data Action : Type 0 where
  receive : Message → Action
  dispatch : Context → Action
  retry : Context → Action
  cancel_stale : ℕ → Action

-- The call of CancelStaleOutbox, with its cutoff `time.Now().Add(-olderThan)`.
unfoldable pub cancel_older : ℕ → World → World
cancel_older older_than w = (exec (cancel_stale_outbox ((w.now - older_than) / second)) w).1

-- One action, with nothing of another goroutine in between: an assumption on the order, which App/Threads
-- does without.
unfoldable pub step : Config → Action → World → World
step c (receive msg) w = (save_and_enqueue c.translator c.channels msg w).1
step c (dispatch ctx) w = dispatch_once ctx c.senders w
step c (retry ctx) w = work ctx c.senders c.max_attempts c.retry_base w
step c (cancel_stale older_than) w = cancel_older older_than w

unfoldable pub run : Config → List Action → World → World
run c [] w = w
run c (a ∷ rest) w = run c rest (step c a w)

-- A fresh database, with what the environment is going to do.
abbrev pub start : ℕ → List Tick → World
start now ticks = record {
  db = empty;
  now = now;
  ticks = ticks;
  sends = [];
  metrics = record { sms_received = 0; sms_sent = []; sms_failed = [] };
}
