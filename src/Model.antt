-- ===== src/Model.antt =====
-- internal/model/message.go: the records that the components hand to one another.
-- A time.Time is a number of nanoseconds since the Unix epoch; 0 stands for the zero time.
use abb_app.Base.{ℕ}
use abb_app.Base.Text.{Text}

pub record Message : Type 0 where
  pub android_id : Text
  pub subscription_id : Text
  pub address : Text
  pub body : Text
  pub translation : Text
  pub device_name : Text
  pub sim_name : Text
  pub source : Text
  pub recipient : Text
  pub received_at : ℕ

-- The values that the program writes to the column outbox.status.
pub data Status : Type 0 where
  pending sent failed cancelled : Status

pub record OutboxItem : Type 0 where
  pub id : ℕ
  pub message_id : ℕ
  pub channel : Text
  pub status : Status
  pub attempts : ℕ
  pub last_error : Text
  pub scheduled_at : ℕ

pub record RetryItem : Type 0 where
  pub id : ℕ
  pub message_id : ℕ
  pub channel : Text
  pub attempts : ℕ
  pub last_attempt_at : ℕ
