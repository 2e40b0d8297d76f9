-- ===== src/Adb/Poller.antt =====
-- internal/adb/sms.go: the poller, its cursor `lastID` and the fallback between the queries.
pub mod Cursor
use abb_app.Base.{
  ℕ, zero, suc, ◌+◌, ◌≤◌, ◌<◌, ◌≡◌, refl, Bool, true, false, ◌&&◌, ◌||◌, Option, none, some, List,
  [], ◌∷◌, ◌++◌, map, max, ltb, leb, if◌then◌else◌,
}
use abb_app.Base.Text.{Text, codes, text_eq, has_prefix, trim_space, atoi}
use abb_app.Base.Assoc.{Assoc, lookup, insert}
use abb_app.Model.{Message}
use abb_app.Db.Session.{Outcome, ok, err}
use abb_app.Adb.Sms.{
  Parsed, parsed, failed, ParseError, sqlite, parse_sms_output, find_number, split_rows,
}

-- The three queries: with subscription_id, with sub_id, and without a SIM column.
pub data SmsCmd : Type 0 where
  full sub_id compat : SmsCmd

-- The fields of a Poller, with the messages that it has sent on its channel, oldest first.
pub record Poller : Type 0 where
  pub serial : Text
  pub device_name : Text
  pub last_id : ℕ
  pub sim_info : Assoc Text
  pub cmd : SmsCmd
  pub messages : List Message

abbrev pub id_of : Message → ℕ
id_of m = atoi m.android_id

abbrev sim_name_of : Message → Option Text → Text
sim_name_of m none = m.sim_name
sim_name_of m (some name) = name

-- What `poll` adds to a message.
unfoldable pub label : Poller → Message → Message
label p m = record m {
  device_name = p.device_name;
  sim_name =
      if text_eq m.subscription_id []
      then m.sim_name
      else sim_name_of m (lookup m.subscription_id p.sim_info);
}

-- The loop over the messages, up to the send that ctx.Done() ends: `done i` says whether that
-- happens at the i-th send. The answer is whether the loop came to its end.
unfoldable pub emit : (ℕ → Bool) → ℕ → List Message → Poller → Bool × Poller
unfolding label
emit done i [] p = (true, p)
emit done i (m ∷ ms) p =
    let skip = emit done i ms p in
    let sent = emit done (i + 1) ms (record p { messages = p.messages ++ label p m ∷ [] }) in
    if leb (id_of m) p.last_id then skip else if done i then (false, p) else sent

-- maxID
unfoldable pub max_id : List Message → ℕ
max_id [] = 0
max_id (m ∷ ms) = max (id_of m) (max_id ms)

-- The end of `poll`: the cursor moves only where the loop came to its end.
abbrev pub advance : ℕ → Bool × Poller → Poller
advance top (true, p) = if ltb p.last_id top then record p { last_id = top } else p
advance top (false, p) = p

-- The `switch` on the command that failed.
abbrev pub next_cmd : SmsCmd → SmsCmd
next_cmd full = sub_id
next_cmd sub_id = compat
next_cmd compat = compat

-- `poll` behind the shell command.
unfoldable pub poll_output : (ℕ → Bool) → Parsed (List Message) → Poller → Poller
unfolding emit max_id
poll_output done (parsed msgs) p = advance (max_id msgs) (emit done 0 msgs p)
poll_output done (failed sqlite) p = record p { cmd = next_cmd p.cmd }
poll_output done (failed e) p = p

unfoldable pub contains_serial : Text → List Text → Bool
contains_serial s [] = false
contains_serial s (d ∷ ds) = text_eq d s || contains_serial s ds

-- `poll`: whether the context has ended, the answer of DeviceList, and that of the shell to a query.
unfoldable pub poll :
    Bool → Outcome (List Text) → (SmsCmd → Outcome Text) → (ℕ → Bool) → Poller → Poller
unfolding poll_output contains_serial
poll ended devices shell done p =
    let run : Poller = elim (shell p.cmd) [
      | err e ↦ p
      | ok out ↦ poll_output done (parse_sms_output out) p
    ] in
    if ended then p else elim devices [
      | err e ↦ p
      | ok serials ↦ if contains_serial p.serial serials then run else p
    ]

-- FetchMaxAndroidID: the first of the queries that is not refused by the provider decides.
unfoldable pub fetch_max_android_id : (SmsCmd → Outcome Text) → List SmsCmd → Outcome ℕ
unfolding max_id
fetch_max_android_id shell [] = err (codes "no working sms query found")
fetch_max_android_id shell (cmd ∷ cmds) =
    let rest = fetch_max_android_id shell cmds in
    elim (shell cmd) [
      | err e ↦ err (codes "adb shell: " ++ e)
      | ok out ↦ elim (parse_sms_output out) [
        | parsed msgs ↦ ok (max_id msgs)
        | failed e ↦ elim e [ sqlite ↦ rest | other ↦ err (codes "parse sms") ]
      ]
    ]
