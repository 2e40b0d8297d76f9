-- ===== src/Tests/Loop.antt =====
-- The event loop of main: a phone is connected and read.
use abb_app.Base.{◌≡◌, ◌≢◌, refl, true, false, some, none, [], ◌∷◌, All}
use abb_app.Base.Text.{Text, codes, atoi, text_eq, trim_space, has_prefix, span_digits, drop_prefix}
use abb_app.Db.Session.{ok}
use abb_app.Adb.Watcher.{
  DeviceEvent, disconnected, connected, Watcher, check, observe, pick_online_device,
}
use abb_app.Adb.Poller.{full}
use abb_app.App.Start.{start_id}
use abb_app.Model.{Message}
use abb_app.Base.Assoc.{Assoc, insert}
use abb_app.Adb.Sims.{parse_sim_info}
use abb_app.Adb.Sms.{parsed, split_rows, find_number, sub_id_here}
use abb_app.Adb.Poller.{poll_output}
use abb_app.Adb.Poller.Cursor.{beyond}
use abb_app.App.Pipeline.{start}
use abb_app.App.Receive.{process_messages, IsStored, poll_output-IsStored}
use abb_app.App.Loop.{
  Answers, Run, System, Reach, here, more, checks, receives, initial, look, fresh, handle,
  stop_poller,
}
use abb_app.App.Loop.Runs.{AtMostOne}
use abb_app.App.Loop.OnePoller.{Current, one_poller}

abbrev idle : Watcher
idle = record { serial = []; state = disconnected; events = [] }

abbrev phone : Text
phone = codes "phone"

abbrev here_event : DeviceEvent
here_event = record { serial = phone; state = connected }

-- Behind the handling of the first event.
abbrev reader : Run
reader = record {
  number = 0;
  poller = record {
    serial = phone;
    device_name = [];
    last_id = 7;
    sim_info = [];
    cmd = full;
    messages = [];
  };
  live = true;
}

abbrev reading : System
reading = record {
  watcher = record { serial = []; state = connected; events = here_event ∷ [] };
  queue = [];
  loop = record { runs = reader ∷ []; poller_cancel = some 0 };
  ended = false;
}

abbrev answers : Answers
answers = record { devices = ok []; stored = ok 7 }

reading-Reach : Reach (initial idle) reading
unfolding look check observe pick_online_device text_eq fresh handle stop_poller start_id
reading-Reach =
    more (more here (checks (some (record { serial = phone; online = true } ∷ []))))
      (receives answers)

one_poller_example : AtMostOne (reader ∷ []) × Current false [] (some phone) reading.loop
one_poller_example = one_poller idle reading refl refl reading-Reach

abbrev sms : Message
sms = record {
  android_id = codes "12";
  subscription_id = codes "3";
  address = codes "+995";
  body = codes "hi";
  translation = [];
  device_name = [];
  sim_name = [];
  source = [];
  recipient = [];
  received_at = 0;
}

abbrev other_sms : Message
other_sms = record sms { android_id = codes "13"; body = codes "ho" }

poll_output-IsStored_example :
    All
      (λ (m : Message).
        IsStored reader.poller m
          (process_messages none
            (codes "email" ∷ [])
            (codes "GE")
            (poll_output (λ i. false) (parsed (sms ∷ other_sms ∷ [])) reader.poller).messages
            (start 0 [])).db.messages)
      (beyond 7 (sms ∷ other_sms ∷ []))
unfolding atoi text_eq
poll_output-IsStored_example =
    poll_output-IsStored none (codes "email" ∷ []) (codes "GE") (λ i. false) (sms ∷ other_sms ∷ [])
      reader.poller (start 0 []) tt (λ j. refl) refl (tt, (tt, tt)) ((refl, tt), (tt, tt))

-- The SIM of a phone.

abbrev sim_rows : Text
sim_rows = codes "Row: 0 _id=3, display_name=MTS, sim_slot_index=0"

abbrev sims : Assoc Text
sims = (codes "3", codes "MTS") ∷ []

read_sims : sims ≡ parse_sim_info sim_rows
unfolding parse_sim_info text_eq trim_space has_prefix split_rows span_digits drop_prefix
    find_number insert sub_id_here
read_sims = refl

some_id : codes "3" ≢ []
some_id e = cc
