-- ===== src/Tests/Phone.antt =====
-- The phone: the watcher of the device, the parser of its answers and the poller.
use abb_app.Base.{
  ◌≡◌, ◌*◌, refl, max, true, false, List, [], ◌∷◌, ◌++◌, take, ◌<◌, length, arith, map,
}
use abb_app.Base.Text.{
  Text, codes, text_eq, has_prefix, contains, drop_prefix, trim_left, trim_space, span_digits,
  is_digit, atoi,
}
use abb_app.Model.{Message}
use abb_app.Adb.Sms.{parsed, parse_sms_output, parse_row}
use abb_app.Adb.Sms.Rows.{printed_row, parse_row-printed_row}
use abb_app.Adb.Poller.{Poller, full, label, max_id, poll_output}
use abb_app.Adb.Poller.Cursor.{beyond, poll_output_lem, poll_output-interrupted}
use abb_app.Db.Session.{Outcome, ok, err}
use abb_app.Adb.Watcher.{
  GadbDevice, pick_online_device, disconnected, connected, Alternate, new_watcher, watcher_run,
  watcher_run-Alternate,
}

abbrev two_rows : Text
two_rows =
    codes "Row: 0 _id=12, subscription_id=3, address=+995, body=hi"
    ++ (10 ∷ codes "there, ok, date=1700000000123")
    ++ (10 ∷ codes "Row: 1 _id=7, address=MTS, body=, date=5")
    ++ (10 ∷ [])

two_rows_parse :
    parse_sms_output two_rows
    ≡ parsed (
        record {
          android_id = codes "12";
          subscription_id = codes "3";
          address = codes "+995";
          body = codes "hi" ++ (10 ∷ codes "there, ok");
          translation = [];
          device_name = [];
          sim_name = [];
          source = [];
          recipient = [];
          received_at = 1_700_000_000_123_000_000;
        }
        ∷ record {
          android_id = codes "7";
          subscription_id = [];
          address = codes "MTS";
          body = [];
          translation = [];
          device_name = [];
          sim_name = [];
          source = [];
          recipient = [];
          received_at = 5_000_000;
        }
        ∷ [])
unfolding parse_sms_output text_eq has_prefix contains drop_prefix trim_left trim_space span_digits
    atoi
two_rows_parse = refl

abbrev two_messages : List Message
two_messages = text_message (codes "12") ∷ text_message (codes "7") ∷ []
  where
    text_message : Text → Message
    text_message id = record {
      android_id = id;
      subscription_id = codes "3";
      address = codes "+995";
      body = codes "hi";
      translation = [];
      device_name = [];
      sim_name = [];
      source = [];
      recipient = [];
      received_at = 5_000_000;
    }

abbrev poller : Poller
poller = record {
  serial = codes "R5";
  device_name = codes "phone";
  last_id = 9;
  sim_info = (codes "3", codes "MTS") ∷ [];
  cmd = full;
  messages = [];
}

poll_output_lem_example :
    ((poll_output (λ i. false) (parsed two_messages) poller).messages
      ≡ poller.messages ++ map (label poller) (beyond poller.last_id two_messages))
    × ((poll_output (λ i. false) (parsed two_messages) poller).last_id
        ≡ max poller.last_id (max_id two_messages))
    × (poll_output
          (λ i. false)
          (parsed two_messages)
          (poll_output (λ i. false) (parsed two_messages) poller)
        ≡ poll_output (λ i. false) (parsed two_messages) poller)
poll_output_lem_example = poll_output_lem (λ i. false) two_messages poller (λ j. refl)

one_is_new : 0 < length (beyond poller.last_id two_messages)
unfolding atoi span_digits
one_is_new = omega arith

poll_output-interrupted_example :
    poll_output (λ i. true) (parsed two_messages) poller ≡ record poller {
      messages =
          poller.messages ++ map (label poller) (take 0 (beyond poller.last_id two_messages));
    }
poll_output-interrupted_example =
    poll_output-interrupted (λ i. true) 0 two_messages poller one_is_new refl
      (λ n lt. absurd (omega arith))

interrupted_poll : (poll_output (λ i. true) (parsed two_messages) poller).last_id ≡ 9
unfolding poll_output atoi span_digits
interrupted_poll = refl

abbrev phone : Text → GadbDevice
phone state = record { serial = codes "R5"; state = ok state }

abbrev answers : List (Outcome (List GadbDevice))
answers =
    ok (phone (codes "device") ∷ [])
    ∷ err (codes "refused")
    ∷ ok (phone (codes "offline") ∷ [])
    ∷ ok []
    ∷ ok (phone (codes "device") ∷ [])
    ∷ []

watcher_run-Alternate_example :
    Alternate
      (watcher_run (codes "device") answers (new_watcher [])).state
      (watcher_run (codes "device") answers (new_watcher [])).events
watcher_run-Alternate_example = watcher_run-Alternate (codes "device") [] answers

seen_states :
    map (λ e. e.state) (watcher_run (codes "device") answers (new_watcher [])).events
    ≡ connected ∷ disconnected ∷ connected ∷ []
unfolding watcher_run new_watcher pick_online_device text_eq
seen_states = refl

-- A body that looks like other columns.
parse_row-printed_row_example :
    parse_row (
      printed_row
        (codes "12")
        (codes "3")
        (codes "+995")
        (codes "a, body=b, date=7")
        (codes "1700"))
    ≡ parsed (record {
      android_id = codes "12";
      subscription_id = codes "3";
      address = codes "+995";
      body = codes "a, body=b, date=7";
      translation = [];
      device_name = [];
      sim_name = [];
      source = [];
      recipient = [];
      received_at = atoi (codes "1700") * 1_000_000;
    })
unfolding is_digit text_eq
parse_row-printed_row_example =
    parse_row-printed_row 49 (codes "2") 51 [] (codes "+995") (codes "a, body=b, date=7")
      (codes "1700") (refl, (refl, tt)) (refl, tt) refl (refl, (refl, (refl, (refl, tt)))) refl
