-- ===== src/Tests/Serial.antt =====
-- The modem: its serial port, its worker and the manager of the workers.
use abb_app.Base.{
  ℕ, ◌+◌, ◌-◌, ◌*◌, ◌^◌, ◌≤◌, ◌≡◌, ◌≢◌, ◌⊎◌, refl, min, true, false, inl, inr, none, some, List, [],
  ◌∷◌, length, if◌then◌else◌,
}
use abb_app.Base.Text.{Text, codes, text_eq, has_prefix}
use abb_app.Base.Assoc.{lookup}
use abb_app.Db.Session.{ok}
use abb_app.Modem.At.{line, refused, is_error, command}
use abb_app.Modem.At.Lines.{lines_of, without_echo, command-collects}
use abb_app.Modem.Manager.{Manager, max_retry_delay, fails_of, first_delay, start_workers, backoff}
use abb_app.Modem.Manager.Delay.{backoff_lem}
use abb_app.Modem.Worker.{
  Codec, Tpdu, key_eq, concat, Group, Worker, incomplete_timeout, sort_segments,
}
use abb_app.Modem.Worker.ReadAll.{process_group, seen_at, build_message}
use abb_app.Modem.Worker.Safety.{process_group-waits}
use abb_app.Config.{ModemLabel}
use abb_app.Modem.Worker.Fields.{Info, probe_order, third_first}

-- A modem answers AT+CNUM, with the echo on.

abbrev at_cnum : Text
at_cnum = codes "AT+CNUM"

abbrev cnum_line : Text
cnum_line = codes "+CNUM: \"\",\"+995555\",145"

command-collects_example :
    command false false at_cnum (lines_of (at_cnum ∷ cnum_line ∷ []) (line (codes "OK") ∷ []))
    ≡ record {
      lines = without_echo at_cnum (at_cnum ∷ cnum_line ∷ []);
      error = if text_eq (codes "OK") (codes "OK") then none else some (refused (codes "OK"));
    }
unfolding is_error text_eq has_prefix
command-collects_example =
    command-collects at_cnum (codes "OK") (at_cnum ∷ cnum_line ∷ []) []
      ((refl, refl), ((refl, refl), tt)) refl (inl refl)

-- A storage with one short message, the first segment of a long one, and a status report.

abbrev a_tpdu : Tpdu
a_tpdu = record {
  is_deliver = true;
  concat = none;
  number = codes "+995";
  time = 5_000_000_000;
  payload = codes "hi";
}

abbrev first_of_two : Tpdu
first_of_two = record a_tpdu {
  concat = some (record { segments = 2; sequence = 1; reference = 9 });
}

abbrev report : Tpdu
report = record a_tpdu { is_deliver = false }

abbrev codec : Codec
codec = record {
  decode_pdu = λ t.
      if text_eq t (codes "A1")
      then ok a_tpdu
      else if text_eq t (codes "A2")
      then ok first_of_two
      else ok report;
  decode_text = λ ts. ok (codes "hi");
  digest = λ t. t;
}

abbrev storage : List Text
storage =
    codes "+CMGL: 3,1,,20"
    ∷ codes "A1"
    ∷ codes "+CMGL: 4,1,,20"
    ∷ codes "A2"
    ∷ codes "+CMGL: 5,1,,20"
    ∷ codes "A3"
    ∷ []

abbrev idle_worker : Worker
idle_worker = record {
  delete_after_read = true;
  imei = codes "86";
  name = codes "lab";
  number = codes "+99555";
  operator = codes "op";
  now = 1_000_000_000_000;
  first_seen = (concat (codes "+995") 9 2, 1) ∷ [];
  bad_pdu = [];
  handled = true ∷ [];
  commands = [];
  events = [];
}

-- The first segment of a long message that has waited long enough.
abbrev half : Group
half = record {
  key = concat (codes "+995") 9 2;
  segments = record { index = 4; tpdu = first_of_two } ∷ [];
  total = 2;
}

half_handled : (process_group codec half idle_worker).handled ≡ []
unfolding process_group build_message sort_segments text_eq key_eq
half_handled = refl

half_changes : (process_group codec half idle_worker).handled ≢ idle_worker.handled
half_changes h = let e = half_handled in cc

process_group-waits_example :
    (half.total ≤ length half.segments)
    ⊎ ((first : ℕ) × (seen_at half.key idle_worker.first_seen ≡ some first)
        × (incomplete_timeout ≤ idle_worker.now - first))
process_group-waits_example = process_group-waits codec half idle_worker (inr half_changes)

-- The manager with one worker, and a modem that has failed twice.

abbrev manager : Manager
manager = record {
  watch_interval = 20_000_000_000;
  running = codes "1-1" ∷ [];
  fails = (codes "1-2", 2) ∷ [];
  retry_at = (codes "1-2", 50) ∷ [];
  now = 100;
}

backoff_lem_example :
    ((backoff (codes "1-2") manager).0
      ≡ min (first_delay manager * 2 ^ fails_of (codes "1-2") manager) max_retry_delay)
    × (fails_of (codes "1-2") (backoff (codes "1-2") manager).1
        ≡ fails_of (codes "1-2") manager + 1)
    × (lookup (codes "1-2") (backoff (codes "1-2") manager).1.retry_at
        ≡ some (manager.now + (backoff (codes "1-2") manager).0))
    × (fails_of (codes "1-3") (backoff (codes "1-2") manager).1 ≡ fails_of (codes "1-3") manager)
    × (lookup (codes "1-3") (backoff (codes "1-2") manager).1.retry_at
        ≡ lookup (codes "1-3") manager.retry_at)
unfolding text_eq
backoff_lem_example = backoff_lem (codes "1-2") (codes "1-3") manager refl

started_values :
    (start_workers (codes "1-1" ∷ codes "1-2" ∷ codes "1-2" ∷ []) manager).0 ≡ codes "1-2" ∷ []
unfolding start_workers text_eq lookup
started_values = refl

-- The number of the SIM, in the answer to AT+CNUM.

abbrev cnum_rest : Text
cnum_rest = codes ",145"

abbrev other_label : ModemLabel
other_label = record { imei = codes "11"; iccid = []; name = codes "other" }

abbrev lab_label : ModemLabel
lab_label = record { imei = codes "86"; iccid = []; name = codes "lab" }

abbrev lab_info : Info
lab_info = record {
  usb_path = codes "1-2";
  port = codes "/dev/ttyUSB2";
  imei = codes "86";
  iccid = [];
  number = [];
  operator = [];
  name = [];
}

abbrev ports : List Text
ports = codes "ttyUSB0" ∷ codes "ttyUSB1" ∷ codes "ttyUSB2" ∷ codes "ttyUSB3" ∷ []

probed :
    probe_order ports ≡ codes "ttyUSB2" ∷ codes "ttyUSB3" ∷ codes "ttyUSB1" ∷ codes "ttyUSB0" ∷ []
unfolding probe_order third_first
probed = refl
