-- ===== src/Tests/Setup.antt =====
-- The set-up of a modem: two ports, the first of which does not answer, and a modem that accepts all.
use abb_app.Base.{◌≡◌, refl, true, false, none, some, List, [], ◌∷◌, ◌++◌}
use abb_app.Base.Text.{
  Text, codes, text_eq, has_prefix, contains, trim_space, trim, trim_prefix, after_first, is_digit,
}
use abb_app.Db.Session.{err}
use abb_app.Modem.At.{Reply, timed_out}
use abb_app.Modem.Worker.{Codec, Worker}
use abb_app.Modem.Worker.Run.{
  Wake, urc, port_done, context_done, port_failed, run, is_port_closed, read_each, run_lem,
}
use abb_app.Modem.Worker.Setup.{
  Modem, Session, SetupConfig, Ports, Found, WaitResult, wait_sim, find_at_port, set_up, init,
}
use abb_app.Modem.Worker.Fields.{
  resolve_name, parse_iccid, first_digits, quoted_field, probe_order, third_first,
}
use abb_app.Modem.Worker.Setup.Ready.{EndsWithin, init_ends}
use abb_app.Modem.Worker.Setup.Probe.{in_use, IsReady, opened-init, init-IsReady}

abbrev port_a : Text
port_a = codes "a"

abbrev port_b : Text
port_b = codes "b"

abbrev two_ports : Ports
two_ports = record { opens = λ path. true; answers = λ path n. text_eq path port_a }

abbrev willing : Text → Modem
willing path = record {
  reply = λ n c. record { lines = codes "+CPIN: READY" ∷ []; error = none };
  took = λ n. 5;
  cancelled = λ n. false;
}

abbrev plain : SetupConfig
plain = record { labels = []; storage = [] }

abbrev fresh : Session
fresh = record {
  info = record {
    usb_path = [];
    port = [];
    imei = [];
    iccid = [];
    number = [];
    operator = [];
    name = [];
  };
  now = 0;
  asked = [];
}

abbrev command_log : List Text
command_log =
    codes "AT+CNMI=2,1,0,0,0"
    ∷ codes "AT+CPMS=\"SM\",\"SM\",\"SM\""
    ∷ codes "AT+CMGF=0"
    ∷ codes "AT+COPS?"
    ∷ codes "AT+COPS=3,0"
    ∷ codes "AT+CNUM"
    ∷ codes "AT+CICCID"
    ∷ codes "AT+CPIN?"
    ∷ codes "AT+CGSN"
    ∷ codes "AT+CMEE=2"
    ∷ codes "ATE0"
    ∷ []

abbrev set_up_session : Session
set_up_session = record {
  info = record {
    usb_path = codes "1-1";
    port = port_a;
    imei = [];
    iccid = codes "READY";
    number = [];
    operator = [];
    name = codes "A7670E 1-1";
  };
  now = 55;
  asked = command_log;
}

abbrev probed : Found
probed = record { port = some port_a; opened = port_b ∷ port_a ∷ []; closed = port_b ∷ [] }

init_run :
    init two_ports willing plain (codes "1-1") (port_a ∷ port_b ∷ []) fresh
    ≡ some ((none, set_up_session), probed)
unfolding init find_at_port set_up resolve_name parse_iccid first_digits quoted_field contains
    text_eq probe_order third_first trim_space trim trim_prefix after_first is_digit
init_run = refl

init_ends_example :
    EndsWithin 17 fresh (wait_sim (willing port_a) fresh)
    × ((r : WaitResult × Found) × (init two_ports willing plain
            (codes "1-1")
            (port_a ∷ port_b ∷ [])
            fresh
          ≡ some r))
init_ends_example =
    init_ends two_ports willing plain (codes "1-1") (port_a ∷ port_b ∷ []) fresh (willing port_a)
      fresh

opened-init_example : port_b ∷ port_a ∷ [] ≡ (port_b ∷ []) ++ in_use none (some port_a)
opened-init_example =
    opened-init two_ports willing plain (codes "1-1") (port_a ∷ port_b ∷ []) fresh
      (none, set_up_session) probed init_run

init-IsReady_example :
    (path : Text) × (some port_a ≡ some path) × IsReady (willing path) plain set_up_session
init-IsReady_example =
    init-IsReady two_ports willing plain (codes "1-1") (port_a ∷ port_b ∷ []) fresh set_up_session
      probed init_run

-- A worker that is told of a message, then of a call, and whose port fails then.

abbrev mute_codec : Codec
mute_codec = record { decode_pdu = λ t. err t; decode_text = λ l. err []; digest = λ t. t }

abbrev lab_worker : Worker
lab_worker = record {
  delete_after_read = true;
  imei = [];
  name = [];
  number = [];
  operator = [];
  now = 0;
  first_seen = [];
  bad_pdu = [];
  handled = [];
  commands = [];
  events = [];
}

abbrev one_listing : Reply
one_listing = record { lines = codes "+CMGL: 3,1,,20" ∷ codes "00" ∷ []; error = none }

abbrev no_answer : Reply
no_answer = record { lines = []; error = some timed_out }

abbrev wakes : List Wake
wakes = urc (codes "+CMTI: \"SM\",3") no_answer ∷ urc (codes "RING") one_listing ∷ []

run_lem_example :
    (run mute_codec one_listing wakes lab_worker
      ≡ (none, read_each mute_codec (one_listing.lines ∷ []) lab_worker))
    × (run mute_codec one_listing (wakes ++ port_done ∷ context_done ∷ []) lab_worker
        ≡ (some port_failed, read_each mute_codec (one_listing.lines ∷ []) lab_worker))
unfolding has_prefix is_port_closed
run_lem_example =
    run_lem mute_codec one_listing wakes port_done (context_done ∷ []) port_failed lab_worker
      (refl, (refl, tt)) refl
