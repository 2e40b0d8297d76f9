-- ===== src/Tests/Fleet.antt =====
-- The manager of the modems: one modem is found and connects.
use abb_app.Base.{◌≡◌, ◌≤◌, ◌<◌, ◌⊎◌, ◌↔◌, refl, true, false, some, [], ◌∷◌, map}
use abb_app.Base.Text.{Text, codes, has_prefix, text_eq, to_lower, trim_space}
use abb_app.Base.Assoc.{remove, lookup}
use abb_app.Modem.Manager.{contains_text, init_succeeded, or_zero}
use abb_app.Modem.Manager.Fleet.{working, Fleet, Reach, here, more, starts, connects, initial}
use abb_app.Modem.Manager.Fleet.Counts.{count, count_working, shown}
use abb_app.Modem.Manager.Fleet.Turns.{InTurn}
use abb_app.Modem.Manager.Fleet.OneWorker.{one_worker, hooks-InTurn}
use abb_app.Modem.Manager.Fleet.Scans.{scan_fleet, scan_fleet-covers}
use abb_app.Modem.Discovery.{Candidate, ports_of}
use abb_app.Modem.Discovery.Groups.{discover}
use abb_app.Tests.Discovery.{lab_sysfs}

abbrev modem_path : Text
modem_path = codes "1-1"

abbrev one_modem : Fleet
one_modem = record {
  manager = record {
    watch_interval = 5;
    running = modem_path ∷ [];
    fails = [];
    retry_at = [];
    now = 9;
  };
  jobs = record { usb = modem_path; phase = working } ∷ [];
  notices = record { about = modem_path; connects = true } ∷ [];
  ended = false;
}

one_modem-Reach : Reach (initial 5 9) one_modem
unfolding contains_text init_succeeded remove lookup
one_modem-Reach = more (more here (starts modem_path refl)) (connects modem_path [] [])

one_worker_example :
    (count modem_path one_modem.jobs ≤ 1)
    × ((contains_text modem_path one_modem.manager.running ≡ true)
        ↔ (count modem_path one_modem.jobs ≡ 1))
one_worker_example = one_worker 5 9 one_modem one_modem-Reach modem_path

hooks-InTurn_example :
    InTurn one_modem.notices
    × ((u : Text) → (shown u one_modem.notices ≡ true) ↔ (count_working u one_modem.jobs ≡ 1))
hooks-InTurn_example = hooks-InTurn 5 9 one_modem one_modem-Reach refl

abbrev lab_modem : Candidate
lab_modem = record {
  usb_path = modem_path;
  vid_pid = codes "1e0e:9011";
  ports = codes "/dev/ttyUSB1" ∷ codes "/dev/ttyUSB0" ∷ [];
}

lab_modem-found : discover lab_sysfs (codes "/dev") (codes "1e0e:9011" ∷ []) ≡ some (lab_modem ∷ [])
unfolding discover ports_of has_prefix text_eq to_lower trim_space contains_text
lab_modem-found = refl

listed_here : contains_text modem_path (map (λ (c : Candidate). c.usb_path) (lab_modem ∷ [])) ≡ true
unfolding contains_text text_eq
listed_here = refl

abbrev scanned : Fleet
scanned = scan_fleet (discover lab_sysfs (codes "/dev") (codes "1e0e:9011" ∷ [])) (initial 5 9)

scan_fleet-covers_example :
    Reach (initial 5 9) scanned
    × ((count modem_path scanned.jobs ≡ 1)
        ⊎ (scanned.manager.now < or_zero (lookup modem_path scanned.manager.retry_at)))
scan_fleet-covers_example =
    scan_fleet-covers 5 9 lab_sysfs (codes "/dev") (codes "1e0e:9011" ∷ []) (initial 5 9)
      (lab_modem ∷ []) modem_path here lab_modem-found listed_here
