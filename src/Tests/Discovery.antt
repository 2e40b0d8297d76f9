-- ===== src/Tests/Discovery.antt =====
-- A file system with one modem, two ports of which are listed out of order.
use abb_app.Base.{◌≡◌, refl, Option, none, some, List, [], ◌∷◌, map, if◌then◌else◌}
use abb_app.Base.Text.{Text, codes, text_eq, trim_space, to_lower}
use abb_app.Modem.Discovery.{PathName, Sysfs, names, Candidate, Port}
use abb_app.Modem.Discovery.Ports.{ArePortsOf}
use abb_app.Modem.Discovery.Groups.{discover}
use abb_app.Modem.Discovery.Sorting.{find_candidate, Ascends}
use abb_app.Modem.Discovery.Listing.{MadeOf, of_key, discover_lem}

abbrev device_dir : PathName
device_dir = codes "1-1" ∷ codes "usb1" ∷ []

abbrev file_of : PathName → Text → Option Text
file_of (d ∷ _) name =
    if text_eq name (codes "idVendor")
    then (if text_eq d (codes "1-1") then some (codes "1E0E") else none)
    else if text_eq name (codes "idProduct")
    then (if text_eq d (codes "1-1") then some (codes "9011") else none)
    else if text_eq d (codes "1.3")
    then some (codes "03")
    else if text_eq d (codes "1.2")
    then some (codes "02")
    else none
file_of [] name = none

abbrev tty_names : List Text
tty_names = codes "ttyS0" ∷ codes "ttyUSB0" ∷ codes "ttyUSB1" ∷ []

abbrev pub lab_sysfs : Sysfs
lab_sysfs = record {
  tty = names tty_names;
  device = λ name.
      some ((if text_eq name (codes "ttyUSB0") then codes "1.3" else codes "1.2") ∷ device_dir);
  read_file = file_of;
}

discover_lem_example :
    (ps : List Port) × ArePortsOf lab_sysfs
      (codes "/dev")
      (map (λ id. to_lower (trim_space id)) (codes " 1e0e:9011" ∷ []))
      tty_names
      ps
    × (cs : List Candidate) × (discover lab_sysfs (codes "/dev") (codes " 1e0e:9011" ∷ [])
        ≡ some cs)
    × Ascends cs
    × ((k : Text) → MadeOf (of_key k ps) (find_candidate k cs))
discover_lem_example =
    discover_lem lab_sysfs (codes "/dev") (codes " 1e0e:9011" ∷ []) tty_names refl
