-- ===== src/Modem/Discovery.antt =====
-- internal/modem/discovery.go: the USB modems and their serial ports. The file system is a parameter.
pub mod Order
pub mod Groups
pub mod Sorting
pub mod Parents
pub mod Ports
pub mod Listing
use abb_app.Base.{
  ℕ, zero, suc, ◌+◌, ◌-◌, ◌*◌, ◌^◌, Bool, true, false, ◌&&◌, ◌||◌, not, Option, none, some, List,
  [], ◌∷◌, ◌++◌, map, filter, ltb, leb, ◌==◌, if◌then◌else◌,
}
use abb_app.Base.Int.{ℤ, pos, negsuc}
use abb_app.Base.Text.{Text, codes, text_eq, has_prefix, trim_space, to_lower}
use abb_app.Base.Assoc.{Assoc}
use abb_app.Modem.Manager.{contains_text}

-- The machine integers of ParseInt.
unfoldable pub is_negative : ℤ → Bool
is_negative (pos n) = false
is_negative (negsuc n) = true

-- i < j
unfoldable pub less : ℤ → ℤ → Bool
less (pos m) (pos n) = ltb m n
less (pos m) (negsuc n) = false
less (negsuc m) (pos n) = true
less (negsuc m) (negsuc n) = ltb n m

-- An absolute path, its last component first; the root is [].
abbrev pub PathName : Type 0
PathName = List Text

-- What os.ReadDir answers for class/tty: that it does not exist, another error, or the names.
pub data Tty : Type 0 where
  missing unreadable : Tty
  names : List Text → Tty

-- `device` is EvalSymlinks of the link of that name of a tty; `read_file` is os.ReadFile.
pub record Sysfs : Type 0 where
  pub tty : Tty
  pub device : Text → Option PathName
  pub read_file : PathName → Text → Option Text

pub record Candidate : Type 0 where
  pub usb_path : Text
  pub vid_pid : Text
  pub ports : List Text

abbrev cleaned : Option Text → Text
cleaned none = []
cleaned (some b) = to_lower (trim_space b)

-- readAttr
unfoldable pub read_attr : Sysfs → PathName → Text → Text
read_attr s dir name = cleaned (s.read_file dir name)

-- The value of a hexadecimal digit.
unfoldable pub hex_digit : ℕ → Option ℕ
hex_digit c =
    if leb 48 c && leb c 57
    then some (c - 48)
    else if leb 97 c && leb c 102
    then some (c - 87)
    else if leb 65 c && leb c 70
    then some (c - 55)
    else none

unfoldable pub hex_from : ℕ → Text → Option ℕ
unfolding hex_digit
hex_from n [] = some n
hex_from n (c ∷ cs) = elim (hex_digit c) [ none ↦ none | some d ↦ hex_from (n * 16 + d) cs ]

unfoldable pub hex : Text → Option ℕ
unfolding hex_from
hex [] = none
hex (c ∷ cs) = hex_from 0 (c ∷ cs)

abbrev positive : Option ℕ → Option ℤ
positive none = none
positive (some n) = if ltb n (2 ^ 31) then some (pos n) else none

abbrev negative : Option ℕ → Option ℤ
negative none = none
negative (some zero) = some (pos 0)
negative (some (suc n)) = if ltb n (2 ^ 31) then some (negsuc n) else none

-- strconv.ParseInt(v, 16, 32); `none` is an error.
unfoldable pub parse_int : Text → Option ℤ
unfolding hex
parse_int [] = none
parse_int (c ∷ cs) =
    if c == 45
    then negative (hex cs)
    else if c == 43
    then positive (hex cs)
    else positive (hex (c ∷ cs))

abbrev or_else : ℤ → Option ℤ → ℤ
or_else i none = i
or_else i (some n) = n

-- The interface number behind one directory.
unfoldable pub read_iface : Sysfs → PathName → ℤ → ℤ
unfolding read_attr parse_int is_negative
read_iface s dir iface =
    if is_negative iface
    then or_else iface (parse_int (read_attr s dir (codes "bInterfaceNumber")))
    else iface

abbrev pub has_vendor : Sysfs → PathName → Bool
has_vendor s dir = not (text_eq (read_attr s dir (codes "idVendor")) [])

-- The rounds of the loop of findUSBDevice that are left.
unfoldable pub find_from : ℕ → Sysfs → ℤ → PathName → Option (PathName × ℤ)
unfolding read_iface
find_from zero s iface dir = none
find_from (suc rounds) s iface [] =
    if has_vendor s [] then some ([], read_iface s [] iface) else none
find_from (suc rounds) s iface (c ∷ parent) =
    let i = read_iface s (c ∷ parent) iface in
    let further = find_from rounds s i parent in
    if has_vendor s (c ∷ parent) then some (c ∷ parent, i) else further

-- findUSBDevice
unfoldable pub find_usb_device : Sysfs → PathName → Option (PathName × ℤ)
unfolding find_from
find_usb_device s dir = find_from 6 s (negsuc 0) dir

-- A serial port of a modem: its group, the ids of its device, and the port itself.
pub record Port : Type 0 where
  pub key : Text
  pub vid_pid : Text
  pub dev : Text
  pub iface : ℤ

-- filepath.Base
abbrev pub base : PathName → Text
base [] = codes "/"
base (c ∷ parent) = c

abbrev pub is_serial : Text → Bool
is_serial name = has_prefix name (codes "ttyUSB") || has_prefix name (codes "ttyACM")

abbrev port_at : Sysfs → Text → List Text → Text → PathName × ℤ → Option Port
port_at s dev_root allowed name (dir, iface) =
    let id =
      read_attr s dir (codes "idVendor") ++ (codes ":" ++ read_attr s dir (codes "idProduct")) in
    if contains_text id allowed
    then some (record {
      key = base dir;
      vid_pid = id;
      dev = dev_root ++ (codes "/" ++ name);
      iface = iface;
    })
    else none

abbrev port_behind : Sysfs → Text → List Text → Text → Option (PathName × ℤ) → Option Port
port_behind s dev_root allowed name none = none
port_behind s dev_root allowed name (some d) = port_at s dev_root allowed name d

abbrev port_of_device : Sysfs → Text → List Text → Text → Option PathName → Option Port
port_of_device s dev_root allowed name none = none
port_of_device s dev_root allowed name (some path) =
    port_behind s dev_root allowed name (find_usb_device s path)

-- One round of the loop over the entries, up to the map entries: `none` is a `continue`.
unfoldable pub port_of : Sysfs → Text → List Text → Text → Option Port
unfolding find_usb_device read_attr
port_of s dev_root allowed name =
    if is_serial name then port_of_device s dev_root allowed name (s.device name) else none

abbrev found : Option Port → List Port → List Port
found none ps = ps
found (some p) ps = p ∷ ps

unfoldable pub ports_of : Sysfs → Text → List Text → List Text → List Port
unfolding port_of
ports_of s dev_root allowed [] = []
ports_of s dev_root allowed (n ∷ ns) =
    found (port_of s dev_root allowed n) (ports_of s dev_root allowed ns)
