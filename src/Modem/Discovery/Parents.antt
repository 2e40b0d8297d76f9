-- ===== src/Modem/Discovery/Parents.antt =====
-- The device that findUSBDevice finds above a port.
use abb_app.Base.{
  ℕ, zero, suc, ◌<◌, ◌≡◌, refl, ap, true, false, Bool-cases, inl, inr, Option, none, some, List, [],
  ◌∷◌, ◌++◌, length, arith,
}
use abb_app.Base.Text.{Text}
use abb_app.Base.Int.{ℤ, negsuc}
use abb_app.Modem.Discovery.{PathName, Sysfs, has_vendor, read_iface, find_from, find_usb_device}

-- The directories from a path up to, and without, the one that `above` is.
abbrev pub NoVendor : Sysfs → List Text → PathName → Type 0
NoVendor s [] above = Unit
NoVendor s (c ∷ near) above = (has_vendor s (c ∷ near ++ above) ≡ false) × NoVendor s near above

-- None of so many directories, from a path upwards, has a vendor id.
abbrev pub NoneWithin : ℕ → Sysfs → PathName → Type 0
NoneWithin zero s dir = Unit
NoneWithin (suc rounds) s [] = has_vendor s [] ≡ false
NoneWithin (suc rounds) s (c ∷ parent) =
    (has_vendor s (c ∷ parent) ≡ false) × NoneWithin rounds s parent

-- How a search over `rounds` directories ends.
abbrev pub Nearest : ℕ → Sysfs → PathName → Option (PathName × ℤ) → Type 0
Nearest rounds s dir none = NoneWithin rounds s dir
Nearest rounds s dir (some (d, i)) =
    (near : List Text) × (dir ≡ near ++ d)
    × (length near < rounds)
    × (has_vendor s d ≡ true)
    × NoVendor s near d

further :
    (rounds : ℕ) (s : Sysfs) (c : Text) (parent : PathName) (o : Option (PathName × ℤ))
    → has_vendor s (c ∷ parent) ≡ false
    → Nearest rounds s parent o
    → Nearest (suc rounds) s (c ∷ parent) o
further rounds s c parent none h n = (h, n)
further rounds s c parent (some (d, i)) h (near, path, few, vendor, others) =
    (c ∷ near, ap (λ (l : List Text). c ∷ l) path, omega arith, vendor, (rw path at h, others))

find_from-Nearest :
    (rounds : ℕ) (s : Sysfs) (iface : ℤ) (dir : PathName)
    → Nearest rounds s dir (find_from rounds s iface dir)
unfolding find_from
find_from-Nearest zero s iface dir = tt
find_from-Nearest (suc rounds) s iface [] = elim (Bool-cases (has_vendor s [])) [
  | inl here ↦ rw here ([], refl, omega arith, here, tt)
  | inr not_here ↦ rw not_here not_here
]
find_from-Nearest (suc rounds) s iface (c ∷ parent) =
    elim (Bool-cases (has_vendor s (c ∷ parent))) [
      | inl here ↦ rw here ([], refl, omega arith, here, tt)
      | inr not_here ↦ rw not_here (
          further rounds s c parent _ not_here
            (find_from-Nearest rounds s (read_iface s (c ∷ parent) iface) parent))
    ]

-- findUSBDevice looks at the directory it is given and the five above it: the device that it answers is
-- one of them, has a vendor id, and is the nearest one that has; where it answers none, none of them has.
pub find_usb_device_lem : (s : Sysfs) (dir : PathName) → Nearest 6 s dir (find_usb_device s dir)
unfolding find_usb_device
find_usb_device_lem s dir = find_from-Nearest 6 s (negsuc 0) dir
