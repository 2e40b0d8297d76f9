-- ===== src/Modem/Discovery/Ports.antt =====
-- The ports that Discover finds, and their order.
use abb_app.Base.{
  ◌≡◌, ◌∙◌, ◌⊎◌, refl, Bool, true, false, ◌||◌, subst, Bool-cases, Option-cases, inl, inr, none,
  some, List, [], ◌∷◌, ◌++◌, filter, length, arith,
}
use abb_app.Base.Int.{ℤ, pos, negsuc}
use abb_app.Base.Text.{Text, codes, has_prefix}
use abb_app.Modem.Discovery.Parents.{Nearest, find_usb_device_lem}
use abb_app.Modem.Manager.{contains_text}
use abb_app.Modem.Discovery.{
  PathName, Sysfs, Port, less, read_attr, base, is_serial, find_usb_device, port_of, ports_of,
}
use abb_app.Modem.Discovery.Groups.{insert_port, sort_ports}

-- The vendor and product id of a device.
abbrev pub ids_of : Sysfs → PathName → Text
ids_of s dir =
    read_attr s dir (codes "idVendor") ++ (codes ":" ++ read_attr s dir (codes "idProduct"))

-- The entry is that of a serial port, the nearest directory with a vendor id among the six that are
-- searched has allowed ids, and this is the port.
abbrev pub IsPortOf : Sysfs → Text → List Text → Text → Port → Type 0
IsPortOf s dev_root allowed name p =
    (has_prefix name (codes "ttyUSB") || has_prefix name (codes "ttyACM") ≡ true)
    × ((path : PathName) × (dir : PathName) × (iface : ℤ) × (s.device name ≡ some path)
        × (find_usb_device s path ≡ some (dir, iface))
        × Nearest 6 s path (some (dir, iface))
        × (contains_text (ids_of s dir) allowed ≡ true)
        × (p ≡ record {
          key = base dir;
          vid_pid = ids_of s dir;
          dev = dev_root ++ (codes "/" ++ name);
          iface = iface;
        }))

-- The ports of the entries, in order: each that is one, and no other.
abbrev pub ArePortsOf : Sysfs → Text → List Text → List Text → List Port → Type 0
ArePortsOf s dev_root allowed [] ps = ps ≡ []
ArePortsOf s dev_root allowed (n ∷ ns) ps =
    ((p : Port) × (qs : List Port) × (ps ≡ p ∷ qs)
      × IsPortOf s dev_root allowed n p
      × ArePortsOf s dev_root allowed ns qs)
    ⊎ (((p : Port) → ¬ IsPortOf s dev_root allowed n p) × ArePortsOf s dev_root allowed ns ps)

module _ (s : Sysfs) (dev_root : Text) (allowed : List Text) (n : Text) where
  port_of-cases :
      ((p : Port) × (port_of s dev_root allowed n ≡ some p) × IsPortOf s dev_root allowed n p)
      ⊎ ((port_of s dev_root allowed n ≡ none) × ((p : Port) → ¬ IsPortOf s dev_root allowed n p))
  unfolding port_of
  port_of-cases = elim (Bool-cases (is_serial n)) [
    | inr other ↦ inr (rw other refl, λ p h. cc (other, h.0))
    | inl serial ↦ elim (Option-cases (s.device n)) [
      | inl gone ↦
          inr (rw (serial, gone) refl, λ p (_, (path, dir, iface, d, f, near, a, r)). cc (gone, d))
      | inr (path, has) ↦ elim (Option-cases (find_usb_device s path)) [
        | inl lost ↦ inr (
          rw (serial, has, lost) refl,
          λ p (_, (path', dir, iface, d, f, near, a, r)). cc (has, d, f, lost),
        )
        | inr ((dir, iface), usb) ↦ elim (Bool-cases (contains_text (ids_of s dir) allowed)) [
          | inl fit ↦ inl (
            record {
              key = base dir;
              vid_pid = ids_of s dir;
              dev = dev_root ++ (codes "/" ++ n);
              iface = iface;
            },
            rw (serial, has, usb, fit) refl,
            (
              serial,
              (
                path,
                dir,
                iface,
                has,
                usb,
                subst (Nearest 6 s path) usb (find_usb_device_lem s path),
                fit,
                refl,
              ),
            ),
          )
          | inr foreign ↦ inr (
            rw (serial, has, usb, foreign) refl,
            λ p (_, (path', dir', iface', d, f, near, a, r)). cc (has, d, f, usb, a, foreign),
          )
        ]
      ]
    ]
  ]

pub ports_of-ArePortsOf :
    (s : Sysfs) (dev_root : Text) (allowed ns : List Text)
    → ArePortsOf s dev_root allowed ns (ports_of s dev_root allowed ns)
unfolding ports_of
ports_of-ArePortsOf s dev_root allowed [] = refl
ports_of-ArePortsOf s dev_root allowed (n ∷ ns) =
    let rest = ports_of-ArePortsOf s dev_root allowed ns in
    elim (port_of-cases s dev_root allowed n) [
      | inl (p, e, here) ↦ inl (p, ports_of s dev_root allowed ns, rw e refl, here, rest)
      | inr (e, nowhere) ↦ inr (nowhere, rw e rest)
    ]

-- Each number is at most the next one.
abbrev pub InOrder : List Port → Type 0
InOrder [] = Unit
InOrder (p ∷ []) = Unit
InOrder (p ∷ q ∷ ps) = (less q.iface p.iface ≡ false) × InOrder (q ∷ ps)

-- The same ports, each as often.
abbrev pub SamePorts : List Port → List Port → Type 0
SamePorts ps qs = (f : Port → Bool) → length (filter f ps) ≡ length (filter f qs)

less-asym : (i j : ℤ) → less i j ≡ true → less j i ≡ false
unfolding less
less-asym (pos m) (pos n) h = ground arith
less-asym (pos m) (negsuc n) h = cc
less-asym (negsuc m) (pos n) h = refl
less-asym (negsuc m) (negsuc n) h = ground arith

insert_port-InOrder : (p : Port) (ps : List Port) → InOrder ps → InOrder (insert_port p ps)
unfolding insert_port
insert_port-InOrder p [] h = tt
insert_port-InOrder p (q ∷ []) h = elim (Bool-cases (less q.iface p.iface)) [
  | inl before ↦ rw before (less-asym q.iface p.iface before, tt)
  | inr behind ↦ rw behind (behind, tt)
]
insert_port-InOrder p (q ∷ r ∷ ps) h = elim (Bool-cases (less q.iface p.iface)) [
  | inl before ↦
      let rest : InOrder (insert_port p (r ∷ ps)) = insert_port-InOrder p (r ∷ ps) h.1 in
      elim (Bool-cases (less r.iface p.iface)) [
        | inl also ↦ rw (before, also) (h.0, rw also at rest)
        | inr first ↦ rw (before, first) (less-asym q.iface p.iface before, rw first at rest)
      ]
  | inr behind ↦ rw behind (behind, h)
]

insert_port-count :
    (f : Port → Bool) (p : Port) (ps : List Port)
    → length (filter f (insert_port p ps)) ≡ length (filter f (p ∷ ps))
unfolding insert_port
insert_port-count f p [] = refl
insert_port-count f p (q ∷ qs) = elim (Bool-cases (less q.iface p.iface)) [
  | inl before ↦ rw before (ground (arith, insert_port-count f p qs))
  | inr behind ↦ rw behind refl
]

pub sort_ports-InOrder : (ps : List Port) → InOrder (sort_ports ps)
unfolding sort_ports
sort_ports-InOrder [] = tt
sort_ports-InOrder (p ∷ ps) = insert_port-InOrder p (sort_ports ps) (sort_ports-InOrder ps)

pub sort_ports-SamePorts : (ps : List Port) → SamePorts (sort_ports ps) ps
unfolding sort_ports
sort_ports-SamePorts [] f = refl
sort_ports-SamePorts (p ∷ ps) f =
    insert_port-count f p (sort_ports ps) ∙ ground (arith, sort_ports-SamePorts ps f)
