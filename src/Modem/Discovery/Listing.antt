-- ===== src/Modem/Discovery/Listing.antt =====
-- What Discover lists: each modem once, in order, with its ports.
use abb_app.Base.{
  ◌≡◌, ◌∙◌, refl, ap, sym, subst, true, false, Bool-cases, inl, inr, Option, none, some, List, [],
  ◌∷◌, ◌++◌, map, filter, arith, if◌then◌else◌,
}
use mathlib.Core.List.{append-nil, append_assoc}
use abb_app.Base.Text.{Text, text_eq, text_eq_iff, trim_space, to_lower}
use abb_app.Modem.Discovery.{Sysfs, names, Candidate, Port, ports_of}
use abb_app.Modem.Discovery.Groups.{
  Group, add_port, add_ports, sort_ports, candidate_of, candidates_of, listed, discover,
}
use abb_app.Modem.Discovery.Ports.{
  ArePortsOf, ports_of-ArePortsOf, InOrder, SamePorts, sort_ports-InOrder, sort_ports-SamePorts,
}
use abb_app.Modem.Discovery.Sorting.{find_candidate, Ascends, find-insert_candidate, insert-Ascends}

find_group : Text → List Group → Option Group
find_group k [] = none
find_group k (g ∷ gs) = if text_eq g.key k then some g else find_group k gs

-- The candidate that the ports of one device make.
abbrev candidate_from : List Port → Option Candidate
candidate_from [] = none
candidate_from (p ∷ ps) = some (record {
  usb_path = p.key;
  vid_pid = p.vid_pid;
  ports = map (λ (q : Port). q.dev) (sort_ports (p ∷ ps));
})

abbrev pub of_key : Text → List Port → List Port
of_key k ps = filter (λ (p : Port). text_eq p.key k) ps

-- A group with more ports.
extend : Option Group → List Port → Option Group
extend none [] = none
extend none (p ∷ ps) = some (record { key = p.key; vid_pid = p.vid_pid; members = p ∷ ps })
extend (some g) ps = some (record g { members = g.members ++ ps })

same_test : (a b k : Text) → text_eq a b ≡ true → text_eq a k ≡ text_eq b k
same_test a b k e = ap (λ (x : Text). text_eq x k) ((text_eq_iff a b).0 e)

other_test : (a b k : Text) → text_eq a b ≡ false → text_eq a k ≡ true → text_eq b k ≡ false
other_test a b k d e = ground (arith, text_eq_iff a b, text_eq_iff a k, text_eq_iff b k)

find-add_port :
    (k : Text) (p : Port) (gs : List Group)
    → find_group k (add_port p gs)
      ≡ (if text_eq p.key k then extend (find_group k gs) (p ∷ []) else find_group k gs)
unfolding find_group add_port extend
find-add_port k p [] = refl
find-add_port k p (g ∷ gs) = elim (Bool-cases (text_eq g.key p.key)) [
  | inl same ↦ elim (Bool-cases (text_eq g.key k)) [
    | inl here ↦ rw (same, here, sym (same_test g.key p.key k same) ∙ here) refl
    | inr there ↦ rw (same, there, sym (same_test g.key p.key k same) ∙ there) refl
  ]
  | inr other ↦ elim (Bool-cases (text_eq g.key k)) [
    | inl here ↦ rw (other, here, other_test g.key p.key k other here) refl
    | inr there ↦ rw (other, there) (find-add_port k p gs)
  ]
]

extend-extend :
    (o : Option Group) (p : Port) (ps : List Port)
    → extend (extend o (p ∷ [])) ps ≡ extend o (p ∷ ps)
unfolding extend
extend-extend none p ps = refl
extend-extend (some g) p ps = rw (append_assoc g.members (p ∷ []) ps) refl

extend-nil : (o : Option Group) → extend o [] ≡ o
unfolding extend
extend-nil none = refl
extend-nil (some g) = rw (append-nil g.members) refl

find-add_ports :
    (k : Text) (ps : List Port) (gs : List Group)
    → find_group k (add_ports ps gs) ≡ extend (find_group k gs) (of_key k ps)
unfolding add_ports
find-add_ports k [] gs = sym (extend-nil (find_group k gs))
find-add_ports k (p ∷ ps) gs = elim (Bool-cases (text_eq p.key k)) [
  | inl own ↦
      find-add_ports k ps (add_port p gs)
      ∙ ap (λ (o : Option Group). extend o (of_key k ps)) (rw own at (find-add_port k p gs))
      ∙ extend-extend (find_group k gs) p (of_key k ps)
      ∙ rw own refl
  | inr other ↦
      find-add_ports k ps (add_port p gs)
      ∙ ap (λ (o : Option Group). extend o (of_key k ps)) (rw other at (find-add_port k p gs))
      ∙ rw other refl
]

-- No two groups are of one device.
Distinct : List Group → Type 0
Distinct [] = Unit
Distinct (g ∷ gs) = (find_group g.key gs ≡ none) × Distinct gs

add_port-Distinct : (p : Port) (gs : List Group) → Distinct gs → Distinct (add_port p gs)
unfolding Distinct add_port find_group
add_port-Distinct p [] h = (refl, tt)
add_port-Distinct p (g ∷ gs) h = elim (Bool-cases (text_eq g.key p.key)) [
  | inl same ↦ rw same h
  | inr other ↦
      let differs : text_eq p.key g.key ≡ false =
        ground (arith, text_eq_iff g.key p.key, text_eq_iff p.key g.key) in
      rw other (rw (find-add_port g.key p gs, differs) h.0, add_port-Distinct p gs h.1)
]

add_ports-Distinct : (ps : List Port) (gs : List Group) → Distinct gs → Distinct (add_ports ps gs)
unfolding add_ports
add_ports-Distinct [] gs h = h
add_ports-Distinct (p ∷ ps) gs h = add_ports-Distinct ps (add_port p gs) (add_port-Distinct p gs h)

made : Option Group → Option Candidate
made none = none
made (some g) = some (candidate_of g)

find-candidates_of :
    (k : Text) (gs : List Group) → find_candidate k (candidates_of gs) ≡ made (find_group k gs)
unfolding candidates_of made find_group candidate_of
find-candidates_of k [] = refl
find-candidates_of k (g ∷ gs) =
    find-insert_candidate k (candidate_of g) (candidates_of gs)
    ∙ elim (Bool-cases (text_eq g.key k)) [
      | inl here ↦ rw here refl
      | inr there ↦ rw there (find-candidates_of k gs)
    ]

candidates_of-Ascends : (gs : List Group) → Distinct gs → Ascends (candidates_of gs)
unfolding candidates_of Distinct made candidate_of
candidates_of-Ascends [] h = tt
candidates_of-Ascends (g ∷ gs) h =
    insert-Ascends (candidate_of g) (candidates_of gs) (find-candidates_of g.key gs ∙ ap made h.0)
      (candidates_of-Ascends gs h.1)

made-extend : (ps : List Port) → made (extend none ps) ≡ candidate_from ps
unfolding made extend candidate_of
made-extend [] = refl
made-extend (p ∷ ps) = refl

-- The modem that the ports of one device make: its ports are these, by interface number.
abbrev pub MadeOf : List Port → Option Candidate → Type 0
MadeOf [] o = o ≡ none
MadeOf (p ∷ ps) o =
    (qs : List Port) × (o
      ≡ some
          (record { usb_path = p.key; vid_pid = p.vid_pid; ports = map (λ (q : Port). q.dev) qs }))
    × InOrder qs
    × SamePorts qs (p ∷ ps)

candidate_from-MadeOf : (ps : List Port) → MadeOf ps (candidate_from ps)
candidate_from-MadeOf [] = refl
candidate_from-MadeOf (p ∷ ps) =
    (sort_ports (p ∷ ps), refl, sort_ports-InOrder (p ∷ ps), sort_ports-SamePorts (p ∷ ps))

-- Where the entries of class/tty can be read, Discover succeeds, and what it lists is determined by the
-- ports of the entries, which are the serial ports on USB devices with allowed ids, and no other: the USB
-- paths ascend strictly, and under each path stands the modem that its ports make, all of them and in the
-- order of their interface numbers, with the ids of the first; a path without such a port is not listed.
pub discover_lem :
    (s : Sysfs) (dev_root : Text) (usb_ids ns : List Text)
    → s.tty ≡ names ns
    → (ps : List Port) × ArePortsOf s dev_root (map (λ id. to_lower (trim_space id)) usb_ids) ns ps
      × (cs : List Candidate) × (discover s dev_root usb_ids ≡ some cs)
      × Ascends cs
      × ((k : Text) → MadeOf (of_key k ps) (find_candidate k cs))
unfolding discover listed Distinct find_group
discover_lem s dev_root usb_ids ns e =
    let allowed : List Text = map (λ id. to_lower (trim_space id)) usb_ids in
    let ps : List Port = ports_of s dev_root allowed ns in
    (
      ps,
      ports_of-ArePortsOf s dev_root allowed ns,
      candidates_of (add_ports ps []),
      ap (listed s dev_root allowed) e,
      candidates_of-Ascends (add_ports ps []) (add_ports-Distinct ps [] tt),
      λ k.
          subst (MadeOf (of_key k ps))
            (sym (
              find-candidates_of k (add_ports ps [])
              ∙ ap made (find-add_ports k ps [])
              ∙ made-extend (of_key k ps)))
            (candidate_from-MadeOf (of_key k ps)),
    )
