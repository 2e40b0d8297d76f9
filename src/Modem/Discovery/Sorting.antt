-- ===== src/Modem/Discovery/Sorting.antt =====
-- The candidates sorted by their USB paths.
use abb_app.Base.{
  ◌≡◌, ◌∙◌, refl, ap, sym, true, false, Bool-cases, inl, inr, Option, none, some, List, [], ◌∷◌,
  arith, if◌then◌else◌,
}
use mathlib.Core.Option.{some-ne-none}
use abb_app.Base.Text.{Text, text_eq, text_eq_iff}
use abb_app.Modem.Discovery.{Candidate}
use abb_app.Modem.Discovery.Order.{text_lt, text_lt-total, text_lt-irreflexive}
use abb_app.Modem.Discovery.Groups.{insert_candidate}

-- The candidate of a USB path.
abbrev pub find_candidate : Text → List Candidate → Option Candidate
find_candidate k [] = none
find_candidate k (c ∷ cs) = if text_eq c.usb_path k then some c else find_candidate k cs

-- The paths ascend, strictly.
abbrev pub AscendsFrom : Text → List Candidate → Type 0
AscendsFrom b [] = Unit
AscendsFrom b (c ∷ cs) = (text_lt b c.usb_path ≡ true) × AscendsFrom c.usb_path cs

abbrev pub Ascends : List Candidate → Type 0
Ascends [] = Unit
Ascends (c ∷ cs) = AscendsFrom c.usb_path cs

below_test : (a b k : Text) → text_lt a b ≡ true → text_eq a k ≡ true → text_eq b k ≡ false
below_test a b k less here = elim (Bool-cases (text_eq b k)) [
  | inl same ↦
      let equal : b ≡ a = (text_eq_iff b k).0 same ∙ sym ((text_eq_iff a k).0 here) in
      absurd (cc (less, text_lt-irreflexive a, ap (text_lt a) equal))
  | inr other ↦ other
]

pub find-insert_candidate :
    (k : Text) (c : Candidate) (cs : List Candidate)
    → find_candidate k (insert_candidate c cs)
      ≡ (if text_eq c.usb_path k then some c else find_candidate k cs)
unfolding insert_candidate
find-insert_candidate k c [] = refl
find-insert_candidate k c (d ∷ ds) = elim (Bool-cases (text_lt d.usb_path c.usb_path)) [
  | inl less ↦ elim (Bool-cases (text_eq d.usb_path k)) [
    | inl here ↦ rw (less, here, below_test d.usb_path c.usb_path k less here) refl
    | inr there ↦ rw (less, there) (find-insert_candidate k c ds)
  ]
  | inr first ↦ rw first refl
]

not_first :
    (k : Text) (d : Candidate) (ds : List Candidate)
    → find_candidate k (d ∷ ds) ≡ none
    → (text_eq k d.usb_path ≡ false) × (find_candidate k ds ≡ none)
not_first k d ds h = elim (Bool-cases (text_eq d.usb_path k)) [
  | inl same ↦ absurd (some-ne-none d (rw same at h))
  | inr other ↦
      (ground (arith, other, text_eq_iff d.usb_path k, text_eq_iff k d.usb_path), rw other at h)
]

insert-AscendsFrom :
    (b : Text) (c : Candidate) (cs : List Candidate)
    → find_candidate c.usb_path cs ≡ none
    → text_lt b c.usb_path ≡ true
    → AscendsFrom b cs
    → AscendsFrom b (insert_candidate c cs)
unfolding insert_candidate
insert-AscendsFrom b c [] new up h = (up, tt)
insert-AscendsFrom b c (d ∷ ds) new up h =
    let (differs, rest) = not_first c.usb_path d ds new in
    elim (Bool-cases (text_lt d.usb_path c.usb_path)) [
      | inl less ↦ rw less (h.0, insert-AscendsFrom d.usb_path c ds rest less h.1)
      | inr first ↦ rw first (up, (text_lt-total c.usb_path d.usb_path differs first, h.1))
    ]

pub insert-Ascends :
    (c : Candidate) (cs : List Candidate)
    → find_candidate c.usb_path cs ≡ none
    → Ascends cs
    → Ascends (insert_candidate c cs)
unfolding insert_candidate
insert-Ascends c [] new h = tt
insert-Ascends c (d ∷ ds) new h =
    let (differs, rest) = not_first c.usb_path d ds new in
    elim (Bool-cases (text_lt d.usb_path c.usb_path)) [
      | inl less ↦ rw less (insert-AscendsFrom d.usb_path c ds rest less h)
      | inr first ↦ rw first (text_lt-total c.usb_path d.usb_path differs first, h)
    ]
