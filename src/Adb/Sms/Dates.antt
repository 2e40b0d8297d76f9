-- ===== src/Adb/Sms/Dates.antt =====
-- reDateSuffix of internal/adb/sms.go: the date is the one behind the body, whatever the body is.
use abb_app.Base.{
  ℕ, ◌+◌, ◌≡◌, ◌∙◌, refl, ap, Bool, true, false, ◌&&◌, not, Bool-cases, inl, inr, Option, none,
  some, [], ◌∷◌, ◌++◌, length, All, ◌==◌, arith, if◌then◌else◌,
}
use mathlib.Core.Option.{some-injective, some-ne-none, none-ne-some}
use abb_app.Base.Text.{
  is_re_space, Text, codes, text_eq, has_prefix, drop_prefix, trim_left, span_digits, is_digit,
}
use abb_app.Adb.Sms.{date_here, find_date}

-- What is left of a text that ends with a comma and more still does.

no_match : (b : Bool) (d : Text) → (if b && false then some d else none) ≡ none
no_match b d = ground arith

module _ (t : Text) where
  Ends : Text → Type 0
  Ends z = (y : Text) × (z ≡ y ++ 44 ∷ t)

  trim_left-Ends : (y : Text) → Ends (trim_left is_re_space (y ++ 44 ∷ t))
  unfolding trim_left Ends
  trim_left-Ends [] = ([], refl)
  trim_left-Ends (c ∷ y) = elim (Bool-cases (is_re_space c)) [
    | inl space ↦ rw space (trim_left-Ends y)
    | inr other ↦ rw other (c ∷ y, refl)
  ]

  drop_prefix-Ends :
      (p y : Text)
      → All (λ c. (44 == c) ≡ false) p
      → has_prefix (y ++ 44 ∷ t) p ≡ true
      → Ends (drop_prefix (y ++ 44 ∷ t) p)
  unfolding has_prefix drop_prefix Ends
  drop_prefix-Ends [] y h e = (y, refl)
  drop_prefix-Ends (c ∷ p) [] h e = absurd (ground (arith, h.0, e))
  drop_prefix-Ends (c ∷ p) (d ∷ y) h e = drop_prefix-Ends p y h.1 (ground (arith, e))

  span_digits-Ends : (y : Text) → Ends (span_digits (y ++ 44 ∷ t)).1
  unfolding span_digits Ends
  span_digits-Ends [] = ([], refl)
  span_digits-Ends (c ∷ y) = elim (Bool-cases (is_digit c)) [
    | inl digit ↦ rw digit (span_digits-Ends y)
    | inr other ↦ rw other (c ∷ y, refl)
  ]

  Ends-some : (z : Text) → Ends z → text_eq z [] ≡ false
  unfolding Ends text_eq
  Ends-some z ([], e) = rw e refl
  Ends-some z (c ∷ y, e) = rw e refl

  trimmed-some : (z : Text) → Ends z → text_eq (trim_left is_re_space z) [] ≡ false
  unfolding Ends
  trimmed-some z (y, e) = rw e (Ends-some (trim_left is_re_space (y ++ 44 ∷ t)) (trim_left-Ends y))

  -- What the rest of the digits leaves cannot be the end of the text.
  tail-some :
      (z : Text)
      → Ends z
      → has_prefix z (codes "date=") ≡ true
      → text_eq (trim_left is_re_space (span_digits (drop_prefix z (codes "date="))).1) [] ≡ false
  unfolding Ends
  tail-some z (y, e) h =
      let (y1, e1) =
        drop_prefix-Ends (codes "date=") y (refl, (refl, (refl, (refl, (refl, tt))))) (rw e at h) in
      trimmed-some _ (rw (e, e1) (span_digits-Ends y1))

  date_here-none : (c : ℕ) (y : Text) → date_here (c ∷ (y ++ 44 ∷ t)) ≡ none
  unfolding date_here has_prefix drop_prefix
  date_here-none c y =
      let w = trim_left is_re_space (y ++ 44 ∷ t) in
      elim (Bool-cases (c == 44)) [
        | inr other ↦ rw other refl
        | inl comma ↦ elim (Bool-cases (has_prefix w (codes "date="))) [
          | inr other ↦ rw (comma, other) refl
          | inl tag ↦
              let left = tail-some w (trim_left-Ends y) tag in
              rw (comma, tag, left)
                (no_match (not (text_eq (span_digits (drop_prefix w (codes "date="))).0 [])) _)
        ]
      ]

-- A text of digits, behind which nothing stands.
span_digits-only : (date : Text) → All (λ c. is_digit c ≡ true) date → span_digits date ≡ (date, [])
unfolding span_digits
span_digits-only [] h = refl
span_digits-only (c ∷ date) h = rw (h.0, span_digits-only date h.1) refl

date_here-date :
    (date : Text)
    → All (λ c. is_digit c ≡ true) date
    → text_eq date [] ≡ false
    → date_here (codes ", date=" ++ date) ≡ some date
unfolding date_here has_prefix drop_prefix trim_left text_eq
date_here-date date h filled = rw (span_digits-only date h, filled) refl

found_here :
    (i c : ℕ) (s digits : Text)
    → date_here (c ∷ s) ≡ some digits
    → find_date i (c ∷ s) ≡ some (i, digits)
unfolding find_date
found_here i c s digits h = go (date_here (c ∷ s)) h
  where
    go :
        (o : Option Text)
        → o ≡ some digits
        → elim o as (λ x. Option (ℕ × Text)) [ some d ↦ some (i, d) | none ↦ find_date (i + 1) s ]
          ≡ some (i, digits)
    go none h = absurd (none-ne-some digits h)
    go (some d) h = ap (λ (x : Text). some (i, x)) (some-injective d digits h)

not_here :
    (i c : ℕ) (s : Text) → date_here (c ∷ s) ≡ none → find_date i (c ∷ s) ≡ find_date (i + 1) s
unfolding find_date
not_here i c s h = go (date_here (c ∷ s)) h
  where
    go :
        (o : Option Text)
        → o ≡ none
        → elim o as (λ x. Option (ℕ × Text)) [ some d ↦ some (i, d) | none ↦ find_date (i + 1) s ]
          ≡ find_date (i + 1) s
    go none h = refl
    go (some d) h = absurd (some-ne-none d h)

-- However the row begins, and so whatever the body is, the date of a row is found in what stands at its
-- end behind ", date=", if that are digits.
pub find_date-append :
    (i : ℕ) (before date : Text)
    → All (λ c. is_digit c ≡ true) date
    → text_eq date [] ≡ false
    → find_date i (before ++ (codes ", date=" ++ date)) ≡ some (i + length before, date)
find_date-append i [] date h filled =
    found_here i 44 _ date (date_here-date date h filled)
    ∙ ap (λ (n : ℕ). some (n, date)) (omega arith)
find_date-append i (c ∷ before) date h filled =
    not_here i c _ (date_here-none (codes " date=" ++ date) c before)
    ∙ find_date-append (i + 1) before date h filled
    ∙ ap (λ (n : ℕ). some (n, date)) (omega arith)
