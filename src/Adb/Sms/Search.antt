-- ===== src/Adb/Sms/Search.antt =====
-- What the searches of parseRow in internal/adb/sms.go pass over, and what they find.
use abb_app.Base.{
  ℕ, ◌+◌, ◌≡◌, ◌∙◌, refl, ap, Bool, true, false, ◌&&◌, not, Bool-cases, inl, inr, Option, none,
  some, [], ◌∷◌, ◌++◌, length, All, ◌==◌, arith,
}
use mathlib.Core.Option.{some-injective, some-ne-none, none-ne-some}
use abb_app.Base.Text.{Text, codes, text_eq, has_prefix, drop_prefix, span_digits, is_digit}
use abb_app.Adb.Sms.{find_number, index_from, sub_id_here, find_sub_id}

abbrev pub Digits : Text → Type 0
Digits = All (λ c. is_digit c ≡ true)

span_digits-stop : (ds t : Text) → Digits ds → span_digits (ds ++ 44 ∷ t) ≡ (ds, 44 ∷ t)
unfolding span_digits
span_digits-stop [] t h = refl
span_digits-stop (c ∷ ds) t h = rw (h.0, span_digits-stop ds t h.1) refl

digit_differs : (p c : ℕ) → is_digit p ≡ false → is_digit c ≡ true → (c == p) ≡ false
digit_differs p c n h = elim (Bool-cases (c == p)) [
  | inl same ↦ let equal : c ≡ p = ground arith in absurd (cc (n, h, ap is_digit equal))
  | inr other ↦ other
]

pub find_number-first :
    (d : ℕ) (ds t : Text)
    → Digits (d ∷ ds)
    → find_number (codes "_id=") (codes "_id=" ++ (d ∷ ds ++ 44 ∷ t)) ≡ some (d ∷ ds)
unfolding find_number has_prefix drop_prefix text_eq
find_number-first d ds t h = rw (span_digits-stop (d ∷ ds) t h) refl

pub sub_id-found :
    (d : ℕ) (ds t : Text)
    → Digits (d ∷ ds)
    → sub_id_here (codes "subscription_id=") (codes "subscription_id=" ++ (d ∷ ds ++ 44 ∷ t))
      ≡ some (d ∷ ds)
unfolding sub_id_here has_prefix drop_prefix text_eq
sub_id-found d ds t h =
    let no_sign : (d == 45) ≡ false = unfold is_digit in digit_differs 45 d refl h.0 in
    rw (no_sign, span_digits-stop (d ∷ ds) t h) refl

-- Bytes that differ from the first one of a pattern.
abbrev pub all_differ : ℕ → Text → Bool
all_differ p [] = true
all_differ p (c ∷ s) = not (c == p) && all_differ p s

pub apart-Digits : (p : ℕ) (ds : Text) → is_digit p ≡ false → Digits ds → all_differ p ds ≡ true
apart-Digits p [] n h = refl
apart-Digits p (c ∷ ds) n h = rw (digit_differs p c n h.0) (apart-Digits p ds n h.1)

tag_missed : (c : ℕ) (tag s : Text) → (c == 115) ≡ false → sub_id_here (115 ∷ tag) (c ∷ s) ≡ none
unfolding sub_id_here has_prefix
tag_missed c tag s h = rw h refl

find_sub_id-miss : (c : ℕ) (s : Text) → (c == 115) ≡ false → find_sub_id (c ∷ s) ≡ find_sub_id s
unfolding find_sub_id
find_sub_id-miss c s h =
    go (sub_id_here (codes "subscription_id=") (c ∷ s)) (sub_id_here (codes "sub_id=") (c ∷ s))
      (tag_missed c (codes "ubscription_id=") s h) (tag_missed c (codes "ub_id=") s h)
  where
    go :
        (o1 o2 : Option Text)
        → o1 ≡ none
        → o2 ≡ none
        → elim o1 as (λ x. Text) [
          | some t ↦ t
          | none ↦ elim o2 as (λ x. Text) [ some t ↦ t | none ↦ find_sub_id s ]
        ]
          ≡ find_sub_id s
    go none none h1 h2 = refl
    go none (some x) h1 h2 = absurd (some-ne-none x h2)
    go (some x) o2 h1 h2 = absurd (some-ne-none x h1)

pub find_sub_id-hit :
    (s : Text) (c : ℕ) (sub : Text)
    → sub_id_here (codes "subscription_id=") (c ∷ s) ≡ some sub
    → find_sub_id (c ∷ s) ≡ sub
unfolding find_sub_id
find_sub_id-hit s c sub h =
    go (sub_id_here (codes "subscription_id=") (c ∷ s)) (sub_id_here (codes "sub_id=") (c ∷ s)) h
  where
    go :
        (o1 o2 : Option Text)
        → o1 ≡ some sub
        → elim o1 as (λ x. Text) [
          | some t ↦ t
          | none ↦ elim o2 as (λ x. Text) [ some t ↦ t | none ↦ find_sub_id s ]
        ]
          ≡ sub
    go none o2 h1 = absurd (none-ne-some sub h1)
    go (some x) o2 h1 = some-injective x sub h1

pub find_sub_id-skip : (s t : Text) → all_differ 115 s ≡ true → find_sub_id (s ++ t) ≡ find_sub_id t
find_sub_id-skip [] t h = refl
find_sub_id-skip (c ∷ s) t h = elim (Bool-cases (c == 115)) [
  | inl same ↦ absurd (ground (arith, same, h))
  | inr other ↦ find_sub_id-miss c (s ++ t) other ∙ find_sub_id-skip s t (ground (arith, h))
]

pub index_from-skip :
    (i p : ℕ) (ps s t : Text)
    → all_differ p s ≡ true
    → index_from i (s ++ t) (p ∷ ps) ≡ index_from (i + length s) t (p ∷ ps)
unfolding index_from has_prefix
index_from-skip i p ps [] t h = ap (λ (n : ℕ). index_from n t (p ∷ ps)) (omega arith)
index_from-skip i p ps (c ∷ s) t h = elim (Bool-cases (c == p)) [
  | inl same ↦ absurd (ground (arith, same, h))
  | inr other ↦ rw other (
      index_from-skip (i + 1) p ps s t (ground (arith, h))
      ∙ ap (λ (n : ℕ). index_from n t (p ∷ ps)) (omega arith))
]
