-- ===== src/Db/Times.antt =====
-- internal/db/outbox.go, parseTime, and internal/db/messages.go, scanTime: how a stored time is read
-- back. time.Parse is a parameter: it answers for a layout and a text.
use abb_app.Base.{
  ℕ, ◌≡◌, refl, false, Option, none, some, List, [], ◌∷◌, ◌++◌, All, ◌==◌, if◌then◌else◌,
}
use abb_app.Base.Text.{Text, codes}
use abb_app.Db.Session.{Outcome, ok, err}

abbrev pub layouts : List Text
layouts =
    codes "2006-01-02T15:04:05.999999999Z07:00"
    ∷ codes "2006-01-02T15:04:05Z07:00"
    ∷ codes "2006-01-02 15:04:05"
    ∷ codes "2006-01-02T15:04:05"
    ∷ []

abbrev pub offset_layout : Text
offset_layout = codes "2006-01-02 15:04:05.999999999 -0700"

-- s[:strings.LastIndexByte(s, ' ')], if there is a space behind the first byte.
unfoldable pub before_last_space : Text → Option Text
before_last_space [] = none
before_last_space (c ∷ s) = elim (before_last_space s) [
  | some t ↦ some (c ∷ t)
  | none ↦ elim s [ [] ↦ none | d ∷ t ↦ if d == 32 then some (c ∷ []) else none ]
]

-- The loop of parseTime.
unfoldable pub first_parsed : (Text → Text → Outcome ℕ) → Text → List Text → Option ℕ
first_parsed parse s [] = none
first_parsed parse s (layout ∷ ls) = elim (parse layout s) [
  | ok t ↦ some t
  | err e ↦ first_parsed parse s ls
]

-- The end of parseTime; 0 is the zero time.
abbrev pub or_zero_time : Outcome ℕ → ℕ
or_zero_time (ok t) = t
or_zero_time (err e) = 0

unfoldable pub parse_offset : (Text → Text → Outcome ℕ) → Option Text → ℕ
parse_offset parse none = 0
parse_offset parse (some s) = or_zero_time (parse offset_layout s)

unfoldable pub parse_time : (Text → Text → Outcome ℕ) → Text → ℕ
unfolding first_parsed before_last_space parse_offset
parse_time parse s = elim (first_parsed parse s layouts) [
  | some t ↦ t
  | none ↦ parse_offset parse (before_last_space s)
]

-- What the driver returns for received_at.
pub data Scanned : Type 0 where
  time : ℕ → Scanned
  string bytes : Text → Scanned
  other : Scanned

unfoldable pub scan_time : (Text → Text → Outcome ℕ) → Scanned → ℕ
unfolding parse_time
scan_time parse (time t) = t
scan_time parse (string s) = parse_time parse s
scan_time parse (bytes s) = parse_time parse s
scan_time parse other = 0

abbrev NoSpace : Text → Type 0
NoSpace = All (λ c. (c == 32) ≡ false)

before_last_space-none : (zone : Text) → NoSpace zone → before_last_space zone ≡ none
unfolding before_last_space
before_last_space-none [] h = refl
before_last_space-none (c ∷ []) h = refl
before_last_space-none (c ∷ d ∷ s) h = rw (before_last_space-none (d ∷ s) h.1, h.1.0) refl

before_last_space-last : (zone : Text) → NoSpace zone → before_last_space (32 ∷ zone) ≡ none
unfolding before_last_space
before_last_space-last [] h = refl
before_last_space-last (c ∷ s) h = rw (before_last_space-none (c ∷ s) h, h.0) refl

before_last_space-zone :
    (c : ℕ) (s zone : Text) → NoSpace zone → before_last_space ((c ∷ s) ++ 32 ∷ zone) ≡ some (c ∷ s)
unfolding before_last_space
before_last_space-zone c [] zone h = rw (before_last_space-last zone h) refl
before_last_space-zone c (d ∷ s) zone h = rw (before_last_space-zone d s zone h) refl

-- A time that no layout fits is read without its last word, as it is for the name of a time zone.
parse_time-zone :
    (parse : Text → Text → Outcome ℕ) (c : ℕ) (s zone : Text) (t : ℕ)
    → NoSpace zone
    → first_parsed parse ((c ∷ s) ++ 32 ∷ zone) layouts ≡ none
    → parse offset_layout (c ∷ s) ≡ ok t
    → parse_time parse ((c ∷ s) ++ 32 ∷ zone) ≡ t
unfolding parse_time parse_offset
parse_time-zone parse c s zone t h none_fits fits =
    rw (parse_time, none_fits, before_last_space-zone c s zone h, fits) refl
