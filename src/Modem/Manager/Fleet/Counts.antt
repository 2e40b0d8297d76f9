-- ===== src/Modem/Manager/Fleet/Counts.antt =====
-- Counting the goroutines for one modem.
use abb_app.Base.{
  ℕ, ◌+◌, ◌≤◌, ◌≡◌, refl, Bool, true, false, ◌&&◌, not, Bool-cases, inl, inr, List, [], ◌∷◌, ◌++◌,
  arith, if◌then◌else◌,
}
use abb_app.Base.Text.{Text, text_eq, text_eq_iff}
use abb_app.Base.Assoc.{Assoc}
use abb_app.Modem.Manager.{
  Manager, contains_text, without_text, forget_absent, backoff, init_succeeded,
}
use abb_app.Modem.Manager.Fleet.{Phase, working, Job, Notice}

abbrev pub bit : Bool → ℕ
bit true = 1
bit false = 0

abbrev pub is_working : Phase → Bool
is_working working = true
is_working _ = false

-- The goroutines for a modem, and those that are in Run.
abbrev pub count : Text → List Job → ℕ
count u [] = 0
count u (j ∷ js) = bit (text_eq j.usb u) + count u js

abbrev pub count_working : Text → List Job → ℕ
count_working u [] = 0
count_working u (j ∷ js) = bit (text_eq j.usb u && is_working j.phase) + count_working u js

-- Whether the newest notice about a modem says that it is connected.
abbrev pub shown : Text → List Notice → Bool
shown u [] = false
shown u (n ∷ ns) = if text_eq n.about u then n.connects else shown u ns

pub count-append : (u : Text) (js ks : List Job) → count u (js ++ ks) ≡ count u js + count u ks
count-append u [] ks = omega arith
count-append u (j ∷ js) ks = omega (arith, count-append u js ks)

pub count_working-append :
    (u : Text) (js ks : List Job)
    → count_working u (js ++ ks) ≡ count_working u js + count_working u ks
count_working-append u [] ks = omega arith
count_working-append u (j ∷ js) ks = omega (arith, count_working-append u js ks)

bit-and : (a b : Bool) → bit (a && b) ≤ bit a
bit-and a b = ground arith

pub count_working-le : (u : Text) (js : List Job) → count_working u js ≤ count u js
count_working-le u [] = omega arith
count_working-le u (j ∷ js) =
    omega (arith, count_working-le u js, bit-and (text_eq j.usb u) (is_working j.phase))

pub contains-without_text :
    (u v : Text) (ts : List Text)
    → contains_text v (without_text u ts) ≡ (contains_text v ts && not (text_eq u v))
unfolding contains_text without_text
contains-without_text u v [] = refl
contains-without_text u v (t ∷ ts) =
    ground (arith, text_eq_iff t u, text_eq_iff t v, text_eq_iff u v, contains-without_text u v ts)

-- The sections that leave `running` as it is.

pub running-forget_absent :
    (present : List Text) (fails : Assoc ℕ) (m : Manager)
    → (forget_absent present fails m).running ≡ m.running
unfolding forget_absent
running-forget_absent present [] m = refl
running-forget_absent present ((usb, n) ∷ fails) m = elim (Bool-cases (contains_text usb present)) [
  | inl here ↦ rw (here, forget_absent) (running-forget_absent present fails m)
  | inr gone ↦ rw (gone, forget_absent) (running-forget_absent present fails _)
]

pub running-backoff : (usb : Text) (m : Manager) → (backoff usb m).1.running ≡ m.running
unfolding backoff
running-backoff usb m = refl

pub running-init_succeeded : (usb : Text) (m : Manager) → (init_succeeded usb m).running ≡ m.running
unfolding init_succeeded
running-init_succeeded usb m = refl
