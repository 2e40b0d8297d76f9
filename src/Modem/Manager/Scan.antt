-- ===== src/Modem/Manager/Scan.antt =====
-- A scan starts one worker for a modem.
use abb_app.Base.{
  ◌≤◌, ◌≡◌, inl, inr, refl, true, false, Bool-cases, List, [], ◌∷◌, All, All-imp, arith,
}
use abb_app.Base.Text.{Text, text_eq, text_eq_iff}
use abb_app.Base.Assoc.{lookup}
use abb_app.Modem.Manager.{Manager, or_zero, skips, contains_text, start_workers}

-- No text stands twice in the list.
abbrev pub NoRepeats : List Text → Type 0
NoRepeats [] = Unit
NoRepeats (t ∷ ts) = (contains_text t ts ≡ false) × NoRepeats ts

abbrev noting : Text → Manager → Manager
noting usb m = record m { running = usb ∷ m.running }

skips_running : (usb : Text) (m : Manager) → contains_text usb m.running ≡ true → skips usb m ≡ true
skips_running usb m h = ground arith

contains_text-eq :
    (a b : Text) (ts : List Text) → text_eq a b ≡ true → contains_text b ts ≡ contains_text a ts
contains_text-eq a b ts h = rw ((text_eq_iff a b).0 h)

contains_text-cons_self : (t : Text) (ts : List Text) → contains_text t (t ∷ ts) ≡ true
unfolding contains_text
contains_text-cons_self t ts = ground (arith, text_eq_iff t t)

contains_text-cons :
    (t s : Text) (ts : List Text) → contains_text t ts ≡ true → contains_text t (s ∷ ts) ≡ true
unfolding contains_text
contains_text-cons t s ts h = ground arith

contains_text-tail :
    (t s : Text) (ts : List Text) → contains_text t (s ∷ ts) ≡ false → contains_text t ts ≡ false
unfolding contains_text
contains_text-tail t s ts h = ground arith

-- A running worker is not started again.
start_workers-fresh :
    (cands : List Text) (m : Manager) (usb : Text)
    → contains_text usb m.running ≡ true
    → contains_text usb (start_workers cands m).0 ≡ false
unfolding start_workers
start_workers-fresh [] m usb h = unfold contains_text in refl
start_workers-fresh (c ∷ cands) m usb h = elim (Bool-cases (skips c m)) [
  | inl skip ↦ rw skip (start_workers-fresh cands m usb h)
  | inr go ↦ rw go (
      unfold contains_text in
      ground (
        arith,
        contains_text-eq c usb m.running,
        skips_running c m,
        start_workers-fresh cands (noting c m) usb (contains_text-cons usb c m.running h),
      ))
]

-- The workers that are started for the candidates, which may repeat, are different ones; none of them
-- was running, and none has to wait out a backoff.
pub start_workers_once :
    (cands : List Text) (m : Manager)
    → NoRepeats (start_workers cands m).0
      × All
          (λ usb. (contains_text usb m.running ≡ false) × (or_zero (lookup usb m.retry_at) ≤ m.now))
          (start_workers cands m).0
unfolding start_workers
start_workers_once [] m = (tt, tt)
start_workers_once (c ∷ cands) m = elim (Bool-cases (skips c m)) [
  | inl skip ↦ rw skip (start_workers_once cands m)
  | inr go ↦
      let (different, idle) = start_workers_once cands (noting c m) in
      rw go (
        (start_workers-fresh cands (noting c m) c (contains_text-cons_self c m.running), different),
        (
          ground arith,
          All-imp
              (λ usb.
                (contains_text usb (c ∷ m.running) ≡ false)
                × (or_zero (lookup usb m.retry_at) ≤ m.now))
              (λ usb.
                (contains_text usb m.running ≡ false) × (or_zero (lookup usb m.retry_at) ≤ m.now))
              (start_workers cands (noting c m)).0
              (λ usb h. (contains_text-tail usb c m.running h.0, h.1)) idle,
        ),
      )
]
