-- ===== src/Modem/Manager/Fleet/Scans.antt =====
-- internal/modem/manager.go: scan as a whole, with what Discover finds, against the steps of the fleet.
use abb_app.Base.{
  ◌<◌, ◌≡◌, ◌⊎◌, inl, inr, subst, ℕ, true, Bool-cases, Option, none, some, List, [], ◌∷◌, map,
  arith,
}
use abb_app.Base.Text.{Text, text_eq, text_eq_iff}
use abb_app.Base.Assoc.{lookup}
use abb_app.Modem.Discovery.{Sysfs, Candidate}
use abb_app.Modem.Discovery.Groups.{discover}
use abb_app.Modem.Manager.{
  Manager, or_zero, contains_text, skips, start_workers, scan, forget_absent,
}
use abb_app.Modem.Manager.Fleet.{
  Fleet, Job, initialising, mark_running, starts, forgets, Reach, more, initial,
}
use abb_app.Modem.Manager.Fleet.Counts.{count}
use abb_app.Modem.Manager.Fleet.OneWorker.{one_worker}

-- The goroutines that `scan` starts, in front of those that there are.
unfoldable pub start_jobs : List Text → List Job → List Job
start_jobs [] jobs = jobs
start_jobs (usb ∷ started) jobs =
    start_jobs started (record { usb = usb; phase = initialising } ∷ jobs)

abbrev pub usb_paths : List Candidate → List Text
usb_paths cands = map (λ c. c.usb_path) cands

-- scan, where no other goroutine takes a step in between.
unfoldable pub scan_fleet : Option (List Candidate) → Fleet → Fleet
unfolding scan start_jobs
scan_fleet none f = f
scan_fleet (some cands) f =
    let (started, m) = scan (usb_paths cands) f.manager in
    record f { manager = m; jobs = start_jobs started f.jobs }

start_workers-Reach :
    (cands : List Text) {f g : Fleet}
    → Reach f g
    → Reach f (record g {
      manager = (start_workers cands g.manager).1;
      jobs = start_jobs (start_workers cands g.manager).0 g.jobs;
    })
unfolding start_workers start_jobs
start_workers-Reach [] r = r
start_workers-Reach (c ∷ cands) {g = g} r = elim (Bool-cases (skips c g.manager)) [
  | inl skip ↦ rw skip (start_workers-Reach cands r)
  | inr go ↦ rw go (start_workers-Reach cands (more r (starts c go)))
]

-- A modem that is running, or that has to wait, is so behind the loop too.
skips-start_workers :
    (u : Text) (cands : List Text) (m : Manager)
    → skips u m ≡ true
    → skips u (start_workers cands m).1 ≡ true
unfolding start_workers contains_text
skips-start_workers u [] m h = h
skips-start_workers u (c ∷ cands) m h = elim (Bool-cases (skips c m)) [
  | inl skip ↦ rw skip (skips-start_workers u cands m h)
  | inr go ↦ rw go (skips-start_workers u cands (mark_running c m) (ground arith))
]

start_workers-covers :
    (u : Text) (cands : List Text) (m : Manager)
    → contains_text u cands ≡ true
    → skips u (start_workers cands m).1 ≡ true
unfolding start_workers contains_text
start_workers-covers u [] m h = cc
start_workers-covers u (c ∷ cands) m h = elim (Bool-cases (text_eq c u)) [
  | inl same ↦ elim (Bool-cases (skips c m)) [
    | inl skip ↦ rw skip (
        skips-start_workers u cands m
          (subst (λ t. skips t m ≡ true) ((text_eq_iff c u).0 same) skip))
    | inr go ↦ rw go (skips-start_workers u cands (mark_running c m) (ground arith))
  ]
  | inr other ↦ elim (Bool-cases (skips c m)) [
    | inl skip ↦ rw skip (start_workers-covers u cands m (ground arith))
    | inr go ↦ rw go (start_workers-covers u cands (mark_running c m) (ground arith))
  ]
]

scan_fleet-Reach :
    (found : Option (List Candidate)) {f g : Fleet} → Reach f g → Reach f (scan_fleet found g)
unfolding scan_fleet scan
scan_fleet-Reach none r = r
scan_fleet-Reach (some cands) r =
    start_workers-Reach (usb_paths cands) (more r (forgets (usb_paths cands)))

skips-scan_fleet :
    (u : Text) (cands : List Candidate) (f : Fleet)
    → contains_text u (usb_paths cands) ≡ true
    → skips u (scan_fleet (some cands) f).manager ≡ true
unfolding scan_fleet scan
skips-scan_fleet u cands f listed =
    start_workers-covers u (usb_paths cands)
      (forget_absent (usb_paths cands) f.manager.fails f.manager) listed

skips-cases :
    (u : Text) (m : Manager)
    → skips u m ≡ true
    → (contains_text u m.running ≡ true) ⊎ (m.now < or_zero (lookup u m.retry_at))
skips-cases u m h = elim (Bool-cases (contains_text u m.running)) [
  | inl running ↦ inl running
  | inr idle ↦ inr (ground arith)
]

-- Whatever the scans and the goroutines have done before: a scan that nothing comes between, and whose
-- Discover does not fail, leads to a state that their steps reach, in which each modem that Discover lists
-- has one goroutine, or a delay that is not over.
pub scan_fleet-covers :
    (interval now : ℕ) (s : Sysfs) (dev_root : Text) (usb_ids : List Text) (f : Fleet)
    (cands : List Candidate) (u : Text)
    → Reach (initial interval now) f
    → discover s dev_root usb_ids ≡ some cands
    → contains_text u (usb_paths cands) ≡ true
    → let g : Fleet = scan_fleet (discover s dev_root usb_ids) f in
      Reach (initial interval now) g
      × ((count u g.jobs ≡ 1) ⊎ (g.manager.now < or_zero (lookup u g.manager.retry_at)))
scan_fleet-covers interval now s dev_root usb_ids f cands u r found listed =
    let g : Fleet = scan_fleet (some cands) f in
    let reached : Reach (initial interval now) g = scan_fleet-Reach (some cands) r in
    rw found (
      reached,
      elim (skips-cases u g.manager (skips-scan_fleet u cands f listed)) [
        | inl running ↦ inl ((one_worker interval now g reached u).1.0 running)
        | inr early ↦ inr early
      ],
    )
