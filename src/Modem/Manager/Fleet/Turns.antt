-- ===== src/Modem/Manager/Fleet/Turns.antt =====
-- What each step of a goroutine does to the counts and to the notices.
use abb_app.Base.{
  ◌+◌, ◌≤◌, ◌≡◌, ◌∙◌, refl, ap, sym, subst, Bool, true, false, ◌&&◌, not, Bool-cases, inl, inr,
  List, [], ◌∷◌, ◌++◌, arith, if◌then◌else◌,
}
use abb_app.Base.Text.{Text, text_eq, text_eq_iff, text_eq_refl}
use abb_app.Modem.Manager.{Manager, contains_text, skips, backoff, worker_stopped, without_text}
use abb_app.Modem.Manager.Fleet.{Phase, initialising, working, leaving, Job, Notice, Fleet}
use abb_app.Modem.Manager.Fleet.Counts.{
  bit, is_working, count, count_working, shown, count-append, count_working-append,
  count_working-le, contains-without_text, running-backoff,
}

-- Each notice says what the one before it about the same modem has not.
abbrev pub InTurn : List Notice → Type 0
InTurn [] = Unit
InTurn (n ∷ ns) = (shown n.about ns ≡ not n.connects) × InTurn ns

-- `running` has the modems with a goroutine, each of which has one; and until the context ends, the
-- notices are in turn and show the modems with a worker in Run.
abbrev pub Counted : Manager → List Job → Type 0
Counted m js = (u : Text) → count u js ≡ bit (contains_text u m.running)

abbrev pub Noticed : List Job → List Notice → Bool → Type 0
Noticed js ns ended =
    ended ≡ false → InTurn ns × ((u : Text) → count_working u js ≡ bit (shown u ns))

abbrev pub Holds : Fleet → Type 0
Holds f = Counted f.manager f.jobs × Noticed f.jobs f.notices f.ended

-- A goroutine in the midst of the others.
count-at :
    (u v : Text) (p : Phase) (before after : List Job)
    → count u (before ++ record { usb = v; phase = p } ∷ after)
      ≡ bit (text_eq v u) + count u (before ++ after)
count-at u v p before after = omega (
  arith,
  count-append u before (record { usb = v; phase = p } ∷ after),
  count-append u before after,
)

count_working-at :
    (u v : Text) (p : Phase) (before after : List Job)
    → count_working u (before ++ record { usb = v; phase = p } ∷ after)
      ≡ bit (text_eq v u && is_working p) + count_working u (before ++ after)
count_working-at u v p before after = omega (
  arith,
  count_working-append u before (record { usb = v; phase = p } ∷ after),
  count_working-append u before after,
)

-- Its phase changes, with `running` as it was.
pub Counted-phase :
    (m n : Manager) (v : Text) (p q : Phase) (before after : List Job)
    → n.running ≡ m.running
    → Counted m (before ++ record { usb = v; phase = p } ∷ after)
    → Counted n (before ++ record { usb = v; phase = q } ∷ after)
Counted-phase m n v p q before after same c u =
    count-at u v q before after
    ∙ sym (count-at u v p before after)
    ∙ c u
    ∙ ap (λ (l : List Text). bit (contains_text u l)) (sym same)

pub bit-le : (b : Bool) → bit b ≤ 1
bit-le b = ground arith

bit-false : (b : Bool) → bit b ≡ 0 → b ≡ false
bit-false b h = ground arith

pub bit-true : (b : Bool) → bit b ≡ 1 → b ≡ true
bit-true b h = ground arith

pub bit-off : (b : Bool) → bit (b && false) ≡ 0
bit-off b = ground arith

bit-on : (b : Bool) → bit (b && true) ≡ bit b
bit-on b = ground arith

-- No other goroutine of its modem is in Run.
alone :
    (m : Manager) (v u : Text) (p : Phase) (before after : List Job)
    → text_eq v u ≡ true
    → Counted m (before ++ record { usb = v; phase = p } ∷ after)
    → (count u (before ++ after) ≡ 0) × (count_working u (before ++ after) ≡ 0)
alone m v u p before after same c =
    let others : count u (before ++ after) ≡ 0 =
      omega (
        arith,
        c u,
        rw same at (count-at u v p before after),
        bit-le (contains_text u m.running),
      ) in
    (others, omega (arith, others, count_working-le u (before ++ after)))

pub running-after_init :
    (ended : Bool) (usb : Text) (m : Manager)
    → (if ended then m else (backoff usb m).1).running ≡ m.running
running-after_init true usb m = refl
running-after_init false usb m = running-backoff usb m

pub Counted-starts :
    (m : Manager) (usb : Text) (js : List Job)
    → skips usb m ≡ false
    → Counted m js
    → Counted
        (record m { running = usb ∷ m.running })
        (record { usb = usb; phase = initialising } ∷ js)
unfolding contains_text
Counted-starts m usb js free c u = elim (Bool-cases (text_eq usb u)) [
  | inl same ↦
      let idle : contains_text usb m.running ≡ false = ground (arith, free) in
      let others : contains_text u m.running ≡ false =
        subst (λ v. contains_text v m.running ≡ false) ((text_eq_iff usb u).0 same) idle in
      rw same (omega (arith, c u, ap bit others))
  | inr other ↦ rw other (omega (arith, c u))
]

pub Counted-leaves :
    (m : Manager) (usb : Text) (before after : List Job)
    → Counted m (before ++ record { usb = usb; phase = leaving } ∷ after)
    → Counted (worker_stopped usb m) (before ++ after)
unfolding worker_stopped
Counted-leaves m usb before after c u = elim (Bool-cases (text_eq usb u)) [
  | inl same ↦
      let left : bit (contains_text u (without_text usb m.running)) ≡ 0 =
        rw (contains-without_text usb u m.running, same) (bit-off (contains_text u m.running)) in
      (alone m usb u leaving before after same c).0 ∙ sym left
  | inr other ↦
      let left : bit (contains_text u (without_text usb m.running))
          ≡ bit (contains_text u m.running) =
        rw (contains-without_text usb u m.running, other) (bit-on (contains_text u m.running)) in
      omega (arith, c u, left, rw other at (count-at u usb leaving before after))
]

-- A phase that changes outside Run.
pub count_working-idle :
    (u v : Text) (p : Phase) (before after : List Job)
    → is_working p ≡ false
    → count_working u (before ++ record { usb = v; phase = p } ∷ after)
      ≡ count_working u (before ++ after)
count_working-idle u v p before after idle =
    omega (arith, rw idle at (count_working-at u v p before after), bit-off (text_eq v u))

-- A worker enters Run, or leaves it, and the notice of that.
pub shown-connects :
    (m : Manager) (usb u : Text) (before after : List Job) (ns : List Notice)
    → Counted m (before ++ record { usb = usb; phase = initialising } ∷ after)
    → count_working u (before ++ record { usb = usb; phase = initialising } ∷ after)
      ≡ bit (shown u ns)
    → count_working u (before ++ record { usb = usb; phase = working } ∷ after)
      ≡ bit (shown u (record { about = usb; connects = true } ∷ ns))
shown-connects m usb u before after ns c k = elim (Bool-cases (text_eq usb u)) [
  | inl same ↦
      let zero_others = (alone m usb u initialising before after same c).1 in
      rw same (omega (arith, zero_others, rw same at (count_working-at u usb working before after)))
  | inr other ↦ rw other (
      omega (
        arith,
        k,
        count_working-idle u usb initialising before after refl,
        rw other at (count_working-at u usb working before after),
      ))
]

shown-returns :
    (m : Manager) (usb u : Text) (before after : List Job) (ns : List Notice)
    → Counted m (before ++ record { usb = usb; phase = working } ∷ after)
    → count_working u (before ++ record { usb = usb; phase = working } ∷ after) ≡ bit (shown u ns)
    → count_working u (before ++ record { usb = usb; phase = leaving } ∷ after)
      ≡ bit (shown u (record { about = usb; connects = false } ∷ ns))
shown-returns m usb u before after ns c k = elim (Bool-cases (text_eq usb u)) [
  | inl same ↦
      let zero_others = (alone m usb u working before after same c).1 in
      rw same (omega (arith, zero_others, count_working-idle u usb leaving before after refl))
  | inr other ↦ rw other (
      omega (
        arith,
        k,
        count_working-idle u usb leaving before after refl,
        rw other at (count_working-at u usb working before after),
      ))
]

-- What was shown of the modem itself before that.
pub was_gone :
    (m : Manager) (usb : Text) (before after : List Job) (ns : List Notice)
    → Counted m (before ++ record { usb = usb; phase = initialising } ∷ after)
    → count_working usb (before ++ record { usb = usb; phase = initialising } ∷ after)
      ≡ bit (shown usb ns)
    → shown usb ns ≡ false
was_gone m usb before after ns c k = bit-false (shown usb ns) (
    omega (
      arith,
      k,
      (alone m usb usb initialising before after (text_eq_refl usb) c).1,
      count_working-idle usb usb initialising before after refl,
    ))

was_here :
    (m : Manager) (usb : Text) (before after : List Job) (ns : List Notice)
    → Counted m (before ++ record { usb = usb; phase = working } ∷ after)
    → count_working usb (before ++ record { usb = usb; phase = working } ∷ after)
      ≡ bit (shown usb ns)
    → shown usb ns ≡ true
was_here m usb before after ns c k = bit-true (shown usb ns) (
    omega (
      arith,
      k,
      (alone m usb usb working before after (text_eq_refl usb) c).1,
      rw (text_eq_refl usb) at (count_working-at usb usb working before after),
    ))

pub Noticed-returns :
    (ended : Bool) (m : Manager) (usb : Text) (before after : List Job) (ns : List Notice)
    → Counted m (before ++ record { usb = usb; phase = working } ∷ after)
    → Noticed (before ++ record { usb = usb; phase = working } ∷ after) ns ended
    → Noticed
        (before ++ record { usb = usb; phase = leaving } ∷ after)
        (if ended then ns else record { about = usb; connects = false } ∷ ns)
        ended
Noticed-returns true m usb before after ns c n e = absurd cc
Noticed-returns false m usb before after ns c n e =
    let (turn, show) = n e in
    (
      (was_here m usb before after ns c (show usb), turn),
      (λ u. shown-returns m usb u before after ns c (show u)),
    )
