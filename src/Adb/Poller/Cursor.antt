-- ===== src/Adb/Poller/Cursor.antt =====
-- What the cursor of the poller promises.
use abb_app.Base.{
  ℕ, zero, suc, ◌+◌, ◌≤◌, ◌<◌, ◌≡◌, subst, refl, ◌∙◌, Bool, true, false, not, Bool-cases, inl, inr,
  List, [], ◌∷◌, ◌++◌, map, filter, length, take, max, ltb, leb, arith, if◌then◌else◌,
}
use mathlib.Core.List.{append-nil, append_assoc}
use abb_app.Model.{Message}
use abb_app.Adb.Sms.{parsed}
use abb_app.Adb.Poller.{Poller, id_of, label, emit, max_id, poll_output}

-- The messages beyond a cursor.
abbrev pub beyond : ℕ → List Message → List Message
beyond cursor ms = filter (λ m. not (leb (id_of m) cursor)) ms

emit-all :
    (done : ℕ → Bool) (i : ℕ) (ms : List Message) (p : Poller)
    → ((j : ℕ) → done j ≡ false)
    → emit done i ms p
      ≡ (true, record p { messages = p.messages ++ map (label p) (beyond p.last_id ms) })
unfolding emit label
emit-all done i [] p never = rw append-nil
emit-all done i (m ∷ ms) p never = elim (Bool-cases (leb (id_of m) p.last_id)) [
  | inl old ↦ rw old (emit-all done i ms p never)
  | inr new ↦
      rw (new, never i)
        (emit-all done (i + 1) ms (record p { messages = p.messages ++ label p m ∷ [] }) never
          ∙ rw append_assoc)
]

-- Nothing lies beyond the largest id.
beyond-max_id : (top : ℕ) (ms : List Message) → max_id ms ≤ top → beyond top ms ≡ []
unfolding max_id
beyond-max_id top [] h = refl
beyond-max_id top (m ∷ ms) h = ground (arith, beyond-max_id top ms)

max-absorbs : (a b : ℕ) → (if ltb a b then b else a) ≡ max a b
max-absorbs a b = ground arith

poll_output-all :
    (done : ℕ → Bool) (ms : List Message) (p : Poller)
    → ((j : ℕ) → done j ≡ false)
    → poll_output done (parsed ms) p ≡ record p {
      messages = p.messages ++ map (label p) (beyond p.last_id ms);
      last_id = max p.last_id (max_id ms);
    }
unfolding poll_output
poll_output-all done ms p never = rw (emit-all done 0 ms p never) (ground arith)

-- A poll whose sends are not interrupted emits exactly the messages with an id beyond the cursor, in
-- their order and labelled, and moves the cursor to the largest id seen so far; the same answer polled
-- again changes nothing.
pub poll_output_lem :
    (done : ℕ → Bool) (ms : List Message) (p : Poller)
    → ((j : ℕ) → done j ≡ false)
    → let p' = poll_output done (parsed ms) p in
      (p'.messages ≡ p.messages ++ map (label p) (beyond p.last_id ms))
      × (p'.last_id ≡ max p.last_id (max_id ms))
      × (poll_output done (parsed ms) p' ≡ p')
poll_output_lem done ms p never =
    let top = max p.last_id (max_id ms) in
    let seen : beyond top ms ≡ [] = beyond-max_id top ms (omega arith) in
    let still : max top (max_id ms) ≡ top = omega arith in
    rw (poll_output-all done ms p never)
      (refl, refl, poll_output-all done ms _ never ∙ rw (seen, still, append-nil))

emit-interrupted :
    (done : ℕ → Bool) (i j : ℕ) (ms : List Message) (p : Poller)
    → j < length (beyond p.last_id ms)
    → done (i + j) ≡ true
    → ((n : ℕ) → n < j → done (i + n) ≡ false)
    → emit done i ms p
      ≡ (false, record p { messages = p.messages ++ map (label p) (take j (beyond p.last_id ms)) })
unfolding emit label
emit-interrupted done i j [] p here ends before = absurd (omega arith)
emit-interrupted done i zero (m ∷ ms) p here ends before =
    let now : done i ≡ true = subst (λ (k : ℕ). done k ≡ true) (omega arith) ends in
    elim (Bool-cases (leb (id_of m) p.last_id)) [
      | inl old ↦ rw old (emit-interrupted done i 0 ms p (rw old at here) ends before)
      | inr new ↦ rw (new, now, append-nil)
    ]
emit-interrupted done i (suc j) (m ∷ ms) p here ends before =
    elim (Bool-cases (leb (id_of m) p.last_id)) [
      | inl old ↦ rw old (emit-interrupted done i (suc j) ms p (rw old at here) ends before)
      | inr new ↦
          let not_yet : done i ≡ false =
            subst (λ (k : ℕ). done k ≡ false) (omega arith) (before 0 (omega arith)) in
          let q : Poller = record p { messages = p.messages ++ label p m ∷ [] } in
          let more : suc j < length (m ∷ beyond p.last_id ms) = rw new at here in
          rw (new, not_yet)
            (emit-interrupted done (i + 1) j ms q (omega (arith, more))
                (subst (λ (k : ℕ). done k ≡ true) (omega arith) ends)
                (λ n lt.
                  subst (λ (k : ℕ). done k ≡ false) (omega arith) (before (suc n) (omega arith)))
              ∙ rw append_assoc)
    ]

-- A poll that is interrupted at its j-th send has emitted the j messages before it, in order and
-- labelled, and leaves the cursor and the query where they were.
pub poll_output-interrupted :
    (done : ℕ → Bool) (j : ℕ) (ms : List Message) (p : Poller)
    → j < length (beyond p.last_id ms)
    → done j ≡ true
    → ((n : ℕ) → n < j → done n ≡ false)
    → poll_output done (parsed ms) p
      ≡ record p { messages = p.messages ++ map (label p) (take j (beyond p.last_id ms)) }
unfolding poll_output
poll_output-interrupted done j ms p here ends before =
    rw
      (emit-interrupted done 0 j ms p here (subst (λ (k : ℕ). done k ≡ true) (omega arith) ends)
        (λ n lt. subst (λ (k : ℕ). done k ≡ false) (omega arith) (before n lt)))
      refl
