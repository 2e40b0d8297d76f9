-- ===== src/Modem/Worker/Safety.antt =====
-- An SMS leaves the modem only after it was stored.
use abb_app.Base.{
  ℕ, ◌-◌, ◌≤◌, ◌≡◌, ◌≢◌, ◌⊎◌, inl, inr, ap, Bool, true, false, ◌||◌, Bool-cases, Option-cases, some,
  List, [], ◌∷◌, length, leb, ltb, arith,
}
use abb_app.Base.Text.{Text}
use abb_app.Db.Session.{ok}
use abb_app.Modem.Worker.{
  Codec, Group, Event, stored, deleted, Worker, incomplete_timeout, contains_index, Tpdu,
  match_cmgl,
}
use abb_app.Modem.Worker.ReadAll.{seen_at, process_group}

-- The storage index belongs to a message that the handler stored.
abbrev pub stored_in : ℕ → List Event → Bool
stored_in i [] = false
stored_in i (stored m is ∷ es) = contains_index i is || stored_in i es
stored_in i (deleted j ∷ es) = stored_in i es

-- Somewhere in the listing, a header line has the index, and the line behind it is a PDU that can be
-- decoded and is no DELIVER.
abbrev pub IsReport : Codec → List Text → ℕ → Type 0
IsReport c [] i = ⊥
IsReport c (header ∷ []) i = ⊥
IsReport c (header ∷ pdu ∷ lines) i =
    ((match_cmgl header ≡ some i)
      × ((t : Tpdu) × (c.decode_pdu pdu ≡ ok t) × (t.is_deliver ≡ false)))
    ⊎ IsReport c (pdu ∷ lines) i

-- Each deleted index was stored before, or need not be.
abbrev pub IsSafe : (ℕ → Type 0) → List Event → Type 0
IsSafe Spare [] = Unit
IsSafe Spare (stored m is ∷ es) = IsSafe Spare es
IsSafe Spare (deleted i ∷ es) = (Spare i ⊎ (stored_in i es ≡ true)) × IsSafe Spare es

-- A group that is handed over, or refused by the handler, is complete, or was first seen at least ten
-- minutes ago: otherwise the call changes no event and asks the handler nothing.
pub process_group-waits :
    (c : Codec) (g : Group) (w : Worker)
    → ((process_group c g w).events ≢ w.events) ⊎ ((process_group c g w).handled ≢ w.handled)
    → (g.total ≤ length g.segments)
      ⊎ ((first : ℕ) × (seen_at g.key w.first_seen ≡ some first)
          × (incomplete_timeout ≤ w.now - first))
unfolding process_group
process_group-waits c g w changed = elim (Bool-cases (leb g.total (length g.segments))) [
  | inl complete ↦ inl (ground arith)
  | inr partial ↦ elim (Option-cases (seen_at g.key w.first_seen)) [
    | inl unseen ↦
        let same : process_group c g w ≡ record w { first_seen = (g.key, w.now) ∷ w.first_seen } =
          rw (partial, unseen, process_group) in
        absurd (elim changed [
          | inl e ↦ e (ap (λ (x : Worker). x.events) same)
          | inr e ↦ e (ap (λ (x : Worker). x.handled) same)
        ])
    | inr (first, seen) ↦ elim (Bool-cases (ltb (w.now - first) incomplete_timeout)) [
      | inl early ↦
          let same : process_group c g w ≡ w = rw (partial, seen, early) in
          absurd (elim changed [
            | inl e ↦ e (ap (λ (x : Worker). x.events) same)
            | inr e ↦ e (ap (λ (x : Worker). x.handled) same)
          ])
      | inr late ↦ inr (first, seen, ground arith)
    ]
  ]
]
