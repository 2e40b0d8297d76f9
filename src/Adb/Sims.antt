-- ===== src/Adb/Sims.antt =====
-- internal/adb/sms.go: parseSimInfo, the names of the SIM cards of a phone.
use abb_app.Base.{
  ◌≡◌, ◌≢◌, ◌∙◌, refl, sym, subst, Bool, true, false, ◌&&◌, ◌||◌, not, Bool-cases, inl, inr, Option,
  none, some, List, [], ◌∷◌, ◌++◌, ◌==◌, arith, if◌then◌else◌,
}
use mathlib.Core.Option.{some-injective, none-ne-some}
use abb_app.Base.Text.{Text, codes, text_eq, has_prefix, drop_prefix, trim_space, text_eq_iff}
use abb_app.Base.Assoc.{Assoc, lookup, insert, lookup-insert}
use abb_app.Db.Session.{Outcome, ok, err}
use abb_app.Model.{Message}
use abb_app.Adb.Poller.{Poller, label}
use abb_app.Adb.Sms.{split_rows, find_number, sub_id_here}

abbrev to_comma : Text → Text
to_comma [] = []
to_comma (c ∷ s) = let rest = to_comma s in if c == 44 then [] else c ∷ rest

-- reSimDisplayName: what stands between the leftmost tag that something follows and the next comma.
unfoldable pub find_name : Text → Option Text
find_name [] = none
find_name (c ∷ s) =
    let rest = find_name s in
    let name = to_comma (drop_prefix (c ∷ s) (codes "display_name=")) in
    if has_prefix (c ∷ s) (codes "display_name=") && not (text_eq name []) then some name else rest

-- reSimSlot
unfoldable pub find_slot : Text → Option Text
find_slot [] = none
find_slot (c ∷ s) = elim (sub_id_here (codes "sim_slot_index=") (c ∷ s)) [
  | some t ↦ some t
  | none ↦ find_slot s
]

abbrev trimmed : Option Text → Text
trimmed none = []
trimmed (some t) = trim_space t

abbrev sim : Text → Text
sim t = codes "SIM " ++ t

-- The name of a SIM: its display name, else one made of its slot, else one made of its id.
unfoldable pub sim_label : Text → Option Text → Option Text → Text
sim_label id name none = if text_eq (trimmed name) [] then sim id else trimmed name
sim_label id name (some slot) = if text_eq (trimmed name) [] then sim slot else trimmed name

abbrev with_id : Text → Option Text → Assoc Text → Assoc Text
with_id part none result = result
with_id part (some id) result = insert id (sim_label id (find_name part) (find_slot part)) result

-- One round of the loop over the parts.
unfoldable pub add_sim : Text → Assoc Text → Assoc Text
unfolding find_name find_slot sim_label
add_sim part result =
    let t = trim_space part in
    if text_eq t [] then result else with_id t (find_number (codes "_id=") t) result

unfoldable pub add_sims : List Text → Assoc Text → Assoc Text
unfolding add_sim
add_sims [] result = result
add_sims (part ∷ parts) result = add_sims parts (add_sim part result)

unfoldable pub parse_sim_info : Text → Assoc Text
unfolding add_sims
parse_sim_info raw =
    let s = trim_space raw in
    if text_eq s [] || has_prefix s (codes "No result") || has_prefix s (codes "Exception")
    then []
    else add_sims (split_rows true 0 s) []

-- FetchSimInfo, for the answer of the shell.
unfoldable pub fetch_sim_info : Outcome Text → Outcome (Assoc Text)
fetch_sim_info (err e) = err (codes "adb siminfo: " ++ e)
fetch_sim_info (ok out) = ok (parse_sim_info out)

-- No name in the map is empty.
Named : Assoc Text → Type 0
Named m = (k name : Text) → lookup k m ≡ some name → text_eq name [] ≡ false

sim_label-some : (id : Text) (name slot : Option Text) → text_eq (sim_label id name slot) [] ≡ false
unfolding sim_label text_eq
sim_label-some id name none = elim (Bool-cases (text_eq (trimmed name) [])) [
  | inl empty ↦ rw empty refl
  | inr named ↦ rw named named
]
sim_label-some id name (some slot) = elim (Bool-cases (text_eq (trimmed name) [])) [
  | inl empty ↦ rw empty refl
  | inr named ↦ rw named named
]

insert-Named :
    (id label : Text) (m : Assoc Text)
    → text_eq label [] ≡ false
    → Named m
    → Named (insert id label m)
unfolding Named
insert-Named id label m some_label h k name found = elim (Bool-cases (text_eq id k)) [
  | inl same ↦
      let it : label ≡ name =
        some-injective label name (rw same at (sym (lookup-insert id k label m) ∙ found)) in
      subst (λ t. text_eq t [] ≡ false) it some_label
  | inr other ↦ h k name (rw other at (sym (lookup-insert id k label m) ∙ found))
]

with_id-Named :
    (part : Text) (o : Option Text) (m : Assoc Text) → Named m → Named (with_id part o m)
with_id-Named part none m h = h
with_id-Named part (some id) m h =
    insert-Named id _ m (sim_label-some id (find_name part) (find_slot part)) h

add_sim-Named : (part : Text) (m : Assoc Text) → Named m → Named (add_sim part m)
unfolding add_sim
add_sim-Named part m h = elim (Bool-cases (text_eq (trim_space part) [])) [
  | inl empty ↦ rw empty h
  | inr filled ↦ rw filled (with_id-Named (trim_space part) _ m h)
]

add_sims-Named : (parts : List Text) (m : Assoc Text) → Named m → Named (add_sims parts m)
unfolding add_sims
add_sims-Named [] m h = h
add_sims-Named (p ∷ ps) m h = add_sims-Named ps (add_sim p m) (add_sim-Named p m h)

parse_sim_info-Named : (raw : Text) → Named (parse_sim_info raw)
unfolding parse_sim_info Named lookup
parse_sim_info-Named raw =
    let s = trim_space raw in
    go (text_eq s [] || has_prefix s (codes "No result") || has_prefix s (codes "Exception"))
      (add_sims (split_rows true 0 s) [])
      (add_sims-Named (split_rows true 0 s) [] (λ k name e. absurd (none-ne-some name e)))
  where
    go : (b : Bool) (m : Assoc Text) → Named m → Named (if b then [] else m)
    go true m h k name e = absurd (none-ne-some name e)
    go false m h k name e = h k name e

-- A message with a subscription id that is in the map that parseSimInfo has made gets the name that the
-- map has for it, and this is not empty, whatever the phone has answered.
pub label-parse_sim_info :
    (raw : Text) (p : Poller) (m : Message) (name : Text)
    → p.sim_info ≡ parse_sim_info raw
    → m.subscription_id ≢ []
    → lookup m.subscription_id p.sim_info ≡ some name
    → ((label p m).sim_name ≡ name) × (name ≢ [])
unfolding label Named
label-parse_sim_info raw p m name made has_sim found =
    let given : text_eq m.subscription_id [] ≡ false =
      ground (arith, has_sim, text_eq_iff m.subscription_id []) in
    let filled = parse_sim_info-Named raw m.subscription_id name (rw made at found) in
    (rw (given, found) refl, (λ e. cc (filled, (text_eq_iff name []).1 e)))
