-- ===== src/App/Receive.antt =====
-- `processMessages` of cmd/abb/main.go, behind the poller of internal/adb/sms.go.
use abb_app.Base.{
  ℕ, ◌≡◌, ◌∙◌, refl, ap, Bool, Bool-cases, inl, inr, false, All-imp, Option, none, some, List, [],
  ◌∷◌, ◌++◌, map, All,
}
use abb_app.Base.Text.{Text, codes, text_eq}
use abb_app.Model.{Message}
use abb_app.Db.{Db, MessageRow}
use abb_app.Db.Session.{World, NoFaults}
use abb_app.Db.Messages.{find_android, to_row}
use abb_app.Adb.Sms.{parsed}
use abb_app.Adb.Poller.{Poller, label, poll_output}
use abb_app.Adb.Poller.Cursor.{beyond, poll_output_lem}
use abb_app.App.Save.{Translator, save_and_enqueue}
use abb_app.App.Again.{later_ticks}
use abb_app.App.Again.Stays.{Sees, seen-row, seen-missed, unseen}
use abb_app.App.Again.Stored.{Sees-stored, Sees-save_and_enqueue}

-- What the loop sets in a message.
abbrev pub from_adb : Text → Message → Message
from_adb sim_country_code msg = record msg { source = codes "adb"; recipient = sim_country_code }

-- The messages that are received before ctx.Done() is; the answer of saveAndEnqueue is dropped.
unfoldable pub process_messages :
    Option Translator → List Text → Text → List Message → World → World
process_messages tr channels sim_country_code [] w = w
process_messages tr channels sim_country_code (m ∷ ms) w =
    process_messages tr channels sim_country_code ms
      (save_and_enqueue tr channels (from_adb sim_country_code m) w).1

-- One of the rows holds the message as the phone gave it, with the phone that it came from.
pub record IsStored (p : Poller) (m : Message) (rows : List MessageRow) : Type 0 where
  pub row : MessageRow
  pub before : List MessageRow
  pub after : List MessageRow
  pub held : rows ≡ before ++ row ∷ after
  pub same_id : row.android_id ≡ m.android_id
  pub same_address : row.address ≡ m.address
  pub same_body : row.body ≡ m.body
  pub same_time : row.received_at ≡ m.received_at
  pub from_device : row.device_name ≡ some p.device_name
  pub from_phone : row.source ≡ some (codes "adb")

-- No row bears the id of the message.
abbrev pub IsNew : List MessageRow → Message → Type 0
IsNew rows m = All (λ (r : MessageRow). text_eq r.android_id m.android_id ≡ false) rows

-- No two of the messages bear the same id.
abbrev pub Apart : List Message → Type 0
Apart [] = Unit
Apart (m ∷ ms) = All (λ (m' : Message). text_eq m.android_id m'.android_id ≡ false) ms × Apart ms

find_android-split :
    (k : Text) (rows : List MessageRow) (r : MessageRow)
    → find_android k rows ≡ some r
    → (before : List MessageRow) × (after : List MessageRow) × (rows ≡ before ++ r ∷ after)
unfolding find_android
find_android-split k [] r h = cc
find_android-split k (s ∷ rs) r h = elim (Bool-cases (text_eq s.android_id k)) [
  | inl here ↦ ([], rs, ap (λ (x : MessageRow). x ∷ rs) (cc (rw here at h)))
  | inr there ↦
      let (before, after, e) = find_android-split k rs r (rw there at h) in
      (s ∷ before, after, ap (λ (l : List MessageRow). s ∷ l) e)
]

find_android-IsNew :
    (m : Message) (rows : List MessageRow) → IsNew rows m → find_android m.android_id rows ≡ none
unfolding find_android
find_android-IsNew m [] h = refl
find_android-IsNew m (r ∷ rs) h = rw (h.0) (find_android-IsNew m rs h.1)

module _ (tr : Option Translator) (channels : List Text) (country : Text) where
  -- A message of another id than the one received stays unknown.
  still_new :
      (m : Message) (ms : List Message) (w : World)
      → All (λ (m' : Message). text_eq m.android_id m'.android_id ≡ false) ms
      → All (λ (m' : Message). find_android m'.android_id w.db.messages ≡ none) ms
      → All
          (λ (m' : Message).
            find_android m'.android_id (save_and_enqueue tr channels m w).1.db.messages ≡ none)
          ms
  still_new m [] w apart new = tt
  still_new m (m' ∷ ms) w apart new =
      let k = m'.android_id in
      (
        unseen k (save_and_enqueue tr channels m w).1.db.messages (
            Sees-save_and_enqueue k none tr channels m w (λ e. apart.0)
              (seen-missed k w.db.messages new.0)),
        still_new m ms w apart.1 new.1,
      )

  process_messages-Sees :
      (k : Text) (r : MessageRow) (ms : List Message) (w : World)
      → Sees k (some r) w.db
      → Sees k (some r) (process_messages tr channels country ms w).db
  unfolding process_messages
  process_messages-Sees k r [] w h = h
  process_messages-Sees k r (m ∷ ms) w h =
      process_messages-Sees k r ms _
        (Sees-save_and_enqueue k (some r) tr channels (from_adb country m) w (λ e. cc) h)

  -- The row of a message, under its id, less the number of the row.
  abbrev row_of : Poller → Message → MessageRow
  row_of p m = to_row 0 (from_adb country (label p m))

  received :
      (p : Poller) (ms : List Message) (w : World)
      → NoFaults w.ticks
      → All (λ (m : Message). find_android m.android_id w.db.messages ≡ none) ms
      → Apart ms
      → All
          (λ (m : Message).
            Sees m.android_id
              (some (row_of p m))
              (process_messages tr channels country (map (label p) ms) w).db)
          ms
  unfolding process_messages label
  received p [] w calm new apart = tt
  received p (m ∷ ms) w calm new apart =
      let first = from_adb country (label p m) in
      (
        process_messages-Sees m.android_id (row_of p m) (map (label p) ms) _
            (Sees-stored tr channels first w calm new.0),
        received p ms _ (later_ticks tr channels first w calm) (still_new first ms w apart.0 new.1)
            apart.1,
      )

  Sees-IsStored :
      (p : Poller) (m : Message) (d : Db)
      → Sees m.android_id (some (row_of p m)) d
      → IsStored p m d.messages
  unfolding label
  Sees-IsStored p m d h =
      let (r, found, e) = seen-row m.android_id (row_of p m) d.messages h in
      let (before, after, held) = find_android-split m.android_id d.messages r found in
      record {
        row = r;
        before = before;
        after = after;
        held = held;
        same_id = ap (λ (x : MessageRow). x.android_id) e;
        same_address = ap (λ (x : MessageRow). x.address) e;
        same_body = ap (λ (x : MessageRow). x.body) e;
        same_time = ap (λ (x : MessageRow). x.received_at) e;
        from_device = ap (λ (x : MessageRow). x.device_name) e;
        from_phone = ap (λ (x : MessageRow). x.source) e;
      }

-- Where no statement fails, the sends of a poll are not interrupted, and the messages of the phone's
-- answer with an id beyond the cursor of a poller that has sent nothing before have ids of their own,
-- which no row of the database bears, each of these messages is in the database once
-- processMessages has received what the poll has sent: a row holds its id, its address, its body, its
-- time, the name of the phone, and "adb" as its source.
pub poll_output-IsStored :
    (tr : Option Translator) (channels : List Text) (country : Text) (done : ℕ → Bool)
    (ms : List Message) (p : Poller) (w : World)
    → NoFaults w.ticks
    → ((j : ℕ) → done j ≡ false)
    → p.messages ≡ []
    → All (IsNew w.db.messages) (beyond p.last_id ms)
    → Apart (beyond p.last_id ms)
    → All
        (λ (m : Message).
          IsStored p m
            (process_messages tr channels country
              (poll_output done (parsed ms) p).messages
              w).db.messages)
        (beyond p.last_id ms)
poll_output-IsStored tr channels country done ms p w calm never empty new apart =
    let news = beyond p.last_id ms in
    let sent : (poll_output done (parsed ms) p).messages ≡ map (label p) news =
      (poll_output_lem done ms p never).0
      ∙ ap (λ (l : List Message). l ++ map (label p) news) empty in
    rw sent (
      All-imp _ _ news
        (λ m.
          Sees-IsStored tr channels country p m
            (process_messages tr channels country (map (label p) news) w).db)
        (received tr channels country p news w calm
          (All-imp _ _ news (λ m. find_android-IsNew m w.db.messages) new) apart))
