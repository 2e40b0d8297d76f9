-- ===== src/App/Start.antt =====
-- The cursor of a new poller: GetMaxAndroidID of internal/db/db.go, and the case adb.Connected of
-- cmd/abb/main.go.
use abb_app.Base.{
  ℕ, ◌≤◌, ◌≡◌, Bool, true, false, ◌||◌, Bool-cases, Option, none, some, inl, inr, subst, List, [],
  ◌∷◌, max, ltb, arith, if◌then◌else◌,
}
use abb_app.Base.Text.{Text, codes, text_eq, span_digits, atoi}
use abb_app.Db.{Db, MessageRow}
use abb_app.Db.Session.{Outcome, ok, err}
use abb_app.Db.Messages.{find_android}

-- CAST(android_id AS INTEGER), of a text without a sign or a space before its digits.
unfoldable pub cast_integer : Text → ℕ
cast_integer s = atoi (span_digits s).0

abbrev pub from_phone : Option Text → Bool
from_phone none = true
from_phone (some source) = text_eq source [] || text_eq source (codes "adb")

-- MAX over the rows from phones, with 0 for NULL.
unfoldable pub max_android_id : List MessageRow → ℕ
max_android_id [] = 0
max_android_id (r ∷ rs) =
    let rest = max_android_id rs in
    if from_phone r.source then max (cast_integer r.android_id) rest else rest

-- GetMaxAndroidID
unfoldable pub get_max_android_id : ℕ → Db → Outcome ℕ × Db
get_max_android_id now d = (ok (max_android_id d.messages), d)

-- An id that was fetched, where it is beyond the one so far.
abbrev pub raise : Outcome ℕ → ℕ → ℕ
raise (err e) start = start
raise (ok id) start = if ltb start id then id else start

-- What the device of the event answers to FetchMaxAndroidID, if it is listed.
abbrev pub raise_device : Option (Outcome ℕ) → ℕ → ℕ
raise_device none start = start
raise_device (some answer) start = raise answer start

-- startID: whether DeviceList failed, and the answers of the database and of the device.
unfoldable pub start_id : Bool → Outcome ℕ → Option (Outcome ℕ) → ℕ
start_id list_failed stored device = if list_failed then 0 else raise_device device (raise stored 0)

same_row : (s r : MessageRow) → some s ≡ some r → s ≡ r
same_row s r h = cc

first_bounded :
    (s : MessageRow) (n : ℕ)
    → from_phone s.source ≡ true
    → cast_integer s.android_id
      ≤ (if from_phone s.source then max (cast_integer s.android_id) n else n)
first_bounded s n p = rw p (omega arith)

max_android_id-bounds :
    (k : Text) (rows : List MessageRow) (r : MessageRow)
    → find_android k rows ≡ some r
    → from_phone r.source ≡ true
    → cast_integer r.android_id ≤ max_android_id rows
unfolding max_android_id find_android
max_android_id-bounds k [] r h p = cc
max_android_id-bounds k (s ∷ rows) r h p = elim (Bool-cases (text_eq s.android_id k)) [
  | inl here ↦
      subst
        (λ (x : MessageRow).
          from_phone x.source ≡ true → cast_integer x.android_id ≤ max_android_id (s ∷ rows))
        (same_row s r (rw here at h)) (first_bounded s (max_android_id rows)) p
  | inr there ↦ let rest = max_android_id-bounds k rows r (rw there at h) p in ground (arith, rest)
]

raise-le : (o : Outcome ℕ) (start : ℕ) → start ≤ raise o start
raise-le (err e) start = omega arith
raise-le (ok id) start = ground arith

raise_device-le : (o : Option (Outcome ℕ)) (start : ℕ) → start ≤ raise_device o start
raise_device-le none start = omega arith
raise_device-le (some answer) start = raise-le answer start

-- Where the devices can be listed and the database answers, a new poller starts at or beyond the id of
-- every message of a phone that is stored, whatever the device answers.
pub start_id-covers :
    (now : ℕ) (d : Db) (device : Option (Outcome ℕ)) (k : Text) (r : MessageRow)
    → find_android k d.messages ≡ some r
    → from_phone r.source ≡ true
    → cast_integer r.android_id ≤ start_id false (get_max_android_id now d).0 device
unfolding start_id get_max_android_id
start_id-covers now d device k r h p =
    let stored = max_android_id-bounds k d.messages r h p in
    let first : max_android_id d.messages ≤ raise (ok (max_android_id d.messages)) 0 =
      ground arith in
    omega (arith, stored, first, raise_device-le device (raise (ok (max_android_id d.messages)) 0))
