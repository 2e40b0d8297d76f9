-- ===== src/Adb/Sms.antt =====
-- internal/adb/sms.go: reading the output of `content query`. The regular expressions are written
-- out as functions on bytes; a slice expression whose bounds cross is a panic.
pub mod Dates
pub mod Search
pub mod Rows
use abb_app.Base.{
  ℕ, zero, suc, ◌+◌, ◌-◌, ◌*◌, Bool, true, false, ◌&&◌, ◌||◌, not, Option, none, some, List, [],
  ◌∷◌, ◌++◌, length, take, drop, leb, ◌==◌, if◌then◌else◌,
}
use abb_app.Base.Text.{
  is_re_space, Text, codes, text_eq, has_prefix, contains, drop_prefix, trim_left, trim_space,
  span_digits, atoi,
}
use abb_app.Model.{Message}

-- The ways in which ParseSMSOutput does not return messages; `panic` is a run-time panic.
pub data ParseError : Type 0 where
  sqlite no_id no_date no_fields panic : ParseError

pub data Parsed {ℓ} (A : Type ℓ) : Type ℓ where
  parsed : A → Parsed A
  failed : ParseError → Parsed A

-- The length of a match of `Row: \d+ ` at the start of the text.
row_header : Text → Option ℕ
row_header s =
    if has_prefix s (codes "Row: ")
    then (let (digits, rest) = span_digits (drop_prefix s (codes "Row: ")) in
        if not (text_eq digits []) && has_prefix rest (codes " ")
        then some (6 + length digits)
        else none)
    else none

abbrev cons_first : ℕ → List Text → List Text
cons_first c [] = (c ∷ []) ∷ []
cons_first c (t ∷ ts) = (c ∷ t) ∷ ts

-- reRowSplit.Split(s, -1): whether a line starts here, and how many bytes of a header are left.
unfoldable pub split_rows : Bool → ℕ → Text → List Text
unfolding row_header
split_rows at_start skip [] = [] ∷ []
split_rows at_start (suc skip) (c ∷ s) = split_rows (c == 10) skip s
split_rows at_start zero (c ∷ s) = elim (if at_start then row_header (c ∷ s) else none) [
  | none ↦ cons_first c (split_rows (c == 10) zero s)
  | some n ↦ [] ∷ split_rows false (n - 1) s
]

-- The digits behind the first match of a tag followed by a digit.
unfoldable pub find_number : Text → Text → Option Text
find_number tag [] = none
find_number tag (c ∷ s) =
    let digits = (span_digits (drop_prefix (c ∷ s) tag)).0 in
    let rest = find_number tag s in
    if has_prefix (c ∷ s) tag && not (text_eq digits []) then some digits else rest

-- The digits of `,\s*date=(\d+)\s*$` at the start of the text.
unfoldable pub date_here : Text → Option Text
date_here s =
    if has_prefix s (codes ",")
      && has_prefix (trim_left is_re_space (drop_prefix s (codes ","))) (codes "date=")
    then (let (digits, rest) =
          span_digits
            (drop_prefix (trim_left is_re_space (drop_prefix s (codes ","))) (codes "date=")) in
        if not (text_eq digits []) && text_eq (trim_left is_re_space rest) []
        then some digits
        else none)
    else none

-- reDateSuffix: where the leftmost match starts, and its digits.
unfoldable pub find_date : ℕ → Text → Option (ℕ × Text)
unfolding date_here
find_date i [] = none
find_date i (c ∷ s) = elim (date_here (c ∷ s)) [
  | some digits ↦ some (i, digits)
  | none ↦ find_date (i + 1) s
]

-- strings.Index, from position i on.
unfoldable pub index_from : ℕ → Text → Text → Option ℕ
index_from i [] p = if has_prefix [] p then some i else none
index_from i (c ∷ s) p =
    let rest = index_from (i + 1) s p in if has_prefix (c ∷ s) p then some i else rest

-- s[lo:hi]
abbrev pub slice : ℕ → ℕ → Text → Parsed Text
slice lo hi s =
    if leb lo hi && leb hi (length s) then parsed (take (hi - lo) (drop lo s)) else failed panic

-- reSubscriptionID: the leftmost match of either tag, with an optional sign.
unfoldable pub sub_id_here : Text → Text → Option Text
sub_id_here tag s =
    if has_prefix s tag
    then (let rest = drop_prefix s tag in
        let sign = if has_prefix rest (codes "-") then codes "-" else [] in
        let digits = (span_digits (drop_prefix rest sign)).0 in
        if text_eq digits [] then none else some (sign ++ digits))
    else none

unfoldable pub find_sub_id : Text → Text
unfolding sub_id_here
find_sub_id [] = []
find_sub_id (c ∷ s) = elim (sub_id_here (codes "subscription_id=") (c ∷ s)) [
  | some t ↦ t
  | none ↦ elim (sub_id_here (codes "sub_id=") (c ∷ s)) [ some t ↦ t | none ↦ find_sub_id s ]
]

infixl 5 ◌>>=◌
abbrev pub ◌>>=◌ {ℓ κ} : {A : Type ℓ} {B : Type κ} → Parsed A → (A → Parsed B) → Parsed B
parsed a >>= f = f a
failed e >>= f = failed e

abbrev require {ℓ} : {A : Type ℓ} → ParseError → Option A → Parsed A
require e none = failed e
require e (some a) = parsed a

-- parseRow
unfoldable pub parse_row : Text → Parsed Message
unfolding find_number find_date index_from find_sub_id
parse_row row = do
  id ← require no_id (find_number (codes "_id=") row)
  date ← require no_date (find_date 0 row)
  addr_start ← require no_fields (index_from 0 row (codes "address="))
  body_tag ← require no_fields (index_from 0 row (codes ", body="))
  address ← slice (addr_start + 8) body_tag row
  body ← slice (body_tag + 7) date.0 row
  parsed (record {
    android_id = id;
    subscription_id = find_sub_id row;
    address = address;
    body = body;
    translation = [];
    device_name = [];
    sim_name = [];
    source = [];
    recipient = [];
    received_at = atoi date.1 * 1_000_000;
  })

-- The loop over the parts, in order; an empty part is skipped.
unfoldable pub parse_parts : List Text → Parsed (List Message)
unfolding parse_row
parse_parts [] = parsed []
parse_parts (part ∷ parts) =
    let row = trim_space part in
    let rest = parse_parts parts in
    if text_eq row [] then rest else (do msg ← parse_row row; msgs ← rest; parsed (msg ∷ msgs))

-- ParseSMSOutput
unfoldable pub parse_sms_output : Text → Parsed (List Message)
unfolding split_rows parse_parts
parse_sms_output output =
    let raw = trim_space output in
    if text_eq raw [] || has_prefix raw (codes "No result found")
    then parsed []
    else if contains raw (codes "SQLiteException")
        || contains raw (codes "Error while accessing provider")
    then failed sqlite
    else parse_parts (split_rows true 0 raw)
