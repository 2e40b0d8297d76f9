-- ===== src/Modem/Worker.antt =====
-- internal/modem/worker.go: reading the stored SMS of one modem.
-- The packages that decode PDUs are not part of the repository: `Codec` stands for them. A key of
-- `firstSeen` is the data that its text is made of: "single:%d" and "concat:%s:%d:%d" are injective.
pub mod ReadAll
pub mod Safety
pub mod Fields
pub mod Setup
pub mod Run
use abb_app.Base.{
  ℕ, zero, suc, ◌+◌, ◌-◌, ◌*◌, Bool, true, false, ◌&&◌, ◌||◌, not, Option, none, some, List, [],
  ◌∷◌, ◌++◌, map, length, ltb, leb, ◌==◌, if◌then◌else◌,
}
use abb_app.Base.Text.{
  is_re_space, Text, codes, text_eq, has_prefix, drop_prefix, trim_left, trim_space, span_digits,
  atoi,
}
use abb_app.Model.{Message}
use abb_app.Db.Session.{Outcome, ok, err}

-- What ConcatInfo answers, where it answers ok.
pub record ConcatInfo : Type 0 where
  pub segments : ℕ
  pub sequence : ℕ
  pub reference : ℕ

-- *tpdu.TPDU, as far as it is looked at. The time is in nanoseconds, 0 for the zero time.
pub record Tpdu : Type 0 where
  pub is_deliver : Bool
  pub concat : Option ConcatInfo
  pub number : Text
  pub time : ℕ
  pub payload : Text

-- decodePDU (pdumode.UnmarshalHexString and sms.Unmarshal), sms.Decode, and the first eight bytes
-- of sha1.Sum in hexadecimal.
pub record Codec : Type 0 where
  pub decode_pdu : Text → Outcome Tpdu
  pub decode_text : List Tpdu → Outcome Text
  pub digest : Text → Text

pub data Key : Type 0 where
  single : ℕ → Key
  concat : Text → ℕ → ℕ → Key

unfoldable pub key_eq : Key → Key → Bool
key_eq (single i) (single j) = i == j
key_eq (concat s m n) (concat t k l) = text_eq s t && m == k && n == l
key_eq _ _ = false

pub record StoredPdu : Type 0 where
  pub index : ℕ
  pub tpdu : Tpdu

pub record Group : Type 0 where
  pub key : Key
  pub segments : List StoredPdu
  pub total : ℕ

-- What the modem and the handler are asked to do, newest first: a message that the handler stored,
-- with the storage indexes of its segments, and an AT+CMGD command.
pub data Event : Type 0 where
  stored : Message → List ℕ → Event
  deleted : ℕ → Event

-- The state of a Worker that ReadAll reads or writes. `handled` and `commands` say how the next
-- calls of the handler and of AT+CMGD end: true for a nil error.
pub record Worker : Type 0 where
  pub delete_after_read : Bool
  pub imei : Text
  pub name : Text
  pub number : Text
  pub operator : Text
  pub now : ℕ
  pub first_seen : List (Key × ℕ)
  pub bad_pdu : List ℕ
  pub handled : List Bool
  pub commands : List Bool
  pub events : List Event

-- incompleteTimeout
abbrev pub incomplete_timeout : ℕ
incomplete_timeout = 600 * 1_000_000_000

-- The regular expression `^\+CMGL:\s*(\d+),`, with its group read by strconv.Atoi.
unfoldable pub match_cmgl : Text → Option ℕ
match_cmgl l =
    if has_prefix l (codes "+CMGL:")
    then (let (digits, rest) =
          span_digits (trim_left is_re_space (drop_prefix l (codes "+CMGL:"))) in
        if not (text_eq digits []) && has_prefix rest (codes ",") then some (atoi digits) else none)
    else none

-- What the first loop of ReadAll collects: `groups` in the order of `order`.
pub record Listing : Type 0 where
  pub groups : List Group
  pub orphans : List ℕ
  pub bad : List ℕ

unfoldable pub contains_index : ℕ → List ℕ → Bool
contains_index i [] = false
contains_index i (j ∷ js) = j == i || contains_index i js

-- groups[key], appended to if it is there, and made if not.
unfoldable pub add_segment : Key → ℕ → StoredPdu → List Group → List Group
unfolding key_eq
add_segment key total s [] = record { key = key; segments = s ∷ []; total = total } ∷ []
add_segment key total s (g ∷ gs) =
    if key_eq g.key key
    then record g { segments = g.segments ++ s ∷ [] } ∷ gs
    else g ∷ add_segment key total s gs

-- The key and the number of segments of a PDU at a storage index.
unfoldable pub key_of : ℕ → Tpdu → Key × ℕ
key_of idx t = elim t.concat [
  | none ↦ (single idx, 1)
  | some c ↦
      if ltb 1 c.segments
      then (concat t.number c.reference c.segments, c.segments)
      else (single idx, 1)
]

-- One listed PDU.
unfoldable pub collect : ℕ → Outcome Tpdu → Listing → Listing
unfolding contains_index add_segment key_of
collect idx (err e) l = if contains_index idx l.bad then l else record l { bad = idx ∷ l.bad }
collect idx (ok t) l =
    if not t.is_deliver
    then record l { orphans = l.orphans ++ idx ∷ [] }
    else (let (key, total) = key_of idx t in
        record l { groups = add_segment key total (record { index = idx; tpdu = t }) l.groups })

-- The first loop of ReadAll: a header line takes the line behind it; one at the end is skipped.
unfoldable pub list_lines : Codec → List Text → Listing → Listing
unfolding match_cmgl collect
list_lines c [] l = l
list_lines c (header ∷ []) l = l
list_lines c (header ∷ pdu ∷ lines) l = elim (match_cmgl header) [
  | none ↦ list_lines c (pdu ∷ lines) l
  | some idx ↦ list_lines c lines (collect idx (c.decode_pdu pdu) l)
]

-- The sequence number that sort.Slice compares: 0 where there is none.
abbrev sequence_of : StoredPdu → ℕ
sequence_of s = elim s.tpdu.concat [ none ↦ 0 | some c ↦ c.sequence ]

-- sort.Slice by the sequence number, with equal numbers left in order.
unfoldable pub insert_segment : StoredPdu → List StoredPdu → List StoredPdu
insert_segment s [] = s ∷ []
insert_segment s (t ∷ ts) =
    if leb (sequence_of s) (sequence_of t) then s ∷ t ∷ ts else t ∷ insert_segment s ts

unfoldable pub sort_segments : List StoredPdu → List StoredPdu
unfolding insert_segment
sort_segments [] = []
sort_segments (s ∷ ss) = insert_segment s (sort_segments ss)
