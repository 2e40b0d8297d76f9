-- ===== src/Modem/Worker/Fields.antt =====
-- internal/modem/worker.go: reading the fields of AT answers, the modem's label, and the order in
-- which its ports are probed.
use abb_app.Base.{
  ℕ, zero, suc, ◌+◌, ◌-◌, ◌*◌, ◌<◌, ◌≡◌, refl, Bool, true, false, ◌&&◌, ◌||◌, not, Bool-cases, inl,
  inr, Option, none, some, List, [], ◌∷◌, ◌++◌, length, length-append, get_elem?, take, drop, All,
  ltb, leb, ◌==◌, arith, if◌then◌else◌,
}
use mathlib.Core.List.{reverse, reverse_perm, reverse-append, Perm, perm_middle}
use mathlib.Core.List.Perm
use abb_app.Base.Text.{
  Text, codes, text_eq, has_prefix, trim, trim_right, trim_space, trim_prefix, is_digit, split_at,
  after_first, to_upper,
}
use abb_app.Config.{ModemLabel}

-- Info
pub record Info : Type 0 where
  pub usb_path : Text
  pub port : Text
  pub imei : Text
  pub iccid : Text
  pub number : Text
  pub operator : Text
  pub name : Text

-- normICCID
unfoldable pub norm_iccid : Text → Text
norm_iccid s = trim_right (λ c. c == b'F') (to_upper (trim_space s))

abbrev pub label_matches : ModemLabel → Info → Bool
label_matches l info =
    not (text_eq l.name [])
    && (not (text_eq l.imei []) && text_eq (trim_space l.imei) info.imei
        || not (text_eq l.iccid []) && text_eq (norm_iccid l.iccid) (norm_iccid info.iccid))

-- "A7670E " and the ellipsis U+2026 in UTF-8.
abbrev generated_name : Info → Text
generated_name info =
    if leb 4 (length info.imei)
    then codes "A7670E " ++ (0xe2 ∷ 0x80 ∷ 0xa6 ∷ drop (length info.imei - 4) info.imei)
    else codes "A7670E " ++ info.usb_path

-- resolveName
unfoldable pub resolve_name : List ModemLabel → Info → Text
resolve_name [] info = generated_name info
resolve_name (l ∷ ls) info = if label_matches l info then l.name else resolve_name ls info

-- strings.Trim(l, "0123456789") == ""
unfoldable pub all_digits : Text → Bool
all_digits l = text_eq (trim is_digit l) []

-- firstDigits
unfoldable pub first_digits : List Text → Text
unfolding all_digits
first_digits [] = []
first_digits (l ∷ ls) =
    let digits = trim_space (trim_prefix l (codes "+CGSN:")) in
    let rest = first_digits ls in
    if not (text_eq digits []) && all_digits digits then digits else rest

-- The value of one line for parseICCID: behind its first colon, without spaces and quotes.
unfoldable pub iccid_value : Text → Text
iccid_value l =
    let value : Text = elim (after_first b':' l) [ none ↦ l | some s ↦ s ] in
    trim (λ c. c == b'"') (trim_space value)

-- parseICCID
unfoldable pub parse_iccid : List Text → Text
unfolding iccid_value
parse_iccid [] = []
parse_iccid (l ∷ ls) =
    let rest = parse_iccid ls in if text_eq (iccid_value l) [] then rest else iccid_value l

abbrev or_empty : Option Text → Text
or_empty none = []
or_empty (some t) = t

-- quotedField
unfoldable pub quoted_field : List Text → Text → ℕ → Text
quoted_field [] prefix n = []
quoted_field (l ∷ ls) prefix n =
    if has_prefix l prefix
    then or_empty (get_elem? (split_at b'"' l) (2 * n + 1))
    else quoted_field ls prefix n

-- The reversed ports, with the one at n - 3 moved to the front where there are more than two.
unfoldable pub third_first : List Text → List Text
third_first order =
    let n = length order in
    if ltb 2 n
    then take 1 (drop (n - 3) order) ++ (take (n - 3) order ++ drop (n - 2) order)
    else order

-- The order in which findATPort opens the ports.
unfoldable pub probe_order : List Text → List Text
probe_order ports = third_first (reverse ports)

-- A text without the byte.
abbrev pub Without : ℕ → Text → Type 0
Without sep = All (λ c. (c == sep) ≡ false)

split_at-cons_other :
    (sep c : ℕ) (s : Text)
    → (c == sep) ≡ false
    → (first : Text) (rest : List Text) → split_at sep s ≡ first ∷ rest
    → split_at sep (c ∷ s) ≡ (c ∷ first) ∷ rest
unfolding split_at
split_at-cons_other sep c s h first rest e = ground arith

split_at-nonempty :
    (sep : ℕ) (s : Text) → (first : Text) × (rest : List Text) × (split_at sep s ≡ first ∷ rest)
unfolding split_at
split_at-nonempty sep [] = ([], [], refl)
split_at-nonempty sep (c ∷ s) =
    let (first, rest, e) = split_at-nonempty sep s in
    elim (Bool-cases (c == sep)) [
      | inl here ↦ ([], first ∷ rest, ground arith)
      | inr there ↦ (c ∷ first, rest, ground arith)
    ]

-- strings.Split gives back a part that stands before a separator.
split_at-append :
    (sep : ℕ) (s t : Text) → Without sep s → split_at sep (s ++ sep ∷ t) ≡ s ∷ split_at sep t
unfolding split_at
split_at-append sep [] t h = let (first, rest, e) = split_at-nonempty sep t in ground arith
split_at-append sep (c ∷ s) t h =
    split_at-cons_other sep c (s ++ sep ∷ t) h.0 s (split_at sep t) (split_at-append sep s t h.1)

-- The second quoted value of the first line with the prefix is what stands between its third and its
-- fourth quote, whatever lines without the prefix stand before it.
pub quoted_field-second :
    (before : List Text) (prefix a q b v rest : Text) (after : List Text)
    → All (λ l. has_prefix l prefix ≡ false) before
    → has_prefix (a ++ b'"' ∷ (q ++ b'"' ∷ (b ++ b'"' ∷ (v ++ b'"' ∷ rest)))) prefix ≡ true
    → Without b'"' a
    → Without b'"' q
    → Without b'"' b
    → Without b'"' v
    → quoted_field
        (before ++ (a ++ b'"' ∷ (q ++ b'"' ∷ (b ++ b'"' ∷ (v ++ b'"' ∷ rest)))) ∷ after)
        prefix
        1
      ≡ v
unfolding quoted_field
quoted_field-second [] prefix a q b v rest after ob hp ha hq hb hv = rw hp (
    rw
      (
        split_at-append b'"' a _ ha,
        split_at-append b'"' q _ hq,
        split_at-append b'"' b _ hb,
        split_at-append b'"' v rest hv,
      )
      refl)
quoted_field-second (l ∷ before) prefix a q b v rest after ob hp ha hq hb hv =
    rw ob.0 (quoted_field-second before prefix a q b v rest after ob.1 hp ha hq hb hv)

-- resolveName gives the name of the first label that matches, and only of one that has a name.
pub resolve_name-first :
    (before : List ModemLabel) (l : ModemLabel) (after : List ModemLabel) (info : Info)
    → All (λ m. label_matches m info ≡ false) before
    → label_matches l info ≡ true
    → resolve_name (before ++ l ∷ after) info ≡ l.name
unfolding resolve_name
resolve_name-first [] l after info others h = rw h
resolve_name-first (m ∷ before) l after info others h =
    rw others.0 (resolve_name-first before l after info others.1 h)

-- Moving one element to the front.
pull-perm : (k : ℕ) (o : List Text) → Perm (take 1 (drop k o) ++ (take k o ++ drop (suc k) o)) o
pull-perm zero [] = Perm.refl []
pull-perm zero (x ∷ o) = Perm.refl (x ∷ o)
pull-perm (suc k) [] = Perm.refl []
pull-perm (suc k) (x ∷ o) =
    Perm.trans (perm_middle (take 1 (drop k o)) (take k o ++ drop (suc k) o))
      (Perm.cons x (pull-perm k o))

drop-length : (xs ys : List Text) → drop (length xs) (xs ++ ys) ≡ ys
drop-length [] ys = refl
drop-length (x ∷ xs) ys = drop-length xs ys

third_first-perm : (o : List Text) → Perm (third_first o) o
unfolding third_first
third_first-perm o = elim (Bool-cases (ltb 2 (length o))) [
  | inl many ↦
      let e : length o - 2 ≡ suc (length o - 3) = ground arith in
      rw (many, e) (pull-perm (length o - 3) o)
  | inr few ↦ rw few (Perm.refl o)
]

third_first-head :
    (xs : List Text) (a b c : Text) → get_elem? (third_first (xs ++ c ∷ b ∷ a ∷ [])) 0 ≡ some c
unfolding third_first
third_first-head xs a b c =
    let n : length (xs ++ c ∷ b ∷ a ∷ []) ≡ length xs + 3 = length-append xs (c ∷ b ∷ a ∷ []) in
    let m : length xs + 3 - 3 ≡ length xs = omega arith in
    let many : ltb 2 (length xs + 3) ≡ true = ground arith in rw (n, many, m, drop-length) refl

-- The ports are probed each once.
probe_order-Perm : (ports : List Text) → Perm (probe_order ports) ports
unfolding probe_order
probe_order-Perm ports = Perm.trans (third_first-perm (reverse ports)) (reverse_perm ports)

-- The ports are probed each once, and where there are more than two, the third one comes first.
pub probe_order_lem :
    (ports : List Text)
    → 2 < length ports
    → Perm (probe_order ports) ports × (get_elem? (probe_order ports) 0 ≡ get_elem? ports 2)
unfolding probe_order
probe_order_lem [] h = absurd (omega arith)
probe_order_lem (a ∷ []) h = absurd (omega arith)
probe_order_lem (a ∷ b ∷ []) h = absurd (omega arith)
probe_order_lem (a ∷ b ∷ c ∷ rest) h = (
  probe_order-Perm (a ∷ b ∷ c ∷ rest),
  rw (reverse-append (a ∷ b ∷ c ∷ []) rest) (third_first-head (reverse rest) a b c),
)
