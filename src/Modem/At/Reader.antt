-- ===== src/Modem/At/Reader.antt =====
-- internal/modem/at.go: the life of an ATPort: NewATPort, readLoop over the bytes of the line, Err.
use mathlib.Core.List.{append-nil, append_assoc}
use abb_app.Base.{
  ℕ, ◌≡◌, refl, ◌∙◌, ap, sym, Bool, true, false, not, Bool-cases, inl, inr, Option, none, some,
  List, [], ◌∷◌, ◌++◌, map, filter, ◌==◌, arith, if◌then◌else◌,
}
use abb_app.Base.Text.{Text, text_eq, is_space, trim_space, trim_space-last, split_at}
use abb_app.Modem.At.{AtPort, dispatch, dispatch_lines}

-- The port, what ReadString has read of the current line, and the error that stopped the reader:
-- `done` is closed once there is one.
pub record Reader : Type 0 where
  pub port : AtPort
  pub raw : Text
  pub stopped : Option Text

-- NewATPort
unfoldable pub new_at_port : Reader
new_at_port = record {
  port = record { waiting = false; resp = []; urc = [] };
  raw = [];
  stopped = none;
}

-- Err
unfoldable pub err_of : Reader → Option Text
err_of r = r.stopped

-- What readLoop does with a raw line.
unfoldable pub hand_on : AtPort → Text → AtPort
unfolding dispatch
hand_on p raw = if text_eq (trim_space raw) [] then p else dispatch p (trim_space raw)

-- One byte for ReadString, which returns at a line feed.
unfoldable pub read_byte : Reader → ℕ → Reader
unfolding hand_on
read_byte r c =
    let raw = r.raw ++ c ∷ [] in
    if c == 10 then record r { port = hand_on r.port raw; raw = [] } else record r { raw = raw }

-- The port fails or is closed: the last line may lack its line feed.
unfoldable pub read_error : Text → Reader → Reader
unfolding hand_on
read_error e r = record r { port = hand_on r.port r.raw; raw = []; stopped = some e }

unfoldable pub read_bytes : Reader → Text → Reader
unfolding read_byte
read_bytes r [] = r
read_bytes r (c ∷ s) = read_bytes (read_byte r c) s

-- readLoop, for the bytes that arrive before the read fails.
unfoldable pub read_loop : Text → Text → AtPort → Reader
unfolding read_bytes read_error
read_loop bytes e p =
    read_error e (read_bytes (record { port = p; raw = []; stopped = none }) bytes)

-- The lines of a text, trimmed, without the empty ones.
abbrev pub is_line : Text → Bool
is_line l = not (text_eq l [])

unfoldable pub lines_in : Text → List Text
lines_in s = filter is_line (map trim_space (split_at 10 s))

-- The line feed that ReadString leaves at the end of a line is trimmed.
pub trim_space-newline :
    (s : Text) (c : ℕ) → (c == 10) ≡ true → trim_space (s ++ c ∷ []) ≡ trim_space s
unfolding is_space
trim_space-newline s c h = trim_space-last s c (ground arith)

-- The pieces of a text that continues a piece that has begun.
unfoldable pub continued : Text → List Text → List Text
continued raw [] = raw ∷ []
continued raw (l ∷ ls) = (raw ++ l) ∷ ls

pub read_byte-newline :
    (c : ℕ) (r : Reader)
    → (c == 10) ≡ true
    → read_byte r c ≡ record r { port = hand_on r.port r.raw; raw = [] }
unfolding read_byte hand_on
read_byte-newline c r h = rw (h, trim_space-newline r.raw c h) refl

pub read_byte-other :
    (c : ℕ) (r : Reader) → (c == 10) ≡ false → read_byte r c ≡ record r { raw = r.raw ++ c ∷ [] }
unfolding read_byte
read_byte-other c r h = rw h refl

hand_ons : AtPort → List Text → AtPort
hand_ons p [] = p
hand_ons p (l ∷ ls) = hand_ons (hand_on p l) ls

hand_ons-lines :
    (ls : List Text) (p : AtPort)
    → hand_ons p ls ≡ dispatch_lines p (filter is_line (map trim_space ls))
unfolding hand_ons hand_on dispatch_lines
hand_ons-lines [] p = refl
hand_ons-lines (l ∷ ls) p = elim (Bool-cases (text_eq (trim_space l) [])) [
  | inl empty ↦ rw empty (hand_ons-lines ls p)
  | inr full ↦ rw full (hand_ons-lines ls (dispatch p (trim_space l)))
]

split_at-cons :
    (sep : ℕ) (s : Text) → (part : Text) × (parts : List Text) × (split_at sep s ≡ part ∷ parts)
unfolding split_at
split_at-cons sep [] = ([], [], refl)
split_at-cons sep (c ∷ s) =
    let (part, parts, e) = split_at-cons sep s in
    elim (Bool-cases (c == sep)) [
      | inl cut ↦ ([], part ∷ parts, rw (e, cut) refl)
      | inr kept ↦ (c ∷ part, parts, rw (e, kept) refl)
    ]

-- A separator ends the piece that has begun, and any other byte continues it.
pub continued-cut :
    (c : ℕ) (raw s : Text)
    → (c == 10) ≡ true
    → continued raw (split_at 10 (c ∷ s)) ≡ raw ∷ continued [] (split_at 10 s)
unfolding continued split_at
continued-cut c raw s h =
    let (part, parts, e) = split_at-cons 10 s in
    rw (split_at, e, h) (ap (λ (u : Text). u ∷ part ∷ parts) (append-nil raw))

pub continued-kept :
    (c : ℕ) (raw s : Text)
    → (c == 10) ≡ false
    → continued raw (split_at 10 (c ∷ s)) ≡ continued (raw ++ c ∷ []) (split_at 10 s)
unfolding continued split_at
continued-kept c raw s h =
    let (part, parts, e) = split_at-cons 10 s in
    rw (split_at, e, h) (ap (λ (u : Text). u ∷ parts) (sym (append_assoc raw (c ∷ []) part)))

-- The reader once it has handed on these lines and failed.
abbrev after_lines : Text → AtPort → List Text → Reader
after_lines e p ls = record { port = hand_ons p ls; raw = []; stopped = some e }

read_error-after_lines :
    (e : Text) (r : Reader) → read_error e r ≡ after_lines e r.port (r.raw ∷ [])
unfolding read_error hand_ons
read_error-after_lines e r = refl

read_bytes-after_lines :
    (s e : Text) (r : Reader)
    → read_error e (read_bytes r s) ≡ after_lines e r.port (continued r.raw (split_at 10 s))
unfolding read_bytes hand_ons continued split_at
read_bytes-after_lines [] e r =
    read_error-after_lines e r
    ∙ ap (λ (u : Text). after_lines e r.port (u ∷ [])) (sym (append-nil r.raw))
read_bytes-after_lines (c ∷ s) e r = elim (Bool-cases (c == 10)) [
  | inl cut ↦
      ap (λ (q : Reader). read_error e (read_bytes q s)) (read_byte-newline c r cut)
      ∙ (read_bytes-after_lines s e (record r { port = hand_on r.port r.raw; raw = [] })
          ∙ ap (after_lines e r.port) (sym (continued-cut c r.raw s cut)))
  | inr kept ↦
      ap (λ (q : Reader). read_error e (read_bytes q s)) (read_byte-other c r kept)
      ∙ (read_bytes-after_lines s e (record r { raw = r.raw ++ c ∷ [] })
          ∙ ap (after_lines e r.port) (sym (continued-kept c r.raw s kept)))
]

pub continued-nil : (s : Text) → continued [] (split_at 10 s) ≡ split_at 10 s
unfolding continued
continued-nil s = let (part, parts, h) = split_at-cons 10 s in rw h refl

-- However the bytes are cut into lines, and whether or not the last line is complete, the reader hands
-- on exactly the lines between the line feeds, trimmed, that are not empty, in their order; then `done`
-- is closed with the error.
pub read_loop-lines :
    (bytes e : Text) (p : AtPort)
    → read_loop bytes e p
      ≡ record { port = dispatch_lines p (lines_in bytes); raw = []; stopped = some e }
unfolding read_loop lines_in
read_loop-lines bytes e p =
    read_bytes-after_lines bytes e (record { port = p; raw = []; stopped = none })
    ∙ ap (λ (q : AtPort). record { port = q; raw = []; stopped = some e })
        (ap (hand_ons p) (continued-nil bytes) ∙ hand_ons-lines (split_at 10 bytes) p)
