-- ===== src/Sender/Digits.antt =====
-- What Telegram shows of a text that WrapDigits has prepared.
use mathlib.Core.List.{append-nil, append_assoc}
use abb_app.Base.{
  ℕ, zero, suc, ◌≡◌, refl, ◌∙◌, ap, Bool, true, false, not, Bool-cases, inl, inr, Option, none,
  some, [], ◌∷◌, ◌++◌, length, All, All-append, All-imp, ltb, ◌==◌, arith, if◌then◌else◌,
}
use abb_app.Base.Text.{Text, codes, has_prefix, is_digit}
use abb_app.Sender.Format.{escape_byte, escape, code_end, flush, wrap_runs, wrap_digits}

-- The text without its tags; the flag says whether the text begins inside one.
unfoldable pub without_tags : Bool → Text → Text
without_tags inside [] = []
without_tags true (c ∷ s) = without_tags (not (c == b'>')) s
without_tags false (c ∷ s) =
    let tag = without_tags true s in
    let more = c ∷ without_tags false s in if c == b'<' then tag else more

-- The character that an entity of html.EscapeString stands for, and how many bytes follow its '&'.
unfoldable pub entity : Text → Option (ℕ × ℕ)
unfolding has_prefix
entity s =
    if has_prefix s (codes "&amp;")
    then some (b'&', 4)
    else if has_prefix s (codes "&#39;")
    then some (39, 4)
    else if has_prefix s (codes "&lt;")
    then some (b'<', 3)
    else if has_prefix s (codes "&gt;")
    then some (b'>', 3)
    else if has_prefix s (codes "&#34;")
    then some (34, 4)
    else none

-- The text with its entities decoded; the number says how many bytes of one are left.
unfoldable pub unescape : ℕ → Text → Text
unfolding entity
unescape skip [] = []
unescape (suc skip) (c ∷ s) = unescape skip s
unescape zero (c ∷ s) = elim (entity (c ∷ s)) [
  | none ↦ c ∷ unescape zero s
  | some (d, n) ↦ d ∷ unescape n s
]

-- What a reader sees of Telegram HTML.
unfoldable pub rendered : Text → Text
unfolding without_tags unescape
rendered html = unescape 0 (without_tags false html)

abbrev NoTag : Text → Type 0
NoTag = All (λ c. (c == b'<') ≡ false)

without_tags-append :
    (s t : Text) → NoTag s → without_tags false (s ++ t) ≡ s ++ without_tags false t
unfolding without_tags
without_tags-append [] t h = refl
without_tags-append (c ∷ s) t h = rw (h.0, without_tags-append s t h.1) refl

without_tags-flush :
    (run t : Text) → NoTag run → without_tags false (flush run ++ t) ≡ run ++ without_tags false t
unfolding flush
without_tags-flush run t h = elim (Bool-cases (ltb 2 (length run))) [
  | inl long ↦
      simp (long, append_assoc) (unfold without_tags in without_tags-append run (code_end ++ t) h)
  | inr short ↦ rw short (without_tags-append run t h)
]

without_tags-cons :
    (c : ℕ) (s : Text) → (c == b'<') ≡ false → without_tags false (c ∷ s) ≡ c ∷ without_tags false s
unfolding without_tags
without_tags-cons c s h = rw h refl

-- Whatever stands behind the wrapped text, its tags go and the rest stays.
without_tags-wrap_runs :
    (s run t : Text)
    → NoTag run
    → NoTag s
    → without_tags false (wrap_runs run s ++ t) ≡ run ++ (s ++ without_tags false t)
unfolding wrap_runs
without_tags-wrap_runs [] run t hr hs = without_tags-flush run t hr
without_tags-wrap_runs (c ∷ s) run t hr hs = elim (Bool-cases (is_digit c)) [
  | inl digit ↦ rw digit (
      without_tags-wrap_runs s (run ++ c ∷ []) t (All-append _ run (c ∷ []) hr (hs.0, tt)) hs.1
      ∙ append_assoc run (c ∷ []) _)
  | inr other ↦
      rw (other, append_assoc (flush run) (c ∷ wrap_runs [] s) t)
        (without_tags-flush run (c ∷ wrap_runs [] s ++ t) hr
          ∙ ap (λ (u : Text). run ++ u)
              (without_tags-cons c (wrap_runs [] s ++ t) hs.0
                ∙ ap (λ (u : Text). c ∷ u) (without_tags-wrap_runs s [] t tt hs.1)))
]

escape_byte-NoTag : (c : ℕ) → NoTag (escape_byte c)
unfolding escape_byte
escape_byte-NoTag c = ground arith

escape-NoTag : (s : Text) → NoTag (escape s)
unfolding escape
escape-NoTag [] = tt
escape-NoTag (c ∷ s) =
    All-append _ (escape_byte c) (escape s) (escape_byte-NoTag c) (escape-NoTag s)

unescape-escape_byte : (c : ℕ) (t : Text) → unescape 0 (escape_byte c ++ t) ≡ c ∷ unescape 0 t
unfolding escape_byte unescape
unescape-escape_byte c t = ground arith

unescape-escape : (s t : Text) → unescape 0 (escape s ++ t) ≡ s ++ unescape 0 t
unfolding escape
unescape-escape [] t = refl
unescape-escape (c ∷ s) t =
    rw (append_assoc (escape_byte c) (escape s) t)
      (unescape-escape_byte c (escape s ++ t) ∙ ap (λ (u : Text). c ∷ u) (unescape-escape s t))

-- The HTML shows the text, whatever stands behind it: `visible` is the HTML without its tags.
pub record Shows (html text : Text) : Type 0 where
  pub visible : Text
  pub tags : (t : Text) → without_tags false (html ++ t) ≡ visible ++ without_tags false t
  pub decoded : (t : Text) → unescape 0 (visible ++ t) ≡ text ++ unescape 0 t

pub Shows-append : (h s : Text) {k t : Text} → Shows h s → Shows k t → Shows (h ++ k) (s ++ t)
Shows-append h s {k} {t} a b = record {
  visible = a.visible ++ b.visible;
  tags = λ u.
      rw (append_assoc h k u, append_assoc a.visible b.visible (without_tags false u))
        (a.tags (k ++ u) ∙ ap (λ (v : Text). a.visible ++ v) (b.tags u));
  decoded = λ u.
      rw (append_assoc a.visible b.visible u, append_assoc s t (unescape 0 u))
        (a.decoded (b.visible ++ u) ∙ ap (λ (v : Text). s ++ v) (b.decoded u));
}

pub Shows-escape : (s : Text) → Shows (escape s) s
Shows-escape s = record {
  visible = escape s;
  tags = λ t. without_tags-append (escape s) t (escape-NoTag s);
  decoded = unescape-escape s;
}

pub Shows-wrap_digits : (s : Text) → Shows (wrap_digits s) s
unfolding wrap_digits
Shows-wrap_digits s = record {
  visible = escape s;
  tags = λ t. without_tags-wrap_runs (escape s) [] t tt (escape-NoTag s);
  decoded = unescape-escape s;
}

-- A text without markup of its own shows as it is.
abbrev pub Unmarked : Text → Type 0
Unmarked = All (λ c. ((c == b'<') ≡ false) × ((c == b'&') ≡ false))

unescape-cons : (c : ℕ) (t : Text) → (c == b'&') ≡ false → unescape 0 (c ∷ t) ≡ c ∷ unescape 0 t
unfolding unescape entity has_prefix
unescape-cons c t h = ground arith

unescape-Unmarked : (s t : Text) → Unmarked s → unescape 0 (s ++ t) ≡ s ++ unescape 0 t
unescape-Unmarked [] t h = refl
unescape-Unmarked (c ∷ s) t h =
    unescape-cons c (s ++ t) h.0.1 ∙ ap (λ (u : Text). c ∷ u) (unescape-Unmarked s t h.1)

pub Shows-Unmarked : (s : Text) → Unmarked s → Shows s s
Shows-Unmarked s h = record {
  visible = s;
  tags = λ t. without_tags-append s t (All-imp _ _ s (λ c d. d.0) h);
  decoded = λ t. unescape-Unmarked s t h;
}

pub rendered-Shows : {h s : Text} → Shows h s → rendered h ≡ s
unfolding rendered without_tags unescape
rendered-Shows {h} {s} w = rw (← append-nil h, w.tags [], w.decoded [], append-nil s) refl
