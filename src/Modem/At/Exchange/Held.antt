-- ===== src/Modem/At/Exchange/Held.antt =====
-- internal/modem/at.go: the responses that Command is still to see, while the reader reads.
use mathlib.Core.List.{append-nil, append_assoc}
use abb_app.Base.{
  ℕ, ◌≤◌, ◌<◌, ◌≡◌, refl, ◌∙◌, ap, sym, subst, Bool, true, false, Bool-cases, inl, inr, Option,
  none, some, List, [], ◌∷◌, ◌++◌, map, filter, length, length-append, ◌==◌, arith, if◌then◌else◌,
}
use abb_app.Base.Text.{Text, text_eq, trim_space, trim_end, drop_spaces, reverse_onto, split_at}
use abb_app.Modem.At.{AtPort, is_urc, dispatch, resp_capacity}
use abb_app.Modem.At.Lines.{dispatch_resp}
use abb_app.Modem.At.Reader.{
  Reader, is_line, continued, continued-cut, continued-kept, trim_space-newline,
}
use abb_app.Modem.At.Exchange.{Exchange, take_up, put, next_byte, responses, pending_lines}

abbrev pub to_come : Reader → Text → List Text
to_come r bytes = elim r.stopped [ none ↦ responses (pending_lines r.raw bytes) | some e ↦ [] ]

-- The response that dispatch is about to hand on.
unfoldable pub in_hand : Option (Bool × Text) → List Text
in_hand none = []
in_hand (some (waiting, l)) = if waiting then responses (l ∷ []) else []

-- The responses that Command is still to see.
abbrev pub all_lines : Exchange → List Text
all_lines x = x.reader.port.resp ++ (in_hand x.hand ++ to_come x.reader x.incoming)

-- The response in a raw line, if there is one.
abbrev response_in : Text → List Text
response_in raw = responses (filter is_line (trim_space raw ∷ []))

take_up-response :
    (p : AtPort) (raw : Text) → p.waiting ≡ true → in_hand (take_up raw p) ≡ response_in raw
unfolding in_hand take_up
take_up-response p raw w = elim (Bool-cases (text_eq (trim_space raw) [])) [
  | inl empty ↦ rw empty refl
  | inr full ↦ rw (full, w) refl
]

put_unsolicited : (p : AtPort) (l : Text) → is_urc l ≡ true → (put true l p).resp ≡ p.resp
unfolding put dispatch
put_unsolicited p l u = ground arith

put_unheard : (p : AtPort) (l : Text) → (put false l p).resp ≡ p.resp
unfolding put dispatch
put_unheard p l = ground arith

put_response :
    (p : AtPort) (l : Text)
    → is_urc l ≡ false
    → length p.resp < resp_capacity
    → (put true l p).resp ≡ p.resp ++ l ∷ []
unfolding put
put_response p l u room = rw (dispatch_resp (record p { waiting = true }) l refl u room) refl

-- A line that is handed on goes where the reader meant it to go.
pub put-in_hand :
    (p : AtPort) (waiting : Bool) (l : Text)
    → length (p.resp ++ in_hand (some (waiting, l))) ≤ resp_capacity
    → (put waiting l p).resp ≡ p.resp ++ in_hand (some (waiting, l))
unfolding in_hand
put-in_hand p false l room = put_unheard p l ∙ sym (append-nil p.resp)
put-in_hand p true l room = elim (Bool-cases (is_urc l)) [
  | inl urc ↦ rw urc (put_unsolicited p l urc ∙ sym (append-nil p.resp))
  | inr resp ↦
      let one : responses (l ∷ []) ≡ l ∷ [] = rw resp refl in
      let less : length p.resp < resp_capacity = omega (
        arith,
        length-append p.resp (l ∷ []),
        subst (λ (u : List Text). length (p.resp ++ u) ≤ resp_capacity) one room,
      ) in
      put_response p l resp less ∙ ap (λ (u : List Text). p.resp ++ u) (sym one)
]

responses-append :
    (l : Text) (ls : List Text)
    → responses (filter is_line (l ∷ ls))
      ≡ responses (filter is_line (l ∷ [])) ++ responses (filter is_line ls)
responses-append l ls = elim (Bool-cases (text_eq l [])) [
  | inl empty ↦ rw empty refl
  | inr full ↦ elim (Bool-cases (is_urc l)) [
    | inl urc ↦ rw (full, urc) refl
    | inr r ↦ rw (full, r) refl
  ]
]

pending_lines-cut :
    (c : ℕ) (raw s : Text)
    → (c == 10) ≡ true
    → responses (pending_lines raw (c ∷ s)) ≡ response_in raw ++ responses (pending_lines [] s)
unfolding pending_lines
pending_lines-cut c raw s h =
    ap (λ (ls : List Text). responses (filter is_line (map trim_space ls)))
      (continued-cut c raw s h)
    ∙ responses-append (trim_space raw) (map trim_space (continued [] (split_at 10 s)))

pending_lines-kept :
    (c : ℕ) (raw s : Text)
    → (c == 10) ≡ false
    → pending_lines raw (c ∷ s) ≡ pending_lines (raw ++ c ∷ []) s
unfolding pending_lines
pending_lines-kept c raw s h =
    ap (λ (ls : List Text). filter is_line (map trim_space ls)) (continued-kept c raw s h)

pending_lines-end : (raw : Text) → responses (pending_lines raw []) ≡ response_in raw
unfolding pending_lines continued split_at
pending_lines-end raw =
    ap (λ (u : Text). responses (filter is_line (trim_space u ∷ []))) (append-nil raw)

nothing_more : responses (pending_lines [] []) ≡ []
unfolding pending_lines continued split_at trim_space trim_end drop_spaces reverse_onto text_eq
nothing_more = refl

-- The line feed behind a raw line changes nothing of the response in it.
response_in-cut :
    (c : ℕ) (raw : Text) → (c == 10) ≡ true → response_in (raw ++ c ∷ []) ≡ response_in raw
response_in-cut c raw cut =
    ap (λ (l : Text). responses (filter is_line (l ∷ []))) (trim_space-newline raw c cut)

-- Reading a byte loses and adds no response.
pub next_byte-lines :
    (x : Exchange) (c : ℕ) (s : Text)
    → x.reader.stopped ≡ none
    → x.hand ≡ none
    → x.incoming ≡ c ∷ s
    → x.reader.port.waiting ≡ true
    → all_lines (record (next_byte c x) { incoming = s }) ≡ all_lines x
unfolding next_byte in_hand
next_byte-lines x c s open_ free inc w = elim (Bool-cases (c == 10)) [
  | inl cut ↦
      rw (cut, free, inc, open_)
        (ap (λ (u : List Text). x.reader.port.resp ++ u)
          (ap (λ (u : List Text). u ++ responses (pending_lines [] s))
              (take_up-response x.reader.port (x.reader.raw ++ c ∷ []) w
                ∙ response_in-cut c x.reader.raw cut)
            ∙ sym (pending_lines-cut c x.reader.raw s cut)))
  | inr kept ↦
      rw (kept, free, inc, open_)
        (ap (λ (u : List Text). x.reader.port.resp ++ responses u)
          (sym (pending_lines-kept c x.reader.raw s kept)))
]

pub breaks_off-lines :
    (x : Exchange)
    → x.reader.stopped ≡ none
    → x.hand ≡ none
    → x.incoming ≡ []
    → x.reader.port.waiting ≡ true
    → all_lines (record x {
      reader = record (x.reader) { raw = [] };
      hand = take_up x.reader.raw x.reader.port;
    })
      ≡ all_lines x
unfolding in_hand
breaks_off-lines x open_ free inc w =
    rw (free, open_, inc)
      (ap (λ (u : List Text). x.reader.port.resp ++ u)
        (ap (λ (u : List Text). u ++ responses (pending_lines [] []))
            (take_up-response x.reader.port x.reader.raw w)
          ∙ (ap (λ (u : List Text). response_in x.reader.raw ++ u) nothing_more
              ∙ (append-nil (response_in x.reader.raw) ∙ sym (pending_lines-end x.reader.raw)))))

pub fails-lines :
    (x : Exchange) (e : Text)
    → x.reader.stopped ≡ none
    → x.incoming ≡ []
    → x.reader.raw ≡ []
    → all_lines (record x { reader = record (x.reader) { stopped = some e } }) ≡ all_lines x
fails-lines x e open_ inc empty = rw (inc, open_, empty, nothing_more) refl

pub next_byte-waiting :
    (c : ℕ) (x : Exchange) → (next_byte c x).reader.port.waiting ≡ x.reader.port.waiting
unfolding next_byte
next_byte-waiting c x = ground arith

pub next_byte-collected : (c : ℕ) (x : Exchange) → (next_byte c x).collected ≡ x.collected
unfolding next_byte
next_byte-collected c x = ground arith

pub next_byte-reply : (c : ℕ) (x : Exchange) → (next_byte c x).reply ≡ x.reply
unfolding next_byte
next_byte-reply c x = ground arith

pub put-waiting : (waiting : Bool) (l : Text) (p : AtPort) → (put waiting l p).waiting ≡ p.waiting
unfolding put
put-waiting waiting l p = refl

pub hands_on-lines :
    (x : Exchange) (waiting : Bool) (l : Text)
    → x.hand ≡ some (waiting, l)
    → length (all_lines x) ≤ resp_capacity
    → all_lines (record x {
      reader = record (x.reader) { port = put waiting l x.reader.port };
      hand = none;
    })
      ≡ all_lines x
unfolding in_hand
hands_on-lines x waiting l has room =
    let tail : List Text = to_come x.reader x.incoming in
    let lines : all_lines x ≡ x.reader.port.resp ++ (in_hand (some (waiting, l)) ++ tail) =
      ap (λ (h : Option (Bool × Text)). x.reader.port.resp ++ (in_hand h ++ tail)) has in
    let fits : length (x.reader.port.resp ++ in_hand (some (waiting, l))) ≤ resp_capacity = omega (
      arith,
      length-append (x.reader.port.resp) (in_hand (some (waiting, l)) ++ tail),
      length-append (in_hand (some (waiting, l))) tail,
      length-append (x.reader.port.resp) (in_hand (some (waiting, l))),
      subst (λ (u : List Text). length u ≤ resp_capacity) lines room,
    ) in
    ap (λ (u : List Text). u ++ tail) (put-in_hand x.reader.port waiting l fits)
    ∙ (append_assoc (x.reader.port.resp) (in_hand (some (waiting, l))) tail ∙ sym lines)
