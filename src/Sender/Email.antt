-- ===== src/Sender/Email.antt =====
-- internal/sender/email.go: sending over SMTP. net/smtp stands behind SendFunc, a parameter.
use abb_app.Base.{
  ℕ, ◌≡◌, refl, ◌∙◌, sym, subst, not, All-append, ap, Bool, true, false, ◌&&◌, Option, none, some,
  List, [], ◌∷◌, ◌++◌, All, ◌==◌, arith, if◌then◌else◌,
}
use mathlib.Core.List.{append-nil, append_assoc}
use abb_app.Base.Text.{Text, codes, text_eq}
use abb_app.Base.Int.{decimal_int}
use abb_app.Model.{Message}
use abb_app.Config.{EmailConfig}
use abb_app.Db.Session.{Outcome, ok, err}
use abb_app.Sender.Format.{crlf, format_message, build_email_message}

-- smtp.PlainAuth with an empty identity.
pub record PlainAuth : Type 0 where
  pub username : Text
  pub password : Text
  pub host : Text

-- SendFunc
pub record Mail : Type 0 where
  pub addr : Text
  pub auth : Option PlainAuth
  pub from : Text
  pub to : List Text
  pub msg : Text

-- The call of SendFunc that EmailSender.Send makes.
unfoldable pub mail : (ℕ → Text) → EmailConfig → Message → Mail
unfolding build_email_message decimal_int
mail time cfg msg = record {
  addr = cfg.host ++ (codes ":" ++ decimal_int cfg.port);
  auth =
      if text_eq cfg.username []
      then none
      else some (record { username = cfg.username; password = cfg.password; host = cfg.host });
  from = cfg.from;
  to = cfg.to ∷ [];
  msg = build_email_message time cfg.from cfg.to msg;
}

pub record EmailSender : Type 0 where
  pub cfg : EmailConfig
  pub send_fn : Mail → Outcome (Unit {0})

-- NewEmailSender
unfoldable pub new_email_sender :
    (Mail → Outcome (Unit {0})) → EmailConfig → Option (Mail → Outcome (Unit {0})) → EmailSender
new_email_sender smtp_send_mail cfg none = record { cfg = cfg; send_fn = smtp_send_mail }
new_email_sender smtp_send_mail cfg (some f) = record { cfg = cfg; send_fn = f }

-- EmailSender.Send
unfoldable pub email_send : (ℕ → Text) → EmailSender → Message → Outcome (Unit {0})
unfolding mail
email_send time e msg = elim (e.send_fn (mail time e.cfg msg)) [
  | err x ↦ err (codes "smtp send: " ++ x)
  | ok u ↦ ok tt
]

-- How a mail reader takes a message apart: the lines of the header up to the empty line, and the body.
-- A line ends with a line feed; carriage returns in the header are dropped. `line` is what it has of
-- the current line.
unfoldable pub read_mail : Text → Text → List Text × Text
read_mail line [] = (line ∷ [], [])
read_mail line (c ∷ s) =
    let (headers, body) = read_mail [] s in
    let dropped = read_mail line s in
    let longer = read_mail (line ++ c ∷ []) s in
    if c == 10
    then (if text_eq line [] then ([], s) else (line ∷ headers, body))
    else if c == 13
    then dropped
    else longer

-- A text that stands on one line.
abbrev pub OneLine : Text → Type 0
OneLine = All (λ c. ((c == 10) ≡ false) × ((c == 13) ≡ false))

read_mail-byte :
    (c : ℕ) (line s : Text)
    → (c == 10) ≡ false
    → (c == 13) ≡ false
    → read_mail line (c ∷ s) ≡ read_mail (line ++ c ∷ []) s
unfolding read_mail
read_mail-byte c line s h k = rw (h, k) refl

read_mail-break :
    (line s : Text)
    → text_eq line [] ≡ false
    → read_mail line (crlf ++ s) ≡ (line ∷ (read_mail [] s).0, (read_mail [] s).1)
unfolding read_mail
read_mail-break line s n = rw n refl

-- A line that is not empty ends at its line break.
read_mail-line :
    (l line s : Text)
    → OneLine l
    → text_eq (line ++ l) [] ≡ false
    → read_mail line (l ++ (crlf ++ s)) ≡ ((line ++ l) ∷ (read_mail [] s).0, (read_mail [] s).1)
read_mail-line [] line s h n =
    subst (λ (u : Text). read_mail line (crlf ++ s) ≡ (u ∷ (read_mail [] s).0, (read_mail [] s).1))
      (sym (append-nil line))
      (read_mail-break line s (subst (λ (u : Text). text_eq u [] ≡ false) (append-nil line) n))
read_mail-line (c ∷ l) line s h n =
    let e : (line ++ c ∷ []) ++ l ≡ line ++ c ∷ l = append_assoc line (c ∷ []) l in
    read_mail-byte c line (l ++ (crlf ++ s)) h.0.0 h.0.1
    ∙ (read_mail-line l (line ++ c ∷ []) s h.1
          (subst (λ (u : Text). text_eq u [] ≡ false) (sym e) n)
        ∙ ap (λ (u : Text). (u ∷ (read_mail [] s).0, (read_mail [] s).1)) e)

unfoldable pub is_one_line : Text → Bool
is_one_line [] = true
is_one_line (c ∷ s) = not (c == 10) && not (c == 13) && is_one_line s

pub OneLine-tested : (s : Text) → is_one_line s ≡ true → OneLine s
unfolding is_one_line
OneLine-tested [] h = tt
OneLine-tested (c ∷ s) h = ((ground arith, ground arith), OneLine-tested s (ground arith))

-- A header line with its name in front.
read_mail-header :
    (name l s : Text)
    → is_one_line name ≡ true
    → text_eq (name ++ l) [] ≡ false
    → OneLine l
    → read_mail [] ((name ++ l) ++ (crlf ++ s))
      ≡ ((name ++ l) ∷ (read_mail [] s).0, (read_mail [] s).1)
read_mail-header name l s h n o =
    read_mail-line (name ++ l) [] s (All-append _ name l (OneLine-tested name h) o) n

-- Where the two addresses of the configuration and the sender of the SMS stand on one line each, the
-- mail that Send hands to SendFunc has the three header lines From, To and Subject and no other, and
-- its body is the message as FormatMessage writes it, whatever the SMS says.
pub read_mail-mail :
    (time : ℕ → Text) (cfg : EmailConfig) (msg : Message)
    → OneLine cfg.from
    → OneLine cfg.to
    → OneLine msg.address
    → read_mail [] (mail time cfg msg).msg ≡ (
      (codes "From: " ++ cfg.from)
          ∷ (codes "To: " ++ cfg.to)
          ∷ (codes "Subject: SMS from " ++ msg.address)
          ∷ [],
      format_message time msg,
    )
unfolding mail build_email_message is_one_line text_eq read_mail
read_mail-mail time cfg msg hf ht ha =
    let body : Text = crlf ++ format_message time msg in
    let subject : Text = (codes "Subject: SMS from " ++ msg.address) ++ (crlf ++ body) in
    let to : Text = (codes "To: " ++ cfg.to) ++ (crlf ++ subject) in
    read_mail-header (codes "From: ") cfg.from to refl refl hf
    ∙ rw
        (
          read_mail-header (codes "To: ") cfg.to subject refl refl ht,
          read_mail-header (codes "Subject: SMS from ") msg.address body refl refl ha,
        )
        refl
