-- ===== src/Tests/Words.antt =====
-- The text of the notifications and the heuristic for Georgian.
use abb_app.Base.{ℕ, ◌∷◌, ◌++◌, ◌≡◌, refl, true, false, []}
use abb_app.Base.Text.{Text, codes, is_digit, text_eq, has_prefix, to_lower}
use abb_app.Base.Int.{pos}
use abb_app.Model.{Message}
use abb_app.Config.{EmailConfig}
use abb_app.Sender.Format.{
  build_email_message, wrap_digits, format_message, format_telegram_message,
}
use abb_app.Sender.Digits.{rendered}
use abb_app.Sender.Shown.{
  is_unmarked, Unmarked-tested, plain_message, rendered-format_telegram_message,
}
use abb_app.Sender.Email.{is_one_line, OneLine-tested, read_mail, mail, read_mail-mail}
use abb_app.Translator.Georgian.{
  find_words, score_words, score_word, is_english, is_latin, passes, bonus, count_english,
  looks_like_georgian_latin_for,
}
use abb_app.Translator.Verdict.{looks_like_georgian_latin_for-recipient}

abbrev noon : ℕ → Text
noon t = codes "2026-01-02 12:00"

abbrev shown_message : Message
shown_message = record {
  android_id = [];
  subscription_id = [];
  address = codes "A&B";
  body = codes "pay 1234 < 30 & go";
  translation = codes "<b>";
  device_name = [];
  sim_name = codes "SIM1";
  source = [];
  recipient = [];
  received_at = 5;
}

rendered-format_telegram_message_example :
    rendered (format_telegram_message noon shown_message) ≡ plain_message noon shown_message
unfolding is_unmarked
rendered-format_telegram_message_example =
    rendered-format_telegram_message noon shown_message
      (Unmarked-tested (codes "2026-01-02 12:00") refl)

abbrev mailbox : EmailConfig
mailbox = record {
  enabled = true;
  host = codes "mail";
  port = pos 587;
  username = [];
  password = [];
  from = codes "abb@x";
  to = codes "me@x";
}

read_mail-mail_example : read_mail [] (mail noon mailbox shown_message).msg ≡ (
  (codes "From: " ++ mailbox.from)
      ∷ (codes "To: " ++ mailbox.to)
      ∷ (codes "Subject: SMS from " ++ shown_message.address)
      ∷ [],
  format_message noon shown_message,
)
unfolding is_one_line
read_mail-mail_example =
    read_mail-mail noon mailbox shown_message (OneLine-tested (codes "abb@x") refl)
      (OneLine-tested (codes "me@x") refl) (OneLine-tested (codes "A&B") refl)

-- A sender with a line break in it adds a header.

abbrev broken_message : Message
broken_message = record shown_message { address = codes "A" ++ 10 ∷ codes "Bcc: x" }

four_headers :
    (read_mail [] (mail noon mailbox broken_message).msg).0
    ≡ codes "From: abb@x" ∷ codes "To: me@x" ∷ codes "Subject: SMS from A" ∷ codes "Bcc: x" ∷ []
unfolding read_mail mail build_email_message text_eq
four_headers = refl

wrapped : wrap_digits (codes "pin 1234<9") ≡ codes "pin <code>1234</code>&lt;9"
unfolding wrap_digits is_digit
wrapped = refl

abbrev greeting : Text
greeting = codes "gamarjoba rogor xar"

greeting_known : looks_like_georgian_latin_for (λ c. false) (λ t. t) greeting [] ≡ true
unfolding looks_like_georgian_latin_for find_words is_latin is_english count_english text_eq
    to_lower passes score_words score_word bonus has_prefix
greeting_known = refl

looks_like_georgian_latin_for-recipient_example :
    looks_like_georgian_latin_for (λ c. false) (λ t. t) greeting (codes "+995555") ≡ true
looks_like_georgian_latin_for-recipient_example =
    looks_like_georgian_latin_for-recipient (λ c. false) (λ t. t) greeting (codes "+995555")
      greeting_known
