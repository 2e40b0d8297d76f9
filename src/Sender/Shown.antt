-- ===== src/Sender/Shown.antt =====
-- What Telegram shows of the message that FormatTelegramMessage writes.
use abb_app.Base.{
  ℕ, arith, ◌≡◌, refl, ◌&&◌, ◌==◌, not, Bool, true, Bool-cases, inl, inr, [], ◌∷◌, ◌++◌,
  if◌then◌else◌,
}
use abb_app.Base.Text.{Text, codes, text_eq}
use abb_app.Model.{Message}
use abb_app.Sender.Format.{
  newline, escape, escape_byte, wrap_digits, recipient_line, format_telegram_message,
}
use abb_app.Sender.Digits.{
  without_tags, rendered, Shows, Shows-append, Shows-escape, Shows-wrap_digits, Unmarked,
  Shows-Unmarked, rendered-Shows,
}

-- The device and its SIM, as a reader is to see them.
unfoldable pub recipient : Message → Text
recipient msg =
    if text_eq msg.sim_name []
    then msg.device_name
    else if text_eq msg.device_name []
    then msg.sim_name
    else msg.device_name ++ (codes " / " ++ msg.sim_name)

-- The message, as a reader is to see it.
unfoldable pub plain_message : (ℕ → Text) → Message → Text
unfolding recipient
plain_message time msg =
    codes "From: "
    ++ (msg.address
        ++ (newline
            ++ (codes "Time: "
                ++ (time msg.received_at
                    ++ (newline
                        ++ ((if text_eq msg.device_name [] && text_eq msg.sim_name []
                              then []
                              else codes "To: " ++ (recipient msg ++ newline))
                            ++ (codes "Text: "
                                ++ (msg.body
                                    ++ (if text_eq msg.translation []
                                        then []
                                        else newline
                                          ++ (codes "Translate: " ++ msg.translation))))))))))

unfoldable pub is_unmarked : Text → Bool
is_unmarked [] = true
is_unmarked (c ∷ s) = not (c == b'<') && not (c == b'&') && is_unmarked s

pub Unmarked-tested : (s : Text) → is_unmarked s ≡ true → Unmarked s
unfolding is_unmarked
Unmarked-tested [] h = tt
Unmarked-tested (c ∷ s) h = ((ground arith, ground arith), Unmarked-tested s (ground arith))

Shows-tag_start : Shows (codes "<b>") []
unfolding without_tags
Shows-tag_start = record { visible = []; tags = λ t. refl; decoded = λ t. refl }

Shows-tag_end : Shows (codes "</b>") []
unfolding without_tags
Shows-tag_end = record { visible = []; tags = λ t. refl; decoded = λ t. refl }

Shows-bold :
    (label : Text)
    → Unmarked label
    → Shows (codes "<b>" ++ (label ++ (codes "</b>" ++ codes " "))) (label ++ codes " ")
unfolding is_unmarked
Shows-bold label h = Shows-append (codes "<b>") [] Shows-tag_start (
    Shows-append label label (Shows-Unmarked label h) (
      Shows-append (codes "</b>") [] Shows-tag_end
        (Shows-Unmarked (codes " ") (Unmarked-tested (codes " ") refl))))

-- A label in bold, its value, and what comes after it.
Shows-entry :
    (label h s : Text) {k t : Text}
    → Unmarked label
    → Shows h s
    → Shows k t
    → Shows
        ((codes "<b>" ++ (label ++ (codes "</b>" ++ codes " "))) ++ (h ++ k))
        ((label ++ codes " ") ++ (s ++ t))
Shows-entry label h s u a b =
    Shows-append _ (label ++ codes " ") (Shows-bold label u) (Shows-append h s a b)

Shows-newline : {k t : Text} → Shows k t → Shows (newline ++ k) (newline ++ t)
unfolding is_unmarked
Shows-newline a =
    Shows-append newline newline (Shows-Unmarked newline (Unmarked-tested newline refl)) a

Shows-nothing : Shows [] []
unfolding is_unmarked
Shows-nothing = Shows-Unmarked [] tt

escape-empty : (s : Text) → text_eq (escape s) [] ≡ text_eq s []
unfolding escape text_eq escape_byte
escape-empty [] = refl
escape-empty (c ∷ s) = ground arith

Shows-recipient_line : (msg : Message) → Shows (recipient_line msg) (recipient msg)
unfolding recipient_line recipient is_unmarked
Shows-recipient_line msg = elim (Bool-cases (text_eq msg.sim_name [])) [
  | inl bare ↦ rw bare (Shows-escape msg.device_name)
  | inr card ↦ elim (Bool-cases (text_eq msg.device_name [])) [
    | inl unnamed ↦ rw (card, escape-empty msg.device_name, unnamed) (Shows-escape msg.sim_name)
    | inr named ↦
        rw (card, escape-empty msg.device_name, named)
          (Shows-append (escape msg.device_name) msg.device_name (Shows-escape msg.device_name) (
            Shows-append (codes " / ") (codes " / ")
              (Shows-Unmarked (codes " / ") (Unmarked-tested (codes " / ") refl))
              (Shows-escape msg.sim_name)))
  ]
]

Shows-to :
    (msg : Message)
    → Shows
        (if text_eq msg.device_name [] && text_eq msg.sim_name []
          then []
          else codes "<b>To:</b> " ++ (recipient_line msg ++ newline))
        (if text_eq msg.device_name [] && text_eq msg.sim_name []
          then []
          else codes "To: " ++ (recipient msg ++ newline))
unfolding is_unmarked
Shows-to msg = elim (Bool-cases (text_eq msg.device_name [] && text_eq msg.sim_name [])) [
  | inl neither ↦ rw neither Shows-nothing
  | inr some_name ↦ rw some_name (
      Shows-entry (codes "To:") (recipient_line msg) (recipient msg)
        (Unmarked-tested (codes "To:") refl) (Shows-recipient_line msg)
        (Shows-Unmarked newline (Unmarked-tested newline refl)))
]

Shows-translation :
    (msg : Message)
    → Shows
        (if text_eq msg.translation []
          then []
          else newline ++ (codes "<b>Translate:</b> " ++ wrap_digits msg.translation))
        (if text_eq msg.translation []
          then []
          else newline ++ (codes "Translate: " ++ msg.translation))
unfolding is_unmarked
Shows-translation msg = elim (Bool-cases (text_eq msg.translation [])) [
  | inl missing ↦ rw missing Shows-nothing
  | inr translated ↦ rw translated (
      Shows-newline (
        Shows-append _ _
          (Shows-bold (codes "Translate:") (Unmarked-tested (codes "Translate:") refl))
          (Shows-wrap_digits msg.translation)))
]

-- The part from the text of the SMS on.
Shows-text :
    (msg : Message)
    → Shows
        (codes "<b>Text:</b> "
          ++ (wrap_digits msg.body
              ++ (if text_eq msg.translation []
                  then []
                  else newline ++ (codes "<b>Translate:</b> " ++ wrap_digits msg.translation))))
        (codes "Text: "
          ++ (msg.body
              ++ (if text_eq msg.translation []
                  then []
                  else newline ++ (codes "Translate: " ++ msg.translation))))
unfolding is_unmarked
Shows-text msg =
    Shows-entry (codes "Text:") (wrap_digits msg.body) msg.body
      (Unmarked-tested (codes "Text:") refl) (Shows-wrap_digits msg.body) (Shows-translation msg)

-- Whatever the sender, the device, the SIM, the text and the translation of an SMS say, Telegram shows
-- exactly them, behind their labels, where the printed time has no '<' and no '&'.
pub rendered-format_telegram_message :
    (time : ℕ → Text) (msg : Message)
    → Unmarked (time msg.received_at)
    → rendered (format_telegram_message time msg) ≡ plain_message time msg
unfolding format_telegram_message plain_message is_unmarked
rendered-format_telegram_message time msg h = rendered-Shows (
    Shows-entry (codes "From:") (escape msg.address) msg.address
      (Unmarked-tested (codes "From:") refl) (Shows-escape msg.address)
      (Shows-newline (
        Shows-entry (codes "Time:") (time msg.received_at) (time msg.received_at)
          (Unmarked-tested (codes "Time:") refl) (Shows-Unmarked (time msg.received_at) h)
          (Shows-newline (Shows-append _ _ (Shows-to msg) (Shows-text msg))))))
