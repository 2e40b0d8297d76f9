-- ===== src/Sender/Format.antt =====
-- internal/sender/sender.go, email.go, ntfy.go and telegram.go: the formatting of a message, and the
-- HTML that Telegram is sent. How package time prints a time is a parameter.
use abb_app.Base.{ℕ, ◌&&◌, Option, none, some, [], ◌∷◌, ◌++◌, length, ltb, leb, ◌==◌, if◌then◌else◌}
use abb_app.Base.Text.{Text, codes, text_eq, is_digit, trim_right, decimal}
use abb_app.Model.{Message}
use abb_app.Config.{NtfyConfig}
use abb_app.Db.Session.{Outcome, ok, err}

abbrev pub newline : Text
newline = 10 ∷ []

-- FormatMessage
unfoldable pub format_message : (ℕ → Text) → Message → Text
format_message time msg =
    codes "From: "
    ++ (msg.address
        ++ (newline
            ++ (codes "Time: "
                ++ (time msg.received_at
                    ++ (newline
                        ++ ((if text_eq msg.device_name []
                              then []
                              else codes "To: " ++ (msg.device_name ++ newline))
                            ++ (codes "Text: "
                                ++ (msg.body
                                    ++ (if text_eq msg.translation []
                                        then []
                                        else newline
                                          ++ (codes "Translate: " ++ msg.translation))))))))))

abbrev pub crlf : Text
crlf = 13 ∷ 10 ∷ []

-- BuildEmailMessage
unfoldable pub build_email_message : (ℕ → Text) → Text → Text → Message → Text
unfolding format_message
build_email_message time from to msg =
    codes "From: "
    ++ (from
        ++ (crlf
            ++ (codes "To: "
                ++ (to
                    ++ (crlf
                        ++ (codes "Subject: SMS from "
                            ++ (msg.address ++ (crlf ++ (crlf ++ format_message time msg)))))))))

-- One byte under html.EscapeString.
unfoldable pub escape_byte : ℕ → Text
escape_byte c =
    if c == b'&'
    then codes "&amp;"
    else if c == 39
    then codes "&#39;"
    else if c == b'<'
    then codes "&lt;"
    else if c == b'>'
    then codes "&gt;"
    else if c == 34
    then codes "&#34;"
    else c ∷ []

-- html.EscapeString
unfoldable pub escape : Text → Text
unfolding escape_byte
escape [] = []
escape (c ∷ s) = escape_byte c ++ escape s

abbrev pub code_start : Text
code_start = codes "<code>"

abbrev pub code_end : Text
code_end = codes "</code>"

-- A run of digits, wrapped if there are three or more.
unfoldable pub flush : Text → Text
flush run = if ltb 2 (length run) then code_start ++ (run ++ code_end) else run

-- reDigitRun.ReplaceAllString: `run` holds the digits that stand directly before the text. A match
-- of `\d{3,}` takes the whole run.
unfoldable pub wrap_runs : Text → Text → Text
unfolding flush
wrap_runs run [] = flush run
wrap_runs run (c ∷ s) =
    let more = wrap_runs (run ++ c ∷ []) s in
    let done = flush run ++ (c ∷ wrap_runs [] s) in if is_digit c then more else done

-- WrapDigits
unfoldable pub wrap_digits : Text → Text
unfolding escape wrap_runs
wrap_digits s = wrap_runs [] (escape s)

-- The value of the "To:" line.
unfoldable pub recipient_line : Message → Text
recipient_line msg =
    if text_eq msg.sim_name []
    then escape msg.device_name
    else if text_eq (escape msg.device_name) []
    then escape msg.sim_name
    else escape msg.device_name ++ (codes " / " ++ escape msg.sim_name)

-- FormatTelegramMessage
unfoldable pub format_telegram_message : (ℕ → Text) → Message → Text
unfolding escape wrap_digits recipient_line
format_telegram_message time msg =
    codes "<b>From:</b> "
    ++ (escape msg.address
        ++ (newline
            ++ (codes "<b>Time:</b> "
                ++ (time msg.received_at
                    ++ (newline
                        ++ ((if text_eq msg.device_name [] && text_eq msg.sim_name []
                              then []
                              else codes "<b>To:</b> " ++ (recipient_line msg ++ newline))
                            ++ (codes "<b>Text:</b> "
                                ++ (wrap_digits msg.body
                                    ++ (if text_eq msg.translation []
                                        then []
                                        else newline
                                          ++ (codes "<b>Translate:</b> "
                                              ++ wrap_digits msg.translation))))))))))

-- The request of NtfySender.Send.
pub record NtfyRequest : Type 0 where
  pub url : Text
  pub body : Text
  pub title : Text
  pub priority : Text
  pub authorization : Option Text

unfoldable pub ntfy_request : (ℕ → Text) → NtfyConfig → Message → NtfyRequest
ntfy_request time cfg msg = record {
  url = trim_right (λ c. c == b'/') cfg.server_url ++ (codes "/" ++ cfg.topic);
  body = format_message time msg;
  title = codes "SMS from " ++ msg.address;
  priority = if text_eq cfg.priority [] then codes "default" else cfg.priority;
  authorization = if text_eq cfg.token [] then none else some (codes "Bearer " ++ cfg.token);
}

-- The client of a NtfySender: what http.NewRequestWithContext says of a request, and the status code
-- that the server answers, or the error of Do.
pub record NtfyClient : Type 0 where
  pub new_request : NtfyRequest → Outcome (Unit {0})
  pub do_request : NtfyRequest → Outcome ℕ

pub record NtfySender : Type 0 where
  pub cfg : NtfyConfig
  pub client : NtfyClient

-- NewNtfySender; `default` is the client with a timeout of ten seconds.
unfoldable pub new_ntfy_sender : NtfyClient → NtfyConfig → Option NtfyClient → NtfySender
new_ntfy_sender default cfg none = record { cfg = cfg; client = default }
new_ntfy_sender default cfg (some client) = record { cfg = cfg; client = client }

-- The end of Send, behind Do.
unfoldable pub ntfy_answer : Outcome ℕ → Outcome (Unit {0})
ntfy_answer (err e) = err (codes "ntfy: request: " ++ e)
ntfy_answer (ok status) =
    if leb 400 status then err (codes "ntfy: server returned " ++ decimal status) else ok tt

-- NtfySender.Send
unfoldable pub ntfy_send : (ℕ → Text) → NtfySender → Message → Outcome (Unit {0})
unfolding ntfy_request ntfy_answer
ntfy_send time n msg =
    let request = ntfy_request time n.cfg msg in
    elim (n.client.new_request request) [
      | err e ↦ err (codes "ntfy: create request: " ++ e)
      | ok u ↦ ntfy_answer (n.client.do_request request)
    ]
