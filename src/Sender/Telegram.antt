-- ===== src/Sender/Telegram.antt =====
-- internal/sender/telegram.go: making a TelegramSender and sending with it. The bot API, the SOCKS5
-- dialler and package net/http are parameters.
use abb_app.Base.{ℕ, Option, none, some, [], ◌++◌, not, if◌then◌else◌}
use abb_app.Base.Text.{Text, codes, text_eq}
use abb_app.Base.Int.{ℤ}
use abb_app.Model.{Message}
use abb_app.Config.{ProxyConfig}
use abb_app.Db.Session.{Outcome, ok, err}
use abb_app.Sender.Format.{format_telegram_message}

-- proxy.Auth
pub record ProxyAuth : Type 0 where
  pub user : Text
  pub password : Text

-- The fields of tgbotapi.MessageConfig that Send sets.
pub record BotMessage : Type 0 where
  pub chat_id : ℤ
  pub text : Text
  pub parse_mode : Text

-- What the sender calls of its libraries.
pub record TelegramLibraries : Type 1 where
  pub Client : Type 0
  pub Dialer : Type 0
  pub Bot : Type 0
  pub default_client : Client
  pub socks5 : Text → Text → Option ProxyAuth → Outcome Dialer
  pub client_over : Dialer → Client
  pub new_bot : Text → Text → Client → Outcome Bot
  pub bot_send : Bot → BotMessage → Outcome (Unit {0})
  pub api_endpoint : Text
  pub mode_html : Text

module _ (l : TelegramLibraries) where
  pub record TelegramSender : Type 0 where
    pub bot : l.Bot
    pub chat_id : ℤ

  abbrev auth_of : ProxyConfig → Option ProxyAuth
  auth_of cfg =
      if text_eq cfg.username []
      then none
      else some (record { user = cfg.username; password = cfg.password })

  -- BuildHTTPClient
  unfoldable pub build_http_client : ProxyConfig → Outcome l.Client
  build_http_client cfg =
      if not cfg.enabled
      then ok l.default_client
      else elim (l.socks5 (codes "tcp") cfg.address (auth_of cfg)) [
        | err e ↦ err (codes "socks5 dialer " ++ (cfg.address ++ (codes ": " ++ e)))
        | ok dialer ↦ ok (l.client_over dialer)
      ]

  -- NewTelegramSender
  unfoldable pub new_telegram_sender : Text → ℤ → ProxyConfig → Outcome TelegramSender
  unfolding build_http_client
  new_telegram_sender token chat_id proxy = elim (build_http_client proxy) [
    | err e ↦ err (codes "build http client: " ++ e)
    | ok client ↦ elim (l.new_bot token l.api_endpoint client) [
      | err e ↦ err (codes "telegram getMe: " ++ e)
      | ok bot ↦ ok (record { bot = bot; chat_id = chat_id })
    ]
  ]

  -- TelegramSender.Send, with how package time prints a time.
  unfoldable pub telegram_send : (ℕ → Text) → TelegramSender → Message → Outcome (Unit {0})
  unfolding format_telegram_message
  telegram_send time t msg = l.bot_send t.bot (record {
    chat_id = t.chat_id;
    text = format_telegram_message time msg;
    parse_mode = l.mode_html;
  })
