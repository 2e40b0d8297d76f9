-- ===== src/Config/Load.antt =====
-- config/config.go, Load. Package viper is a parameter: its operations, and the documented laws that
-- Load relies on.
use abb_app.Base.{Bool, true, false, List, [], ◌∷◌, ◌++◌}
use abb_app.Base.Text.{Text, codes}
use abb_app.Base.Assoc.{Assoc}
use abb_app.Base.Int.{ℤ, pos}
use abb_app.Db.Session.{Outcome, ok, err}
use abb_app.Config.{Config, ModemLabel}

-- What Load calls of viper. `Value` is an `interface{}`, and a cast is what a Get makes of one or of a
-- key that has none.
pub record Viper : Type 1 where
  pub Settings : Type 0
  pub Value : Type 0
  pub text : Text → Value
  pub int : ℤ → Value
  pub flag : Bool → Value
  pub texts : List Text → Value
  pub new : Settings
  pub set_config_file : Text → Settings → Settings
  pub set_default : Text → Value → Settings → Settings
  pub read_in_config : Settings → Outcome Settings
  pub get_string : Text → Settings → Text
  pub get_int : Text → Settings → ℤ
  pub get_int64 : Text → Settings → ℤ
  pub get_bool : Text → Settings → Bool
  pub get_duration : Text → Settings → ℤ
  pub get_string_slice : Text → Settings → List Text
  pub unmarshal_labels : Text → Settings → Outcome (List ModemLabel)

-- The getters, for one state of viper.
pub record Getters : Type 0 where
  pub string : Text → Text
  pub int : Text → ℤ
  pub int64 : Text → ℤ
  pub bool : Text → Bool
  pub duration : Text → ℤ
  pub string_slice : Text → List Text

-- The Config that Load returns.
unfoldable pub config_of : Getters → List ModemLabel → Config
config_of g labels = record {
  adb = record {
    server_host = g.string (codes "adb.server_host");
    server_port = g.int (codes "adb.server_port");
    poll_interval = g.duration (codes "adb.poll_interval");
    watch_interval = g.duration (codes "adb.watch_interval");
    device_serial = g.string (codes "adb.device_serial");
    sim_country_code = g.string (codes "adb.sim_country_code");
  };
  modem = record {
    enabled = g.bool (codes "modem.enabled");
    usb_ids = g.string_slice (codes "modem.usb_ids");
    watch_interval = g.duration (codes "modem.watch_interval");
    poll_interval = g.duration (codes "modem.poll_interval");
    storage = g.string (codes "modem.storage");
    delete_after_read = g.bool (codes "modem.delete_after_read");
    labels = labels;
  };
  db = record { path = g.string (codes "db.path") };
  telegram = record {
    token = g.string (codes "telegram.token");
    chat_id = g.int64 (codes "telegram.chat_id");
    proxy = record {
      enabled = g.bool (codes "telegram.proxy.enabled");
      address = g.string (codes "telegram.proxy.address");
      username = g.string (codes "telegram.proxy.username");
      password = g.string (codes "telegram.proxy.password");
    };
  };
  email = record {
    enabled = g.bool (codes "email.enabled");
    host = g.string (codes "email.host");
    port = g.int (codes "email.port");
    username = g.string (codes "email.username");
    password = g.string (codes "email.password");
    from = g.string (codes "email.from");
    to = g.string (codes "email.to");
  };
  ntfy = record {
    enabled = g.bool (codes "ntfy.enabled");
    server_url = g.string (codes "ntfy.server_url");
    topic = g.string (codes "ntfy.topic");
    token = g.string (codes "ntfy.token");
    priority = g.string (codes "ntfy.priority");
  };
  dispatcher = record {
    max_attempts = g.int (codes "dispatcher.max_attempts");
    retry_base_interval = g.duration (codes "dispatcher.retry_base_interval");
    dispatch_interval = g.duration (codes "dispatcher.dispatch_interval");
  };
  metrics = record {
    enabled = g.bool (codes "metrics.enabled");
    addr = g.string (codes "metrics.addr");
  };
  log = record {
    file = g.string (codes "log.file");
    max_size_mb = g.int (codes "log.max_size_mb");
    max_age_days = g.int (codes "log.max_age_days");
    compress = g.bool (codes "log.compress");
  };
  translate = record {
    enabled = g.bool (codes "translate.enabled");
    api_key = g.string (codes "translate.api_key");
    folder_id = g.string (codes "translate.folder_id");
    target_lang = g.string (codes "translate.target_lang");
  };
  channels = g.string_slice (codes "channels");
}

abbrev pub wrap_labels_error : Text → Text
wrap_labels_error e = codes "modem.labels: " ++ e

-- Load from the answer of UnmarshalKey on.
unfoldable pub assemble : Getters → Outcome (List ModemLabel) → Outcome Config
unfolding config_of
assemble g (err e) = err (wrap_labels_error e)
assemble g (ok labels) = ok (config_of g labels)

module _ (v : Viper) where
  -- The calls of SetDefault, in their order.
  abbrev pub defaults : Assoc v.Value
  defaults =
      (codes "adb.server_host", v.text (codes "localhost"))
      ∷ (codes "adb.server_port", v.int (pos 5037))
      ∷ (codes "adb.poll_interval", v.text (codes "30s"))
      ∷ (codes "adb.watch_interval", v.text (codes "5s"))
      ∷ (codes "modem.enabled", v.flag false)
      ∷ (codes "modem.usb_ids", v.texts (codes "1e0e:9011" ∷ codes "1e0e:9001" ∷ []))
      ∷ (codes "modem.watch_interval", v.text (codes "10s"))
      ∷ (codes "modem.poll_interval", v.text (codes "30s"))
      ∷ (codes "modem.storage", v.text (codes "SM"))
      ∷ (codes "modem.delete_after_read", v.flag true)
      ∷ (codes "db.path", v.text (codes "./abb.db"))
      ∷ (codes "dispatcher.max_attempts", v.int (pos 5))
      ∷ (codes "dispatcher.retry_base_interval", v.text (codes "1m"))
      ∷ (codes "dispatcher.dispatch_interval", v.text (codes "10s"))
      ∷ (codes "email.enabled", v.flag false)
      ∷ (codes "email.port", v.int (pos 587))
      ∷ (codes "translate.enabled", v.flag false)
      ∷ (codes "translate.target_lang", v.text (codes "ru"))
      ∷ (codes "ntfy.enabled", v.flag false)
      ∷ (codes "ntfy.priority", v.text (codes "default"))
      ∷ (codes "metrics.enabled", v.flag false)
      ∷ (codes "metrics.addr", v.text (codes ":9090"))
      ∷ (codes "log.max_size_mb", v.int (pos 100))
      ∷ (codes "log.max_age_days", v.int (pos 7))
      ∷ (codes "log.compress", v.flag true)
      ∷ []

  unfoldable pub set_defaults : Assoc v.Value → v.Settings → v.Settings
  set_defaults [] s = s
  set_defaults ((k, x) ∷ ds) s = set_defaults ds (v.set_default k x s)

  abbrev pub getters : v.Settings → Getters
  getters s = record {
    string = λ k. v.get_string k s;
    int = λ k. v.get_int k s;
    int64 = λ k. v.get_int64 k s;
    bool = λ k. v.get_bool k s;
    duration = λ k. v.get_duration k s;
    string_slice = λ k. v.get_string_slice k s;
  }

  unfoldable pub load_from : v.Settings → Outcome Config
  unfolding assemble
  load_from s = elim (v.read_in_config s) [
    | err e ↦ err e
    | ok t ↦ assemble (getters t) (v.unmarshal_labels (codes "modem.labels") t)
  ]

  unfoldable pub load : Text → Outcome Config
  unfolding set_defaults load_from
  load path = load_from (set_defaults defaults (v.set_config_file path v.new))
