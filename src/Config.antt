-- ===== src/Config.antt =====
-- config/config.go: the structs of the configuration.
-- A duration is a number of nanoseconds, which a configuration file can make negative.
pub mod Load
use abb_app.Base.{Bool, List}
use abb_app.Base.Text.{Text}
use abb_app.Base.Int.{ℤ}

pub record DbConfig : Type 0 where
  pub path : Text

pub record AdbConfig : Type 0 where
  pub server_host : Text
  pub server_port : ℤ
  pub poll_interval : ℤ
  pub watch_interval : ℤ
  pub device_serial : Text
  pub sim_country_code : Text

pub record ModemLabel : Type 0 where
  pub imei : Text
  pub iccid : Text
  pub name : Text

pub record ModemConfig : Type 0 where
  pub enabled : Bool
  pub usb_ids : List Text
  pub watch_interval : ℤ
  pub poll_interval : ℤ
  pub storage : Text
  pub delete_after_read : Bool
  pub labels : List ModemLabel

pub record ProxyConfig : Type 0 where
  pub enabled : Bool
  pub address : Text
  pub username : Text
  pub password : Text

pub record TelegramConfig : Type 0 where
  pub token : Text
  pub chat_id : ℤ
  pub proxy : ProxyConfig

pub record EmailConfig : Type 0 where
  pub enabled : Bool
  pub host : Text
  pub port : ℤ
  pub username : Text
  pub password : Text
  pub from : Text
  pub to : Text

pub record TranslateConfig : Type 0 where
  pub enabled : Bool
  pub api_key : Text
  pub folder_id : Text
  pub target_lang : Text

pub record NtfyConfig : Type 0 where
  pub enabled : Bool
  pub server_url : Text
  pub topic : Text
  pub token : Text
  pub priority : Text

pub record MetricsConfig : Type 0 where
  pub enabled : Bool
  pub addr : Text

pub record LogConfig : Type 0 where
  pub file : Text
  pub max_size_mb : ℤ
  pub max_age_days : ℤ
  pub compress : Bool

pub record DispatcherConfig : Type 0 where
  pub max_attempts : ℤ
  pub retry_base_interval : ℤ
  pub dispatch_interval : ℤ

pub record Config : Type 0 where
  pub adb : AdbConfig
  pub modem : ModemConfig
  pub db : DbConfig
  pub telegram : TelegramConfig
  pub email : EmailConfig
  pub ntfy : NtfyConfig
  pub dispatcher : DispatcherConfig
  pub metrics : MetricsConfig
  pub log : LogConfig
  pub translate : TranslateConfig
  pub channels : List Text
