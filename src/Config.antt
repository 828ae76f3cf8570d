-- ===== src/Config.antt =====
-- mailwatch/src/mailwatch/config.py: the configuration as records, with its derived values.
-- Whole numbers may be negative; `spam_threshold` is in units of 1/10000.
pub mod Toml
pub mod Load
pub mod Daemon
pub mod Ensures
pub mod Valid
mod Tests
use ronzz_nextcloud.Prelude.{Bool, List, Option, String, if◌then◌else◌, not, str_eq}
use ronzz_nextcloud.Prelude.Int.{ℤ}

pub record TrainingConfig : Type 0 where
  pub enabled : Bool
  pub scan_interval_seconds : ℤ
  pub train_spam_on_junk_arrival : Bool
  pub train_ham_on_junk_to_inbox : Bool

pub record AutoBlockConfig : Type 0 where
  pub enabled : Bool
  pub hits_threshold : ℤ
  pub window_days : ℤ
  pub script_name : String

pub record ConnectionConfig : Type 0 where
  pub base_delay_seconds : ℤ
  pub max_delay_seconds : ℤ
  pub stop_on_auth_failure : Bool

pub record RedirectTarget : Type 0 where
  pub email : String
  pub imap_host : String
  pub imap_port : ℤ
  pub imap_use_ssl : Bool
  pub username : String
  pub destination_folder : String
  pub after_move_folder : String

pub record RedirectConfig : Type 0 where
  pub enabled : Bool
  pub source_folder : String
  pub after_move_folder : String
  pub target : Option RedirectTarget

pub record DaemonConfig : Type 0 where
  pub dry_run : Bool
  pub log_level : String
  pub feed_refresh_hours : ℤ
  pub spam_threshold : ℤ
  pub catch_up_scan_seconds : ℤ
  pub junk_folder : String
  pub training : TrainingConfig
  pub auto_block : AutoBlockConfig
  pub connection : ConnectionConfig
  pub redirect : RedirectConfig

pub record AccountConfig : Type 0 where
  pub email : String
  pub imap_host : String
  pub imap_port : ℤ
  pub imap_use_ssl : Bool
  pub username : String
  pub junk_folder : String
  pub sieve_host : String
  pub sieve_port : ℤ
  pub sieve_use_tls : Bool
  pub redirect : RedirectConfig

pub record MailwatchConfig : Type 0 where
  pub daemon : DaemonConfig
  pub accounts : List AccountConfig

-- `a or b` on texts
abbrev pub or_text : String → String → String
or_text a b = if str_eq a "" then b else a

abbrev pub imap_username : AccountConfig → String
imap_username account = or_text account.username account.email

abbrev pub resolved_junk_folder : AccountConfig → String
resolved_junk_folder account = or_text account.junk_folder "Junk"

abbrev pub has_sieve : AccountConfig → Bool
has_sieve account = not (str_eq account.sieve_host "")
