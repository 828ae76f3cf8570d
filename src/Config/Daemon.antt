-- ===== src/Config/Daemon.antt =====
-- The daemon's part of load_config of mailwatch/src/mailwatch/config.py, its checks, and the whole.
use ronzz_nextcloud.Prelude.{
  Bool, List, Option, String, [], any, false, if◌then◌else◌, none, not, some, str_eq, true, ◌&&◌,
  ◌∷◌,
}
use ronzz_nextcloud.Prelude.Int.{leb_ℤ, ltb_ℤ, pos, ℤ}
use ronzz_nextcloud.Domain.{lower}
use ronzz_nextcloud.Config.Load.{no_redirect, parse_accounts, upper}
use ronzz_nextcloud.Config.Toml.{
  Fields, Loaded, Python, Value, Values, accounts_not_a_list, array, bad_base_delay, bad_max_delay,
  bad_threshold, cons, duplicate_account, failed, get_value, is_falsy, loaded, nil, no_accounts,
  not_found, parse_bool, parse_float, parse_int, require, table_or_empty, text_field, unreadable,
  ◌>>=◌, ◌>>◌,
}
use ronzz_nextcloud.Config.{
  AccountConfig, AutoBlockConfig, ConnectionConfig, DaemonConfig, MailwatchConfig, TrainingConfig,
}

-- TrainingConfig(…). The first reading of a key is an AttributeError, if there is no table.
unfoldable pub parse_training : Python → Option Value → Loaded TrainingConfig
parse_training py value = do
  raw ← table_or_empty value
  enabled ← parse_bool (get_value raw "enabled") "daemon.training.enabled" true
  interval ←
      parse_int py (get_value raw "scan_interval_seconds") "daemon.training.scan_interval_seconds"
        (pos 120)
  arrival ←
      parse_bool (get_value raw "train_spam_on_junk_arrival")
        "daemon.training.train_spam_on_junk_arrival" true
  departure ←
      parse_bool (get_value raw "train_ham_on_junk_to_inbox")
        "daemon.training.train_ham_on_junk_to_inbox" true
  loaded (record {
    enabled = enabled;
    scan_interval_seconds = interval;
    train_spam_on_junk_arrival = arrival;
    train_ham_on_junk_to_inbox = departure;
  })

-- AutoBlockConfig(…)
unfoldable pub parse_auto_block : Python → Option Value → Loaded AutoBlockConfig
parse_auto_block py value = do
  raw ← table_or_empty value
  enabled ← parse_bool (get_value raw "enabled") "daemon.auto_block.enabled" false
  threshold ←
      parse_int py (get_value raw "hits_threshold") "daemon.auto_block.hits_threshold" (pos 3)
  window ← parse_int py (get_value raw "window_days") "daemon.auto_block.window_days" (pos 14)
  loaded (record {
    enabled = enabled;
    hits_threshold = threshold;
    window_days = window;
    script_name = text_field py raw "script_name" "mailwatch_blocks";
  })

-- ConnectionConfig(…)
unfoldable pub parse_connection : Python → Option Value → Loaded ConnectionConfig
parse_connection py value = do
  raw ← table_or_empty value
  base ←
      parse_int py (get_value raw "base_delay_seconds") "daemon.connection.base_delay_seconds"
        (pos 60)
  most ←
      parse_int py (get_value raw "max_delay_seconds") "daemon.connection.max_delay_seconds"
        (pos 1800)
  stops ←
      parse_bool (get_value raw "stop_on_auth_failure") "daemon.connection.stop_on_auth_failure"
        true
  loaded
      (record { base_delay_seconds = base; max_delay_seconds = most; stop_on_auth_failure = stops })

-- The threshold that was read; one that is infinite or no number does not pass the check.
abbrev pub threshold_or_zero : Option ℤ → ℤ
threshold_or_zero none = pos 0
threshold_or_zero (some t) = t

-- DaemonConfig(…)
unfoldable pub parse_daemon : Python → Fields → Loaded DaemonConfig
parse_daemon py raw = do
  dry_run ← parse_bool (get_value raw "dry_run") "daemon.dry_run" false
  hours ← parse_int py (get_value raw "feed_refresh_hours") "daemon.feed_refresh_hours" (pos 6)
  threshold ← parse_float py (get_value raw "spam_threshold") "daemon.spam_threshold" (pos 9000)
  seconds ←
      parse_int py (get_value raw "catch_up_scan_seconds") "daemon.catch_up_scan_seconds" (pos 300)
  training ← parse_training py (get_value raw "training")
  auto_block ← parse_auto_block py (get_value raw "auto_block")
  connection ← parse_connection py (get_value raw "connection")
  loaded (record {
    dry_run = dry_run;
    log_level = upper (text_field py raw "log_level" "INFO");
    feed_refresh_hours = hours;
    spam_threshold = threshold_or_zero threshold;
    catch_up_scan_seconds = seconds;
    junk_folder = text_field py raw "junk_folder" "Junk";
    training = training;
    auto_block = auto_block;
    connection = connection;
    redirect = no_redirect;
  })

-- The three checks, in order.
unfoldable pub check_daemon : DaemonConfig → Loaded (Unit {0})
check_daemon d = do
  require (ltb_ℤ (pos 0) d.spam_threshold && leb_ℤ d.spam_threshold (pos 10000)) bad_threshold
  require (ltb_ℤ (pos 0) d.connection.base_delay_seconds) bad_base_delay
  require (leb_ℤ d.connection.base_delay_seconds d.connection.max_delay_seconds) bad_max_delay

-- `raw.get("accounts", []) or []`, which must be a list that is not empty.
unfoldable pub account_values : Option Value → Loaded Values
account_values none = failed no_accounts
account_values (some (array nil)) = failed no_accounts
account_values (some (array (cons v vs))) = loaded (cons v vs)
account_values (some v) = if is_falsy v then failed no_accounts else failed accounts_not_a_list

-- `[a.email.lower() for a in accounts]`
unfoldable pub lower_emails : List AccountConfig → List String
unfolding lower
lower_emails [] = []
lower_emails (a ∷ accounts) = lower a.email ∷ lower_emails accounts

-- `len(set(emails)) == len(emails)`
unfoldable pub all_different : List String → Bool
all_different [] = true
all_different (e ∷ emails) = not (any (λ x. str_eq x e) emails) && all_different emails

-- load_config from the table of the whole document
unfoldable pub load_document : Python → Fields → Loaded MailwatchConfig
load_document py raw = do
  daemon_raw ← table_or_empty (get_value raw "daemon")
  daemon ← parse_daemon py daemon_raw
  check_daemon daemon
  values ← account_values (get_value raw "accounts")
  accounts ← parse_accounts py values 0
  require (all_different (lower_emails accounts)) duplicate_account
  loaded (record { daemon = daemon; accounts = accounts })

-- What is at the path: no file, a file that cannot be read or is not TOML, or a document.
pub data ConfigFile : Type 0 where
  missing broken : ConfigFile
  document : Fields → ConfigFile

-- load_config
unfoldable pub load_config : Python → ConfigFile → Loaded MailwatchConfig
load_config py missing = failed not_found
load_config py broken = failed unreadable
load_config py (document raw) = load_document py raw
