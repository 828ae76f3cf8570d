-- ===== src/Config/Tests.antt =====
-- Tests of load_config, and its theorem at a concrete document.
use ronzz_nextcloud.Prelude.{
  List, String, [], false, if◌then◌else◌, map, none, refl, some, str_eq, true, ◌∷◌, ◌≡◌,
}
use ronzz_nextcloud.Prelude.Int.{pos}
use ronzz_nextcloud.Domain.{has_at, is_space, lower, lstrip, rstrip}
use ronzz_nextcloud.Config.{MailwatchConfig, TrainingConfig}
use ronzz_nextcloud.Config.Toml.{
  Loaded, Python, Value, array, attribute, bad_threshold, cons, empty, failed, field, get_value,
  infinite, loaded, nil, number, overflow, parse_bool, parse_float, parse_int, scaled, special,
  table, text, text_field, whole, ◌>>=◌,
}
use ronzz_nextcloud.Config.Load.{
  no_redirect, parse_account, parse_accounts, parse_email, parse_fields, parse_redirect, upper,
}
use ronzz_nextcloud.Config.Daemon.{
  ConfigFile, account_values, all_different, check_daemon, document, load_config, load_document,
  lower_emails, parse_auto_block, parse_connection, parse_daemon, parse_training,
}
use ronzz_nextcloud.Config.Valid.{IsWellFormed, load_config-IsWellFormed}

-- Conversions of a few texts.
abbrev python : Python
python = record {
  int_of = λ s. if str_eq s "993" then some (pos 993) else none;
  float_of = λ s. if str_eq s "0.5" then some (number (pos 5000)) else none;
  shown = λ v. "shown";
}

abbrev account_table : String → Value
account_table email = table (field "email" (text email) (field "imap_port" (text "993") empty))

abbrev with_daemon : Value → ConfigFile
with_daemon d =
    document
      (field "daemon" d (field "accounts" (array (cons (account_table " Me@x.org ") nil)) empty))

abbrev loaded_email : Loaded MailwatchConfig → List String
loaded_email (loaded c) = map (λ a. a.email) c.accounts
loaded_email (failed e) = []

loads :
    loaded_email
      (load_config python (with_daemon (table (field "spam_threshold" (text "0.5") empty))))
    ≡ "Me@x.org" ∷ []
unfolding load_config load_document parse_daemon parse_training parse_auto_block parse_connection
    check_daemon parse_accounts parse_account parse_email parse_fields parse_redirect parse_int
    parse_bool parse_float account_values get_value text_field ◌>>=◌ all_different lower_emails
    lower has_at lstrip rstrip is_space
loads = refl

-- A value that is no table leaves load_config by an AttributeError.
no_table : load_config python (with_daemon (text "x")) ≡ failed attribute
unfolding load_config load_document get_value ◌>>=◌
no_table = refl

zero_threshold :
    load_config python (with_daemon (table (field "spam_threshold" (whole (pos 0)) empty)))
    ≡ failed bad_threshold
unfolding load_config load_document parse_daemon parse_training parse_auto_block parse_connection
    check_daemon parse_int parse_bool parse_float scaled get_value ◌>>=◌
zero_threshold = refl

infinite_port :
    parse_int python (some (special infinite)) "daemon.feed_refresh_hours" (pos 6) ≡ failed overflow
unfolding parse_int
infinite_port = refl

abbrev training_default : TrainingConfig
training_default = record {
  enabled = true;
  scan_interval_seconds = pos 120;
  train_spam_on_junk_arrival = true;
  train_ham_on_junk_to_inbox = true;
}

abbrev the_config : MailwatchConfig
the_config = record {
  daemon = record {
    dry_run = false;
    log_level = "INFO";
    feed_refresh_hours = pos 6;
    spam_threshold = pos 9000;
    catch_up_scan_seconds = pos 300;
    junk_folder = "Junk";
    training = training_default;
    auto_block = record {
      enabled = false;
      hits_threshold = pos 3;
      window_days = pos 14;
      script_name = "mailwatch_blocks";
    };
    connection = record {
      base_delay_seconds = pos 60;
      max_delay_seconds = pos 1800;
      stop_on_auth_failure = true;
    };
    redirect = no_redirect;
  };
  accounts =
      record {
        email = "Me@x.org";
        imap_host = "imap.migadu.com";
        imap_port = pos 993;
        imap_use_ssl = true;
        username = "";
        junk_folder = "";
        sieve_host = "";
        sieve_port = pos 4190;
        sieve_use_tls = true;
        redirect = no_redirect;
      }
      ∷ [];
}

load_config-IsWellFormed_example : IsWellFormed the_config
unfolding load_config load_document parse_daemon parse_training parse_auto_block parse_connection
    check_daemon parse_accounts parse_account parse_email parse_fields parse_redirect parse_int
    parse_bool parse_float account_values get_value text_field ◌>>=◌ all_different lower_emails
    lower has_at lstrip rstrip is_space upper
load_config-IsWellFormed_example =
    load_config-IsWellFormed python (with_daemon (table empty)) the_config refl
