-- ===== src/Samples.antt =====
-- An environment, an account and a world for the tests: every server accepts every command, and
-- one message is in every folder.
use ronzz_nextcloud.Prelude.Int.{pos}
use ronzz_nextcloud.Errors.{ok}
use ronzz_nextcloud.Config.{AccountConfig, RedirectTarget, TrainingConfig, DaemonConfig}
use ronzz_nextcloud.World.{Env, Message, World}
use ronzz_nextcloud.Prelude.{[], false, some, true, ◌∷◌}

abbrev pub sample_message : Message
sample_message = record {
  imap_uid = 7;
  message_id = "m1@x.org";
  from_addr = "Eve <eve@spam.org>";
  subject = "win";
  body = "click";
  html_body = "";
}

abbrev pub sample_env : Env
sample_env = record {
  open_conn = λ h p. ok tt;
  login = λ h p u pw. ok tt;
  select = λ h p f r. ok true;
  search = λ h p c. ok (some (7 ∷ []));
  move = λ h p u f. ok true;
  copy = λ h p u f. ok true;
  mark_deleted = λ h p u. ok true;
  expunge = λ h p. ok tt;
  append = λ h p f r. ok true;
  fetch_raw = λ h p u. ok (some "raw");
  fetch = λ h p us. ok (some (some sample_message ∷ []));
  fetch_ids = λ h p. ok (some ((7, "m1@x.org") ∷ []));
  sieve_connect = λ h a. ok tt;
  sieve_put_script = λ h n s. ok true;
  sieve_activate = λ h n. ok true;
  password = λ h e. some "pw";
  save_tokens = λ r. ok tt;
  clock = λ n. n;
}

abbrev pub sample_target : RedirectTarget
sample_target = record {
  email = "hi@x.org";
  imap_host = "imap.migadu.com";
  imap_port = pos 993;
  imap_use_ssl = true;
  username = "";
  destination_folder = "INBOX";
  after_move_folder = "";
}

abbrev pub sample_account : AccountConfig
sample_account = record {
  email = "me@x.org";
  imap_host = "imap.migadu.com";
  imap_port = pos 993;
  imap_use_ssl = true;
  username = "";
  junk_folder = "";
  sieve_host = "sieve.migadu.com";
  sieve_port = pos 4190;
  sieve_use_tls = true;
  redirect = record {
    enabled = true;
    source_folder = "send-to-hesk";
    after_move_folder = "";
    target = some sample_target;
  };
}

abbrev pub sample_training : TrainingConfig
sample_training = record {
  enabled = true;
  scan_interval_seconds = pos 120;
  train_spam_on_junk_arrival = true;
  train_ham_on_junk_to_inbox = true;
}

abbrev pub sample_world : World
sample_world = record {
  history = [];
  connected = λ p. false;
  readings = 0;
  audit = [];
  candidates = [];
  daemon_moves = [];
  spam_feedback = [];
  folder_states = [];
  reports = [];
}

-- The defaults of config.py, but for a threshold of two hits.
abbrev pub sample_config : DaemonConfig
sample_config = record {
  dry_run = false;
  log_level = "INFO";
  feed_refresh_hours = pos 24;
  spam_threshold = pos 9_000;
  catch_up_scan_seconds = pos 300;
  junk_folder = "Junk";
  training = sample_training;
  auto_block = record {
    enabled = true;
    hits_threshold = pos 2;
    window_days = pos 14;
    script_name = "mailwatch_blocks";
  };
  connection = record {
    base_delay_seconds = pos 60;
    max_delay_seconds = pos 1_800;
    stop_on_auth_failure = true;
  };
  redirect = sample_account.redirect;
}
