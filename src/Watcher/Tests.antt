-- ===== src/Watcher/Tests.antt =====
-- The theorems on watcher.py at concrete states.
use ronzz_nextcloud.Prelude.Int.{pos}
use ronzz_nextcloud.Prelude.{some, [], false, refl, ℕ, ◌∷◌, ◌≡◌, true}
use ronzz_nextcloud.Prelude.Dict
use ronzz_nextcloud.Errors.{
  connection_error, imap_error, ok, raise, raised, try_except, try_finally, ◌>>=◌,
}
use ronzz_nextcloud.Config.{MailwatchConfig}
use ronzz_nextcloud.World.{Env, emit, get_password}
use ronzz_nextcloud.Samples.{sample_account, sample_config, sample_env, sample_world}
use ronzz_nextcloud.Backoff.{should_attempt, Uniform, consecutive_failures}
use ronzz_nextcloud.Pipeline.{process_account, process_with, Detectors}
use ronzz_nextcloud.Imap.{call, connect, login, open_conn}
use ronzz_nextcloud.Watcher.{
  on_redirect_notification, Daemon, catch_up_pass, is_held, locked, on_inbox_notification,
  on_success, acquire, attempt, catch_up_scan, guarded, on_auth_failure, on_exception, release,
  scheduled, settle,
}
use ronzz_nextcloud.Watcher.Failures.{locked_lem}
use ronzz_nextcloud.World.Writes.{written}
use ronzz_nextcloud.Watcher.DrySteps.{dry_daemon_only_reads}
use ronzz_nextcloud.Watcher.Soundness.{Reaches-IsSound}
use ronzz_nextcloud.Watcher.Stopping.{passes_stop}
use ronzz_nextcloud.Watcher.Steps.{
  redirect, IsSound, NoneHeld, Reaches, catch_up, inbox, next, start,
}

abbrev ham_detectors : Detectors
ham_detectors = record {
  bayesian = λ m a w. ok 100;
  phishing = λ m a w. ok (record { is_phishing = false; score = 0 });
  similarity = λ m a w. ok 0;
}

abbrev no_jitter : ℕ → Uniform
no_jitter n lo hi = pos 0

abbrev sample_cfg : MailwatchConfig
sample_cfg = record { daemon = sample_config; accounts = sample_account ∷ sample_account ∷ [] }

abbrev started : Daemon
started = record {
  world = sample_world;
  backoff = record {
    base_delay = 60_000_000;
    factor = 2;
    max_delay = 1_800_000_000;
    jitter_num = 1;
    jitter_den = 5;
    failures = [];
    next_attempt = [];
  };
  locks = [];
  exit_code = 0;
  stopped = false;
  calls = 0;
}

-- A server that refuses every login.
abbrev refusing_env : Env
refusing_env = record sample_env { login = λ h p u pw. raised imap_error }

locked_lem_example :
    consecutive_failures
      (locked refusing_env
        (λ n. n)
        no_jitter
        sample_cfg
        ham_detectors
        (raise {A = ℕ} connection_error)
        (on_success refusing_env (λ n. n) no_jitter sample_cfg ham_detectors)
        "me@x.org"
        started).backoff
      "me@x.org"
    ≡ 1
unfolding is_held Dict.get raise consecutive_failures
locked_lem_example =
    (locked_lem refusing_env (λ n. n) no_jitter sample_cfg ham_detectors
      (raise {A = ℕ} connection_error) "me@x.org" started refl refl).0

two_steps :
    Reaches refusing_env
      (λ n. n)
      no_jitter
      sample_cfg
      ham_detectors
      started
      (on_inbox_notification refusing_env
        (λ n. n)
        no_jitter
        sample_cfg
        ham_detectors
        "me@x.org"
        "exists"
        (catch_up_pass refusing_env
          (λ n. n)
          no_jitter
          sample_cfg
          ham_detectors
          sample_cfg.accounts
          started))
two_steps = next (next start catch_up) (inbox "me@x.org" "exists")

started-NoneHeld : NoneHeld started
unfolding is_held Dict.get
started-NoneHeld email = refl

Reaches-IsSound_example :
    let after : Daemon =
      on_inbox_notification refusing_env
        (λ n. n)
        no_jitter
        sample_cfg
        ham_detectors
        "me@x.org"
        "exists"
        (catch_up_pass refusing_env
          (λ n. n)
          no_jitter
          sample_cfg
          ham_detectors
          sample_cfg.accounts
          started) in
    IsSound after × NoneHeld after
Reaches-IsSound_example =
    Reaches-IsSound refusing_env (λ n. n) no_jitter sample_cfg ham_detectors two_steps refl
      started-NoneHeld

passes_stop_example :
    catch_up_pass refusing_env
      (λ n. n)
      no_jitter
      sample_cfg
      ham_detectors
      sample_cfg.accounts
      started
    ≡ scheduled refusing_env
        (λ n. n)
        no_jitter
        sample_cfg
        ham_detectors
        (catch_up_scan refusing_env (λ n. n) no_jitter sample_cfg ham_detectors sample_account)
        (some "pw")
        "me@x.org"
        started
unfolding scheduled attempt locked guarded settle on_exception on_auth_failure catch_up_scan acquire
    release is_held should_attempt Dict.get Dict.put process_account process_with get_password
    connect open_conn login call try_except try_finally ◌>>=◌ raise emit
passes_stop_example =
    (passes_stop refusing_env (λ n. n) no_jitter sample_cfg ham_detectors sample_account
        (sample_account ∷ []) started refl).0
      refl

abbrev dry_cfg : MailwatchConfig
dry_cfg = record sample_cfg { daemon = record sample_config { dry_run = true } }

two_dry_steps :
    Reaches sample_env
      (λ n. n)
      no_jitter
      dry_cfg
      ham_detectors
      started
      (on_redirect_notification sample_env
        (λ n. n)
        no_jitter
        dry_cfg
        ham_detectors
        "me@x.org"
        "exists"
        (catch_up_pass sample_env
          (λ n. n)
          no_jitter
          dry_cfg
          ham_detectors
          dry_cfg.accounts
          started))
two_dry_steps = next (next start catch_up) (redirect "me@x.org" "exists")

dry_daemon_only_reads_example :
    written
      (on_redirect_notification sample_env
        (λ n. n)
        no_jitter
        dry_cfg
        ham_detectors
        "me@x.org"
        "exists"
        (catch_up_pass sample_env
          (λ n. n)
          no_jitter
          dry_cfg
          ham_detectors
          dry_cfg.accounts
          started)).world.history
    ≡ []
dry_daemon_only_reads_example =
    dry_daemon_only_reads sample_env (λ n. n) no_jitter dry_cfg ham_detectors refl two_dry_steps
