-- ===== src/Pipeline/Tests.antt =====
-- The theorems on pipeline.py at a concrete scan.
use ronzz_nextcloud.Pipeline.Detection.{Knowledge, detectors, is_spam-classify, similarity_score}
use ronzz_nextcloud.Phishing.Verdict.{is_watchlisted, is_feed_link}
use ronzz_nextcloud.Phishing.Parse.{extract_urls}
use ronzz_nextcloud.Prelude.{[], arith, false, refl, true, ◌∷◌, ◌≡◌, any, leb, ◌||◌}
use ronzz_nextcloud.Errors.{ok}
use ronzz_nextcloud.Config.{DaemonConfig}
use ronzz_nextcloud.Samples.{
  sample_account, sample_config, sample_env, sample_message, sample_world,
}
use ronzz_nextcloud.World.{World, source, Message}
use ronzz_nextcloud.Pipeline.Recorded.{Grows, IsCovered, HasRow}
use ronzz_nextcloud.SieveBlock.Hits.{hits}
use ronzz_nextcloud.Pipeline.{
  Detectors, process_account, register_offender, ClassificationResult, classify,
}
use ronzz_nextcloud.Pipeline.Guard.{SameMail, dry_run_changes_no_mail, moves_are_recorded}
use ronzz_nextcloud.Pipeline.Decision.{disconnected-process_account}
use ronzz_nextcloud.Pipeline.Offenders.{is_listed-register_offender}
use ronzz_nextcloud.SieveBlock.{find, is_listed, list_blocked, new_row}

abbrev spam_detectors : Detectors
spam_detectors = record {
  bayesian = λ m a w. ok 9_500;
  phishing = λ m a w. ok (record { is_phishing = false; score = 0 });
  similarity = λ m a w. ok 0;
}

abbrev dry_config : DaemonConfig
dry_config = record sample_config { dry_run = true }

dry_run_changes_no_mail_example :
    SameMail sample_world
      (process_account sample_env dry_config sample_account spam_detectors "INBOX" sample_world).1
dry_run_changes_no_mail_example =
    dry_run_changes_no_mail sample_env dry_config sample_account spam_detectors "INBOX" sample_world
      refl

moves_are_recorded_example :
    let after : World =
      (process_account sample_env sample_config sample_account spam_detectors "INBOX"
        sample_world).1 in
    Grows (IsCovered (HasRow "me@x.org" after.daemon_moves after.history)) [] after.history
moves_are_recorded_example =
    moves_are_recorded sample_env sample_config sample_account spam_detectors "INBOX" sample_world

disconnected-process_account_example :
    (process_account sample_env sample_config sample_account spam_detectors "INBOX"
        sample_world).1.connected
      source
    ≡ false
disconnected-process_account_example =
    disconnected-process_account sample_env sample_config sample_account spam_detectors "INBOX"
      sample_world refl

-- The sender's second hit.
abbrev second_world : World
second_world = record sample_world { candidates = new_row 0 "me@x.org" "spam.org" ∷ [] }

is_listed-register_offender_example :
    is_listed "me@x.org" "spam.org"
      (register_offender sample_env sample_config sample_account true "spam.org"
        second_world).1.candidates
    ≡ true
unfolding is_listed list_blocked hits find
is_listed-register_offender_example =
    is_listed-register_offender sample_env sample_config sample_account "spam.org" second_world 14
      true "me@x.org" "spam.org" refl (omega arith)

abbrev knowledge : Knowledge
knowledge = record {
  brands = [];
  tables = record {
    phishing_domains = [];
    phishing_feeds = record { domain = "evil.example"; source = "openphish"; last_seen = 1 } ∷ [];
    spam_feedback = [];
  };
  corpus = record { signatures = []; hashes = [] };
  digests = record { md5_word = λ s. 7; sha256 = λ s. s };
}

abbrev linked : Message
linked = record sample_message { html_body = "<a href=\"https://evil.example/\">" }

is_spam-classify_example :
    (r : ClassificationResult) × (classify sample_env sample_config sample_account
        (detectors (λ m a w. ok 5_000) knowledge)
        linked
        sample_world
      ≡ (ok r, sample_world))
    × (r.is_spam ≡ (
        leb 9_000 5_000
        || leb 9_000 (similarity_score (λ m a w. ok 5_000) knowledge linked "me@x.org")
        || (is_watchlisted knowledge.tables.phishing_domains linked.from_addr "me@x.org"
            || any (is_feed_link knowledge.tables.phishing_feeds) (extract_urls linked.html_body))))
is_spam-classify_example =
    is_spam-classify (λ m a w. ok 5_000) knowledge sample_env sample_config sample_account linked
      sample_world 5_000 9_000 refl refl
