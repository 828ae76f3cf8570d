-- ===== src/Watcher/Schedulers/Tests.antt =====
-- Tests of the scheduler threads, and the theorem on the feed loop at two rounds.
use ronzz_nextcloud.Prelude.{[], any, if◌then◌else◌, refl, str_eq, true, ◌||◌, ◌∷◌, ◌≡◌}
use ronzz_nextcloud.Config.{DaemonConfig}
use ronzz_nextcloud.Errors.{ok, os_error, raised}
use ronzz_nextcloud.Samples.{sample_config}
use ronzz_nextcloud.Prelude.Int.{negsuc, pos}
use ronzz_nextcloud.Phishing.Feeds.{plain}
use ronzz_nextcloud.Phishing.Verdict.{is_in_feed}
use ronzz_nextcloud.Watcher.Schedulers.{
  Feeds, Round, feed_loop, is_in_feed-feed_loop, round_offers, start_scheduler_threads,
  training_thread,
}

-- An interval of 0 for the training does not keep its thread from starting.
abbrev busy : DaemonConfig
busy = record sample_config {
  feed_refresh_hours = pos 0;
  catch_up_scan_seconds = negsuc 4;
  training = record sample_config.training { enabled = true; scan_interval_seconds = pos 0 };
}

still_trains : start_scheduler_threads busy ≡ training_thread ∷ []
unfolding start_scheduler_threads
still_trains = refl

abbrev first_round : Round
first_round = record {
  fetch =
      λ f. if str_eq f.name "openphish" then ok (plain "http://bad.example/a") else raised os_error;
  accepts = λ d. true;
  now = 5;
}

abbrev failed_round : Round
failed_round = record first_round { fetch = λ f. raised os_error }

abbrev no_feeds : Feeds
no_feeds = record { rows = []; audit = [] }

is_in_feed-feed_loop_example :
    is_in_feed (feed_loop (first_round ∷ failed_round ∷ []) no_feeds).rows "bad.example"
    ≡ any (round_offers "bad.example") (first_round ∷ failed_round ∷ [])
      || is_in_feed no_feeds.rows "bad.example"
is_in_feed-feed_loop_example =
    is_in_feed-feed_loop (first_round ∷ failed_round ∷ []) no_feeds "bad.example"
