-- ===== src/Watcher/Schedulers.antt =====
-- mailwatch/src/mailwatch/watcher.py: which scheduler threads are started, and the loop over the
-- feeds with refresh_phishing_feeds of pipeline.py.
mod Tests
use ronzz_nextcloud.Prelude.{
  Bool, List, String, [], any, arith, if◌then◌else◌, refl, ℕ, ◌++◌, ◌||◌, ◌∷◌, ◌≡◌,
}
use ronzz_nextcloud.Config.{DaemonConfig}
use ronzz_nextcloud.Prelude.Int.{ltb_ℤ, pos}
use ronzz_nextcloud.Phishing.{FeedRow}
use ronzz_nextcloud.Phishing.Feeds.{Feed, FeedText, feeds, update_all}
use ronzz_nextcloud.Phishing.Verdict.{is_in_feed}
use ronzz_nextcloud.Phishing.Updates.{answer_offers, is_in_feed-update_feeds}
use ronzz_nextcloud.Errors.{Result}
use ronzz_nextcloud.World.{Audit, feed_update}

pub data Scheduler : Type 0 where
  catch_up_thread training_thread feed_thread : Scheduler

abbrev pub started : Bool → Scheduler → List Scheduler
started b s = if b then s ∷ [] else []

-- `_start_scheduler_threads`
unfoldable pub start_scheduler_threads : DaemonConfig → List Scheduler
start_scheduler_threads cfg =
    started (ltb_ℤ (pos 0) cfg.catch_up_scan_seconds) catch_up_thread
    ++ started cfg.training.enabled training_thread
    ++ started (ltb_ℤ (pos 0) cfg.feed_refresh_hours) feed_thread

-- What one round of the feeds depends on: what the requests give, which inserts succeed, the time.
pub record Round : Type 0 where
  pub fetch : Feed → Result FeedText
  pub accepts : String → Bool
  pub now : ℕ

-- The rows of the feeds and the audit log.
pub record Feeds : Type 0 where
  pub rows : List FeedRow
  pub audit : List Audit

-- refresh_phishing_feeds
unfoldable pub refresh_phishing_feeds : Round → Feeds → Feeds
unfolding update_all
refresh_phishing_feeds r f =
    let update = update_all r.fetch r.accepts r.now f.rows in
    record { rows = update.1; audit = feed_update update.0 ∷ f.audit }

-- `_feed_loop`: the rounds until the daemon stops. A refresh that raises would be left out.
unfoldable pub feed_loop : List Round → Feeds → Feeds
unfolding refresh_phishing_feeds
feed_loop [] f = f
feed_loop (r ∷ rounds) f = feed_loop rounds (refresh_phishing_feeds r f)

-- A round offers a domain: one of its feeds was read and has it, and the insert succeeds.
abbrev pub round_offers : String → Round → Bool
round_offers e r = any (λ f. answer_offers r.accepts (r.fetch f) e) feeds

is_in_feed-refresh_phishing_feeds :
    (r : Round) (f : Feeds) (e : String)
    → is_in_feed (refresh_phishing_feeds r f).rows e ≡ round_offers e r || is_in_feed f.rows e
unfolding refresh_phishing_feeds update_all
is_in_feed-refresh_phishing_feeds r f e =
    is_in_feed-update_feeds r.fetch r.accepts r.now feeds f.rows e

-- After any rounds of the feed loop the table of the feeds has a domain exactly if it was there or
-- one of the rounds offered it: a round that fails takes nothing away, and no domain ever leaves.
pub is_in_feed-feed_loop :
    (rounds : List Round) (f : Feeds) (e : String)
    → is_in_feed (feed_loop rounds f).rows e ≡ any (round_offers e) rounds || is_in_feed f.rows e
unfolding feed_loop
is_in_feed-feed_loop [] f e = refl
is_in_feed-feed_loop (r ∷ rounds) f e = ground (
  arith,
  is_in_feed-refresh_phishing_feeds r f e,
  is_in_feed-feed_loop rounds (refresh_phishing_feeds r f) e,
)
