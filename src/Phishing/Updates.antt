-- ===== src/Phishing/Updates.antt =====
-- What an update of the feeds leaves in the table.
use ronzz_nextcloud.Prelude.{
  Bool, List, String, [], any, arith, eq_iff, false, refl, str_eq, ℕ, ◌&&◌, ◌||◌, ◌∷◌, ◌≡◌,
  Bool-cases, inl, inr, any-append,
}
use ronzz_nextcloud.Errors.{Result, ok, raised}
use ronzz_nextcloud.Phishing.{FeedRow}
use ronzz_nextcloud.Phishing.Feeds.{
  Feed, FeedText, feed_domains, process_answer, process_feed, put_row, store_domains, update_feeds,
  without_row,
}
use ronzz_nextcloud.Phishing.Verdict.{is_in_feed}
use ronzz_nextcloud.SpamDetect.Counts.{any-unique}
use ronzz_nextcloud.SpamDetect.{unique}

is_in_feed-without_row :
    (d e source : String) (rows : List FeedRow)
    → str_eq d e || is_in_feed (without_row d source rows) e ≡ str_eq d e || is_in_feed rows e
unfolding without_row
is_in_feed-without_row d e source [] = refl
is_in_feed-without_row d e source (row ∷ rows) = ground (
  arith,
  eq_iff row.domain d,
  eq_iff row.domain e,
  eq_iff d e,
  is_in_feed-without_row d e source rows,
)

abbrev stored : ℕ → String → String → FeedRow
stored now source d = record { domain = d; source = source; last_seen = now }

is_in_feed-put_row :
    (now : ℕ) (source d e : String) (rows : List FeedRow)
    → is_in_feed (put_row now source d rows) e ≡ str_eq d e || is_in_feed rows e
unfolding put_row
is_in_feed-put_row now source d e rows =
    let rest = without_row d source rows in
    rw (any-append (λ r. str_eq r.domain e) rest (stored now source d ∷ []))
      (ground (arith, is_in_feed-without_row d e source rows))

-- Whether a feed names a domain that the database accepts.
abbrev pub offers : (String → Bool) → List String → String → Bool
offers accepts ds e = accepts e && any (λ d. str_eq d e) ds

is_in_feed-store_domains :
    (accepts : String → Bool) (now : ℕ) (source e : String) (ds : List String) (rows : List FeedRow)
    → is_in_feed (store_domains accepts now source ds rows).1 e
      ≡ offers accepts ds e || is_in_feed rows e
unfolding store_domains
is_in_feed-store_domains accepts now source e [] rows = ground arith
is_in_feed-store_domains accepts now source e (d ∷ ds) rows = elim (Bool-cases (accepts d)) [
  | inl k ↦ rw k (
      ground (
        arith,
        eq_iff d e,
        is_in_feed-put_row now source d e rows,
        is_in_feed-store_domains accepts now source e ds (put_row now source d rows),
      ))
  | inr k ↦ rw k (ground (arith, eq_iff d e, is_in_feed-store_domains accepts now source e ds rows))
]

abbrev pub answer_offers : (String → Bool) → Result FeedText → String → Bool
answer_offers accepts (ok text) e = offers accepts (feed_domains text) e
answer_offers accepts (raised x) e = false

is_in_feed-process_answer :
    (accepts : String → Bool) (now : ℕ) (source e : String) (r : Result FeedText)
    (rows : List FeedRow)
    → is_in_feed (process_answer accepts now source r rows).1 e
      ≡ answer_offers accepts r e || is_in_feed rows e
unfolding process_feed
is_in_feed-process_answer accepts now source e (raised x) rows = refl
is_in_feed-process_answer accepts now source e (ok text) rows =
    rw (← any-unique e (feed_domains text))
      (is_in_feed-store_domains accepts now source e (unique (feed_domains text)) rows)

-- After an update a domain is in the feeds exactly if it was there before, or if a feed that was
-- downloaded names it and the database accepts it: a feed that fails, or cannot be read, takes
-- nothing away and does not stop the others.
pub is_in_feed-update_feeds :
    (fetch : Feed → Result FeedText) (accepts : String → Bool) (now : ℕ) (fs : List Feed)
    (rows : List FeedRow) (e : String)
    → is_in_feed (update_feeds fetch accepts now fs rows).1 e
      ≡ any (λ f. answer_offers accepts (fetch f) e) fs || is_in_feed rows e
unfolding update_feeds
is_in_feed-update_feeds fetch accepts now [] rows e = refl
is_in_feed-update_feeds fetch accepts now (f ∷ fs) rows e =
    let one = process_answer accepts now f.name (fetch f) rows in
    ground (
      arith,
      is_in_feed-process_answer accepts now f.name e (fetch f) rows,
      is_in_feed-update_feeds fetch accepts now fs one.1 e,
    )
