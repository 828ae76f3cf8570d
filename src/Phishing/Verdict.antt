-- ===== src/Phishing/Verdict.antt =====
-- What decides that a message is phishing, and what a report of the user changes.
use ronzz_nextcloud.Prelude.{
  Bool, List, Option, String, [], any, arith, false, none, not, refl, some, str_eq, true, ◌&&◌,
  ◌||◌, ◌∷◌, ◌≡◌, Bool-cases, eq_iff, inl, inr,
}
use ronzz_nextcloud.Phishing.Parse.{extract_domain, extract_urls}
use ronzz_nextcloud.Phishing.{
  Claim, FeedRow, PhishingDomain, brand_signal, check_feeds, feed_signal, feed_source,
  find_reported, heuristics, is_row_of, known_domain, link_source, spoof_signal, Analysis,
  BrandTable, Tables, add_match, analyze, check_watchlist, check_brand_mismatch,
  check_display_name_spoof, listed, or_else,
}

-- Whether the account has reported the sender's domain.
abbrev pub is_watchlisted : List PhishingDomain → String → String → Bool
is_watchlisted rows from_addr account =
    let domain = known_domain (extract_domain from_addr) in
    not (str_eq domain "" || str_eq account "") && any (is_row_of domain account) rows

-- Whether a domain is in a feed.
abbrev pub is_in_feed : List FeedRow → String → Bool
is_in_feed feeds domain = any (λ r. str_eq r.domain domain) feeds

-- Whether a link has a domain that is in a feed.
abbrev pub is_feed_link : List FeedRow → String → Bool
is_feed_link feeds url =
    let domain = known_domain (extract_domain url) in
    not (str_eq domain "") && is_in_feed feeds domain

found : Option PhishingDomain → Bool
found none = false
found (some r) = true

has_source : Option String → Bool
has_source none = false
has_source (some r) = true

found-find_reported :
    (domain account : String) (rows : List PhishingDomain)
    → found (find_reported domain account rows) ≡ any (is_row_of domain account) rows
unfolding found find_reported
found-find_reported domain account [] = refl
found-find_reported domain account (row ∷ rows) =
    ground (arith, found-find_reported domain account rows)

has_source-feed_source :
    (domain : String) (rows : List FeedRow)
    → has_source (feed_source domain rows) ≡ is_in_feed rows domain
unfolding has_source feed_source
has_source-feed_source domain [] = refl
has_source-feed_source domain (row ∷ rows) = ground (arith, has_source-feed_source domain rows)

has_source-link_source :
    (feeds : List FeedRow) (domain : Option String)
    → has_source (link_source feeds domain)
      ≡ not (str_eq (known_domain domain) "") && is_in_feed feeds (known_domain domain)
unfolding link_source has_source
has_source-link_source feeds none = ground (arith, eq_iff "" "")
has_source-link_source feeds (some domain) = elim (Bool-cases (str_eq domain "")) [
  | inl e ↦ rw e refl
  | inr e ↦ rw e (has_source-feed_source domain feeds)
]

is_empty : List (String × String) → Bool
is_empty [] = true
is_empty (m ∷ ms) = false

is_empty-add_match :
    (url : String) (source : Option String) (ms : List (String × String))
    → is_empty (add_match url source ms) ≡ not (has_source source) && is_empty ms
unfolding is_empty has_source
is_empty-add_match url none ms = refl
is_empty-add_match url (some s) ms = refl

is_empty-check_feeds :
    (feeds : List FeedRow) (urls : List String)
    → is_empty (check_feeds feeds urls) ≡ not (any (is_feed_link feeds) urls)
unfolding check_feeds
is_empty-check_feeds feeds [] = unfold is_empty in refl
is_empty-check_feeds feeds (url ∷ urls) =
    let source = link_source feeds (extract_domain url) in
    ground (
      arith,
      is_empty-add_match url source (check_feeds feeds urls),
      has_source-link_source feeds (extract_domain url),
      is_empty-check_feeds feeds urls,
    )

is_phishing-heuristics :
    (spoof brand : Option Claim) (ms : List (String × String))
    → (heuristics (spoof_signal spoof) (brand_signal spoof brand) (feed_signal ms)).is_phishing
      ≡ not (is_empty ms)
unfolding heuristics spoof_signal brand_signal feed_signal is_empty
is_phishing-heuristics none none [] = refl
is_phishing-heuristics none (some b) [] = refl
is_phishing-heuristics (some s) none [] = refl
is_phishing-heuristics (some s) (some b) [] = refl
is_phishing-heuristics none none (m ∷ ms) = refl
is_phishing-heuristics none (some b) (m ∷ ms) = refl
is_phishing-heuristics (some s) none (m ∷ ms) = refl
is_phishing-heuristics (some s) (some b) (m ∷ ms) = refl

is_phishing-listed :
    (domain : String) (row : Option PhishingDomain) (other : Analysis)
    → (or_else (listed domain row) other).is_phishing ≡ found row || other.is_phishing
unfolding found
is_phishing-listed domain none other = refl
is_phishing-listed domain (some r) other = refl

watchlist_lem :
    (t : Tables) (from_addr account : String) (other : Analysis)
    → (or_else (check_watchlist t from_addr account) other).is_phishing
      ≡ is_watchlisted t.phishing_domains from_addr account || other.is_phishing
unfolding check_watchlist
watchlist_lem t from_addr account other =
    let domain = known_domain (extract_domain from_addr) in
    elim (Bool-cases (str_eq domain "" || str_eq account "")) [
      | inl e ↦ rw e refl
      | inr e ↦
          rw
            (
              e,
              is_phishing-listed domain (find_reported domain account t.phishing_domains) other,
              found-find_reported domain account t.phishing_domains,
            )
            refl
    ]

-- A message is phishing exactly if its sender's domain was reported by the account or one of its
-- links has a domain in a feed: the display name and the brands that it mentions add to the score
-- and to the reasons, but never decide.
pub is_phishing-analyze :
    (brands : BrandTable) (t : Tables) (from_addr subject html body account : String)
    → (analyze brands t from_addr subject html body account).is_phishing
      ≡ is_watchlisted t.phishing_domains from_addr account
        || any (is_feed_link t.phishing_feeds) (extract_urls html)
unfolding analyze
is_phishing-analyze brands t from_addr subject html body account =
    let spoof = check_display_name_spoof brands from_addr in
    let brand = check_brand_mismatch brands from_addr subject body in
    let matched = check_feeds t.phishing_feeds (extract_urls html) in
    ground (
      arith,
      watchlist_lem t from_addr account
          (heuristics (spoof_signal spoof) (brand_signal spoof brand) (feed_signal matched)),
      is_phishing-heuristics spoof brand matched,
      is_empty-check_feeds t.phishing_feeds (extract_urls html),
    )
