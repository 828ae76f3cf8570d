-- ===== src/Phishing.antt =====
-- PhishingDetector of mailwatch/src/mailwatch/email/filters/phishing.py, with its tables of db.py.
-- Scores are in units of 1/10000.
use ronzz_nextcloud.World.{Feedback}
use ronzz_nextcloud.Prelude.{
  Bool, List, Option, String, [], any, if◌then◌else◌, leb, length, ltb, min, none, not, some,
  str_eq, true, ℕ, ◌&&◌, ◌++◌, ◌+◌, ◌||◌, ◌∷◌,
}
use ronzz_nextcloud.Prelude.Dict.{Dict}
use ronzz_nextcloud.Prelude.Decimal.{decimal}
use ronzz_nextcloud.Prelude.Text.{contains, ends}
use ronzz_nextcloud.Domain.{address, lower}
pub mod Parse
pub mod Brands
pub mod Verdict
pub mod Reported
pub mod Feeds
pub mod Updates
mod Tests
use Prim.Native.String.{◌++◌ as cat}
use ronzz_nextcloud.Phishing.Parse.{extract_domain, extract_urls, parse_from_header}

-- Rows of phishing_domains, by domain and account, and of phishing_feeds, by domain and source.
pub record PhishingDomain : Type 0 where
  pub domain : String
  pub brand : Option String
  pub reason : String
  pub reported_at : ℕ
  pub account_email : String

pub record FeedRow : Type 0 where
  pub domain : String
  pub source : String
  pub last_seen : ℕ

pub record Tables : Type 0 where
  pub phishing_domains : List PhishingDomain
  pub phishing_feeds : List FeedRow
  pub spam_feedback : List Feedback

-- `{brand: domains}`
abbrev pub BrandTable : Type 0
BrandTable = Dict (List String)

-- What `analyze` returns.
pub record Analysis : Type 0 where
  pub is_phishing : Bool
  pub score : ℕ
  pub reasons : List String
  pub severity : String

-- A brand that a message claims, and the domain it comes from.
pub record Claim : Type 0 where
  pub claimed_brand : String
  pub actual_domain : String

-- _domain_matches
unfoldable pub domain_matches : String → String → Bool
domain_matches actual canonical = str_eq actual canonical || ends (cat "." canonical) actual

abbrev pub is_genuine : String → List String → Bool
is_genuine domain domains = any (domain_matches domain) domains

-- The first brand that is named in the text while the domain is not one of its own.
unfoldable pub find_spoofed : BrandTable → String → String → Option Claim
unfolding lower domain_matches
find_spoofed [] name domain = none
find_spoofed ((brand, domains) ∷ brands) name domain =
    if contains (lower brand) (lower name) && not (is_genuine domain domains)
    then some (record { claimed_brand = brand; actual_domain = domain })
    else find_spoofed brands name domain

-- _check_display_name_spoof
unfoldable pub check_display_name_spoof : BrandTable → String → Option Claim
unfolding parse_from_header find_spoofed
check_display_name_spoof brands from_addr =
    let (name, address) = parse_from_header from_addr in
    if str_eq name "" || str_eq address "" then none else elim (extract_domain address) [
      | none ↦ none
      | some domain ↦ if str_eq domain "" then none else find_spoofed brands name domain
    ]

abbrev pub is_brand_domain : BrandTable → String → Bool
is_brand_domain brands domain = any (λ b. is_genuine domain (b.1)) brands

-- The first brand that is named in a text in lower case.
unfoldable pub find_named : BrandTable → String → String → Option Claim
unfolding lower
find_named [] text domain = none
find_named ((brand, domains) ∷ brands) text domain =
    if contains (lower brand) text
    then some (record { claimed_brand = brand; actual_domain = domain })
    else find_named brands text domain

-- _check_brand_mismatch
unfoldable pub check_brand_mismatch : BrandTable → String → String → String → Option Claim
unfolding find_named domain_matches lower
check_brand_mismatch brands from_addr subject body = elim (extract_domain from_addr) [
  | none ↦ none
  | some domain ↦
      if str_eq domain "" || is_brand_domain brands domain
      then none
      else find_named brands (lower (cat subject (cat " " body))) domain
]

-- `SELECT source FROM phishing_feeds WHERE domain = ?`
unfoldable pub feed_source : String → List FeedRow → Option String
feed_source domain [] = none
feed_source domain (row ∷ rows) =
    if str_eq row.domain domain then some row.source else feed_source domain rows

-- The source of a link's domain, if it has a domain.
unfoldable pub link_source : List FeedRow → Option String → Option String
unfolding feed_source
link_source feeds none = none
link_source feeds (some domain) = if str_eq domain "" then none else feed_source domain feeds

abbrev pub add_match : String → Option String → List (String × String) → List (String × String)
add_match url none matches = matches
add_match url (some source) matches = (url, source) ∷ matches

-- _check_feeds: the links with their sources.
unfoldable pub check_feeds : List FeedRow → List String → List (String × String)
unfolding link_source
check_feeds feeds [] = []
check_feeds feeds (url ∷ urls) =
    add_match url (link_source feeds (extract_domain url)) (check_feeds feeds urls)

-- `SELECT brand FROM phishing_domains WHERE domain = ? AND account_email = ?`
abbrev pub is_row_of : String → String → PhishingDomain → Bool
is_row_of domain account row = str_eq row.domain domain && str_eq row.account_email account

unfoldable pub find_reported : String → String → List PhishingDomain → Option PhishingDomain
find_reported domain account [] = none
find_reported domain account (row ∷ rows) =
    if is_row_of domain account row then some row else find_reported domain account rows

-- `_extract_domain(...)`, where no domain and an empty one are the same.
abbrev pub known_domain : Option String → String
known_domain none = ""
known_domain (some d) = d

abbrev pub brand_info : Option String → String
brand_info none = ""
brand_info (some b) = if str_eq b "" then "" else cat " impersonating '" (cat b "'")

abbrev pub listed : String → Option PhishingDomain → Option Analysis
listed domain none = none
listed domain (some row) = some (record {
  is_phishing = true;
  score = 10000;
  reasons = cat "Previously reported phishing domain" (cat domain (brand_info row.brand)) ∷ [];
  severity = "critical";
})

-- _check_watchlist; `none` where its answer is not phishing, and no account is "".
unfoldable pub check_watchlist : Tables → String → String → Option Analysis
unfolding find_reported
check_watchlist t from_addr account =
    let domain = known_domain (extract_domain from_addr) in
    if str_eq domain "" || str_eq account ""
    then none
    else listed domain (find_reported domain account t.phishing_domains)

-- _classify_severity
unfoldable pub classify_severity : ℕ → String
classify_severity score =
    if leb 9000 score
    then "critical"
    else (if leb 7000 score
        then "high"
        else (if leb 5000 score then "medium" else if leb 3000 score then "low" else "none"))

-- The points and the reason of each of the three signals.
abbrev pub Signal : Type 0
Signal = ℕ × List String

unfoldable pub spoof_signal : Option Claim → Signal
spoof_signal none = (0, [])
spoof_signal (some c) = (
  4000,
  cat "Display name says '" (cat c.claimed_brand (cat "' but sent from " c.actual_domain)) ∷ [],
)

unfoldable pub brand_signal : Option Claim → Option Claim → Signal
brand_signal none (some c) =
    (3000, cat "Mentions '" (cat c.claimed_brand (cat "' but sent from " c.actual_domain)) ∷ [])
brand_signal _ _ = (0, [])

unfoldable pub feed_signal : List (String × String) → Signal
unfolding decimal
feed_signal [] = (0, [])
feed_signal (m ∷ ms) =
    let n = length (m ∷ ms) in
    (
      9000,
      cat "URL matches known phishing feed ("
            (cat (decimal n) (if ltb 1 n then " links)" else " link)"))
          ∷ [],
    )

-- The answer of the heuristics.
unfoldable pub heuristics : Signal → Signal → Signal → Analysis
unfolding classify_severity
heuristics spoof brand feed =
    let score = min (spoof.0 + brand.0 + feed.0) 10000 in
    record {
      is_phishing = leb 5000 score;
      score = score;
      reasons = spoof.1 ++ (brand.1 ++ feed.1);
      severity = classify_severity score;
    }

-- The watchlist overrides the heuristics.
abbrev pub or_else : Option Analysis → Analysis → Analysis
or_else none answer = answer
or_else (some a) answer = a

-- analyze
unfoldable pub analyze : BrandTable → Tables → String → String → String → String → String → Analysis
unfolding check_watchlist check_display_name_spoof check_brand_mismatch check_feeds extract_urls
    heuristics spoof_signal brand_signal feed_signal
analyze brands t from_addr subject html body account =
    let spoof = check_display_name_spoof brands from_addr in
    let brand = check_brand_mismatch brands from_addr subject body in
    let answer =
      heuristics (spoof_signal spoof) (brand_signal spoof brand)
        (feed_signal (check_feeds t.phishing_feeds (extract_urls html))) in
    or_else (check_watchlist t from_addr account) answer

-- `INSERT OR IGNORE INTO phishing_domains`
unfoldable pub add_domain : ℕ → String → String → List PhishingDomain → List PhishingDomain
add_domain now domain account rows =
    if any (is_row_of domain account) rows
    then rows
    else rows
      ++ record {
        domain = domain;
        brand = none;
        reason = "user-reported";
        reported_at = now;
        account_email = account;
      }
        ∷ []

-- `UPDATE phishing_domains SET brand = ?`, if there is a brand to set.
unfoldable pub set_brand :
    Option Claim → String → String → List PhishingDomain → List PhishingDomain
set_brand none domain account rows = rows
set_brand (some c) domain account [] = []
set_brand (some c) domain account (row ∷ rows) =
    (if is_row_of domain account row then record row { brand = some c.claimed_brand } else row)
    ∷ set_brand (some c) domain account rows

-- `INSERT INTO spam_feedback`, where there is a UUID.
unfoldable pub log_fraud : String → String → List Feedback → List Feedback
log_fraud uuid account rows =
    if str_eq uuid ""
    then rows
    else rows
      ++ record {
        message_uuid = uuid;
        account_email = account;
        feedback = "fraud";
        source = "manual";
      }
        ∷ []

-- report_fraudulent
unfoldable pub report_fraudulent : BrandTable → ℕ → String → String → String → Tables → Tables
unfolding check_display_name_spoof add_domain set_brand log_fraud
report_fraudulent brands now from_addr account uuid t =
    let domain = known_domain (extract_domain from_addr) in
    if str_eq domain "" then t else record t {
      phishing_domains =
          set_brand (check_display_name_spoof brands from_addr) domain account
            (add_domain now domain account t.phishing_domains);
      spam_feedback = log_fraud uuid account t.spam_feedback;
    }
