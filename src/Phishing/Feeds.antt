-- ===== src/Phishing/Feeds.antt =====
-- PhishingFeedUpdater of mailwatch/src/mailwatch/email/filters/phishing.py. What the libraries read
-- from a feed, by httpx, csv and json, is what the update is given; a row that the database refuses
-- is skipped.
use ronzz_nextcloud.Prelude.{
  Bool, List, Option, String, [], if◌then◌else◌, leb, none, not, some, str_eq, ℕ, ◌&&◌, ◌++◌, ◌+◌,
  ◌==◌, ◌||◌, ◌∷◌,
}
use ronzz_nextcloud.Errors.{Result, ok, raised}
use ronzz_nextcloud.Prelude.Text.{begins}
use ronzz_nextcloud.Domain.{is_space, lstrip, rstrip, strip}
use ronzz_nextcloud.SpamDetect.{unique}
use ronzz_nextcloud.Phishing.Parse.{extract_domain}
use ronzz_nextcloud.Phishing.{FeedRow}
use Prim.Native.Char.{code}

-- An entry of a JSON feed: something else than an object, or the text of its field `url`, "" without.
pub data JsonEntry : Type 0 where
  other : JsonEntry
  object : String → JsonEntry

-- A feed by its format: rows of fields, a JSON document, or lines of text.
pub data FeedText : Type 0 where
  csv : List (List String) → FeedText
  invalid_json not_a_list : FeedText
  json : List JsonEntry → FeedText
  plain : String → FeedText

-- `not url.startswith("#")`, where the text is not empty.
abbrev pub is_entry : String → Bool
is_entry url = not (str_eq url "") && not (begins "#" url)

-- The domain of an entry, if there is one, before the others.
abbrev pub add_known : Option String → List String → List String
add_known none ds = ds
add_known (some d) ds = if str_eq d "" then ds else d ∷ ds

abbrev pub second_field : List String → Option String
second_field (x ∷ (url ∷ rest)) = some url
second_field _ = none

abbrev pub csv_url : Option String → List String → List String
csv_url none ds = ds
csv_url (some field) ds =
    let url = strip is_space field in if is_entry url then add_known (extract_domain url) ds else ds

unfoldable pub csv_domains : List (List String) → List String
csv_domains [] = []
csv_domains (row ∷ rows) = csv_url (second_field row) (csv_domains rows)

abbrev pub json_url : JsonEntry → List String → List String
json_url other ds = ds
json_url (object field) ds =
    let url = strip is_space field in
    if str_eq url "" then ds else add_known (extract_domain url) ds

unfoldable pub json_domains : List JsonEntry → List String
json_domains [] = []
json_domains (entry ∷ entries) = json_url entry (json_domains entries)

-- Where `splitlines` breaks a text; a carriage return with its line feed gives one empty line more,
-- which is passed over.
abbrev pub is_line_break : ℕ → Bool
is_line_break c =
    (leb 10 c && leb c 13) || (leb 28 c && leb c 30) || c == 0x85 || c == 0x2028 || c == 0x2029

-- The line that a text begins with, and the lines behind it.
unfoldable pub lines_from : String → String × List String
lines_from String.[] = ("", [])
lines_from (String.◌∷◌ c s) =
    let r = lines_from s in
    if is_line_break (code c) then ("", r.0 ∷ r.1) else (String.◌∷◌ c r.0, r.1)

abbrev pub plain_line : String → List String → List String
plain_line raw ds =
    let line = strip is_space raw in
    if is_entry line then add_known (extract_domain line) ds else ds

unfoldable pub plain_domains : List String → List String
plain_domains [] = []
plain_domains (line ∷ lines) = plain_line line (plain_domains lines)

-- The domains that a feed names.
unfoldable pub feed_domains : FeedText → List String
unfolding csv_domains json_domains lines_from plain_domains is_space lstrip rstrip
feed_domains (csv rows) = csv_domains rows
feed_domains invalid_json = []
feed_domains not_a_list = []
feed_domains (json entries) = json_domains entries
feed_domains (plain text) = plain_domains ((lines_from text).0 ∷ (lines_from text).1)

-- `INSERT OR REPLACE INTO phishing_feeds`, by domain and source
abbrev pub is_feed_row : String → String → FeedRow → Bool
is_feed_row domain source row = str_eq row.domain domain && str_eq row.source source

unfoldable pub without_row : String → String → List FeedRow → List FeedRow
without_row domain source [] = []
without_row domain source (row ∷ rows) =
    let rest = without_row domain source rows in
    if is_feed_row domain source row then rest else row ∷ rest

unfoldable pub put_row : ℕ → String → String → List FeedRow → List FeedRow
unfolding without_row
put_row now source domain rows =
    without_row domain source rows
    ++ record { domain = domain; source = source; last_seen = now } ∷ []

-- The loop over the set of domains: the table and the count of rows that were written.
unfoldable pub store_domains :
    (String → Bool) → ℕ → String → List String → List FeedRow → ℕ × List FeedRow
unfolding put_row
store_domains accepts now source [] rows = (0, rows)
store_domains accepts now source (d ∷ ds) rows =
    let r =
      store_domains accepts now source ds (if accepts d then put_row now source d rows else rows) in
    ((if accepts d then 1 else 0) + r.0, r.1)

-- _process_feed
unfoldable pub process_feed :
    (String → Bool) → ℕ → String → FeedText → List FeedRow → ℕ × List FeedRow
unfolding feed_domains store_domains unique
process_feed accepts now source text rows =
    store_domains accepts now source (unique (feed_domains text)) rows

pub record Feed : Type 0 where
  pub name : String
  pub url : String
  pub format : String

-- FEEDS
abbrev pub feeds : List Feed
feeds =
    record { name = "openphish"; url = "https://openphish.com/feed.txt"; format = "plain" }
    ∷ record {
      name = "phishtank";
      url = "https://data.phishtank.com/data/online-valid.csv";
      format = "csv";
    }
    ∷ record {
      name = "phishstats";
      url = "https://api.phishstats.info/api/phishing?_sort=-id&_size=20000";
      format = "json";
    }
    ∷ []

abbrev pub process_answer :
    (String → Bool) → ℕ → String → Result FeedText → List FeedRow → ℕ × List FeedRow
process_answer accepts now source (ok text) rows = process_feed accepts now source text rows
process_answer accepts now source (raised e) rows = (0, rows)

-- The loop of update_all. A feed's answer is an exception or what the feed holds in its format.
unfoldable pub update_feeds :
    (Feed → Result FeedText)
    → (String → Bool)
    → ℕ
    → List Feed
    → List FeedRow
    → List (String × ℕ) × List FeedRow
unfolding process_feed
update_feeds fetch accepts now [] rows = ([], rows)
update_feeds fetch accepts now (f ∷ fs) rows =
    let one = process_answer accepts now f.name (fetch f) rows in
    let rest = update_feeds fetch accepts now fs one.1 in ((f.name, one.0) ∷ rest.0, rest.1)

-- update_all
unfoldable pub update_all :
    (Feed → Result FeedText) → (String → Bool) → ℕ → List FeedRow → List (String × ℕ) × List FeedRow
unfolding update_feeds
update_all fetch accepts now rows = update_feeds fetch accepts now feeds rows
