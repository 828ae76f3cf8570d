-- ===== src/Phishing/Tests.antt =====
-- Tests of the phishing detector, and the theorems on it at concrete inputs.
use ronzz_nextcloud.Prelude.{
  String, [], any, false, if◌then◌else◌, refl, some, str_eq, true, ◌||◌, ◌∷◌, ◌≡◌,
}
use ronzz_nextcloud.Errors.{Result, ok, os_error, raised}
use ronzz_nextcloud.Phishing.{BrandTable, Tables, analyze, domain_matches, report_fraudulent}
use ronzz_nextcloud.Phishing.Parse.{extract_domain, extract_urls}
use ronzz_nextcloud.Phishing.Brands.{load_brands}
use ronzz_nextcloud.Phishing.Verdict.{is_feed_link, is_phishing-analyze, is_watchlisted}
use ronzz_nextcloud.Phishing.Reported.{analyze-report_fraudulent, is_same_sender}
use ronzz_nextcloud.Phishing.Feeds.{
  Feed, FeedText, csv, feed_domains, invalid_json, plain, update_all,
}

abbrev brand_table : BrandTable
unfolding load_brands
brand_table = load_brands (some (("amex", "amex.com" ∷ []) ∷ ("acme", "acme.org" ∷ []) ∷ []))

abbrev tables : Tables
tables = record {
  phishing_domains = [];
  phishing_feeds = record { domain = "evil.example"; source = "openphish"; last_seen = 1 } ∷ [];
  spam_feedback = [];
}

abbrev spoofed : String
spoofed = "\"PayPal Support\" <help@pay.example>"

subdomain : domain_matches "mail.paypal.com" "paypal.com" ≡ true
unfolding domain_matches
subdomain = refl

lookalike : domain_matches "evilpaypal.com" "paypal.com" ≡ false
unfolding domain_matches
lookalike = refl

-- A spoofed display name scores 0.4, which is no phishing.
spoof : analyze brand_table tables spoofed "hello" "" "paypal" "me@x.org" ≡ record {
  is_phishing = false;
  score = 4000;
  reasons = "Display name says 'paypal' but sent from pay.example" ∷ [];
  severity = "low";
}
unfolding analyze extract_domain load_brands
spoof = refl

mentioned :
    analyze brand_table tables "eve@acme.net" "Your ACME bill"
      "<a href=\"http://x.org\"><a href=\"https://Evil.Example/pay\">" "" "me@x.org"
    ≡ record {
      is_phishing = true;
      score = 10000;
      reasons =
          "Mentions 'acme' but sent from acme.net" ∷ "URL matches known phishing feed (1 link)"
          ∷ [];
      severity = "critical";
    }
unfolding analyze extract_domain load_brands
mentioned = refl

abbrev reported_tables : Tables
unfolding report_fraudulent extract_domain load_brands
reported_tables = report_fraudulent brand_table 9 spoofed "me@x.org" "m1" tables

reported_answer :
    (analyze brand_table reported_tables "x@Pay.example" "" "" "" "me@x.org").reasons
    ≡ "Previously reported phishing domainpay.example impersonating 'paypal'" ∷ []
unfolding analyze reported_tables report_fraudulent extract_domain load_brands
reported_answer = refl

is_phishing-analyze_example :
    (analyze brand_table tables spoofed "s" "<a href=\"//evil.example\">" "b"
      "me@x.org").is_phishing
    ≡ is_watchlisted tables.phishing_domains spoofed "me@x.org"
      || any (is_feed_link tables.phishing_feeds) (extract_urls "<a href=\"//evil.example\">")
is_phishing-analyze_example =
    is_phishing-analyze brand_table tables spoofed "s" "<a href=\"//evil.example\">" "b" "me@x.org"

analyze-report_fraudulent_example :
    (analyze brand_table
      (report_fraudulent brand_table 9 spoofed "me@x.org" "m1" tables)
      "x@pay.example"
      "s"
      ""
      "b"
      "me@x.org").is_phishing
    ≡ is_same_sender spoofed "me@x.org" "x@pay.example" "me@x.org"
      || (analyze brand_table tables "x@pay.example" "s" "" "b" "me@x.org").is_phishing
analyze-report_fraudulent_example =
    analyze-report_fraudulent brand_table 9 spoofed "me@x.org" "m1" tables "x@pay.example" "s" ""
      "b" "me@x.org"

-- The first feed fails, the second has one domain twice, and the third is not JSON.
abbrev answers : Feed → Result FeedText
answers f =
    if str_eq f.format "plain"
    then raised os_error
    else if str_eq f.format "csv"
    then ok (
        csv (
          ("id" ∷ "url" ∷ [])
          ∷ ("1" ∷ "http://bad.example/a" ∷ [])
          ∷ ("2" ∷ " http://bad.example/b" ∷ [])
          ∷ ("3" ∷ [])
          ∷ []))
    else ok invalid_json

updated : update_all answers (λ d. true) 5 tables.phishing_feeds ≡ (
  ("openphish", 0) ∷ ("phishtank", 1) ∷ ("phishstats", 0) ∷ [],
  record { domain = "evil.example"; source = "openphish"; last_seen = 1 }
      ∷ record { domain = "bad.example"; source = "phishtank"; last_seen = 5 }
      ∷ [],
)
unfolding update_all extract_domain
updated = refl

plain_feed : feed_domains (plain "# list\r\nhttp://a.example/x\n\nb.example\n") ≡ "a.example" ∷ []
unfolding feed_domains extract_domain
plain_feed = refl
