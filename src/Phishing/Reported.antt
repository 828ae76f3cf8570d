-- ===== src/Phishing/Reported.antt =====
-- What a report of the user changes in the verdicts.
use ronzz_nextcloud.Prelude.{
  Bool, Bool-cases, List, Option, String, [], any, arith, inl, inr, none, not, refl, some, str_eq,
  ℕ, ◌&&◌, ◌||◌, ◌∷◌, ◌≡◌, eq_iff, false, true, any-append,
}
use ronzz_nextcloud.Phishing.Parse.{extract_domain, extract_urls}
use ronzz_nextcloud.Phishing.{
  BrandTable, Claim, PhishingDomain, Tables, add_domain, analyze, is_row_of, known_domain,
  report_fraudulent, set_brand, check_display_name_spoof,
}
use ronzz_nextcloud.Phishing.Verdict.{is_phishing-analyze, is_watchlisted, is_feed_link}

absorbed : (p q : Bool) → (p ≡ true → q ≡ true) → q ≡ p || q
absorbed true q h = h refl
absorbed false true h = refl
absorbed false false h = refl

or_swap : (p q : Bool) → p || (q || false) ≡ q || p
or_swap true true = refl
or_swap true false = refl
or_swap false true = refl
or_swap false false = refl

or_assoc : (p q r : Bool) → (p || q) || r ≡ p || (q || r)
or_assoc true q r = refl
or_assoc false q r = refl

and_or : (p q r : Bool) → p && (q || r) ≡ (p && q) || (p && r)
and_or true q r = refl
and_or false q r = refl

module _ (d e a b : String) where
  -- The report of a domain and account, seen from another domain and account.
  abbrev new_row : ℕ → PhishingDomain
  new_row now = record {
    domain = d;
    brand = none;
    reason = "user-reported";
    reported_at = now;
    account_email = a;
  }

  same_rows :
      (rows : List PhishingDomain)
      → any (is_row_of d a) rows ≡ true
      → (str_eq d e && str_eq a b) ≡ true
      → any (is_row_of e b) rows ≡ true
  same_rows rows k s = ground (arith, eq_iff d e, eq_iff a b)

  any-add_domain :
      (now : ℕ) (rows : List PhishingDomain)
      → any (is_row_of e b) (add_domain now d a rows)
        ≡ (str_eq d e && str_eq a b) || any (is_row_of e b) rows
  unfolding add_domain
  any-add_domain now rows = elim (Bool-cases (any (is_row_of d a) rows)) [
    | inl k ↦
        rw k (absorbed (str_eq d e && str_eq a b) (any (is_row_of e b) rows) (same_rows rows k))
    | inr k ↦
        rw (k, any-append (is_row_of e b) rows (new_row now ∷ []))
          (or_swap (any (is_row_of e b) rows) (str_eq d e && str_eq a b))
  ]

  any-set_brand :
      (c : Option Claim) (rows : List PhishingDomain)
      → any (is_row_of e b) (set_brand c d a rows) ≡ any (is_row_of e b) rows
  unfolding set_brand
  any-set_brand none rows = refl
  any-set_brand (some c) [] = refl
  any-set_brand (some c) (row ∷ rows) = elim (Bool-cases (is_row_of d a row)) [
    | inl k ↦ rw (k, any-set_brand (some c) rows) refl
    | inr k ↦ rw (k, any-set_brand (some c) rows) refl
  ]

-- Whether two messages, each with its account, are of one known domain and one account.
abbrev pub is_same_sender : String → String → String → String → Bool
is_same_sender from_addr account from_addr' account' =
    let domain = known_domain (extract_domain from_addr') in
    not (str_eq domain "" || str_eq account' "")
    && (str_eq (known_domain (extract_domain from_addr)) domain && str_eq account account')

module _ (brands : BrandTable) (now : ℕ) (from_addr account uuid : String) (t : Tables) where
  abbrev reported : Tables
  reported = report_fraudulent brands now from_addr account uuid t

  abbrev reported_domain : String
  reported_domain = known_domain (extract_domain from_addr)

  report_unknown : str_eq reported_domain "" ≡ true → reported ≡ t
  unfolding report_fraudulent
  report_unknown k = rw k refl

  report_known :
      str_eq reported_domain "" ≡ false
      → reported.phishing_domains
        ≡ set_brand
            (check_display_name_spoof brands from_addr)
            reported_domain
            account
            (add_domain now reported_domain account t.phishing_domains)
  unfolding report_fraudulent
  report_known k = rw k refl

  is_watchlisted-report_fraudulent :
      (from_addr' account' : String)
      → is_watchlisted reported.phishing_domains from_addr' account'
        ≡ is_same_sender from_addr account from_addr' account'
          || is_watchlisted t.phishing_domains from_addr' account'
  is_watchlisted-report_fraudulent from_addr' account' =
      let e = known_domain (extract_domain from_addr') in
      let known = not (str_eq e "" || str_eq account' "") in
      elim (Bool-cases (str_eq reported_domain "")) [
        | inl k ↦
            rw (report_unknown k)
              (ground (arith, eq_iff reported_domain "", eq_iff reported_domain e))
        | inr k ↦
            rw
              (
                report_known k,
                any-set_brand reported_domain e account account'
                    (check_display_name_spoof brands from_addr)
                    (add_domain now reported_domain account t.phishing_domains),
                any-add_domain reported_domain e account account' now t.phishing_domains,
              )
              (and_or known (str_eq reported_domain e && str_eq account account')
                (any (is_row_of e account') t.phishing_domains))
      ]

phishing_feeds-report_fraudulent :
    (brands : BrandTable) (now : ℕ) (from_addr account uuid : String) (t : Tables)
    → (report_fraudulent brands now from_addr account uuid t).phishing_feeds ≡ t.phishing_feeds
unfolding report_fraudulent
phishing_feeds-report_fraudulent brands now from_addr account uuid t =
    elim (Bool-cases (str_eq (known_domain (extract_domain from_addr)) "")) [
      | inl k ↦ rw k refl
      | inr k ↦ rw k refl
    ]

-- After a report, a message is phishing if it is of the reported domain and account, where both
-- are known, and else exactly if it was phishing before: the report changes no verdict of another
-- domain or account, whatever brands are known.
pub analyze-report_fraudulent :
    (brands : BrandTable) (now : ℕ) (from_addr account uuid : String) (t : Tables)
    (from_addr' subject html body account' : String)
    → (analyze brands
        (report_fraudulent brands now from_addr account uuid t)
        from_addr'
        subject
        html
        body
        account').is_phishing
      ≡ is_same_sender from_addr account from_addr' account'
        || (analyze brands t from_addr' subject html body account').is_phishing
analyze-report_fraudulent brands now from_addr account uuid t from_addr' subject html body
      account' =
    let t' = report_fraudulent brands now from_addr account uuid t in
    rw
      (
        is_phishing-analyze brands t' from_addr' subject html body account',
        is_phishing-analyze brands t from_addr' subject html body account',
        phishing_feeds-report_fraudulent brands now from_addr account uuid t,
        is_watchlisted-report_fraudulent brands now from_addr account uuid t from_addr' account',
      )
      (or_assoc (is_same_sender from_addr account from_addr' account')
        (is_watchlisted t.phishing_domains from_addr' account')
        (any (is_feed_link t.phishing_feeds) (extract_urls html)))
