-- ===== src/Similarity/Reports.antt =====
-- What check_similarity and check_repeated answer after messages were added.
use ronzz_nextcloud.Domain.{extract_domain}
use ronzz_nextcloud.SpamDetect.Tokenize.{text_of, tokenize}
use ronzz_nextcloud.Similarity.Sets.{has, jaccard_self, minhash_signature_same}
use ronzz_nextcloud.Prelude.{
  All, List, String, [], arith, eq_iff, none, refl, some, true, ℕ, ◌++◌, ◌<◌, ◌∷◌, ◌≡◌, ◌≢◌, ◌≤◌,
  Bool-cases, inl, inr, str_eq, ◌||◌, false, length, suc, take,
}
use ronzz_nextcloud.Similarity.Signature.{
  jaccard_from_bytes, num_perm, Hashes, content_hash, make_shingles,
}
use ronzz_nextcloud.Similarity.{
  ContentHash, SpamSignature, without_uuid, Corpus, add_spam, domain_or_empty, is_blank,
  signature_of,
}
use ronzz_nextcloud.Similarity.Check.{
  best_of, harassment, judge_rows, newest_first, of_account, of_content, same_sender_max,
  check_repeated, check_similarity, verdict,
}
use ronzz_nextcloud.Similarity.Corpora.{
  occurrences, Added, number_added, occurrences-run_added, run_added,
}

-- Every row of a table is older than a time.
abbrev pub AreOlder : ℕ → List SpamSignature → Type 0
AreOlder t = All (λ r. r.created_at < t)

newest_first-append :
    (row : SpamSignature) (rows : List SpamSignature)
    → AreOlder row.created_at rows
    → newest_first (rows ++ row ∷ []) ≡ row ∷ newest_first rows
unfolding newest_first
newest_first-append row [] o = refl
newest_first-append row (r ∷ rows) o = rw (newest_first-append row rows o.1) (ground arith)

of_account-append :
    (account : String) (row : SpamSignature) (rows : List SpamSignature)
    → row.account_email ≡ account
    → of_account account (rows ++ row ∷ []) ≡ of_account account rows ++ row ∷ []
unfolding of_account
of_account-append account row [] e = ground (arith, eq_iff row.account_email account)
of_account-append account row (r ∷ rows) e = ground (arith, of_account-append account row rows e)

AreOlder-of_account :
    (t : ℕ) (account : String) (rows : List SpamSignature)
    → AreOlder t rows
    → AreOlder t (of_account account rows)
unfolding of_account
AreOlder-of_account t account [] o = tt
AreOlder-of_account t account (r ∷ rows) o =
    elim (Bool-cases (str_eq account "" || str_eq r.account_email account)) [
      | inl e ↦ rw e (o.0, AreOlder-of_account t account rows o.1)
      | inr e ↦ rw e (AreOlder-of_account t account rows o.1)
    ]

AreOlder-without_uuid :
    (t : ℕ) (uuid : String) (rows : List SpamSignature)
    → AreOlder t rows
    → AreOlder t (without_uuid uuid rows)
unfolding without_uuid
AreOlder-without_uuid t uuid [] o = tt
AreOlder-without_uuid t uuid (r ∷ rows) o = elim (Bool-cases (str_eq r.message_uuid uuid)) [
  | inl e ↦ rw e (AreOlder-without_uuid t uuid rows o.1)
  | inr e ↦ rw e (o.0, AreOlder-without_uuid t uuid rows o.1)
]

-- The same signature as the first row is the whole answer.
best_of_same :
    (query : List ℕ) (row : SpamSignature) (rows : List SpamSignature)
    → jaccard_from_bytes query row.signature ≡ some num_perm
    → best_of query (row ∷ rows) (0, none) ≡ (num_perm, some row.message_uuid)
unfolding best_of
best_of_same query row rows e = rw e refl

-- A harassing row is found behind the filter.
harassment-of_content :
    (content domain account : String) (rows : List ContentHash)
    → same_sender_max ≤ occurrences content domain account rows
    → harassment domain (of_content content account rows) ≢ none
unfolding harassment of_content occurrences
harassment-of_content content domain account [] m = absurd (omega arith)
harassment-of_content content domain account (row ∷ rows) m =
    ground (arith, harassment-of_content content domain account rows)

judge_rows_repeated :
    (domain : String) (rows : List ContentHash)
    → domain ≢ ""
    → harassment domain rows ≢ none
    → (judge_rows domain rows).is_repeated ≡ true
unfolding judge_rows harassment
judge_rows_repeated domain [] d m = absurd (m refl)
judge_rows_repeated domain (row ∷ rows) d m = ground (arith, eq_iff domain "")

check_similarity_lem :
    (h : Hashes) (subject body account : String) (limit : ℕ) (c : Corpus)
    → is_blank (text_of subject body) ≡ false
    → check_similarity h subject body account limit c
      ≡ verdict (
          best_of
            (signature_of h (text_of subject body))
            (take limit (newest_first (of_account account c.signatures)))
            (0, none))
unfolding check_similarity
check_similarity_lem h subject body account limit c e = rw e refl

verdict_same :
    (uuid : String)
    → verdict (num_perm, some uuid) ≡ record {
      score = 10000;
      matched_uuid = some uuid;
      is_near_duplicate = true;
      is_similar = true;
    }
unfolding verdict
verdict_same uuid = refl

same_signature :
    (h : Hashes) (t u : String)
    → ((s : String) → has (make_shingles (tokenize t)) s ≡ has (make_shingles (tokenize u)) s)
    → jaccard_from_bytes (signature_of h t) (signature_of h u) ≡ some num_perm
unfolding signature_of
same_signature h t u m =
    rw (minhash_signature_same h (make_shingles (tokenize t)) (make_shingles (tokenize u)) m)
      (jaccard_self h (make_shingles (tokenize u)))

module _ (h : Hashes) (r : Added) (c : Corpus) where
  abbrev added : Corpus
  added = add_spam h r.at r.message_uuid r.subject r.body r.account r.from_addr c

  abbrev text : String
  text = text_of r.subject r.body

  abbrev new_row : SpamSignature
  new_row = record {
    message_uuid = r.message_uuid;
    account_email = r.account;
    signature = signature_of h text;
    content_hash = content_hash h text;
    num_tokens = length (tokenize text);
    created_at = r.at;
  }

  signatures-add_spam :
      is_blank text ≡ false
      → added.signatures ≡ without_uuid r.message_uuid c.signatures ++ new_row ∷ []
  unfolding add_spam
  signatures-add_spam e = rw e refl

  -- A message with the same shingles as one that was just reported, for the same account, is its
  -- near-duplicate with the score 1, if neither text is blank, the reported row is the newest and
  -- the limit is not 0: word order and repetition count only as far as the pairs of words do.
  pub check_similarity-add_spam :
      (subject body : String) (limit : ℕ)
      → AreOlder r.at c.signatures
      → is_blank text ≡ false
      → is_blank (text_of subject body) ≡ false
      → ((s : String)
          → has (make_shingles (tokenize (text_of subject body))) s
            ≡ has (make_shingles (tokenize text)) s)
      → check_similarity h subject body r.account (suc limit) added ≡ record {
        score = 10000;
        matched_uuid = some r.message_uuid;
        is_near_duplicate = true;
        is_similar = true;
      }
  check_similarity-add_spam subject body limit o e e' m =
      let kept = without_uuid r.message_uuid c.signatures in
      let older = AreOlder-without_uuid r.at r.message_uuid c.signatures o in
      rw
        (
          check_similarity_lem h subject body r.account (suc limit) added e',
          signatures-add_spam e,
          of_account-append r.account new_row kept refl,
          newest_first-append new_row (of_account r.account kept)
              (AreOlder-of_account r.at r.account kept older),
          best_of_same (signature_of h (text_of subject body)) new_row
              (take limit (newest_first (of_account r.account kept)))
              (same_signature h (text_of subject body) text m),
        )
        (verdict_same r.message_uuid)

not_empty : (s : String) → s ≢ "" → str_eq s "" ≡ false
not_empty s h = ground (arith, eq_iff s "")

-- A content that a sender was reported for three times or more is repeated, whatever else was
-- reported before and between, for a sender with a domain and an account.
pub check_repeated-run_added :
    (h : Hashes) (rs : List Added) (c : Corpus) (subject body from_addr account : String)
    → is_blank (text_of subject body) ≡ false
    → account ≢ ""
    → domain_or_empty (extract_domain from_addr) ≢ ""
    → same_sender_max
      ≤ number_added h
          (content_hash h (text_of subject body))
          (domain_or_empty (extract_domain from_addr))
          account
          rs
    → (check_repeated h subject body from_addr account (run_added h rs c)).is_repeated ≡ true
unfolding check_repeated
check_repeated-run_added h rs c subject body from_addr account e a d m =
    let content = content_hash h (text_of subject body) in
    let domain = domain_or_empty (extract_domain from_addr) in
    let rows = (run_added h rs c).hashes in
    rw (e, not_empty account a)
      (judge_rows_repeated domain (of_content content account rows) d (
        harassment-of_content content domain account rows
          (omega (arith, occurrences-run_added h rs c content domain account))))
