-- ===== src/Similarity/Corpora.antt =====
-- The table of the contents stands for the reports that were made, and what the checks answer
-- after them.
use ronzz_nextcloud.Prelude.{
  Bool, List, String, [], any, arith, eq_iff, false, if◌then◌else◌, str_eq, true, ℕ, ◌&&◌, ◌++◌,
  ◌+◌, ◌∷◌, ◌≡◌, Bool-cases, eq_refl, inl, inr, refl, not,
}
use ronzz_nextcloud.Domain.{extract_domain, is_space, lstrip, rstrip}
use ronzz_nextcloud.SpamDetect.Tokenize.{text_of}
use ronzz_nextcloud.Similarity.Signature.{content_hash, Hashes}
use ronzz_nextcloud.Similarity.{
  ContentHash, first_sight, is_key, update_hashes, upsert_hash, Corpus, add_spam, domain_or_empty,
  is_blank,
}

-- A call of add_spam.
pub record Added : Type 0 where
  pub at : ℕ
  pub message_uuid : String
  pub subject : String
  pub body : String
  pub account : String
  pub from_addr : String

-- The occurrence count of a key, 0 where it has no row.
unfoldable pub occurrences : String → String → String → List ContentHash → ℕ
occurrences content domain account [] = 0
occurrences content domain account (row ∷ rows) =
    if is_key content domain account row
    then row.occurrence_count
    else occurrences content domain account rows

abbrev same_key : String → String → String → String → String → String → Bool
same_key content domain account c d a = str_eq content c && (str_eq domain d && str_eq account a)

is_key_iff :
    (content domain account c d a : String) (row : ContentHash)
    → is_key content domain account row ≡ true
    → is_key c d a row ≡ same_key content domain account c d a
is_key_iff content domain account c d a row e = ground (
  arith,
  eq_iff row.content_hash content,
  eq_iff row.sender_domain domain,
  eq_iff row.account_email account,
)

other_key :
    (content domain account c d a : String) (row : ContentHash)
    → is_key content domain account row ≡ false
    → is_key c d a row ≡ true
    → same_key content domain account c d a ≡ false
other_key content domain account c d a row e k = ground (
  arith,
  eq_iff row.content_hash c,
  eq_iff row.sender_domain d,
  eq_iff row.account_email a,
  eq_iff content c,
  eq_iff domain d,
  eq_iff account a,
  eq_refl c,
  eq_refl d,
  eq_refl a,
)

-- The count of a row that the update meets, and of one that it passes.
met :
    (s m : Bool) (n r u : ℕ)
    → u ≡ r + (if m && s then 1 else 0)
    → (if s then n + 1 else u) ≡ (if s then n else r) + (if s then 1 else 0)
met true m n r u h = omega arith
met false true n r u h = omega arith
met false false n r u h = omega arith

passed :
    (k s m : Bool) (n r u : ℕ)
    → (k ≡ true → s ≡ false)
    → u ≡ r + (if m && s then 1 else 0)
    → (if k then n else u) ≡ (if k then n else r) + (if m && s then 1 else 0)
passed true true m n r u other h = absurd (cc (other refl))
passed true false true n r u other h = omega arith
passed true false false n r u other h = omega arith
passed false s true n r u other h = h
passed false s false n r u other h = h

module _ (now : ℕ) (content domain account c d a : String) where
  abbrev same : Bool
  same = same_key content domain account c d a

  occurrences-update_hashes :
      (rows : List ContentHash)
      → occurrences c d a (update_hashes now content domain account rows)
        ≡ occurrences c d a rows
          + (if any (is_key content domain account) rows && same then 1 else 0)
  unfolding occurrences update_hashes
  occurrences-update_hashes [] = omega arith
  occurrences-update_hashes (row ∷ rows) =
      let ih = occurrences-update_hashes rows in
      elim (Bool-cases (is_key content domain account row)) [
        | inl e ↦
            rw (e, is_key_iff content domain account c d a row e)
              (met same (any (is_key content domain account) rows) row.occurrence_count
                (occurrences c d a rows) _ ih)
        | inr e ↦ rw e (
            passed (is_key c d a row) same (any (is_key content domain account) rows)
              row.occurrence_count (occurrences c d a rows) _
              (other_key content domain account c d a row e) ih)
      ]

  occurrences-append :
      (subject : String) (rows : List ContentHash)
      → any (is_key content domain account) rows ≡ false
      → occurrences c d a (rows ++ first_sight now content domain account subject ∷ [])
        ≡ occurrences c d a rows + (if same then 1 else 0)
  unfolding occurrences
  occurrences-append subject [] e = ground arith
  occurrences-append subject (row ∷ rows) e =
      passed (is_key c d a row) same true row.occurrence_count (occurrences c d a rows) _
        (other_key content domain account c d a row (ground arith))
        (occurrences-append subject rows (ground arith))

  occurrences-upsert_hash :
      (subject : String) (rows : List ContentHash)
      → occurrences c d a (upsert_hash now content domain account subject rows)
        ≡ occurrences c d a rows + (if same then 1 else 0)
  unfolding upsert_hash
  occurrences-upsert_hash subject rows =
      elim (Bool-cases (any (is_key content domain account) rows)) [
        | inl e ↦ rw e (rw e at (occurrences-update_hashes rows))
        | inr e ↦ rw e (occurrences-append subject rows e)
      ]

module _ (h : Hashes) where
  unfoldable pub run_added : List Added → Corpus → Corpus
  unfolding add_spam
  run_added [] c = c
  run_added (r ∷ rs) c =
      run_added rs (add_spam h r.at r.message_uuid r.subject r.body r.account r.from_addr c)

  -- Whether a call counts for a key: the digest of a text, the domain of a sender, an account.
  unfoldable pub adds_to : String → String → String → Added → Bool
  unfolding text_of content_hash extract_domain lstrip rstrip is_space
  adds_to content domain account r =
      not (is_blank (text_of r.subject r.body))
      && same_key (content_hash h (text_of r.subject r.body))
          (domain_or_empty (extract_domain r.from_addr)) r.account content domain account

  unfoldable pub number_added : String → String → String → List Added → ℕ
  unfolding adds_to
  number_added content domain account [] = 0
  number_added content domain account (r ∷ rs) =
      (if adds_to content domain account r then 1 else 0) + number_added content domain account rs

  occurrences-add_spam :
      (r : Added) (c : Corpus) (content domain account : String)
      → occurrences content domain account
          (add_spam h r.at r.message_uuid r.subject r.body r.account r.from_addr c).hashes
        ≡ occurrences content domain account c.hashes
          + (if adds_to content domain account r then 1 else 0)
  unfolding add_spam adds_to
  occurrences-add_spam r c content domain account =
      elim (Bool-cases (is_blank (text_of r.subject r.body))) [
        | inl e ↦ rw e (omega arith)
        | inr e ↦ rw e (
            occurrences-upsert_hash r.at (content_hash h (text_of r.subject r.body))
              (domain_or_empty (extract_domain r.from_addr)) r.account content domain account
              r.subject c.hashes)
      ]

  -- After any calls of add_spam, the occurrence count of a content, a sender domain and an account
  -- is the count before, 0 for a key without a row, and the number of the calls with that key
  -- whose text is not blank: the order of the calls and the rest of the table do not matter.
  pub occurrences-run_added :
      (rs : List Added) (c : Corpus) (content domain account : String)
      → occurrences content domain account (run_added rs c).hashes
        ≡ occurrences content domain account c.hashes + number_added content domain account rs
  unfolding run_added number_added
  occurrences-run_added [] c content domain account = omega arith
  occurrences-run_added (r ∷ rs) c content domain account = omega (
    arith,
    occurrences-add_spam r c content domain account,
    occurrences-run_added rs
        (add_spam h r.at r.message_uuid r.subject r.body r.account r.from_addr c) content domain
        account,
  )
