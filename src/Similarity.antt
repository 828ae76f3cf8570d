-- ===== src/Similarity.antt =====
-- SpamSimilarityDetector of mailwatch/src/mailwatch/email/filters/spam_similarity.py, with its two
-- tables of db.py. The digests of hashlib are a parameter; times are in microseconds, similarities
-- are counts of equal entries out of 128, and a score is in units of 1/10000.
use ronzz_nextcloud.Prelude.{
  Bool, List, Option, String, [], any, if◌then◌else◌, length, none, some, str_eq, ℕ, ◌&&◌, ◌++◌,
  ◌+◌, ◌∷◌,
}
pub mod Signature
pub mod Sets
pub mod Check
pub mod Corpora
pub mod Reports
mod Tests
use ronzz_nextcloud.Similarity.Signature.{content_hash, Hashes, make_shingles, minhash_signature}
use ronzz_nextcloud.Domain.{extract_domain, is_space, lstrip, rstrip, strip}
use ronzz_nextcloud.SpamDetect.Tokenize.{front, text_of, tokenize}

pub record SpamSignature : Type 0 where
  pub message_uuid : String
  pub account_email : String
  pub signature : List ℕ
  pub content_hash : String
  pub num_tokens : ℕ
  pub created_at : ℕ

pub record ContentHash : Type 0 where
  pub content_hash : String
  pub sender_domain : String
  pub account_email : String
  pub first_seen_at : ℕ
  pub last_seen_at : ℕ
  pub occurrence_count : ℕ
  pub subject_snippet : String

-- The tables spam_signatures and spam_content_hashes, in the order of insertion.
pub record Corpus : Type 0 where
  pub signatures : List SpamSignature
  pub hashes : List ContentHash

-- `not text.strip()`
abbrev pub is_blank : String → Bool
is_blank text = str_eq (strip is_space text) ""

-- `DELETE FROM spam_signatures WHERE message_uuid = ?`
unfoldable pub without_uuid : String → List SpamSignature → List SpamSignature
without_uuid uuid [] = []
without_uuid uuid (row ∷ rows) =
    let rest = without_uuid uuid rows in if str_eq row.message_uuid uuid then rest else row ∷ rest

-- `WHERE content_hash = ? AND sender_domain = ? AND account_email = ?`
abbrev pub is_key : String → String → String → ContentHash → Bool
is_key content domain account row =
    str_eq row.content_hash content
    && (str_eq row.sender_domain domain && str_eq row.account_email account)

-- The columns that an UPDATE sets.
abbrev pub seen_again : ℕ → ContentHash → ContentHash
seen_again now row = record row { occurrence_count = row.occurrence_count + 1; last_seen_at = now }

unfoldable pub update_hashes : ℕ → String → String → String → List ContentHash → List ContentHash
update_hashes now content domain account [] = []
update_hashes now content domain account (row ∷ rows) =
    (if is_key content domain account row then seen_again now row else row)
    ∷ update_hashes now content domain account rows

abbrev pub first_sight : ℕ → String → String → String → String → ContentHash
first_sight now content domain account subject = record {
  content_hash = content;
  sender_domain = domain;
  account_email = account;
  first_seen_at = now;
  last_seen_at = now;
  occurrence_count = 1;
  subject_snippet = front 80 subject;
}

unfoldable pub upsert_hash :
    ℕ → String → String → String → String → List ContentHash → List ContentHash
unfolding update_hashes front
upsert_hash now content domain account subject rows =
    if any (is_key content domain account) rows
    then update_hashes now content domain account rows
    else rows ++ first_sight now content domain account subject ∷ []

-- `_extract_domain(from_addr) or ""`
abbrev pub domain_or_empty : Option String → String
domain_or_empty none = ""
domain_or_empty (some d) = d

module _ (h : Hashes) where
  -- The signature of a text.
  unfoldable pub signature_of : String → List ℕ
  unfolding tokenize make_shingles minhash_signature
  signature_of text = minhash_signature h (make_shingles (tokenize text))

  unfoldable pub add_spam : ℕ → String → String → String → String → String → Corpus → Corpus
  unfolding signature_of text_of without_uuid upsert_hash content_hash extract_domain lstrip rstrip
      is_space
  add_spam now message_uuid subject body account from_addr c =
      let text = text_of subject body in
      if is_blank text then c else record {
        signatures =
            without_uuid message_uuid c.signatures
            ++ record {
              message_uuid = message_uuid;
              account_email = account;
              signature = signature_of text;
              content_hash = content_hash h text;
              num_tokens = length (tokenize text);
              created_at = now;
            }
              ∷ [];
        hashes =
            upsert_hash now (content_hash h text) (domain_or_empty (extract_domain from_addr))
              account subject c.hashes;
      }

unfoldable pub remove_message : String → Corpus → Corpus
unfolding without_uuid
remove_message uuid c = record c { signatures = without_uuid uuid c.signatures }
