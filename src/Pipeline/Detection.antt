-- ===== src/Pipeline/Detection.antt =====
-- The pipeline with its detectors of mailwatch/src/mailwatch/email/filters: the phishing detector
-- and the similarity detector on their tables; the score of the classifier is any function.
use ronzz_nextcloud.Prelude.{
  String, ℕ, ◌≡◌, Bool-cases, List, [], any, inl, inr, leb, none, refl, ◌||◌,
}
use ronzz_nextcloud.Prelude.Int.{pos}
use ronzz_nextcloud.Errors.{Result, ok, pure, ◌>>=◌}
use ronzz_nextcloud.Config.{AccountConfig, DaemonConfig}
use ronzz_nextcloud.World.{Env, Message, World}
use ronzz_nextcloud.Phishing.{Analysis, BrandTable, Tables, analyze}
use ronzz_nextcloud.Phishing.Parse.{extract_urls}
use ronzz_nextcloud.Phishing.Verdict.{is_watchlisted, is_feed_link, is_phishing-analyze}
use ronzz_nextcloud.Similarity.{Corpus, ContentHash, is_blank}
use ronzz_nextcloud.SpamDetect.Tokenize.{text_of}
use ronzz_nextcloud.Similarity.Signature.{Hashes}
use ronzz_nextcloud.Similarity.Check.{check_similarity, verdict}
use ronzz_nextcloud.Pipeline.{ClassificationResult, Detectors, Phish, classify, decide, detect}
use ronzz_nextcloud.Pipeline.Decision.{is_spam-decide}

-- What the detectors read: the brands, the tables of both, and the digests.
pub record Knowledge : Type 0 where
  pub brands : BrandTable
  pub tables : Tables
  pub corpus : Corpus
  pub digests : Hashes

abbrev pub phish_of : Analysis → Phish
phish_of a = record { is_phishing = a.is_phishing; score = a.score }

module _ (bayesian : Message → String → World → Result ℕ) (k : Knowledge) where
  abbrev pub analysis : Message → String → Analysis
  analysis m account = analyze k.brands k.tables m.from_addr m.subject m.html_body m.body account

  abbrev pub similarity_score : Message → String → ℕ
  similarity_score m account =
      (check_similarity k.digests m.subject m.body account 100 k.corpus).score

  -- The three detectors that `_classify` calls.
  unfoldable pub detectors : Detectors
  detectors = record {
    bayesian = bayesian;
    phishing = λ m account w. ok (phish_of (analysis m account));
    similarity = λ m account w. ok (similarity_score m account);
  }

  module _ (env : Env) (cfg : DaemonConfig) (account : AccountConfig) (m : Message)
      (w : World) where
    classify_lem :
        (b : ℕ)
        → bayesian m account.email w ≡ ok b
        → classify env cfg account detectors m w ≡ (
          ok (
              decide cfg m b
                (phish_of (analysis m account.email))
                (similarity_score m account.email)),
          w,
        )
    unfolding classify detect detectors pure ◌>>=◌
    classify_lem b e = rw e refl

    -- Where the classifier answers, a message is classified without a change of the state, and is
    -- spam exactly if the score of the classifier or of the similarity detector reaches the
    -- threshold, or its sender's domain was reported by the account, or one of its links has a
    -- domain in a feed: whatever its display name and the brands that it mentions.
    pub is_spam-classify :
        (b t : ℕ)
        → bayesian m account.email w ≡ ok b
        → cfg.spam_threshold ≡ pos t
        → (r : ClassificationResult) × (classify env cfg account detectors m w ≡ (ok r, w))
          × (r.is_spam ≡ (
              leb t b
              || leb t (similarity_score m account.email)
              || (is_watchlisted k.tables.phishing_domains m.from_addr account.email
                  || any (is_feed_link k.tables.phishing_feeds) (extract_urls m.html_body))))
    is_spam-classify b t e h = (
      decide cfg m b (phish_of (analysis m account.email)) (similarity_score m account.email),
      classify_lem b e,
      rw
          (
            is_spam-decide cfg m b (similarity_score m account.email) t
                (phish_of (analysis m account.email)) h,
            is_phishing-analyze k.brands k.tables m.from_addr m.subject m.html_body m.body
                account.email,
          )
          refl,
    )

no_rows_lem :
    (digests : Hashes) (subject body account : String) (hashes : List ContentHash)
    → check_similarity digests subject body account 100
        (record { signatures = []; hashes = hashes })
      ≡ verdict (0, none)
unfolding check_similarity
no_rows_lem digests subject body account hashes =
    elim (Bool-cases (is_blank (text_of subject body))) [ inl e ↦ rw e refl | inr e ↦ rw e refl ]
