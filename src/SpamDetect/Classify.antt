-- ===== src/SpamDetect/Classify.antt =====
-- mailwatch/src/mailwatch/email/filters/spam_detect.py: SpamClassifier.classify, over the combination
-- of Chi2.
use ronzz_nextcloud.Prelude.{
  take, Bool, List, Option, String, [], if◌then◌else◌, none, some, ◌∷◌, map, str_eq,
}
use ronzz_nextcloud.Prelude.Dict.{Dict, get}
use ronzz_nextcloud.SpamDetect.{
  Fraction, Tokens, TokensFile, load_user_tokens, or_empty, token_probability, unique,
}
use ronzz_nextcloud.SpamDetect.Tokenize.{text_of, tokenize}
use ronzz_nextcloud.SpamDetect.Chi2.{Floats, below, chi2_score, extremity, ratio, sort_by, ◌>>=◌}

-- What classify returns.
pub record Classification (F : Type 0) : Type 0 where
  pub is_spam : Bool
  pub score : F
  pub tokens : List (String × F)

abbrev pub with_token :
    String → Option Fraction → List (String × Fraction) → List (String × Fraction)
with_token t none ps = ps
with_token t (some p) ps = (t, p) ∷ ps

-- The tokens of a message that have a probability.
unfoldable pub contributing : Dict Fraction → Tokens → List String → List (String × Fraction)
unfolding token_probability get
contributing seed user [] = []
contributing seed user (t ∷ ts) =
    let rest = contributing seed user ts in
    with_token t (token_probability (get seed t) (get user t)) rest

-- `user_tokens`, of no account without an address
unfoldable pub user_tokens_of : TokensFile → Option String → Tokens
unfolding load_user_tokens get
user_tokens_of f none = []
user_tokens_of f (some account) =
    if str_eq account "" then [] else or_empty (get (load_user_tokens f) account)

module _ {F : Type 0} (fl : Floats F) where
  abbrev pub rounded : String × Fraction → String × F
  rounded p = (p.0, fl.round4 (fl.fraction p.1))

  -- _SPAM_THRESHOLD
  abbrev pub spam_threshold : F
  spam_threshold = ratio fl 9 10

  -- SpamClassifier.classify. The order of `set(tokens)` is the one of `unique`.
  unfoldable pub classify :
      Dict Fraction → TokensFile → String → String → Option String → Option (Classification F)
  unfolding ◌>>=◌ chi2_score contributing user_tokens_of unique tokenize text_of sort_by
  classify seed f subject body account = do
    let known =
        contributing seed (user_tokens_of f account) (unique (tokenize (text_of subject body)))
    score ← chi2_score fl (map (λ p. fl.fraction p.1) known)
    some record {
      is_spam = fl.at_most spam_threshold score;
      score = fl.round4 score;
      tokens =
          take 20
            (sort_by (λ p q. below fl (extremity fl q.1) (extremity fl p.1)) (map rounded known));
    }
