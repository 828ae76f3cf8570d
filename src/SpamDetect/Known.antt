-- ===== src/SpamDetect/Known.antt =====
-- What SpamClassifier.classify of mailwatch/src/mailwatch/email/filters/spam_detect.py says of a
-- message, by the tokens that are known.
use ronzz_nextcloud.SpamDetect.Tokenize.{text_of, tokenize}
use ronzz_nextcloud.Prelude.{
  All, Bool, List, Option, String, [], any, false, none, refl, some, true, ◌||◌, ◌∷◌, ◌≡◌,
  Bool-cases, ap, arith, eq_iff, inl, inr, str_eq, sym, ◌∙◌,
}
use ronzz_nextcloud.SpamDetect.{Fraction, Tokens, unique, Entry, TokensFile, token_probability}
use ronzz_nextcloud.Prelude.Dict.{Dict, get}
use ronzz_nextcloud.SpamDetect.Probability.{IsProbability, token_probability-IsProbability}
use ronzz_nextcloud.SpamDetect.Classify.{
  classify, contributing, user_tokens_of, spam_threshold, with_token,
}
use ronzz_nextcloud.SpamDetect.Chi2.{◌>>=◌, Floats, chi2_score, ratio, sort_by}

abbrev pub is_some : {A : Type 0} → Option A → Bool
is_some none = false
is_some (some a) = true

-- The token is in one of the tables.
abbrev pub is_known : Dict Fraction → Tokens → String → Bool
is_known seed user t = is_some (get seed t) || is_some (get user t)

with_token-All :
    (t : String) (p : Option Fraction) (ps : List (String × Fraction))
    → IsProbability p
    → All (λ q. IsProbability (some q.1)) ps
    → All (λ q. IsProbability (some q.1)) (with_token t p ps)
with_token-All t none ps h k = k
with_token-All t (some p) ps h k = (h, k)

-- With a seed table of probabilities, what is combined are probabilities.
pub contributing-IsProbability :
    (seed : Dict Fraction) (user : Tokens) (ts : List String)
    → ((t : String) → IsProbability (get seed t))
    → All (λ p. IsProbability (some p.1)) (contributing seed user ts)
unfolding contributing
contributing-IsProbability seed user [] h = tt
contributing-IsProbability seed user (t ∷ ts) h =
    with_token-All t (token_probability (get seed t) (get user t)) (contributing seed user ts)
      (token_probability-IsProbability (get seed t) (get user t) (h t))
      (contributing-IsProbability seed user ts h)

unknown-token_probability :
    (s : Option Fraction) (e : Option Entry)
    → is_some s || is_some e ≡ false
    → token_probability s e ≡ none
unfolding token_probability
unknown-token_probability none none h = refl
unknown-token_probability none (some e) h = absurd (ground arith)
unknown-token_probability (some s) e h = absurd (ground arith)

contributing-unknown :
    (seed : Dict Fraction) (user : Tokens) (ts : List String)
    → any (is_known seed user) ts ≡ false
    → contributing seed user ts ≡ []
unfolding contributing
contributing-unknown seed user [] h = refl
contributing-unknown seed user (t ∷ ts) h =
    rw
      (
        unknown-token_probability (get seed t) (get user t) (ground arith),
        contributing-unknown seed user ts (ground arith),
      )
      refl

any-member :
    (f : String → Bool) (t : String) (ts : List String)
    → any (λ s. str_eq s t) ts ≡ true
    → f t || any f ts ≡ any f ts
any-member f t [] h = absurd (ground arith)
any-member f t (s ∷ ts) h = elim (Bool-cases (str_eq s t)) [
  | inl e ↦ rw ((eq_iff s t).0 e) (ground arith)
  | inr e ↦ ground (arith, any-member f t ts (ground arith))
]

any_known-unique : (f : String → Bool) (ts : List String) → any f (unique ts) ≡ any f ts
unfolding unique
any_known-unique f [] = refl
any_known-unique f (t ∷ ts) = elim (Bool-cases (any (λ s. str_eq s t) ts)) [
  | inl e ↦ rw e (any_known-unique f ts ∙ sym (any-member f t ts e))
  | inr e ↦ rw e (ap (λ b. f t || b) (any_known-unique f ts))
]

module _ {F : Type 0} (fl : Floats F) where
  -- A message with no token in the seed table or in the account's own one has the score 0.5, no
  -- contributing token, and is spam only if 0.5 reaches the threshold, which is 0.9.
  pub classify-unknown :
      (seed : Dict Fraction) (f : TokensFile) (subject body : String) (account : Option String)
      → any (is_known seed (user_tokens_of f account)) (tokenize (text_of subject body)) ≡ false
      → classify fl seed f subject body account
        ≡ some (record {
          is_spam = fl.at_most (spam_threshold fl) (ratio fl 1 2);
          score = fl.round4 (ratio fl 1 2);
          tokens = [];
        })
  unfolding classify ◌>>=◌ chi2_score sort_by
  classify-unknown seed f subject body account h =
      rw
        (contributing-unknown seed (user_tokens_of f account)
          (unique (tokenize (text_of subject body)))
          (any_known-unique (is_known seed (user_tokens_of f account))
              (tokenize (text_of subject body))
            ∙ h))
        refl
