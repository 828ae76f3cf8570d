-- ===== src/SpamDetect.antt =====
-- mailwatch/src/mailwatch/email/filters/spam_detect.py: SpamTrainer with its file of counts, and the
-- probability of a token. A probability is a fraction.
use ronzz_nextcloud.Prelude.{
  Bool, List, Option, String, [], any, false, if◌then◌else◌, leb, none, some, str_eq, true, ℕ, ◌*◌,
  ◌+◌, ◌-◌, ◌∷◌,
}
use ronzz_nextcloud.Errors.{Exec, Result, ok, raised}
pub mod Tokenize
use ronzz_nextcloud.Prelude.Dict.{Dict, get, put}
pub mod Chi2
pub mod Classify
pub mod Extreme
pub mod Known
pub mod Counts
pub mod Probability
mod Tests
use ronzz_nextcloud.SpamDetect.Tokenize.{text_of, tokenize}

-- _MIN_USER_COUNTS
abbrev pub min_user_counts : ℕ
min_user_counts = 5

pub record Entry : Type 0 where
  pub spam_count : ℕ
  pub ham_count : ℕ
  pub last_seen_at : ℕ

-- `{account_email: {token: entry}}`
abbrev pub Tokens : Type 0
Tokens = Dict Entry

abbrev pub UserTokens : Type 0
UserTokens = Dict Tokens

-- The file user_tokens.json: not there, not readable or not a dict, or the data.
pub data TokensFile : Type 0 where
  missing unreadable : TokensFile
  stored : UserTokens → TokensFile

-- _load_user_tokens
unfoldable pub load_user_tokens : TokensFile → UserTokens
load_user_tokens missing = []
load_user_tokens unreadable = []
load_user_tokens (stored d) = d

-- _save_user_tokens: a temporary file is written and renamed, so a failed save changes nothing.
unfoldable pub save_user_tokens : Result (Unit {0}) → UserTokens → Exec TokensFile (Unit {0})
save_user_tokens (ok u) d f = (ok tt, stored d)
save_user_tokens (raised e) d f = (raised e, f)

-- `set(tokens)`
unfoldable pub unique : List String → List String
unique [] = []
unique (t ∷ ts) = let rest = unique ts in if any (λ s. str_eq s t) ts then rest else t ∷ rest

-- `acct_data.get(token)`, or the new entry.
unfoldable pub entry_of : Option Entry → Entry
entry_of none = record { spam_count = 0; ham_count = 0; last_seen_at = 0 }
entry_of (some e) = e

-- `entry[col] += 1`
unfoldable pub bump : ℕ → Bool → Entry → Entry
bump now true e = record e { spam_count = e.spam_count + 1; last_seen_at = now }
bump now false e = record e { ham_count = e.ham_count + 1; last_seen_at = now }

unfoldable pub bump_tokens : ℕ → Bool → List String → Tokens → Tokens
unfolding entry_of bump get put
bump_tokens now is_spam [] d = d
bump_tokens now is_spam (t ∷ ts) d =
    bump_tokens now is_spam ts (put d t (bump now is_spam (entry_of (get d t))))

-- `all_data.get(account_email)`, or a new dict.
abbrev pub or_empty : Option Tokens → Tokens
or_empty none = []
or_empty (some d) = d

-- SpamTrainer.report: the environment answers the save.
unfoldable pub report :
    Result (Unit {0}) → ℕ → String → String → String → Bool → Exec TokensFile (Unit {0})
unfolding load_user_tokens save_user_tokens unique bump_tokens tokenize text_of get put
report saved now subject body account is_spam f =
    let all = load_user_tokens f in
    let acct = or_empty (get all account) in
    let tokens = unique (tokenize (text_of subject body)) in
    save_user_tokens saved (put all account (bump_tokens now is_spam tokens acct)) f

pub record Fraction : Type 0 where
  pub num : ℕ
  pub den : ℕ

-- `(spam_count + 1.0) / (total + 2.0)`, Robinson's correction
abbrev pub user_probability : Entry → Fraction
user_probability e = record { num = e.spam_count + 1; den = e.spam_count + e.ham_count + 2 }

-- `weight * user_prob + (1.0 - weight) * seed["spam"]` with the weight `total / 5`
abbrev pub blend : ℕ → Fraction → Fraction → Fraction
blend total p seed = record {
  num = total * (p.num * seed.den) + (min_user_counts - total) * (seed.num * p.den);
  den = min_user_counts * (p.den * seed.den);
}

-- The cases for a token of the seed table and of the user's; an unknown token has no probability.
unfoldable pub token_probability : Option Fraction → Option Entry → Option Fraction
token_probability (some seed) none = some seed
token_probability none (some e) =
    if leb min_user_counts (e.spam_count + e.ham_count)
    then some (user_probability e)
    else some (record { num = 1; den = 2 })
token_probability (some seed) (some e) =
    let total = e.spam_count + e.ham_count in
    if leb min_user_counts total
    then some (user_probability e)
    else some (blend total (user_probability e) seed)
token_probability none none = none

-- SpamTrainer.get_stats: the counts.
pub record TokenStats : Type 0 where
  pub total_tokens : ℕ
  pub total_spam : ℕ
  pub total_ham : ℕ

abbrev pub no_stats : TokenStats
no_stats = record { total_tokens = 0; total_spam = 0; total_ham = 0 }

unfoldable pub add_tokens : Tokens → TokenStats → TokenStats
add_tokens [] st = st
add_tokens ((t, e) ∷ d) st = add_tokens d (record {
  total_tokens = st.total_tokens + 1;
  total_spam = st.total_spam + e.spam_count;
  total_ham = st.total_ham + e.ham_count;
})

unfoldable pub add_accounts : UserTokens → TokenStats → TokenStats
unfolding add_tokens
add_accounts [] st = st
add_accounts ((a, d) ∷ all) st = add_accounts all (add_tokens d st)

unfoldable pub get_stats : TokensFile → TokenStats
unfolding load_user_tokens add_accounts
get_stats f = add_accounts (load_user_tokens f) no_stats
