-- ===== src/SpamDetect/Counts.antt =====
-- The file of the counts stands for the list of the reports that were saved.
use ronzz_nextcloud.Prelude.{
  Bool, List, String, [], any, arith, eq_iff, false, if◌then◌else◌, not, refl, str_eq, true, ℕ,
  ◌&&◌, ◌+◌, ◌∷◌, ◌≡◌,
}
use ronzz_nextcloud.Errors.{Result, ok, raised}
use ronzz_nextcloud.Prelude.Dict.{get, get-put, put}
use ronzz_nextcloud.SpamDetect.{
  Entry, Tokens, TokensFile, bump, bump_tokens, entry_of, load_user_tokens, or_empty, report,
  unique, UserTokens,
}
use ronzz_nextcloud.SpamDetect.Tokenize.{text_of, tokenize}

-- A call of SpamTrainer.report with what the save gave.
pub record Call : Type 0 where
  pub saved : Result (Unit {0})
  pub at : ℕ
  pub subject : String
  pub body : String
  pub account : String
  pub is_spam : Bool

unfoldable pub run_reports : List Call → TokensFile → TokensFile
unfolding report
run_reports [] f = f
run_reports (c ∷ cs) f =
    run_reports cs (report c.saved c.at c.subject c.body c.account c.is_spam f).1

abbrev pub is_ok : Result (Unit {0}) → Bool
is_ok (ok u) = true
is_ok (raised e) = false

abbrev pub same_label : Bool → Bool → Bool
same_label true b = b
same_label false b = not b

-- Whether a call counts for a token of an account, as spam or as ham.
unfoldable pub counts_for : String → String → Bool → Call → Bool
unfolding tokenize text_of
counts_for account token spam c =
    is_ok c.saved
    && (str_eq c.account account
        && (same_label c.is_spam spam
            && any (λ t. str_eq t token) (tokenize (text_of c.subject c.body))))

-- The abstract counter: the number of those calls.
unfoldable pub number_of : (Call → Bool) → List Call → ℕ
number_of p [] = 0
number_of p (c ∷ cs) = (if p c then 1 else 0) + number_of p cs

abbrev pub count_in : Bool → Entry → ℕ
count_in true e = e.spam_count
count_in false e = e.ham_count

-- The count in the file, 0 where there is no entry.
unfoldable pub count_of : TokensFile → String → String → Bool → ℕ
unfolding load_user_tokens entry_of get
count_of f account token spam =
    count_in spam (entry_of (get (or_empty (get (load_user_tokens f) account)) token))

pub any-unique :
    (t : String) (ts : List String) → any (λ s. str_eq s t) (unique ts) ≡ any (λ s. str_eq s t) ts
unfolding unique
any-unique t [] = refl
any-unique t (s ∷ ts) = ground (arith, eq_iff s t, any-unique t ts, any-unique s ts)

-- One pass counts each of its tokens once, if none stands twice.
abbrev IsUnique : List String → Type 0
IsUnique [] = Unit
IsUnique (t ∷ ts) = (any (λ s. str_eq s t) ts ≡ false) × IsUnique ts

unique-IsUnique : (ts : List String) → IsUnique (unique ts)
unfolding unique
unique-IsUnique [] = tt
unique-IsUnique (t ∷ ts) = ground (arith, any-unique t ts, unique-IsUnique ts)

count_in-bump :
    (now : ℕ) (is_spam spam : Bool) (e : Entry)
    → count_in spam (bump now is_spam e)
      ≡ count_in spam e + (if same_label is_spam spam then 1 else 0)
unfolding bump
count_in-bump now true true e = omega arith
count_in-bump now true false e = omega arith
count_in-bump now false true e = omega arith
count_in-bump now false false e = omega arith

bump_tokens_lem :
    (now : ℕ) (is_spam spam : Bool) (ts : List String) (token : String) (d : Tokens)
    → IsUnique ts
    → count_in spam (entry_of (get (bump_tokens now is_spam ts d) token))
      ≡ count_in spam (entry_of (get d token))
        + (if same_label is_spam spam && any (λ s. str_eq s token) ts then 1 else 0)
unfolding bump_tokens
bump_tokens_lem now is_spam spam [] token d u = ground arith
bump_tokens_lem now is_spam spam (t ∷ ts) token d u = ground (
  arith,
  eq_iff t token,
  get-put d t token (bump now is_spam (entry_of (get d t))),
  count_in-bump now is_spam spam (entry_of (get d t)),
  bump_tokens_lem now is_spam spam ts token (put d t (bump now is_spam (entry_of (get d t)))) u.1,
)

stored_lem :
    (now : ℕ) (is_spam spam : Bool) (ts : List String) (all : UserTokens)
    (owner account token : String)
    → count_in spam (
        entry_of (
          get
            (or_empty (
              get
                (put all owner (bump_tokens now is_spam (unique ts) (or_empty (get all owner))))
                account))
            token))
      ≡ count_in spam (entry_of (get (or_empty (get all account)) token))
        + (if str_eq owner account && (same_label is_spam spam && any (λ s. str_eq s token) ts)
            then 1
            else 0)
stored_lem now is_spam spam ts all owner account token =
    let acct = or_empty (get all owner) in
    ground (
      arith,
      eq_iff owner account,
      get-put all owner account (bump_tokens now is_spam (unique ts) acct),
      any-unique token ts,
      bump_tokens_lem now is_spam spam (unique ts) token acct (unique-IsUnique ts),
    )

count_of-report :
    (saved : Result (Unit {0})) (now : ℕ) (subject body owner : String) (is_spam : Bool)
    (f : TokensFile) (account token : String) (spam : Bool)
    → count_of (report saved now subject body owner is_spam f).1 account token spam
      ≡ count_of f account token spam
        + (if counts_for account token spam (record {
          saved = saved;
          at = now;
          subject = subject;
          body = body;
          account = owner;
          is_spam = is_spam;
        })
            then 1
            else 0)
unfolding report counts_for count_of
count_of-report (ok u) now subject body owner is_spam f account token spam =
    stored_lem now is_spam spam (tokenize (text_of subject body)) (load_user_tokens f) owner account
      token
count_of-report (raised e) now subject body owner is_spam f account token spam = omega arith

-- Each count in the file is the number of the saved reports of the account with that label whose
-- message has the token, added to the count before, whatever the order of the reports, how often
-- the token stands in a message, and which saves fail.
pub count_of-run_reports :
    (cs : List Call) (f : TokensFile) (account token : String) (spam : Bool)
    → count_of (run_reports cs f) account token spam
      ≡ count_of f account token spam + number_of (counts_for account token spam) cs
unfolding run_reports number_of
count_of-run_reports [] f account token spam = omega arith
count_of-run_reports (c ∷ cs) f account token spam = omega (
  arith,
  count_of-report c.saved c.at c.subject c.body c.account c.is_spam f account token spam,
  count_of-run_reports cs (report c.saved c.at c.subject c.body c.account c.is_spam f).1 account
      token spam,
)
