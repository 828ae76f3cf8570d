-- ===== src/SpamDetect/Tests.antt =====
-- Tests of the trainer, and the theorems on its reports at concrete inputs.
use ronzz_nextcloud.Prelude.{List, Option, [], arith, false, none, refl, some, true, ◌+◌, ◌∷◌, ◌≡◌}
use ronzz_nextcloud.Errors.{ok, os_error, raised}
use ronzz_nextcloud.SpamDetect.{
  Entry, Fraction, bump, get_stats, missing, token_probability, unreadable,
}
use ronzz_nextcloud.SpamDetect.Counts.{
  Call, count_of, count_of-run_reports, counts_for, number_of, run_reports,
}
use ronzz_nextcloud.SpamDetect.Probability.{
  IsBelow, IsProbability, token_probability-IsProbability, token_probability-bump,
}

abbrev reports : List Call
reports =
    record {
      saved = ok tt;
      at = 1;
      subject = "cheap";
      body = "pills pills";
      account = "me@x.org";
      is_spam = true;
    }
    ∷ record {
      saved = raised os_error;
      at = 2;
      subject = "";
      body = "pills";
      account = "me@x.org";
      is_spam = true;
    }
    ∷ record {
      saved = ok tt;
      at = 3;
      subject = "";
      body = "Pills";
      account = "me@x.org";
      is_spam = false;
    }
    ∷ []

counted : count_of (run_reports reports missing) "me@x.org" "pills" true ≡ 1
unfolding run_reports count_of
counted = refl

count_of-run_reports_example :
    count_of (run_reports reports unreadable) "me@x.org" "pills" true
    ≡ count_of unreadable "me@x.org" "pills" true
      + number_of (counts_for "me@x.org" "pills" true) reports
count_of-run_reports_example = count_of-run_reports reports unreadable "me@x.org" "pills" true

abbrev seed : Option Fraction
seed = some (record { num = 98; den = 100 })

abbrev entry : Entry
entry = record { spam_count = 1; ham_count = 2; last_seen_at = 5 }

token_probability-IsProbability_example : IsProbability (token_probability seed (some entry))
token_probability-IsProbability_example =
    token_probability-IsProbability seed (some entry) (omega arith)

abbrev trusted : Entry
trusted = record { spam_count = 4; ham_count = 2; last_seen_at = 5 }

moves_with_reports :
    IsBelow
      (token_probability seed (some trusted))
      (token_probability seed (some (bump 9 true trusted)))
    × IsBelow
        (token_probability seed (some (bump 9 false trusted)))
        (token_probability seed (some trusted))
moves_with_reports = token_probability-bump 9 seed trusted (omega arith)

-- A spam report of a token with few reports may lower its probability: 0.98 falls to 0.9173.
abbrev reported_once : Entry
reported_once = record { spam_count = 1; ham_count = 0; last_seen_at = 5 }

lowered : IsBelow (token_probability seed (some reported_once)) (token_probability seed none)
unfolding token_probability
lowered = omega arith

stats :
    get_stats (run_reports reports missing)
    ≡ record { total_tokens = 2; total_spam = 2; total_ham = 1 }
unfolding get_stats run_reports
stats = refl
