-- ===== src/SieveBlock.antt =====
-- mailwatch/src/mailwatch/sieve_block.py, and the table `block_candidates` of db.py.
-- Times are in microseconds; each call that reads the clock takes its reading.
pub mod Hits
mod Tests
use ronzz_nextcloud.Prelude.{any}
use ronzz_nextcloud.Prelude.{
  Bool, List, Option, String, [], false, if◌then◌else◌, leb, none, some, str_eq, true, ℕ, ◌&&◌, ◌*◌,
  ◌++◌, ◌+◌, ◌∷◌,
}
use ronzz_nextcloud.Prelude.Int.{neg_part, pos_part, ℤ}

pub record Candidate : Type 0 where
  pub account_email : String
  pub sender_domain : String
  pub spam_hits : ℕ
  pub first_seen : ℕ
  pub last_seen : ℕ
  pub blocked_at : Option ℕ

-- The rows, in the order of their insertion.
abbrev pub Candidates : Type 0
Candidates = List Candidate

-- `WHERE account_email = ? AND sender_domain = ?`
abbrev pub is_for : String → String → Candidate → Bool
is_for account domain row = str_eq row.account_email account && str_eq row.sender_domain domain

-- `SELECT … WHERE …` and `fetchone`
unfoldable pub find : String → String → Candidates → Option Candidate
find account domain [] = none
find account domain (row ∷ rows) =
    if is_for account domain row then some row else find account domain rows

-- `UPDATE … WHERE …`
unfoldable pub update : String → String → (Candidate → Candidate) → Candidates → Candidates
update account domain f [] = []
update account domain f (row ∷ rows) =
    (if is_for account domain row then f row else row) ∷ update account domain f rows

abbrev pub is_blocked_row : String → Candidate → Bool
is_blocked_row account row =
    str_eq row.account_email account && elim row.blocked_at [ none ↦ false | some t ↦ true ]

unfoldable pub list_blocked : String → Candidates → List String
list_blocked account [] = []
list_blocked account (row ∷ rows) =
    let rest = list_blocked account rows in
    if is_blocked_row account row then row.sender_domain ∷ rest else rest

-- The row of a sender's first hit.
abbrev pub new_row : ℕ → String → String → Candidate
new_row now account domain = record {
  account_email = account;
  sender_domain = domain;
  spam_hits = 1;
  first_seen = now;
  last_seen = now;
  blocked_at = none;
}

-- The columns that a later hit sets.
abbrev pub set_hits : ℕ → ℕ → Candidate → Candidate
set_hits now hits row = record row { spam_hits = hits; last_seen = now }

-- The count that is returned, and the table.
unfoldable pub register_hit : ℕ → String → String → Candidates → ℕ × Candidates
register_hit now account domain rows = elim (find account domain rows) [
  | none ↦ (1, rows ++ new_row now account domain ∷ [])
  | some row ↦
      let hits = row.spam_hits + 1 in (hits, update account domain (set_hits now hits) rows)
]

unfoldable pub record_block : ℕ → String → String → Candidates → Candidates
record_block now account domain = update account domain λ r. record r { blocked_at = some now }

-- microseconds in a day
abbrev pub day : ℕ
day = 86_400_000_000

-- `last_seen >= now - window_days`
abbrev pub is_recent : ℕ → ℤ → Candidate → Bool
is_recent now window_days row =
    leb (now + neg_part window_days * day) (row.last_seen + pos_part window_days * day)

-- The first row that the three conditions of the query select.
unfoldable pub count_recent_hits : ℕ → String → String → ℤ → Candidates → ℕ
count_recent_hits now account domain window_days [] = 0
count_recent_hits now account domain window_days (row ∷ rows) =
    if is_for account domain row && is_recent now window_days row
    then row.spam_hits
    else count_recent_hits now account domain window_days rows

-- `any(d == domain for d in self.list_blocked(account_email))`
unfoldable pub is_listed : String → String → Candidates → Bool
unfolding list_blocked
is_listed account domain rows = any (λ d. str_eq d domain) (list_blocked account rows)
