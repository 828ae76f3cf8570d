-- ===== src/SieveBlock/Hits.antt =====
-- The counts and the blocks of sieve_block.py.
use ronzz_nextcloud.SieveBlock.{new_row, set_hits, day}
use mathlib.Core.Path.{ap₂}
use ronzz_nextcloud.Prelude.{any, ap, eq_refl, sym, ◌*◌, ◌≤◌}
use ronzz_nextcloud.SieveBlock.{is_blocked_row}
use ronzz_nextcloud.Prelude.{Option-cases, false, inl, inr, true, ◌+◌, ◌||◌, ◌∙◌}
use ronzz_nextcloud.SieveBlock.{
  count_recent_hits, is_listed, list_blocked, record_block, register_hit,
}
use ronzz_nextcloud.Prelude.Int.{pos}
use ronzz_nextcloud.Prelude.{
  Bool, String, [], arith, eq_iff, if◌then◌else◌, none, refl, some, str_eq, ℕ, ◌&&◌, ◌++◌, ◌∷◌, ◌≡◌,
}
use ronzz_nextcloud.SieveBlock.{Candidate, Candidates, find, is_for, update}

-- The hits of an account's sender, 0 if there is no row.
unfoldable pub hits : String → String → Candidates → ℕ
unfolding find
hits account domain rows = elim (find account domain rows) [ none ↦ 0 | some row ↦ row.spam_hits ]

abbrev pub same_key : String → String → String → String → Bool
same_key a d b e = str_eq a b && str_eq d e

find-append :
    (a d : String) (rows : Candidates) (r : Candidate)
    → find a d (rows ++ r ∷ [])
      ≡ elim (find a d rows) [ none ↦ (if is_for a d r then some r else none) | some x ↦ some x ]
unfolding find
find-append a d [] r = ground arith
find-append a d (x ∷ rows) r = ground (arith, find-append a d rows r)

find-update :
    (a d b e : String) (rows : Candidates) (f : Candidate → Candidate)
    → ((r : Candidate)
        → ((f r).account_email ≡ r.account_email) × ((f r).sender_domain ≡ r.sender_domain))
    → find b e (update a d f rows)
      ≡ elim (find b e rows) [ none ↦ none | some x ↦ some (if same_key a d b e then f x else x) ]
unfolding find update
find-update a d b e [] f h = refl
find-update a d b e (x ∷ rows) f h = ground (
  arith,
  h x,
  find-update a d b e rows f h,
  eq_iff x.account_email a,
  eq_iff x.account_email b,
  eq_iff x.sender_domain d,
  eq_iff x.sender_domain e,
  eq_iff a b,
  eq_iff d e,
)

register_hit-none :
    (now : ℕ) (a d : String) (rows : Candidates)
    → find a d rows ≡ none
    → register_hit now a d rows ≡ (1, rows ++ new_row now a d ∷ [])
unfolding register_hit
register_hit-none now a d rows p = rw (p, register_hit)

register_hit-some :
    (now : ℕ) (a d : String) (rows : Candidates) (x : Candidate)
    → find a d rows ≡ some x
    → register_hit now a d rows
      ≡ (x.spam_hits + 1, update a d (set_hits now (x.spam_hits + 1)) rows)
unfolding register_hit
register_hit-some now a d rows x p = rw (p, register_hit)

-- A hit counts one more for its own account and sender, returns the new count, and leaves every
-- other count as it was.
pub hits-register_hit :
    (now : ℕ) (a d b e : String) (rows : Candidates)
    → ((register_hit now a d rows).0 ≡ hits a d rows + 1)
      × (hits b e (register_hit now a d rows).1
          ≡ (if same_key a d b e then hits a d rows + 1 else hits b e rows))
unfolding hits
hits-register_hit now a d b e rows = elim (Option-cases (find a d rows)) [
  | inl p ↦
      rw (register_hit-none now a d rows p)
        (ground (arith, p, find-append b e rows (new_row now a d), eq_iff a b, eq_iff d e))
  | inr (x, p) ↦ rw (register_hit-some now a d rows x p) (
      ground (
        arith,
        p,
        find-update a d b e rows (set_hits now (x.spam_hits + 1)) (λ r. (refl, refl)),
        eq_iff a b,
        eq_iff d e,
      ))
]

listed-update :
    (a d b e : String) (rows : Candidates) (f : Candidate → Candidate)
    → ((r : Candidate)
        → ((f r).account_email ≡ r.account_email)
          × ((f r).sender_domain ≡ r.sender_domain)
          × ((f r).blocked_at ≡ r.blocked_at))
    → list_blocked b (update a d f rows) ≡ list_blocked b rows
unfolding list_blocked update
listed-update a d b e [] f h = refl
listed-update a d b e (x ∷ rows) f h = ground (arith, h x, listed-update a d b e rows f h)

listed-append :
    (b : String) (rows : Candidates) (r : Candidate)
    → r.blocked_at ≡ none
    → list_blocked b (rows ++ r ∷ []) ≡ list_blocked b rows
unfolding list_blocked
listed-append b [] r h = ground arith
listed-append b (x ∷ rows) r h = ground (arith, listed-append b rows r h)

-- A hit blocks nobody and unblocks nobody.
pub list_blocked-register_hit :
    (now : ℕ) (a d b : String) (rows : Candidates)
    → list_blocked b (register_hit now a d rows).1 ≡ list_blocked b rows
list_blocked-register_hit now a d b rows = elim (Option-cases (find a d rows)) [
  | inl p ↦ rw (register_hit-none now a d rows p) (listed-append b rows _ refl)
  | inr (x, p) ↦
      rw (register_hit-some now a d rows x p)
        (listed-update a d b d rows _ (λ r. (refl, refl, refl)))
]

pub is_listed-register_hit :
    (now : ℕ) (a d b e : String) (rows : Candidates)
    → is_listed b e (register_hit now a d rows).1 ≡ is_listed b e rows
unfolding is_listed
is_listed-register_hit now a d b e rows = rw (list_blocked-register_hit now a d b rows) refl

recent-append :
    (later n : ℕ) (a d : String) (rows : Candidates) (r : Candidate)
    → find a d rows ≡ none
    → count_recent_hits later a d (pos n) (rows ++ r ∷ [])
      ≡ count_recent_hits later a d (pos n) (r ∷ [])
unfolding count_recent_hits find
recent-append later n a d [] r h = refl
recent-append later n a d (x ∷ rows) r h = ground (arith, recent-append later n a d rows r)

recent-update :
    (now later n k : ℕ) (a d : String) (rows : Candidates) (x : Candidate)
    → later ≤ now + n * day
    → find a d rows ≡ some x
    → count_recent_hits later a d (pos n) (update a d (set_hits now k) rows) ≡ k
unfolding count_recent_hits find update
recent-update now later n k a d [] x l h = cc
recent-update now later n k a d (r ∷ rows) x l h =
    ground (arith, recent-update now later n k a d rows x)

recent_new :
    (now later n : ℕ) (a d : String)
    → later ≤ now + n * day
    → count_recent_hits later a d (pos n) (new_row now a d ∷ []) ≡ 1
unfolding count_recent_hits
recent_new now later n a d l = ground (arith, eq_refl a, eq_refl d)

-- Within the window after a hit, the count of recent hits is the count of all hits, however old
-- they are: the window keeps no hit out.
pub count_recent_hits-register_hit :
    (now later n : ℕ) (a d : String) (rows : Candidates)
    → later ≤ now + n * day
    → count_recent_hits later a d (pos n) (register_hit now a d rows).1 ≡ hits a d rows + 1
count_recent_hits-register_hit now later n a d rows l = elim (Option-cases (find a d rows)) [
  | inl p ↦ rw (register_hit-none now a d rows p) (
      recent-append later n a d rows (new_row now a d) p
      ∙ recent_new now later n a d l
      ∙ (unfold hits in rw (p, hits)))
  | inr (x, p) ↦
      rw (register_hit-some now a d rows x p)
        (recent-update now later n (x.spam_hits + 1) a d rows x l p ∙ (unfold hits in rw (p, hits)))
]

abbrev pub has_row : String → String → Candidates → Bool
has_row a d = any (is_for a d)

abbrev listed_row : String → String → Candidate → Bool
listed_row b e row = is_blocked_row b row && str_eq row.sender_domain e

is_listed-cons :
    (b e : String) (x : Candidate) (rows : Candidates)
    → is_listed b e (x ∷ rows) ≡ (listed_row b e x || is_listed b e rows)
unfolding is_listed
is_listed-cons b e x rows = ground arith

abbrev set_blocked : ℕ → Candidate → Candidate
set_blocked now row = record row { blocked_at = some now }

listed_row-block :
    (now : ℕ) (a d b e : String) (x : Candidate)
    → listed_row b e (if is_for a d x then set_blocked now x else x)
      ≡ (listed_row b e x || (same_key a d b e && is_for a d x))
listed_row-block now a d b e x = ground (
  arith,
  eq_iff x.account_email a,
  eq_iff x.account_email b,
  eq_iff x.sender_domain d,
  eq_iff x.sender_domain e,
  eq_iff a b,
  eq_iff d e,
)

regroup : (p q s t u : Bool) → ((p || (q && s)) || (t || (q && u))) ≡ ((p || t) || (q && (s || u)))
regroup true q s t u = refl
regroup false true true true u = refl
regroup false true false true u = refl
regroup false true true false u = refl
regroup false true false false u = refl
regroup false false s true u = refl
regroup false false s false u = refl

-- A block lists its own account and sender, if they have a row, and changes no other entry.
pub is_listed-record_block :
    (now : ℕ) (a d b e : String) (rows : Candidates)
    → is_listed b e (record_block now a d rows)
      ≡ (is_listed b e rows || (same_key a d b e && has_row a d rows))
unfolding record_block update
is_listed-record_block now a d b e [] = unfold is_listed in ground arith
is_listed-record_block now a d b e (x ∷ rows) =
    is_listed-cons b e (if is_for a d x then set_blocked now x else x) (record_block now a d rows)
    ∙ ap₂ ◌||◌ (listed_row-block now a d b e x) (is_listed-record_block now a d b e rows)
    ∙ regroup (listed_row b e x) (same_key a d b e) (is_for a d x) (is_listed b e rows)
        (has_row a d rows)
    ∙ ap (λ t. t || (same_key a d b e && has_row a d (x ∷ rows))) (sym (is_listed-cons b e x rows))

has_row-append :
    (a d : String) (rows : Candidates) (r : Candidate)
    → has_row a d (rows ++ r ∷ []) ≡ (has_row a d rows || is_for a d r)
has_row-append a d [] r = ground arith
has_row-append a d (x ∷ rows) r = ground (arith, has_row-append a d rows r)

has_row-update :
    (a d : String) (k now : ℕ) (rows : Candidates)
    → has_row a d (update a d (set_hits now k) rows) ≡ has_row a d rows
unfolding update
has_row-update a d k now [] = refl
has_row-update a d k now (x ∷ rows) = ground (arith, has_row-update a d k now rows)

has_row-find :
    (a d : String) (rows : Candidates) (x : Candidate)
    → find a d rows ≡ some x
    → has_row a d rows ≡ true
unfolding find
has_row-find a d [] x h = cc
has_row-find a d (r ∷ rows) x h = ground (arith, has_row-find a d rows x)

-- After a hit its sender has a row.
pub has_row-register_hit :
    (now : ℕ) (a d : String) (rows : Candidates) → has_row a d (register_hit now a d rows).1 ≡ true
has_row-register_hit now a d rows = elim (Option-cases (find a d rows)) [
  | inl p ↦
      rw (register_hit-none now a d rows p, has_row-append a d rows (new_row now a d))
        (ground (arith, eq_refl a, eq_refl d))
  | inr (x, p) ↦
      rw (register_hit-some now a d rows x p, has_row-update a d (x.spam_hits + 1) now rows)
        (has_row-find a d rows x p)
]
