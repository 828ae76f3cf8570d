-- ===== src/SieveBlock/Tests.antt =====
-- The theorems on sieve_block.py at a concrete table.
use ronzz_nextcloud.Prelude.{[], arith, ◌*◌, ◌∷◌, ◌≡◌}
use ronzz_nextcloud.Prelude.Int.{pos}
use ronzz_nextcloud.SieveBlock.{Candidates, count_recent_hits, day, find, new_row, register_hit}
use ronzz_nextcloud.SieveBlock.Hits.{count_recent_hits-register_hit, hits}

-- One hit, long ago.
abbrev old_rows : Candidates
old_rows = (new_row 0 "me@x.org" "spam.org") ∷ []

count_recent_hits-register_hit_example :
    count_recent_hits
      (100 * day)
      "me@x.org"
      "spam.org"
      (pos 30)
      (register_hit (100 * day) "me@x.org" "spam.org" old_rows).1
    ≡ 2
unfolding hits find
count_recent_hits-register_hit_example =
    count_recent_hits-register_hit (100 * day) (100 * day) 30 "me@x.org" "spam.org" old_rows
      (omega arith)
