-- ===== src/Backoff/Tests.antt =====
-- The theorems on backoff.py at concrete inputs.
use ronzz_nextcloud.Prelude.{List, [], arith, refl, ◌+◌, ◌∷◌, ◌≡◌, none, some}
use ronzz_nextcloud.Prelude.Dict
use ronzz_nextcloud.Backoff.{Backoff, Uniform, consecutive_failures, nominal_delay, record_failure}
use ronzz_nextcloud.Backoff.Delay.{IsUniform, Waits, record_failure_lem}
use ronzz_nextcloud.Backoff.History.{Event, IsPaired, apply, consecutive_failures-run, fails, run}

-- The daemon's settings, in microseconds.
abbrev daemon_backoff : Backoff
daemon_backoff = record {
  base_delay = 60_000_000;
  factor = 2;
  max_delay = 1_800_000_000;
  jitter_num = 1;
  jitter_den = 5;
  failures = [];
  next_attempt = [];
}

abbrev draw_high : Uniform
draw_high lo hi = hi

draw_high-IsUniform : IsUniform draw_high
draw_high-IsUniform n = ground arith

abbrev two_failures : List Event
two_failures = fails draw_high 0 "me@a.org" ∷ fails draw_high 90_000_000 "me@a.org" ∷ []

second_delay :
    (record_failure
      (run daemon_backoff (fails draw_high 0 "me@a.org" ∷ []))
      draw_high
      90_000_000
      "me@a.org").0
    ≡ some 144_000_000
unfolding run apply record_failure Dict.put Dict.get
second_delay = refl

record_failure_lem_example :
    let r = record_failure daemon_backoff draw_high 7 "me@a.org" in
    (consecutive_failures r.1 "me@a.org" ≡ consecutive_failures daemon_backoff "me@a.org" + 1)
    × Waits daemon_backoff "me@a.org" 7
        (nominal_delay daemon_backoff (consecutive_failures daemon_backoff "me@a.org" + 1))
        r
record_failure_lem_example =
    record_failure_lem daemon_backoff draw_high 7 "me@a.org" draw_high-IsUniform

-- The 1025th failure in a row has no delay, and the account may be tried at once.
abbrev failing : Backoff
failing = record daemon_backoff { failures = ("me@a.org", 1024) ∷ [] }

overflow : (record_failure failing draw_high 7 "me@a.org").0 ≡ none
unfolding record_failure Dict.get
overflow = refl

consecutive_failures-run_example :
    consecutive_failures (run daemon_backoff two_failures) "me@a.org" ≡ 2
unfolding consecutive_failures Dict.get
consecutive_failures-run_example = consecutive_failures-run daemon_backoff "me@a.org" two_failures

daemon_backoff-IsPaired : IsPaired daemon_backoff
unfolding Dict.get
daemon_backoff-IsPaired = record { at = λ email h. refl }
