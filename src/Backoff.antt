-- ===== src/Backoff.antt =====
-- mailwatch/src/mailwatch/backoff.py: ConnectionBackoff.
-- Times and delays are in microseconds. `factor` is a whole number, and the jitter a fraction of
-- two numbers. A power of floats raises OverflowError from about 2 ^ 1024 on. Each call takes the
-- clock's reading and, for a failure, the random source.
pub mod Delay
pub mod History
mod Tests
use ronzz_nextcloud.Prelude.{
  ℕ, ◌+◌, ◌-◌, ◌*◌, ◌/◌, ◌^◌, String, Bool, Option, none, some, min, leb, ◌==◌, if◌then◌else◌,
}
use ronzz_nextcloud.Prelude.Int.{ℤ, pos, neg, pos_part, ◌+ℤ◌}
use ronzz_nextcloud.Prelude.Dict
use ronzz_nextcloud.Prelude.Dict.{Dict, get, put, remove}

pub record Backoff : Type 0 where
  pub base_delay : ℕ
  pub factor : ℕ
  pub max_delay : ℕ
  pub jitter_num : ℕ
  pub jitter_den : ℕ
  pub failures : Dict ℕ
  pub next_attempt : Dict ℕ

-- `random.uniform`, as called with a lower and an upper bound.
abbrev pub Uniform : Type 0
Uniform = ℤ → ℤ → ℤ

-- `d.get(k, 0)`
abbrev pub or_zero : Option ℕ → ℕ
or_zero none = 0
or_zero (some n) = n

unfoldable pub should_attempt : Backoff → ℕ → String → Bool
should_attempt b now email = leb (or_zero (Dict.get b.next_attempt email)) now

unfoldable pub record_success : Backoff → String → Backoff
record_success b email = record b {
  failures = Dict.remove b.failures email;
  next_attempt = Dict.remove b.next_attempt email;
}

unfoldable pub consecutive_failures : Backoff → String → ℕ
consecutive_failures b email = or_zero (Dict.get b.failures email)

-- The least number that is rounded to no float: the greatest float is 2 ^ 1024 - 2 ^ 971.
abbrev pub float_limit : ℕ
float_limit = 2 ^ 1024 - 2 ^ 970

-- `self.factor ** (count - 1)`; none is the OverflowError.
unfoldable pub power : Backoff → ℕ → Option ℕ
power b count =
    if leb float_limit (b.factor ^ (count - 1)) then none else some (b.factor ^ (count - 1))

-- `min(self.base_delay * …, self.max_delay)`
abbrev pub capped : Backoff → Option ℕ → Option ℕ
capped b none = none
capped b (some p) = some (min (b.base_delay * p) b.max_delay)

-- The delay after the given number of consecutive failures, before the jitter.
unfoldable pub nominal_delay : Backoff → ℕ → Option ℕ
unfolding power
nominal_delay b count = capped b (power b count)

unfoldable pub spread : Backoff → ℕ → ℕ
spread b delay = delay * b.jitter_num / b.jitter_den

-- `max(0.0, delay + rand(-spread, spread))`, or the delay itself without jitter
unfoldable pub jittered : Backoff → Uniform → ℕ → ℕ
unfolding spread ◌+ℤ◌
jittered b rand delay =
    if b.jitter_num == 0
    then delay
    else pos_part (pos delay +ℤ rand (neg (spread b delay)) (pos (spread b delay)))

abbrev pub with_jitter : Backoff → Uniform → Option ℕ → Option ℕ
unfolding jittered
with_jitter b rand none = none
with_jitter b rand (some delay) = some (jittered b rand delay)

-- The window is set only if there is a delay.
abbrev pub set_window : Option ℕ → ℕ → String → Dict ℕ → Dict ℕ
set_window none now email windows = windows
set_window (some delay) now email windows = Dict.put windows email (now + delay)

-- The delay that is returned, and the new state. The count is stored before the power, so it stays
-- stored if that overflows; the exception then goes on, and no window is set.
unfoldable pub record_failure : Backoff → Uniform → ℕ → String → Option ℕ × Backoff
unfolding consecutive_failures nominal_delay with_jitter
record_failure b rand now email =
    let count = consecutive_failures b email + 1 in
    let delay = with_jitter b rand (nominal_delay b count) in
    (
      delay,
      record b {
        failures = Dict.put b.failures email count;
        next_attempt = set_window delay now email b.next_attempt;
      },
    )
