-- ===== src/Backoff/Delay.antt =====
-- How long `record_failure` of backoff.py makes an account wait.
use native.Mathlib.Nat.{pow-le-pow_right}
use ronzz_nextcloud.Prelude.{◌-◌, Option, none, refl, some, ◌*◌, lt→leb_false, ◌<◌, ◌∙◌}
use ronzz_nextcloud.Prelude.{String, arith, eq_refl, leb, min, suc, ℕ, ◌+◌, ◌^◌, ◌≡◌, ◌≤◌}
use ronzz_nextcloud.Prelude.Int.{pos, neg, ◌≤ℤ◌, ◌+ℤ◌}
use ronzz_nextcloud.Prelude.Dict.{Dict, get-put}
use ronzz_nextcloud.Backoff.{
  Backoff, Uniform, should_attempt, consecutive_failures, nominal_delay, spread, jittered,
  record_failure, set_window, with_jitter, power, float_limit,
}

-- What `random.uniform` documents: the result lies between its bounds.
abbrev pub IsUniform : Uniform → Type 0
IsUniform rand = (n : ℕ) → (neg n ≤ℤ rand (neg n) (pos n)) × (rand (neg n) (pos n) ≤ℤ pos n)

jittered_bounds :
    (b : Backoff) (rand : Uniform) (delay : ℕ)
    → IsUniform rand
    → (delay ≤ jittered b rand delay + spread b delay)
      × (jittered b rand delay ≤ delay + spread b delay)
unfolding jittered ◌+ℤ◌
jittered_bounds b rand delay u = ground (arith, u (spread b delay))

-- What a failure gives and leaves, by the delay before the jitter: without one, because the power
-- overflows, no delay and the windows as they were.
abbrev pub Waits : Backoff → String → ℕ → Option ℕ → Option ℕ × Backoff → Type 0
Waits b email now none r =
    (r.0 ≡ none) × ((t : ℕ) → should_attempt r.1 t email ≡ should_attempt b t email)
Waits b email now (some d) r =
    (delay : ℕ) × (r.0 ≡ some delay)
    × (d ≤ delay + spread b d)
    × (delay ≤ d + spread b d)
    × ((t : ℕ) → should_attempt r.1 t email ≡ leb (now + delay) t)

window_lem :
    (b : Backoff) (rand : Uniform) (now : ℕ) (email : String) (d : Option ℕ)
    → IsUniform rand
    → (c : Dict ℕ)
    → Waits b email now d (
      with_jitter b rand d,
      record b {
        failures = c;
        next_attempt = set_window (with_jitter b rand d) now email b.next_attempt;
      },
    )
unfolding should_attempt with_jitter
window_lem b rand now email none u c = (refl, λ t. refl)
window_lem b rand now email (some d) u c =
    let bounds = jittered_bounds b rand d u in
    (jittered b rand d, refl, bounds.0, bounds.1, λ t. rw (get-put, eq_refl) refl)

-- After a failure, whatever the history: the count of the account is one more than before. If the
-- power for that count does not overflow, the delay that is returned differs from the capped
-- exponential delay of that count by at most the jitter's spread, and the account may be tried
-- again exactly from that delay on; if it overflows, no delay is returned and the account may be
-- tried again as before. This takes a random source that keeps to its bounds.
pub record_failure_lem :
    (b : Backoff) (rand : Uniform) (now : ℕ) (email : String)
    → IsUniform rand
    → let k = consecutive_failures b email + 1 in
      let r = record_failure b rand now email in
      (consecutive_failures r.1 email ≡ k) × Waits b email now (nominal_delay b k) r
unfolding record_failure
record_failure_lem b rand now email u = (
  unfold consecutive_failures in rw (get-put, eq_refl) refl,
  window_lem b rand now email (nominal_delay b (consecutive_failures b email + 1)) u _,
)

small_power : (n : ℕ) → n ≤ 1023 → 2 ^ n < float_limit
small_power n h =
    let p : 2 ^ n ≤ 2 ^ 1023 = pow-le-pow_right (omega arith) h in
    let q : 2 ^ 1023 < float_limit = omega arith in omega arith

capped_power :
    (b : Backoff) (n : ℕ)
    → b.factor ^ n < float_limit
    → nominal_delay b (suc n) ≡ some (min (b.base_delay * b.factor ^ n) b.max_delay)
unfolding nominal_delay power
capped_power b n h =
    let e : suc n - 1 ≡ n = omega arith in rw (e, lt→leb_false float_limit (b.factor ^ n) h) refl

-- With the factor 2 of the daemon there is a delay up to the 1024th failure in a row.
pub nominal_delay_doubles :
    (b : Backoff) (n : ℕ)
    → b.factor ≡ 2
    → n ≤ 1023
    → nominal_delay b (suc n) ≡ some (min (b.base_delay * 2 ^ n) b.max_delay)
nominal_delay_doubles b n e h = capped_power b n (rw e (small_power n h)) ∙ rw e refl
