-- ===== src/Backoff/History.antt =====
-- Histories of failures and successes of backoff.py, of several accounts in any order.
use ronzz_nextcloud.Prelude.{
  List, String, [], ap, arith, eq_iff, if◌then◌else◌, none, refl, str_eq, true, ℕ, ◌+◌, ◌∙◌, ◌∷◌,
  ◌≡◌, Option, false, some,
}
use ronzz_nextcloud.Prelude.Dict
use ronzz_nextcloud.Prelude.Dict.{Dict, get, get-put, get-remove}
use ronzz_nextcloud.Backoff.{nominal_delay, or_zero, set_window, with_jitter}
use ronzz_nextcloud.Backoff.{
  Backoff, Uniform, consecutive_failures, record_failure, record_success, should_attempt,
}

pub data Event : Type 0 where
  fails : Uniform → ℕ → String → Event
  succeeds : String → Event

unfoldable pub apply : Backoff → Event → Backoff
apply b (fails rand now email) = (record_failure b rand now email).1
apply b (succeeds email) = record_success b email

unfoldable pub run : Backoff → List Event → Backoff
run b [] = b
run b (e ∷ es) = run (apply b e) es

-- The failures of an account since its last success, from a count at the start.
abbrev pub streak : String → ℕ → List Event → ℕ
streak email n [] = n
streak email n (fails rand now a ∷ es) = streak email (if str_eq a email then n + 1 else n) es
streak email n (succeeds a ∷ es) = streak email (if str_eq a email then 0 else n) es

-- After any history of failures and successes of any accounts, the count of an account is the
-- number of its own failures since its last success, added to the count at the start if there was
-- no success.
pub consecutive_failures-run :
    (b : Backoff) (email : String) (es : List Event)
    → consecutive_failures (run b es) email ≡ streak email (consecutive_failures b email) es
unfolding run apply record_failure record_success
consecutive_failures-run b email [] = refl
consecutive_failures-run b email (fails rand now a ∷ es) =
    consecutive_failures-run (apply b (fails rand now a)) email es
    ∙ ap (λ n. streak email n es)
        (ground (arith, get-put b.failures a email (consecutive_failures b a + 1), eq_iff a email))
consecutive_failures-run b email (succeeds a ∷ es) =
    consecutive_failures-run (apply b (succeeds a)) email es
    ∙ ap (λ n. streak email n es) (ground (arith, get-remove b.failures a email))

-- An account that has no counted failure has no window.
pub record IsPaired (b : Backoff) : Type 0 where
  pub at :
      (email : String)
      → or_zero (Dict.get b.failures email) ≡ 0
      → Dict.get b.next_attempt email ≡ none

get-set_window :
    (delay : Option ℕ) (now : ℕ) (a email : String) (windows : Dict ℕ)
    → str_eq a email ≡ false
    → get (set_window delay now a windows) email ≡ get windows email
get-set_window none now a email windows h = refl
get-set_window (some d) now a email windows h = rw (get-put, h) refl

fails-IsPaired :
    (b : Backoff) (rand : Uniform) (now : ℕ) (a : String)
    → IsPaired b
    → IsPaired (record_failure b rand now a).1
unfolding record_failure
fails-IsPaired b rand now a h = record {
  at = λ email e.
      let count = consecutive_failures b a + 1 in
      let other : (str_eq a email) ≡ false = ground (arith, get-put b.failures a email count, e) in
      let counted : or_zero (get b.failures email) ≡ 0 =
        ground (arith, get-put b.failures a email count, other, e) in
      get-set_window (with_jitter b rand (nominal_delay b count)) now a email b.next_attempt other
      ∙ h.at email counted;
}

succeeds-IsPaired : (b : Backoff) (a : String) → IsPaired b → IsPaired (record_success b a)
unfolding record_success
succeeds-IsPaired b a h = record {
  at = λ email. rw (get-remove, get-remove) (ground (arith, h.at email));
}

run-IsPaired : (b : Backoff) (es : List Event) → IsPaired b → IsPaired (run b es)
unfolding run apply
run-IsPaired b [] h = h
run-IsPaired b (fails rand now a ∷ es) h =
    run-IsPaired (apply b (fails rand now a)) es (fails-IsPaired b rand now a h)
run-IsPaired b (succeeds a ∷ es) h =
    run-IsPaired (apply b (succeeds a)) es (succeeds-IsPaired b a h)

-- An account with no failure since its last success is never held back, whatever happened to the
-- others. At the start an account without a counted failure has no window.
pub should_attempt-quiet :
    (b : Backoff) (es : List Event) (email : String) (now : ℕ)
    → IsPaired b
    → streak email (consecutive_failures b email) es ≡ 0
    → should_attempt (run b es) now email ≡ true
unfolding should_attempt consecutive_failures
should_attempt-quiet b es email now h quiet =
    let p = (run-IsPaired b es h).at email in ground (arith, p, consecutive_failures-run b email es)
