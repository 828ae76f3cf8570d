-- ===== src/SpamDetect/Probability.antt =====
-- The probability of a token is a probability, and follows the reports once it is trusted.
use ronzz_nextcloud.Prelude.{
  Option, arith, false, none, some, true, ℕ, ◌*◌, ◌+◌, ◌<◌, ◌≤◌, Bool-cases, inl, inr, leb, suc,
  zero, ◌-◌, ◌≡◌,
}
use native.Mathlib.Nat.{mul_comm}
use ronzz_nextcloud.SpamDetect.{
  Entry, Fraction, blend, bump, min_user_counts, token_probability, user_probability,
}

-- Strictly between 0 and 1; an unknown token has none.
abbrev pub IsProbability : Option Fraction → Type 0
IsProbability none = Unit
IsProbability (some p) = (0 < p.num) × (p.num < p.den)

-- The order of two fractions, by the products.
abbrev pub IsBelow : Option Fraction → Option Fraction → Type 0
IsBelow (some p) (some q) = p.num * q.den < q.num * p.den
IsBelow _ _ = ⊥

mul-lt : (a b c : ℕ) → a < b → 0 < c → a * c < b * c
mul-lt a b c h k = grind arith

mul-pos : (a b : ℕ) → 0 < a → 0 < b → 0 < a * b
mul-pos a b h k = grind arith

-- A mean of two numbers between 0 and a bound lies between them too.
mean_bounds :
    (t a b d : ℕ)
    → t < 5
    → (0 < a) × (a < d)
    → (0 < b) × (b < d)
    → (0 < t * a + (5 - t) * b) × (t * a + (5 - t) * b < 5 * d)
mean_bounds zero a b d h ha hb = omega arith
mean_bounds (suc zero) a b d h ha hb = omega arith
mean_bounds (suc (suc zero)) a b d h ha hb = omega arith
mean_bounds (suc (suc (suc zero))) a b d h ha hb = omega arith
mean_bounds (suc (suc (suc (suc zero)))) a b d h ha hb = omega arith
mean_bounds (suc (suc (suc (suc (suc t))))) a b d h ha hb = absurd (omega arith)

blend-IsProbability :
    (total : ℕ) (p seed : Fraction)
    → total < min_user_counts
    → IsProbability (some p)
    → IsProbability (some seed)
    → IsProbability (some (blend total p seed))
blend-IsProbability total p seed h hp hs =
    mean_bounds total (p.num * seed.den) (seed.num * p.den) (p.den * seed.den) h
      (mul-pos p.num seed.den hp.0 (omega arith), mul-lt p.num p.den seed.den hp.1 (omega arith))
      (
        mul-pos seed.num p.den hs.0 (omega arith),
        omega (arith, mul-lt seed.num seed.den p.den hs.1 (omega arith), mul_comm p.den seed.den),
      )

token_probability_trusted :
    (seed : Option Fraction) (e : Entry)
    → min_user_counts ≤ e.spam_count + e.ham_count
    → token_probability seed (some e) ≡ some (user_probability e)
unfolding token_probability
token_probability_trusted none e h = ground arith
token_probability_trusted (some seed) e h = ground arith

-- If the seed table holds probabilities strictly between 0 and 1, so is the probability of every
-- token, whatever its counts, and so the logarithms of it and of its complement are defined.
pub token_probability-IsProbability :
    (seed : Option Fraction) (e : Option Entry)
    → IsProbability seed
    → IsProbability (token_probability seed e)
unfolding token_probability
token_probability-IsProbability none none h = tt
token_probability-IsProbability (some seed) none h = h
token_probability-IsProbability none (some e) h = ground arith
token_probability-IsProbability (some seed) (some e) h =
    elim (Bool-cases (leb min_user_counts (e.spam_count + e.ham_count))) [
      | inl trusted ↦ rw trusted (omega arith)
      | inr few ↦ rw few (
          blend-IsProbability (e.spam_count + e.ham_count) (user_probability e) seed (ground arith)
            (omega arith) h)
    ]

-- Of a token with five reports, one more report as spam raises the probability, and one more as
-- ham lowers it, whatever the seed table says.
pub token_probability-bump :
    (now : ℕ) (seed : Option Fraction) (e : Entry)
    → min_user_counts ≤ e.spam_count + e.ham_count
    → IsBelow (token_probability seed (some e)) (token_probability seed (some (bump now true e)))
      × IsBelow (token_probability seed (some (bump now false e))) (token_probability seed (some e))
unfolding bump
token_probability-bump now seed e h =
    rw
      (
        token_probability_trusted seed e h,
        token_probability_trusted seed (bump now true e) (omega arith),
        token_probability_trusted seed (bump now false e) (omega arith),
      )
      (grind arith, grind arith)
