-- ===== src/SpamDetect/Chi2.antt =====
-- mailwatch/src/mailwatch/email/filters/spam_detect.py: _chi2_score and _gammainc. The floating-point numbers are a parameter; `none` is an exception of theirs.
use ronzz_nextcloud.Prelude.{
  take, Bool, List, Option, [], if◌then◌else◌, none, not, some, suc, zero, ℕ, ◌+◌, ◌^◌, ◌∷◌, length,
  ◌||◌, min,
}
use ronzz_nextcloud.SpamDetect.{Fraction}

-- The floats with what the code uses of them. `round4` is `round(x, 4)`, `total` is `sum(xs)`.
pub record Floats (F : Type 0) : Type 0 where
  pub fraction : Fraction → F
  pub plus : F → F → F
  pub minus : F → F → F
  pub times : F → F → F
  pub divided : F → F → Option F
  pub log : F → Option F
  pub exp : F → Option F
  pub lgamma : F → Option F
  pub abs : F → F
  pub round4 : F → F
  pub total : List F → F
  pub at_most : F → F → Bool

infixl 10 ◌>>=◌
unfoldable pub ◌>>=◌ : {A B : Type 0} → Option A → (A → Option B) → Option B
none >>= f = none
(some a) >>= f = f a

-- `sorted(xs, key=key, reverse=True)`, which keeps the order of equal keys: `is_above x y` is
-- `key(y) < key(x)`, and x goes before the first y that is not above it.
unfoldable pub insert_by : {A : Type 0} → (A → A → Bool) → A → List A → List A
insert_by is_above x [] = x ∷ []
insert_by is_above x (y ∷ ys) =
    let rest = insert_by is_above x ys in if is_above y x then y ∷ rest else x ∷ y ∷ ys

unfoldable pub sort_by : {A : Type 0} → (A → A → Bool) → List A → List A
unfolding insert_by
sort_by is_above [] = []
sort_by is_above (x ∷ xs) = insert_by is_above x (sort_by is_above xs)

module _ {F : Type 0} (fl : Floats F) where
  abbrev pub ratio : ℕ → ℕ → F
  ratio a b = fl.fraction (record { num = a; den = b })

  abbrev pub whole : ℕ → F
  whole n = ratio n 1

  abbrev pub negative : F → F
  negative x = fl.minus (whole 0) x

  -- `x < y`
  abbrev pub below : F → F → Bool
  below x y = not (fl.at_most y x)

  abbrev pub larger : F → F → F
  larger x y = if below x y then y else x

  -- `abs(p - 0.5)`
  abbrev pub extremity : F → F
  extremity p = fl.abs (fl.minus p (ratio 1 2))

  -- The series of _gammainc, which ends early when a term is too small to count.
  unfoldable pub series : ℕ → ℕ → F → F → F → F → Option F
  unfolding ◌>>=◌
  series zero k a x t s = some s
  series (suc n) k a x t s = do
    q ← fl.divided x (fl.plus a (whole k))
    let t = fl.times t q
    let s = fl.plus s t
    let rest = series n (k + 1) a x t s
    if below (fl.abs t) (fl.times (ratio 1 (10 ^ 15)) (fl.abs s)) then some s else rest

  -- `x` if its size is at least 1e-30, else 1e-30.
  abbrev pub not_tiny : F → F
  not_tiny x = if below (fl.abs x) (ratio 1 (10 ^ 30)) then ratio 1 (10 ^ 30) else x

  -- The continued fraction of _gammainc (Lentz's method), for the counters from `i` on.
  unfoldable pub fraction_from : ℕ → ℕ → F → F → F → F → F → Option F
  unfolding ◌>>=◌
  fraction_from zero i a b c d h = some h
  fraction_from (suc n) i a b c d h = do
    let an = fl.times (negative (whole i)) (fl.minus (whole i) a)
    let b = fl.plus b (whole 2)
    let d = not_tiny (fl.plus (fl.times an d) b)
    q ← fl.divided an c
    let c = not_tiny (fl.plus b q)
    d ← fl.divided (whole 1) d
    let delta = fl.times d c
    let h = fl.times h delta
    let rest = fraction_from n (i + 1) a b c d h
    if below (fl.abs (fl.minus delta (whole 1))) (ratio 1 (10 ^ 15)) then some h else rest

  -- `exp(-x + a * log(x) - lgamma(a))`
  unfoldable pub prefactor : F → F → Option F
  unfolding ◌>>=◌
  prefactor a x = do
    l ← fl.log x
    g ← fl.lgamma a
    fl.exp (fl.minus (fl.plus (negative x) (fl.times a l)) g)

  unfoldable pub by_series : F → F → Option F
  unfolding ◌>>=◌
  by_series a x = do
    t ← fl.divided (whole 1) a
    s ← series 199 1 a x t t
    p ← prefactor a x
    some (fl.times s p)

  unfoldable pub by_fraction : F → F → Option F
  unfolding ◌>>=◌
  by_fraction a x = do
    let b = fl.minus (fl.plus x (whole 1)) a
    c ← fl.divided (whole 1) (ratio 1 (10 ^ 30))
    d ← fl.divided (whole 1) b
    h ← fraction_from 199 1 a b c d d
    p ← prefactor a x
    some (fl.minus (whole 1) (fl.times p h))

  -- _gammainc
  unfoldable pub gammainc : F → F → Option F
  gammainc a x =
      if fl.at_most x (whole 0) || fl.at_most a (whole 0)
      then some (whole 0)
      else if below x (fl.plus a (whole 1))
      then by_series a x
      else by_fraction a x

  -- `math.log(max(f(p), eps)) for p in selected`
  unfoldable pub logs : (F → F) → List F → Option (List F)
  unfolding ◌>>=◌
  logs f [] = some []
  logs f (p ∷ ps) = do l ← fl.log (larger (f p) (ratio 1 (10 ^ 200))); ls ← logs f ps; some (l ∷ ls)

  -- The probabilities farthest from 0.5, 15 at most.
  unfoldable pub select : List F → List F
  unfolding sort_by
  select ps = take (min 15 (length ps)) (sort_by (λ p q. below (extremity q) (extremity p)) ps)

  -- `(s_score - h_score + 1.0) / 2.0`
  unfoldable pub combine : F → F → F → Option F
  unfolding ◌>>=◌ gammainc
  combine df h s = do
    half_df ← fl.divided df (whole 2)
    half_h ← fl.divided h (whole 2)
    h_score ← gammainc half_df half_h
    half_s ← fl.divided s (whole 2)
    s_score ← gammainc half_df half_s
    fl.divided (fl.plus (fl.minus s_score h_score) (whole 1)) (whole 2)

  -- `except Exception: return 0.5`
  abbrev pub or_half : Option F → F
  or_half none = ratio 1 2
  or_half (some x) = x

  -- _chi2_score. Only the logarithms stand outside of its try.
  unfoldable pub chi2_score : List F → Option F
  unfolding ◌>>=◌ combine select logs
  chi2_score [] = some (ratio 1 2)
  chi2_score (p ∷ ps) = do
    let selected = select (p ∷ ps)
    let n = min 15 (length (p ∷ ps))
    lh ← logs (λ q. q) selected
    ls ← logs (λ q. fl.minus (whole 1) q) selected
    let minus_two = negative (whole 2)
    some (
        or_half (
          combine (fl.times (whole 2) (whole n)) (fl.times minus_two (fl.total lh))
            (fl.times minus_two (fl.total ls))))
