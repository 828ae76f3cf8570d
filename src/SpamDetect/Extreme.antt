-- ===== src/SpamDetect/Extreme.antt =====
-- What SpamClassifier.classify of mailwatch/src/mailwatch/email/filters/spam_detect.py combines.
mod Tests
use ronzz_nextcloud.Prelude.{
  Bool, List, [], arith, drop, false, if◌then◌else◌, length, min, not, refl, suc, true, zero, ℕ,
  ◌+◌, ◌∷◌, ◌≡◌, All, Bool-cases, inl, inr, take, ◌∙◌,
}
use ronzz_nextcloud.SpamDetect.Chi2.{Floats, extremity, insert_by, select, sort_by}

-- How many elements pass a test.
unfoldable pub passing : {A : Type 0} → (A → Bool) → List A → ℕ
passing f [] = 0
passing f (x ∷ xs) = (if f x then 1 else 0) + passing f xs

pub passing-insert_by :
    {A : Type 0} (above : A → A → Bool) (f : A → Bool) (x : A) (xs : List A)
    → passing f (insert_by above x xs) ≡ (if f x then 1 else 0) + passing f xs
unfolding insert_by passing
passing-insert_by above f x [] = refl
passing-insert_by above f x (y ∷ ys) = ground (arith, passing-insert_by above f x ys)

pub passing-sort_by :
    {A : Type 0} (above : A → A → Bool) (f : A → Bool) (xs : List A)
    → passing f (sort_by above xs) ≡ passing f xs
unfolding sort_by passing
passing-sort_by above f [] = refl
passing-sort_by above f (x ∷ xs) =
    rw (passing-insert_by above f x (sort_by above xs), passing-sort_by above f xs) refl

pub length-insert_by :
    {A : Type 0} (above : A → A → Bool) (x : A) (xs : List A)
    → length (insert_by above x xs) ≡ length xs + 1
unfolding insert_by
length-insert_by above x [] = refl
length-insert_by above x (y ∷ ys) = ground (arith, length-insert_by above x ys)

pub length-sort_by :
    {A : Type 0} (above : A → A → Bool) (xs : List A) → length (sort_by above xs) ≡ length xs
unfolding sort_by
length-sort_by above [] = refl
length-sort_by above (x ∷ xs) =
    omega (arith, length-insert_by above x (sort_by above xs), length-sort_by above xs)

pub length-take : {A : Type 0} (n : ℕ) (xs : List A) → length (take n xs) ≡ min n (length xs)
length-take zero xs = omega arith
length-take (suc n) [] = omega arith
length-take (suc n) (x ∷ xs) = omega (arith, length-take n xs)

pub passing-take :
    {A : Type 0} (f : A → Bool) (n : ℕ) (xs : List A)
    → passing f (take n xs) + passing f (drop n xs) ≡ passing f xs
unfolding passing
passing-take f zero xs = omega arith
passing-take f (suc n) [] = refl
passing-take f (suc n) (x ∷ xs) = omega (arith, passing-take f n xs)

module _ {A : Type 0} (at_most : A → A → Bool)
    (total : (x y : A) → at_most x y ≡ false → at_most y x ≡ true)
    (trans : (x y z : A) → at_most x y ≡ true → at_most y z ≡ true → at_most x z ≡ true) where
  abbrev above : A → A → Bool
  above x y = not (at_most x y)

  -- The elements are all at most `x`.
  abbrev pub Bounds : A → List A → Type 0
  Bounds x ys = All (λ y. at_most y x ≡ true) ys

  abbrev pub IsRanked : List A → Type 0
  IsRanked [] = Unit
  IsRanked (x ∷ xs) = Bounds x xs × IsRanked xs

  Bounds-weaken : (x y : A) (zs : List A) → at_most y x ≡ true → Bounds y zs → Bounds x zs
  Bounds-weaken x y [] h b = tt
  Bounds-weaken x y (z ∷ zs) h b = (trans z y x b.0 h, Bounds-weaken x y zs h b.1)

  Bounds-insert_by :
      (x y : A) (zs : List A) → at_most x y ≡ true → Bounds y zs → Bounds y (insert_by above x zs)
  unfolding insert_by
  Bounds-insert_by x y [] h b = (h, tt)
  Bounds-insert_by x y (z ∷ zs) h b = elim (Bool-cases (at_most z x)) [
    | inl e ↦ rw e (h, b)
    | inr e ↦ rw e (b.0, Bounds-insert_by x y zs h b.1)
  ]

  insert_by-IsRanked : (x : A) (ys : List A) → IsRanked ys → IsRanked (insert_by above x ys)
  unfolding insert_by
  insert_by-IsRanked x [] h = (tt, tt)
  insert_by-IsRanked x (y ∷ ys) h = elim (Bool-cases (at_most y x)) [
    | inl e ↦ rw e ((e, Bounds-weaken x y ys e h.0), h)
    | inr e ↦ rw e (Bounds-insert_by x y ys (total y x e) h.0, insert_by-IsRanked x ys h.1)
  ]

  pub sort_by-IsRanked : (xs : List A) → IsRanked (sort_by above xs)
  unfolding sort_by
  sort_by-IsRanked [] = tt
  sort_by-IsRanked (x ∷ xs) = insert_by-IsRanked x (sort_by above xs) (sort_by-IsRanked xs)

  Bounds-drop : (x : A) (n : ℕ) (xs : List A) → Bounds x xs → Bounds x (drop n xs)
  Bounds-drop x zero xs h = h
  Bounds-drop x (suc n) [] h = tt
  Bounds-drop x (suc n) (y ∷ xs) h = Bounds-drop x n xs h.1

  -- Each of the first elements bounds each of the others.
  pub take-Bounds-drop :
      (n : ℕ) (xs : List A) → IsRanked xs → All (λ x. Bounds x (drop n xs)) (take n xs)
  take-Bounds-drop zero xs h = tt
  take-Bounds-drop (suc n) [] h = tt
  take-Bounds-drop (suc n) (x ∷ xs) h = (Bounds-drop x n xs h.0, take-Bounds-drop n xs h.1)

module _ {F : Type 0} (fl : Floats F) where
  -- At most as far from 0.5.
  abbrev pub at_most_as_far : F → F → Bool
  at_most_as_far p q = fl.at_most (extremity fl p) (extremity fl q)

  abbrev pub left_out : List F → List F
  left_out ps = drop (min 15 (length ps)) (sort_by (λ p q. not (at_most_as_far p q)) ps)

  -- If `at_most` is a total order of the floats, the combination of any probabilities reads 15 of
  -- them, or all if they are fewer; what it reads and what it leaves out are the given ones, each as often;
  -- and each that it reads is at least as far from 0.5 as each that it leaves out.
  pub select_lem :
      ((x y : F) → fl.at_most x y ≡ false → fl.at_most y x ≡ true)
      → ((x y z : F) → fl.at_most x y ≡ true → fl.at_most y z ≡ true → fl.at_most x z ≡ true)
      → (ps : List F)
      → (length (select fl ps) ≡ min 15 (length ps))
        × ((f : F → Bool) → passing f (select fl ps) + passing f (left_out ps) ≡ passing f ps)
        × All (λ p. All (λ q. at_most_as_far q p ≡ true) (left_out ps)) (select fl ps)
  unfolding select
  select_lem total trans ps = (
    omega (
      arith,
      length-take (min 15 (length ps)) (sort_by (λ p q. not (at_most_as_far p q)) ps),
      length-sort_by (λ p q. not (at_most_as_far p q)) ps,
    ),
    λ f.
        passing-take f (min 15 (length ps)) (sort_by (λ p q. not (at_most_as_far p q)) ps)
        ∙ passing-sort_by (λ p q. not (at_most_as_far p q)) f ps,
    take-Bounds-drop at_most_as_far (λ x y. total (extremity fl x) (extremity fl y))
        (λ x y z. trans (extremity fl x) (extremity fl y) (extremity fl z)) (min 15 (length ps))
        (sort_by (λ p q. not (at_most_as_far p q)) ps)
        (sort_by-IsRanked at_most_as_far (λ x y. total (extremity fl x) (extremity fl y))
          (λ x y z. trans (extremity fl x) (extremity fl y) (extremity fl z)) ps),
  )
