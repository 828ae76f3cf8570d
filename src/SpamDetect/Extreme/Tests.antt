-- ===== src/SpamDetect/Extreme/Tests.antt =====
-- Tests of the selection, with numbers in units of 1/1000 for the floats.
use ronzz_nextcloud.Prelude.{
  All, Bool, List, [], arith, length, refl, some, suc, true, zero, ℕ, ◌*◌, ◌+◌, ◌/◌, ◌∷◌, ◌≡◌,
}
use ronzz_nextcloud.Prelude.Int.{ℤ, pos, leb_ℤ, neg_part, pos_part, sub_ℕ, ◌+ℤ◌}
use ronzz_nextcloud.SpamDetect.Chi2.{Floats, insert_by, select, sort_by}
use ronzz_nextcloud.SpamDetect.Extreme.{at_most_as_far, left_out, passing, select_lem}

abbrev opposite : ℤ → ℤ
opposite x = sub_ℕ (neg_part x) (pos_part x)

abbrev milli : Floats ℤ
milli = record {
  fraction = λ p. pos (p.num * 1000 / p.den);
  plus = λ x y. x +ℤ y;
  minus = λ x y. x +ℤ opposite y;
  times = λ x y. x;
  divided = λ x y. some x;
  log = λ x. some x;
  exp = λ x. some x;
  lgamma = λ x. some x;
  abs = λ x. pos (pos_part x + neg_part x);
  round4 = λ x. x;
  total = λ xs. pos 0;
  at_most = leb_ℤ;
}

abbrev steps : ℕ → List ℤ
steps zero = []
steps (suc n) = pos (60 * n) ∷ steps n

-- The farthest come first, and of 17 probabilities the two next to 0.5 are left out.
ranked : select milli (steps 4) ≡ pos 0 ∷ pos 60 ∷ pos 120 ∷ pos 180 ∷ []
unfolding select sort_by insert_by ◌+ℤ◌
ranked = refl

middle : left_out milli (steps 17) ≡ pos 540 ∷ pos 480 ∷ []
unfolding sort_by insert_by ◌+ℤ◌
middle = refl

select_lem_example :
    (length (select milli (steps 17)) ≡ 15)
    × ((f : ℤ → Bool)
        → passing f (select milli (steps 17)) + passing f (left_out milli (steps 17))
          ≡ passing f (steps 17))
    × All
        (λ p. All (λ q. at_most_as_far milli q p ≡ true) (left_out milli (steps 17)))
        (select milli (steps 17))
select_lem_example = select_lem milli (λ x y h. ground arith) (λ x y z h k. ground arith) (steps 17)
