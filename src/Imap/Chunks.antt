-- ===== src/Imap/Chunks.antt =====
-- How client.py cuts the list of UIDs into one FETCH for each chunk.
use ronzz_nextcloud.Prelude.{
  All, List, [], ap, arith, drop, length, refl, suc, take, zero, ℕ, ◌++◌, ◌∙◌, ◌∷◌, ◌≡◌, ◌≤◌,
}
use ronzz_nextcloud.Imap.{chunks, chunks_of}

abbrev pub flatten : List (List ℕ) → List ℕ
flatten [] = []
flatten (xs ∷ xss) = xs ++ flatten xss

take-drop : (n : ℕ) (xs : List ℕ) → take n xs ++ drop n xs ≡ xs
take-drop zero xs = refl
take-drop (suc n) [] = refl
take-drop (suc n) (x ∷ xs) = ap (λ l. x ∷ l) (take-drop n xs)

length-take : (n : ℕ) (xs : List ℕ) → length (take n xs) ≤ n
length-take zero xs = omega arith
length-take (suc n) [] = omega arith
length-take (suc n) (x ∷ xs) = omega (arith, length-take n xs)

length-drop : (n : ℕ) (xs : List ℕ) → length (drop n xs) ≤ length xs
length-drop zero xs = omega arith
length-drop (suc n) [] = omega arith
length-drop (suc n) (x ∷ xs) = omega (arith, length-drop n xs)

-- A request has at least one UID and at most `size`.
abbrev pub IsRequest : ℕ → List ℕ → Type 0
IsRequest size uids = (1 ≤ length uids) × (length uids ≤ size)

chunks_of_lem :
    (fuel size : ℕ) (uids : List ℕ)
    → length uids ≤ fuel
    → 1 ≤ size
    → (flatten (chunks_of fuel size uids) ≡ uids) × All (IsRequest size) (chunks_of fuel size uids)
chunks_of_lem zero size [] h k = (refl, tt)
chunks_of_lem zero size (u ∷ us) h k = absurd (omega arith)
chunks_of_lem (suc fuel) size [] h k = (refl, tt)
chunks_of_lem (suc fuel) zero (u ∷ us) h k = absurd (omega arith)
chunks_of_lem (suc fuel) (suc size) (u ∷ us) h k =
    let rest =
      chunks_of_lem fuel (suc size) (drop size us) (omega (arith, length-drop size us)) k in
    (
      ap (λ l. u ∷ take size us ++ l) rest.0 ∙ ap (λ l. u ∷ l) (take-drop size us),
      ((omega arith, omega (arith, length-take size us)), rest.1),
    )

-- For a chunk size that is not 0, the requests together ask for exactly the given UIDs, in their
-- order, and each asks for at least one and at most `size` of them.
pub chunks_lem :
    (size : ℕ) (uids : List ℕ)
    → 1 ≤ size
    → (flatten (chunks size uids) ≡ uids) × All (IsRequest size) (chunks size uids)
unfolding chunks
chunks_lem size uids k = chunks_of_lem (length uids) size uids (omega arith) k
