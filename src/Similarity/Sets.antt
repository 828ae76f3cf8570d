-- ===== src/Similarity/Sets.antt =====
-- A signature depends on the set of the shingles only, and is read back from its bytes.
use ronzz_nextcloud.Prelude.{
  Bool, List, String, [], any, arith, refl, str_eq, true, ℕ, ◌+◌, ◌∷◌, ◌≡◌, All, Bool-cases, ap,
  eq_iff, eq_refl, false, inl, inr, length, some, suc, sym, zero, ◌*◌, ◌<◌, ◌^◌, ◌∙◌, ◌%◌, ◌/◌, ◌≢◌,
}
use ronzz_nextcloud.Similarity.Signature.{
  Hashes, lower_all, lower_entries, entries, jaccard_from_bytes, matches, minhash_signature,
  num_perm, pack, replicate, unpack, words, compare_entries,
}

abbrev pub has : List String → String → Bool
has ss s = any (λ t. str_eq t s) ss

has_self : (t : String) (ts : List String) → false ≢ has (t ∷ ts) t
has_self t ts e = ground (arith, eq_refl t)

-- Steps of the outer loop commute, and a step made once stays.
lower_entries_comm :
    (g h i : ℕ) (sig : List ℕ)
    → lower_entries g i (lower_entries h i sig) ≡ lower_entries h i (lower_entries g i sig)
unfolding lower_entries
lower_entries_comm g h i [] = refl
lower_entries_comm g h i (x ∷ sig) = ground (arith, lower_entries_comm g h (i + 1) sig)

lower_entries_idem :
    (h i : ℕ) (sig : List ℕ) → lower_entries h i (lower_entries h i sig) ≡ lower_entries h i sig
unfolding lower_entries
lower_entries_idem h i [] = refl
lower_entries_idem h i (x ∷ sig) = ground (arith, lower_entries_idem h (i + 1) sig)

module _ (h : Hashes) where
  abbrev step : String → List ℕ → List ℕ
  step s = lower_entries (h.md5_word s) 0

  lower_all-step :
      (s : String) (ss : List String) (sig : List ℕ)
      → lower_all h ss (step s sig) ≡ step s (lower_all h ss sig)
  unfolding lower_all
  lower_all-step s [] sig = refl
  lower_all-step s (t ∷ ss) sig =
      rw (lower_entries_comm (h.md5_word t) (h.md5_word s) 0 sig) (lower_all-step s ss (step t sig))

  -- A shingle that the loop has read changes nothing more.
  step_absorbed :
      (s : String) (ss : List String) (sig : List ℕ)
      → has ss s ≡ true
      → step s (lower_all h ss sig) ≡ lower_all h ss sig
  unfolding lower_all
  step_absorbed s [] sig m = cc
  step_absorbed s (t ∷ ss) sig m = elim (Bool-cases (str_eq t s)) [
    | inl e ↦ cc (
      (eq_iff t s).0 e,
      lower_all-step s ss (step s sig),
      lower_entries_idem (h.md5_word s) 0 sig,
    )
    | inr e ↦ step_absorbed s ss (step t sig) (rw e at m)
  ]

  lower_all_absorbed :
      (ss ts : List String) (sig : List ℕ)
      → ((s : String) → has ss s ≡ true → has ts s ≡ true)
      → lower_all h ss (lower_all h ts sig) ≡ lower_all h ts sig
  unfolding lower_all
  lower_all_absorbed [] ts sig m = refl
  lower_all_absorbed (s ∷ ss) ts sig m =
      rw (step_absorbed s ts sig (m s (ground (arith, eq_refl s))))
        (lower_all_absorbed ss ts sig (λ x p. m x (ground arith)))

  lower_all_comm :
      (ss ts : List String) (sig : List ℕ)
      → lower_all h ss (lower_all h ts sig) ≡ lower_all h ts (lower_all h ss sig)
  unfolding lower_all
  lower_all_comm [] ts sig = refl
  lower_all_comm (s ∷ ss) ts sig =
      rw (← lower_all-step s ts sig) (lower_all_comm ss ts (step s sig))

  lower_all_same :
      (ss ts : List String) (sig : List ℕ)
      → ((s : String) → has ss s ≡ has ts s)
      → lower_all h ss sig ≡ lower_all h ts sig
  lower_all_same ss ts sig m = cc (
    lower_all_comm ss ts sig,
    lower_all_absorbed ss ts sig (λ s p. cc (m s)),
    lower_all_absorbed ts ss sig (λ s p. cc (m s)),
  )

  -- Two lists of shingles with the same members have the same signature, whatever the order of the
  -- shingles and how often each stands.
  pub minhash_signature_same :
      (ss ts : List String)
      → ((s : String) → has ss s ≡ has ts s)
      → minhash_signature h ss ≡ minhash_signature h ts
  unfolding minhash_signature
  minhash_signature_same [] [] m = refl
  minhash_signature_same [] (t ∷ ts) m = absurd (has_self t ts (m t))
  minhash_signature_same (s ∷ ss) [] m = absurd (has_self s ss (sym (m s)))
  minhash_signature_same (s ∷ ss) (t ∷ ts) m =
      ap pack (lower_all_same (s ∷ ss) (t ∷ ts) (replicate num_perm 0xffffffff) m)

length-lower_entries : (h i : ℕ) (sig : List ℕ) → length (lower_entries h i sig) ≡ length sig
unfolding lower_entries
length-lower_entries h i [] = refl
length-lower_entries h i (x ∷ sig) = omega (arith, length-lower_entries h (i + 1) sig)

length-lower_all :
    (h : Hashes) (ss : List String) (sig : List ℕ) → length (lower_all h ss sig) ≡ length sig
unfolding lower_all
length-lower_all h [] sig = refl
length-lower_all h (s ∷ ss) sig =
    length-lower_all h ss (lower_entries (h.md5_word s) 0 sig)
    ∙ length-lower_entries (h.md5_word s) 0 sig

length-replicate : (n v : ℕ) → length (replicate n v) ≡ n
unfolding replicate
length-replicate zero v = refl
length-replicate (suc n) v = omega (arith, length-replicate n v)

length-entries : (h : Hashes) (ss : List String) → length (entries h ss) ≡ num_perm
unfolding entries
length-entries h [] = length-replicate num_perm 0
length-entries h (s ∷ ss) =
    length-lower_all h (s ∷ ss) (replicate num_perm 0xffffffff)
    ∙ length-replicate num_perm 0xffffffff

abbrev IsWord : ℕ → Type 0
IsWord x = x < 2 ^ 32

All-lower_entries : (h i : ℕ) (sig : List ℕ) → All IsWord sig → All IsWord (lower_entries h i sig)
unfolding lower_entries
All-lower_entries h i [] w = tt
All-lower_entries h i (x ∷ sig) w = (ground arith, All-lower_entries h (i + 1) sig w.1)

All-lower_all :
    (h : Hashes) (ss : List String) (sig : List ℕ)
    → All IsWord sig
    → All IsWord (lower_all h ss sig)
unfolding lower_all
All-lower_all h [] sig w = w
All-lower_all h (s ∷ ss) sig w =
    All-lower_all h ss (lower_entries (h.md5_word s) 0 sig)
      (All-lower_entries (h.md5_word s) 0 sig w)

All-replicate : (n v : ℕ) → IsWord v → All IsWord (replicate n v)
unfolding replicate
All-replicate zero v w = tt
All-replicate (suc n) v w = (w, All-replicate n v w)

All-entries : (h : Hashes) (ss : List String) → All IsWord (entries h ss)
unfolding entries
All-entries h [] = All-replicate num_perm 0 (omega arith)
All-entries h (s ∷ ss) =
    All-lower_all h (s ∷ ss) (replicate num_perm 0xffffffff)
      (All-replicate num_perm 0xffffffff (omega arith))

length-pack : (xs : List ℕ) → length (pack xs) ≡ 4 * length xs
unfolding pack
length-pack [] = refl
length-pack (x ∷ xs) = omega (arith, length-pack xs)

words-pack : (xs : List ℕ) → All IsWord xs → words (pack xs) ≡ xs
unfolding words pack
words-pack [] w = refl
words-pack (x ∷ xs) w =
    let e : x % 256
          + 256 * (x / 256 % 256)
          + 65536 * (x / 65536 % 256)
          + 16777216 * (x / 16777216 % 256)
        ≡ x =
      omega arith in
    rw (e, words-pack xs w.1) refl

unpack-pack : (xs : List ℕ) → length xs ≡ num_perm → All IsWord xs → unpack (pack xs) ≡ some xs
unfolding unpack
unpack-pack xs e w = rw (length-pack xs, e, words-pack xs w) refl

-- The bytes of a signature are read back as its 128 entries.
pub unpack-minhash_signature :
    (h : Hashes) (ss : List String) → unpack (minhash_signature h ss) ≡ some (entries h ss)
unpack-minhash_signature h ss =
    unfold minhash_signature in unpack-pack (entries h ss) (length-entries h ss) (All-entries h ss)

matches_self : (xs : List ℕ) → matches xs xs ≡ length xs
unfolding matches
matches_self [] = refl
matches_self (x ∷ xs) = ground (arith, matches_self xs)

jaccard_from_bytes_lem :
    (a b : List ℕ) → jaccard_from_bytes a b ≡ compare_entries (unpack a) (unpack b)
unfolding jaccard_from_bytes
jaccard_from_bytes_lem a b = refl

pub jaccard_self :
    (h : Hashes) (ss : List String)
    → jaccard_from_bytes (minhash_signature h ss) (minhash_signature h ss) ≡ some num_perm
jaccard_self h ss =
    let sig = minhash_signature h ss in
    rw (jaccard_from_bytes_lem sig sig, unpack-minhash_signature h ss, matches_self (entries h ss))
      (ap some (length-entries h ss))
