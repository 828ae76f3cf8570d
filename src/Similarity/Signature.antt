-- ===== src/Similarity/Signature.antt =====
-- The functions of mailwatch/src/mailwatch/email/filters/spam_similarity.py that are not methods:
-- the normal form of a text, its shingles, the signature as bytes and the estimate.
use ronzz_nextcloud.Prelude.{
  Bool, List, Option, String, [], false, if◌then◌else◌, length, ltb, none, some, suc, zero, ℕ, ◌%◌,
  ◌*◌, ◌+◌, ◌/◌, ◌==◌, ◌^◌, ◌∷◌,
}
use Prim.Native.Char.{code}
use Prim.Native.Nat.{bit_xor}
use Prim.Native.String.{◌++◌ as cat}
use ronzz_nextcloud.Domain.{is_space, lower, lstrip, rstrip, strip}

-- hashlib: the first 32 bits of an MD5 digest, and a SHA-256 digest in hexadecimal.
pub record Hashes : Type 0 where
  pub md5_word : String → ℕ
  pub sha256 : String → String

-- `re.sub(r"\s+", " ", s)`: whether the character before was a space.
unfoldable pub collapse : Bool → String → String
unfolding is_space
collapse spaced String.[] = ""
collapse spaced (String.◌∷◌ c s) =
    let space = is_space (code c) in
    let rest = collapse space s in
    if space then (if spaced then rest else cat " " rest) else String.◌∷◌ c rest

-- _normalize
unfoldable pub normalize : String → String
unfolding collapse lower lstrip rstrip is_space
normalize text = collapse false (strip is_space (lower text))

-- _content_hash
unfoldable pub content_hash : Hashes → String → String
unfolding normalize
content_hash h text = h.sha256 (normalize text)

abbrev pub pairs : String → List String → List String
pairs v [] = []
pairs v (w ∷ ws) = cat v (cat " " w) ∷ pairs w ws

-- _make_shingles
unfoldable pub make_shingles : List String → List String
make_shingles [] = []
make_shingles (w ∷ []) = w ∷ []
make_shingles (w ∷ (v ∷ ws)) = pairs w (v ∷ ws)

-- _NUM_PERM
abbrev pub num_perm : ℕ
num_perm = 128

-- `(h ^ ((i + 1) * 0x9E3779B9)) & 0xFFFFFFFF`
unfoldable pub mixed : ℕ → ℕ → ℕ
mixed h i = bit_xor h ((i + 1) * 0x9e3779b9) % 2 ^ 32

-- The inner loop from the position on: the smaller value stays.
unfoldable pub lower_entries : ℕ → ℕ → List ℕ → List ℕ
lower_entries h i [] = []
lower_entries h i (x ∷ sig) =
    (if ltb (mixed h i) x then mixed h i else x) ∷ lower_entries h (i + 1) sig

-- The outer loop.
unfoldable pub lower_all : Hashes → List String → List ℕ → List ℕ
unfolding lower_entries mixed
lower_all h [] sig = sig
lower_all h (s ∷ ss) sig = lower_all h ss (lower_entries (h.md5_word s) 0 sig)

unfoldable pub replicate : ℕ → ℕ → List ℕ
replicate zero v = []
replicate (suc n) v = v ∷ replicate n v

-- The entries of a signature.
unfoldable pub entries : Hashes → List String → List ℕ
unfolding replicate lower_all
entries h [] = replicate num_perm 0
entries h (s ∷ ss) = lower_all h (s ∷ ss) (replicate num_perm 0xffffffff)

-- `struct.pack("<128I", …)`: four bytes for each number, the lowest first.
unfoldable pub pack : List ℕ → List ℕ
pack [] = []
pack (x ∷ xs) = (x % 256) ∷ (x / 256 % 256) ∷ (x / 65536 % 256) ∷ (x / 16777216 % 256) ∷ pack xs

unfoldable pub words : List ℕ → List ℕ
words (a ∷ (b ∷ (c ∷ (d ∷ bytes)))) = (a + 256 * b + 65536 * c + 16777216 * d) ∷ words bytes
words _ = []

-- `struct.unpack("<128I", …)` wants 512 bytes.
unfoldable pub unpack : List ℕ → Option (List ℕ)
unfolding words
unpack bytes = if length bytes == 4 * num_perm then some (words bytes) else none

-- _minhash_signature
unfoldable pub minhash_signature : Hashes → List String → List ℕ
unfolding entries pack
minhash_signature h shingles = pack (entries h shingles)

unfoldable pub matches : List ℕ → List ℕ → ℕ
matches (x ∷ xs) (y ∷ ys) = (if x == y then 1 else 0) + matches xs ys
matches _ _ = 0

abbrev pub compare_entries : Option (List ℕ) → Option (List ℕ) → Option ℕ
compare_entries (some a) (some b) = some (matches a b)
compare_entries _ _ = none

-- _jaccard_from_bytes, times 128; `none` is the struct.error of a wrong length.
unfoldable pub jaccard_from_bytes : List ℕ → List ℕ → Option ℕ
unfolding unpack matches
jaccard_from_bytes sig1 sig2 = compare_entries (unpack sig1) (unpack sig2)
