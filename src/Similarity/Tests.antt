-- ===== src/Similarity/Tests.antt =====
-- Tests of the similarity detector, and the theorems on it at concrete inputs.
use ronzz_nextcloud.Prelude.{
  List, [], arith, eq_iff, map, none, refl, some, take, true, ℕ, ◌*◌, ◌+◌, ◌∷◌, ◌≡◌,
}
use ronzz_nextcloud.Domain.{characters, extract_domain, is_space, lstrip, rstrip}
use ronzz_nextcloud.SpamDetect.Tokenize.{text_of, tokenize}
use ronzz_nextcloud.Similarity.{Corpus, add_spam}
use ronzz_nextcloud.Similarity.Signature.{
  Hashes, content_hash, entries, make_shingles, minhash_signature, normalize, unpack,
}
use ronzz_nextcloud.Similarity.Sets.{minhash_signature_same}
use ronzz_nextcloud.Similarity.Check.{check_repeated, check_similarity, rounded}
use ronzz_nextcloud.Similarity.Corpora.{
  Added, number_added, occurrences, occurrences-run_added, run_added,
}
use ronzz_nextcloud.Similarity.Reports.{check_repeated-run_added, check_similarity-add_spam}

-- Digests that are good enough for a test.
abbrev digests : Hashes
digests = record { md5_word = λ s. characters s * 7919; sha256 = λ s. s }

normal_form : normalize "  Buy  NOW\n" ≡ "buy now"
unfolding normalize
normal_form = refl

shingles : make_shingles ("a" ∷ "b" ∷ "c" ∷ []) ≡ "a b" ∷ "b c" ∷ []
unfolding make_shingles
shingles = refl

first_entry : take 2 (entries digests ("ab" ∷ [])) ≡ 2654422119 ∷ 1013894828 ∷ []
unfolding entries
first_entry = refl

abbrev rounds : List ℕ
unfolding rounded
rounds = map rounded (1 ∷ 4 ∷ 12 ∷ 90 ∷ [])

half_to_even : rounds ≡ 78 ∷ 312 ∷ 938 ∷ 7031 ∷ []
unfolding rounds rounded
half_to_even = refl

unpack_short : unpack (1 ∷ 2 ∷ []) ≡ none
unfolding unpack
unpack_short = refl

minhash_signature_same_example :
    minhash_signature digests ("a b" ∷ "b c" ∷ [])
    ≡ minhash_signature digests ("b c" ∷ "a b" ∷ "b c" ∷ [])
minhash_signature_same_example =
    minhash_signature_same digests ("a b" ∷ "b c" ∷ []) ("b c" ∷ "a b" ∷ "b c" ∷ [])
      (λ s. ground (arith, eq_iff "a b" s, eq_iff "b c" s))

abbrev added_message : ℕ → Added
added_message t = record {
  at = t;
  message_uuid = "u1";
  subject = "Buy pills";
  body = "buy pills";
  account = "me@x.org";
  from_addr = "eve@spam.org";
}

abbrev no_corpus : Corpus
no_corpus = record { signatures = []; hashes = [] }

check_similarity-add_spam_example :
    check_similarity digests "pills" "buy Pills buy" "me@x.org" 100
      (add_spam digests 5 "u1" "Buy pills" "buy pills" "me@x.org" "eve@spam.org" no_corpus)
    ≡ record {
      score = 10000;
      matched_uuid = some "u1";
      is_near_duplicate = true;
      is_similar = true;
    }
unfolding text_of tokenize make_shingles lstrip rstrip is_space
check_similarity-add_spam_example =
    check_similarity-add_spam digests (added_message 5) no_corpus "pills" "buy Pills buy" 99 tt refl
      refl (λ s. ground (arith, eq_iff "buy pills" s, eq_iff "pills buy" s))

occurrences-run_added_example :
    occurrences "buy pills buy pills" "spam.org" "me@x.org"
      (run_added digests (added_message 1 ∷ added_message 2 ∷ []) no_corpus).hashes
    ≡ occurrences "buy pills buy pills" "spam.org" "me@x.org" no_corpus.hashes
      + number_added digests "buy pills buy pills" "spam.org" "me@x.org"
          (added_message 1 ∷ added_message 2 ∷ [])
occurrences-run_added_example =
    occurrences-run_added digests (added_message 1 ∷ added_message 2 ∷ []) no_corpus
      "buy pills buy pills" "spam.org" "me@x.org"

third_copy_is_repeated :
    (check_repeated digests "Buy pills" "buy  pills" "eve@spam.org" "me@x.org" (
      run_added digests
        (added_message 1 ∷ added_message 2 ∷ added_message 3 ∷ [])
        no_corpus)).is_repeated
    ≡ true
unfolding text_of normalize content_hash extract_domain number_added lstrip rstrip is_space
third_copy_is_repeated =
    check_repeated-run_added digests (added_message 1 ∷ added_message 2 ∷ added_message 3 ∷ [])
      no_corpus "Buy pills" "buy  pills" "eve@spam.org" "me@x.org" refl
      (ground (arith, eq_iff "me@x.org" "")) (ground (arith, eq_iff "spam.org" "")) (omega arith)

why :
    (check_repeated digests "Buy pills" "buy pills" "eve@spam.org" "me@x.org" (
      run_added digests
        (added_message 1 ∷ added_message 2 ∷ added_message 3 ∷ [])
        no_corpus)).reason
    ≡ "Same content from spam.org (3×)"
unfolding check_repeated run_added
why = refl
