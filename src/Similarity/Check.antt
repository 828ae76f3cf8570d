-- ===== src/Similarity/Check.antt =====
-- The queries of SpamSimilarityDetector: check_similarity, check_repeated and the counts.
use ronzz_nextcloud.Prelude.{
  Bool, List, Option, String, [], false, if◌then◌else◌, leb, length, ltb, none, some, str_eq, take,
  true, ℕ, ◌%◌, ◌&&◌, ◌*◌, ◌+◌, ◌/◌, ◌||◌, ◌∷◌,
}
use Prim.Native.String.{◌++◌ as cat}
use ronzz_nextcloud.Prelude.Decimal.{decimal}
use ronzz_nextcloud.Domain.{extract_domain, is_space, lstrip, rstrip}
use ronzz_nextcloud.SpamDetect.Tokenize.{text_of}
use ronzz_nextcloud.Similarity.{
  ContentHash, Corpus, SpamSignature, domain_or_empty, is_blank, signature_of,
}
use ronzz_nextcloud.Similarity.Signature.{content_hash, Hashes, jaccard_from_bytes, num_perm}

-- `best_score >= _NEAR_DUPE_THRESHOLD`, 0.7, and `_SIMILAR_THRESHOLD`, 0.4, for a count out of 128
abbrev pub is_near : ℕ → Bool
is_near k = leb (7 * num_perm) (10 * k)

abbrev pub is_close : ℕ → Bool
is_close k = leb (4 * num_perm) (10 * k)

pub record Similar : Type 0 where
  pub score : ℕ
  pub matched_uuid : Option String
  pub is_near_duplicate : Bool
  pub is_similar : Bool

-- `round(k / 128, 4)`: a quotient of 128 is exact, and half goes to the even neighbour.
unfoldable pub rounded : ℕ → ℕ
rounded k =
    let q = 10000 * k / num_perm in
    let r = 10000 * k % num_perm in if ltb r 64 then q else if ltb 64 r then q + 1 else q + q % 2

-- `WHERE account_email = ?`, or all rows.
unfoldable pub of_account : String → List SpamSignature → List SpamSignature
of_account account [] = []
of_account account (row ∷ rows) =
    let rest = of_account account rows in
    if str_eq account "" || str_eq row.account_email account then row ∷ rest else rest

-- `ORDER BY created_at DESC`; rows of one time stay in the order of insertion.
unfoldable pub insert_newest : SpamSignature → List SpamSignature → List SpamSignature
insert_newest row [] = row ∷ []
insert_newest row (r ∷ rows) =
    if leb r.created_at row.created_at then row ∷ (r ∷ rows) else r ∷ insert_newest row rows

unfoldable pub newest_first : List SpamSignature → List SpamSignature
unfolding insert_newest
newest_first [] = []
newest_first (row ∷ rows) = insert_newest row (newest_first rows)

-- The best count and its row.
abbrev pub Best : Type 0
Best = ℕ × Option String

-- One row of the loop; a signature of another length is passed over.
abbrev pub better : Best → String → Option ℕ → Best
better b uuid none = b
better b uuid (some k) = if ltb b.0 k then (k, some uuid) else b

-- The loop stops at a near-duplicate that is better than all before.
unfoldable pub best_of : List ℕ → List SpamSignature → Best → Best
unfolding jaccard_from_bytes
best_of query [] b = b
best_of query (row ∷ rows) b =
    let next = better b row.message_uuid (jaccard_from_bytes query row.signature) in
    let rest = best_of query rows next in if ltb b.0 next.0 && is_near next.0 then next else rest

unfoldable pub verdict : Best → Similar
unfolding rounded
verdict b = record {
  score = rounded b.0;
  matched_uuid = b.1;
  is_near_duplicate = is_near b.0;
  is_similar = is_close b.0;
}

-- check_similarity; no account is "".
unfoldable pub check_similarity : Hashes → String → String → String → ℕ → Corpus → Similar
unfolding signature_of text_of best_of newest_first of_account verdict is_space lstrip rstrip
check_similarity h subject body account limit c =
    let text = text_of subject body in
    if is_blank text
    then verdict (0, none)
    else verdict (
        best_of (signature_of h text) (take limit (newest_first (of_account account c.signatures)))
          (0, none))

pub record Repeated : Type 0 where
  pub is_repeated : Bool
  pub occurrence_count : ℕ
  pub unique_senders : ℕ
  pub reason : String

abbrev pub not_seen : Repeated
not_seen = record { is_repeated = false; occurrence_count = 0; unique_senders = 0; reason = "" }

-- `WHERE content_hash = ? AND account_email = ?`
unfoldable pub of_content : String → String → List ContentHash → List ContentHash
of_content content account [] = []
of_content content account (row ∷ rows) =
    let rest = of_content content account rows in
    if str_eq row.content_hash content && str_eq row.account_email account then row ∷ rest else rest

unfoldable pub total_occurrences : List ContentHash → ℕ
total_occurrences [] = 0
total_occurrences (row ∷ rows) = row.occurrence_count + total_occurrences rows

-- _REPEATED_SAME_SENDER_MAX and _REPEATED_DIFF_SENDER_MIN
abbrev pub same_sender_max : ℕ
same_sender_max = 3

abbrev pub diff_sender_min : ℕ
diff_sender_min = 2

-- The first row of the sender with too many occurrences: its count.
unfoldable pub harassment : String → List ContentHash → Option ℕ
harassment domain [] = none
harassment domain (row ∷ rows) =
    if str_eq row.sender_domain domain && leb same_sender_max row.occurrence_count
    then some row.occurrence_count
    else harassment domain rows

abbrev pub answer : List ContentHash → Bool → String → Repeated
answer rows b why = record {
  is_repeated = b;
  occurrence_count = total_occurrences rows;
  unique_senders = length rows;
  reason = why;
}

abbrev pub judge_senders : List ContentHash → Repeated
judge_senders rows =
    if leb diff_sender_min (length rows)
    then answer rows true
        (cat "Same content from " (cat (decimal (length rows)) " different senders"))
    else answer rows false ""

-- The answer from the rows of the content.
unfoldable pub judge_rows : String → List ContentHash → Repeated
unfolding harassment total_occurrences decimal
judge_rows domain [] = not_seen
judge_rows domain (row ∷ rows) =
    elim (if str_eq domain "" then none else harassment domain (row ∷ rows)) [
      | some k ↦
          answer (row ∷ rows) true
            (cat "Same content from " (cat domain (cat " (" (cat (decimal k) "×)"))))
      | none ↦ judge_senders (row ∷ rows)
    ]

unfoldable pub check_repeated : Hashes → String → String → String → String → Corpus → Repeated
unfolding text_of content_hash extract_domain of_content judge_rows is_space lstrip rstrip
check_repeated h subject body from_addr account c =
    let text = text_of subject body in
    if is_blank text || str_eq account ""
    then not_seen
    else judge_rows (domain_or_empty (extract_domain from_addr))
        (of_content (content_hash h text) account c.hashes)

-- count_signatures and count_content_hashes; no account is "".
unfoldable pub count_signatures : String → Corpus → ℕ
unfolding of_account
count_signatures account c = length (of_account account c.signatures)

abbrev pub hashes_of : String → List ContentHash → List ContentHash
hashes_of account [] = []
hashes_of account (row ∷ rows) =
    let rest = hashes_of account rows in
    if str_eq account "" || str_eq row.account_email account then row ∷ rest else rest

unfoldable pub count_content_hashes : String → Corpus → ℕ
count_content_hashes account c = length (hashes_of account c.hashes)

pub record SimilarityStats : Type 0 where
  pub signatures : ℕ
  pub content_hashes : ℕ

unfoldable pub similarity_stats : Corpus → SimilarityStats
unfolding count_signatures count_content_hashes
similarity_stats c = record {
  signatures = count_signatures "" c;
  content_hashes = count_content_hashes "" c;
}
