-- ===== src/SpamDetect/Tokenize.antt =====
-- `_tokenize` of mailwatch/src/mailwatch/email/filters/spam_detect.py, with its four patterns
-- written out as scanners. `\d`, `\w` and lower-casing are those of ASCII.
use ronzz_nextcloud.Prelude.{
  Bool, List, Option, String, [], false, if◌then◌else◌, leb, ltb, none, not, refl, some, str_eq,
  suc, true, zero, ℕ, ◌&&◌, ◌++◌, ◌+◌, ◌-◌, ◌==◌, ◌||◌, ◌∷◌, ◌≡◌,
}
use Prim.Native.Char.{code}
use Prim.Native.String.{◌++◌ as cat}
use ronzz_nextcloud.Domain.{characters, is_space, lower}

abbrev pub is_digit : ℕ → Bool
is_digit c = leb 48 c && leb c 57

abbrev pub is_upper : ℕ → Bool
is_upper c = leb 65 c && leb c 90

-- `[A-Za-z0-9]`
abbrev pub is_alnum : ℕ → Bool
is_alnum c = is_digit c || is_upper c || (leb 97 c && leb c 122)

-- `\w`
abbrev pub is_word : ℕ → Bool
is_word c = is_alnum c || c == b'_'

-- The longest prefix of characters that pass the test, and the rest.
unfoldable pub span : (ℕ → Bool) → String → String × String
span p String.[] = ("", "")
span p (String.◌∷◌ c s) =
    let r = span p s in if p (code c) then (String.◌∷◌ c r.0, r.1) else ("", String.◌∷◌ c s)

-- What follows the prefix, which the test compares character by character.
unfoldable pub after : (ℕ → ℕ → Bool) → String → String → Option String
after eq String.[] s = some s
after eq (String.◌∷◌ d p) String.[] = none
after eq (String.◌∷◌ d p) (String.◌∷◌ c s) = if eq (code d) (code c) then after eq p s else none

-- For `re.I`: the pattern is in lower case.
abbrev pub same_letter : ℕ → ℕ → Bool
same_letter d c = d == c || (is_upper c && d == c + 32)

abbrev pub same_char : ℕ → ℕ → Bool
same_char d c = d == c

-- `https?://`
unfoldable pub after_scheme : (ℕ → ℕ → Bool) → String → Option String
unfolding after
after_scheme eq s = elim (after eq "https://" s) [
  | some rest ↦ some rest
  | none ↦ after eq "http://" s
]

-- `[^\s<>\"']`
unfoldable pub is_url_char : ℕ → Bool
unfolding is_space
is_url_char c = not (is_space c || c == b'<' || c == b'>' || c == 34 || c == 39)

-- The first characters of a text, as many as given.
unfoldable pub front : ℕ → String → String
front zero s = ""
front (suc n) String.[] = ""
front (suc n) (String.◌∷◌ c s) = String.◌∷◌ c (front n s)

-- `_RE_URL` at the start of a text: the URL.
unfoldable pub match_url : String → Option String
unfolding after_scheme span is_url_char front
match_url s = elim (after_scheme same_letter s) [
  | none ↦ none
  | some rest ↦
      let host = (span is_url_char rest).0 in
      if str_eq host ""
      then none
      else some (front ((characters s - characters rest) + characters host) s)
]

-- `_RE_URL.findall`: after a match the search goes on behind it; the number is what is left to pass.
unfoldable pub find_urls : ℕ → String → List String
unfolding match_url
find_urls k String.[] = []
find_urls (suc k) (String.◌∷◌ c s) = find_urls k s
find_urls zero (String.◌∷◌ c s) = elim (match_url (String.◌∷◌ c s)) [
  | some u ↦ u ∷ find_urls (characters u - 1) s
  | none ↦ find_urls 0 s
]

-- `re.match(r"https?://([^/]+)", url)`, in this case only: the token of the domain.
unfoldable pub domain_tokens : String → List String
unfolding after_scheme span lower
domain_tokens u = elim (after_scheme same_char u) [
  | none ↦ []
  | some rest ↦
      let host = (span (λ c. not (c == b'/')) rest).0 in
      if str_eq host "" then [] else cat "dom:" (lower host) ∷ []
]

-- `text.replace(url, "", 1)`
unfoldable pub remove_first : String → String → String
unfolding after
remove_first u String.[] = ""
remove_first u (String.◌∷◌ c s) = elim (after same_char u (String.◌∷◌ c s)) [
  | some rest ↦ rest
  | none ↦ String.◌∷◌ c (remove_first u s)
]

-- The tokens of the URLs, and the text without them.
unfoldable pub take_urls : List String → String → List String × String
unfolding domain_tokens remove_first
take_urls [] text = ([], text)
take_urls (u ∷ us) text =
    let r = take_urls us (remove_first u text) in ("http://" ∷ (domain_tokens u ++ r.0), r.1)

-- `(?:[.,]\d+)?`: the number of characters it takes.
unfoldable pub fraction_length : String → ℕ
unfolding span
fraction_length String.[] = 0
fraction_length (String.◌∷◌ c s) =
    let n = characters (span is_digit s).0 in
    if (code c == b'.' || code c == b',') && ltb 0 n then n + 1 else 0

-- `[\$\€\£\¥]`
abbrev pub is_currency : ℕ → Bool
is_currency c = c == b'$' || c == 0x20ac || c == 0xa3 || c == 0xa5

-- `(?:USD|EUR|GBP)`
unfoldable pub at_code : String → Bool
unfolding after
at_code s =
    is_some (after same_char "USD" s)
    || is_some (after same_char "EUR" s)
    || is_some (after same_char "GBP" s)
  where
    is_some : Option String → Bool
    is_some none = false
    is_some (some r) = true

-- The length of a match of `_RE_MONEY` at the start of a text, 0 for none.
unfoldable pub money_length : String → ℕ
unfolding span fraction_length at_code is_space
money_length String.[] = 0
money_length (String.◌∷◌ c s) =
    let sum = span is_digit s in
    let amount = span is_digit (String.◌∷◌ c s) in
    let gap = span is_space amount.1 in
    if is_currency (code c) && ltb 0 (characters sum.0)
    then suc (characters sum.0) + fraction_length sum.1
    else (if is_digit (code c) && at_code gap.1
        then characters amount.0 + characters gap.0 + 3
        else 0)

-- `_RE_MONEY.finditer`: a token for each match.
unfoldable pub money_tokens : ℕ → String → List String
unfolding money_length
money_tokens k String.[] = []
money_tokens (suc k) (String.◌∷◌ c s) = money_tokens k s
money_tokens zero (String.◌∷◌ c s) = elim (money_length (String.◌∷◌ c s)) [
  | zero ↦ money_tokens 0 s
  | suc n ↦ "$" ∷ money_tokens n s
]

-- Whether a word that ends here had capitals only, four at least; `none` is a word with another
-- character.
abbrev pub is_long : Option ℕ → Bool
is_long none = false
is_long (some n) = leb 4 n

abbrev pub read_caps : Option ℕ → ℕ → Option ℕ
read_caps none c = if is_word c then none else some 0
read_caps (some n) c = if is_upper c then some (n + 1) else if is_word c then none else some 0

-- `_RE_CAPS_WORD.search`: a word of capitals only, between word boundaries.
unfoldable pub has_caps_word : Option ℕ → String → Bool
has_caps_word st String.[] = is_long st
has_caps_word st (String.◌∷◌ c s) =
    (not (is_word (code c)) && is_long st) || has_caps_word (read_caps st (code c)) s

-- A token of `_RE_TOKEN` is kept in lower case, if it has two characters.
abbrev pub keep : String → List String → List String
keep tok rest = if leb 2 (characters tok) then lower tok ∷ rest else rest

-- `_RE_TOKEN.finditer`: the run of letters and digits that the text begins with, and the tokens
-- behind it. A character of its second alternative is a token of one character, so it is dropped.
unfoldable pub runs : String → String × List String
unfolding lower
runs String.[] = ("", [])
runs (String.◌∷◌ c s) =
    let r = runs s in if is_alnum (code c) then (String.◌∷◌ c r.0, r.1) else ("", keep r.0 r.1)

unfoldable pub word_tokens : String → List String
unfolding runs
word_tokens s = keep (runs s).0 (runs s).1

unfoldable pub tokenize : String → List String
unfolding find_urls take_urls money_tokens has_caps_word word_tokens
tokenize text =
    let r = take_urls (find_urls 0 text) text in
    r.0
    ++ (money_tokens 0 r.1
        ++ ((if has_caps_word (some 0) r.1 then "ALL-CAPS" ∷ [] else []) ++ word_tokens r.1))

-- `f"{subject} {body}" if subject else (body or "")`
unfoldable pub text_of : String → String → String
text_of subject body = if str_eq subject "" then body else cat subject (cat " " body)

tokenize_message :
    tokenize "FREE money: $5,000 or 20 EUR at HTTPS://Win.example/a?b x"
    ≡ "http://" ∷ "$" ∷ "$" ∷ "ALL-CAPS" ∷ "free" ∷ "money" ∷ "000" ∷ "or" ∷ "20" ∷ "eur" ∷ "at"
      ∷ []
unfolding tokenize
tokenize_message = refl

tokenize_link : tokenize "see https://Win.Example/a" ≡ "http://" ∷ "dom:win.example" ∷ "see" ∷ []
unfolding tokenize
tokenize_link = refl
