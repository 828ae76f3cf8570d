-- ===== src/Phishing/Parse.antt =====
-- The parsers of mailwatch/src/mailwatch/email/filters/phishing.py: domains, links and From headers.
-- Of urllib.parse.urlparse it uses the host name, here by the rules of urlsplit without the checks of
-- an address in brackets. Lower-casing changes ASCII letters only.
use ronzz_nextcloud.Prelude.{
  Bool, List, Option, String, [], false, if◌then◌else◌, leb, none, not, refl, some, str_eq, suc,
  zero, ℕ, ◌&&◌, ◌-◌, ◌==◌, ◌||◌, ◌∷◌, ◌≡◌,
}
use ronzz_nextcloud.Prelude.Text.{contains}
use ronzz_nextcloud.Domain.{
  after_last_at, characters, has_at, is_space, lower, lstrip, rstrip, strip,
}
use ronzz_nextcloud.SpamDetect.Tokenize.{after, is_alnum, is_digit, same_char, same_letter, span}
use Prim.Native.Char.{code}

-- What urlsplit removes before it reads: leading controls and spaces, and tabs and line breaks.
unfoldable pub clean : String → String
clean String.[] = ""
clean (String.◌∷◌ c s) =
    let rest = clean s in
    if code c == 9 || code c == 10 || code c == 13 then rest else String.◌∷◌ c rest

abbrev pub is_scheme_char : ℕ → Bool
is_scheme_char c = is_alnum c || c == b'+' || c == b'-' || c == b'.'

abbrev pub starts_with_letter : String → Bool
starts_with_letter String.[] = false
starts_with_letter (String.◌∷◌ c s) = is_alnum (code c) && not (is_digit (code c))

-- What is left of a URL behind its scheme, if it has one.
unfoldable pub after_any_scheme : String → String
unfolding span after
after_any_scheme url =
    let r = span is_scheme_char url in
    elim (after same_char ":" r.1) [
      | some rest ↦ if starts_with_letter r.0 then rest else url
      | none ↦ url
    ]

-- The part between `//` and the first of `/?#`, or "".
unfoldable pub netloc : String → String
unfolding after_any_scheme span after clean lstrip
netloc url = elim (after same_char "//" (after_any_scheme (clean (lstrip (λ c. leb c 32) url)))) [
  | some rest ↦ (span (λ c. not (c == b'/' || c == b'?' || c == b'#')) rest).0
  | none ↦ ""
]

abbrev pub is_not : ℕ → ℕ → Bool
is_not d c = not (c == d)

-- The host of a network location; `none` is the ValueError of a bracket without the other one.
unfoldable pub host_of : String → Option String
unfolding span after after_last_at
host_of net =
    let info = after_last_at net in
    if (contains "[" net && not (contains "]" net)) || (contains "]" net && not (contains "[" net))
    then none
    else elim (after same_char "[" (span (is_not b'[') info).1) [
      | some inside ↦ some (span (is_not b']') inside).0
      | none ↦ some (span (is_not b':') info).0
    ]

-- `_extract_domain`: of an address, or of a URL, in lower case.
unfoldable pub extract_domain : String → Option String
unfolding netloc host_of after_last_at lower has_at lstrip rstrip is_space
extract_domain email_or_url =
    let s = strip is_space email_or_url in
    if has_at s && not (contains "://" s)
    then some (strip (λ c. c == b'>' || c == 32 || c == 9) (lower (after_last_at s)))
    else elim (host_of (netloc s)) [
      | none ↦ none
      | some host ↦ if str_eq host "" then none else some (lower host)
    ]

-- `"` behind a run of other characters: the run, if it is not empty, and what follows.
unfoldable pub quoted : String → Option (String × String)
unfolding span after
quoted s =
    let r = span (is_not 34) s in
    if str_eq r.0 ""
    then none
    else elim (after same_char "\"" r.1) [ none ↦ none | some rest ↦ some (r.0, rest) ]

-- `<a\s+href="([^"]+)"` at the start of a text: the link and what follows.
unfoldable pub match_href : String → Option (String × String)
unfolding after span quoted is_space
match_href s = elim (after same_letter "<a" s) [
  | none ↦ none
  | some r ↦
      let gap = span is_space r in
      if str_eq gap.0 ""
      then none
      else elim (after same_letter "href=\"" gap.1) [ none ↦ none | some q ↦ quoted q ]
]

-- `_RE_HREF.findall`; the number is what is left to pass of the last match.
unfoldable pub find_hrefs : ℕ → String → List String
unfolding match_href
find_hrefs k String.[] = []
find_hrefs (suc k) (String.◌∷◌ c s) = find_hrefs k s
find_hrefs zero (String.◌∷◌ c s) = elim (match_href (String.◌∷◌ c s)) [
  | some r ↦ r.0 ∷ find_hrefs (characters s - characters r.1) s
  | none ↦ find_hrefs 0 s
]

-- `_extract_urls`; no HTML is "".
unfoldable pub extract_urls : String → List String
unfolding find_hrefs
extract_urls html = find_hrefs 0 html

-- `<([^>]+)>$`: the address.
unfoldable pub angle : String → Option String
unfolding span after
angle s = elim (after same_char "<" s) [
  | none ↦ none
  | some r ↦
      let a = span (is_not b'>') r in
      if not (str_eq a.0 "") && str_eq a.1 ">" then some a.0 else none
]

-- `^"([^"]*)"\s*<([^>]+)>$`
unfoldable pub quoted_name : String → Option (String × String)
unfolding span after angle lstrip is_space
quoted_name s = elim (after same_char "\"" s) [
  | none ↦ none
  | some r ↦
      let name = span (is_not 34) r in
      elim (after same_char "\"" name.1) [
        | none ↦ none
        | some rest ↦ elim (angle (lstrip is_space rest)) [
          | none ↦ none
          | some a ↦ some (name.0, a)
        ]
      ]
]

-- `^([^<]+)\s*<([^>]+)>$`
unfoldable pub plain_name : String → Option (String × String)
unfolding span angle
plain_name s =
    let name = span (is_not b'<') s in
    if str_eq name.0 ""
    then none
    else elim (angle name.1) [ none ↦ none | some a ↦ some (name.0, a) ]

abbrev pub stripped : String × String → String × String
stripped (name, a) = (strip is_space name, strip is_space a)

-- `_parse_from_header`: the display name and the address.
unfoldable pub parse_from_header : String → String × String
unfolding quoted_name plain_name lstrip rstrip is_space
parse_from_header from_addr =
    let s = strip is_space from_addr in
    elim (quoted_name s) [
      | some r ↦ stripped r
      | none ↦ elim (plain_name s) [ some r ↦ stripped r | none ↦ ("", s) ]
    ]

domain_of_address : extract_domain "Eve <eve@PayPal.com>" ≡ some "paypal.com"
unfolding extract_domain
domain_of_address = refl

domain_of_url :
    extract_domain "https://user:pw@Login.Example.org:8443/x?y@z" ≡ some "login.example.org"
unfolding extract_domain
domain_of_url = refl

domain_of_path : extract_domain "/relative/path" ≡ none
unfolding extract_domain
domain_of_path = refl

links :
    extract_urls "<p><A  HREF=\"http://a.b\">x</a><a class=\"c\" href=\"u\"><a href=\"v\">"
    ≡ "http://a.b" ∷ "v" ∷ []
unfolding extract_urls
links = refl

header : parse_from_header " \"Pay Pal\" <eve@x.org> " ≡ ("Pay Pal", "eve@x.org")
unfolding parse_from_header
header = refl

bare_header : parse_from_header "eve@x.org" ≡ ("", "eve@x.org")
unfolding parse_from_header
bare_header = refl
