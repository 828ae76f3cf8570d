-- ===== src/Domain.antt =====
-- `_extract_domain` of mailwatch/src/mailwatch/email/filters/spam_similarity.py: the domain of a
-- From header. Lower-casing changes ASCII letters only.
pub mod Plain
mod Tests
use Prim.Native.Char.{Char, code}
use ronzz_nextcloud.Prelude.{
  Bool, Option, String, false, if◌then◌else◌, leb, none, not, refl, some, str_eq, suc, zero, ℕ,
  ◌&&◌, ◌+◌, ◌-◌, ◌==◌, ◌||◌, ◌≡◌, [], ◌∷◌,
}

-- Python's str.isspace and `\s`
unfoldable pub is_space : ℕ → Bool
is_space c =
    (leb 9 c && leb c 13)
    || (leb 28 c && leb c 32)
    || c == 0x85
    || c == 0xa0
    || c == 0x1680
    || (leb 0x2000 c && leb c 0x200a)
    || c == 0x2028
    || c == 0x2029
    || c == 0x202f
    || c == 0x205f
    || c == 0x3000

abbrev pub letters : String
letters = "abcdefghijklmnopqrstuvwxyz"

-- The character at a position, or the given one behind the end.
unfoldable pub nth : String → ℕ → Char → Char
nth String.[] n d = d
nth (String.◌∷◌ c s) zero d = c
nth (String.◌∷◌ c s) (suc n) d = nth s n d

unfoldable pub lower : String → String
unfolding nth
lower String.[] = ""
lower (String.◌∷◌ c s) =
    String.◌∷◌ (if leb 65 (code c) && leb (code c) 90 then nth letters (code c - 65) c else c)
      (lower s)

-- `s.lstrip(…)`, for a test of the characters to strip
unfoldable pub lstrip : (ℕ → Bool) → String → String
lstrip p String.[] = ""
lstrip p (String.◌∷◌ c s) = let rest = lstrip p s in if p (code c) then rest else String.◌∷◌ c s

unfoldable pub rstrip : (ℕ → Bool) → String → String
rstrip p String.[] = ""
rstrip p (String.◌∷◌ c s) =
    let rest = rstrip p s in if p (code c) && str_eq rest "" then "" else String.◌∷◌ c rest

abbrev pub strip : (ℕ → Bool) → String → String
strip p s = lstrip p (rstrip p s)

unfoldable pub has_at : String → Bool
has_at String.[] = false
has_at (String.◌∷◌ c s) = code c == b'@' || has_at s

-- An `@` with a character behind it.
has_at_followed : String → Bool
has_at_followed String.[] = false
has_at_followed (String.◌∷◌ d String.[]) = false
has_at_followed (String.◌∷◌ d (String.◌∷◌ e t)) = code d == b'@' || has_at_followed (String.◌∷◌ e t)

-- An `@` with a character before it and one behind it, in a text without spaces.
unfoldable pub has_inner_at : String → Bool
unfolding has_at_followed
has_inner_at String.[] = false
has_inner_at (String.◌∷◌ c s) = has_at_followed s

-- The first run of characters other than spaces, and what follows it.
unfoldable pub first_run : String → String × String
unfolding is_space
first_run String.[] = ("", "")
first_run (String.◌∷◌ c s) =
    let r = first_run s in if is_space (code c) then ("", s) else (String.◌∷◌ c r.0, r.1)

-- `re.search(r"(\S+@\S+)", s)`: the leftmost match is the first run with an inner `@`, whole. The
-- fuel is the number of characters, which bounds the number of runs.
unfoldable pub search_address : ℕ → String → Option String
unfolding first_run has_inner_at
search_address zero s = none
search_address (suc fuel) String.[] = none
search_address (suc fuel) (String.◌∷◌ c s) =
    let r = first_run (String.◌∷◌ c s) in
    let rest = search_address fuel r.1 in if has_inner_at r.0 then some r.0 else rest

-- `s.split("@")[-1]`
unfoldable pub after_last_at : String → String
unfolding has_at
after_last_at String.[] = ""
after_last_at (String.◌∷◌ c s) =
    let rest = after_last_at s in
    if has_at s then rest else if code c == b'@' then s else String.◌∷◌ c s

abbrev pub characters : String → ℕ
characters String.[] = 0
characters (String.◌∷◌ c s) = suc (characters s)

-- What is taken for the address: a match, stripped of `>` and of spaces, or the whole header.
unfoldable pub address : String → String
unfolding search_address lstrip rstrip is_space
address from_addr = elim (search_address (characters from_addr + 1) from_addr) [
  | none ↦ strip is_space from_addr
  | some m ↦ strip is_space (strip (λ c. c == b'>') m)
]

-- An empty header and a text with no `@` have no domain.
unfoldable pub extract_domain : String → Option String
unfolding address after_last_at lower has_at
extract_domain from_addr =
    if str_eq from_addr "" || not (has_at (address from_addr))
    then none
    else some
        (strip (λ c. c == b'>' || c == 32 || c == 9) (lower (after_last_at (address from_addr))))

named_address : extract_domain "Eve <Eve@Spam.ORG>" ≡ some "spam.org"
unfolding extract_domain
named_address = refl

no_address : extract_domain "undisclosed recipients" ≡ none
unfolding extract_domain
no_address = refl
