-- ===== src/Sieve/Quote.antt =====
-- The quoted strings of sieve_block.py.
use ronzz_nextcloud.Prelude.{
  Bool, Option, String, false, if◌then◌else◌, none, refl, some, true, ◌==◌, ◌≡◌, arith, ◌||◌, ap,
  ◌∙◌,
}
use ronzz_nextcloud.Sieve.{escape_char, quote_reject_message}
use text.Mathlib.TextLemmas.{cons-append, nil-append}
use Prim.Native.Char.{Char, code}
use Prim.Native.String.{◌++◌}

-- A quoted string of RFC 5228, behind its opening quote: its text, and what follows the closing
-- quote. The flag says that the last character was a backslash.
unfoldable pub read_quoted : Bool → String → Option (String × String)
read_quoted escaped String.[] = none
read_quoted true (String.◌∷◌ c s) = elim (read_quoted false s) [
  | none ↦ none
  | some r ↦ some (String.◌∷◌ c r.0, r.1)
]
read_quoted false (String.◌∷◌ c s) =
    let after_backslash = read_quoted true s in
    let rest = read_quoted false s in
    if code c == b'"'
    then some ("", s)
    else if code c == b'\\'
    then after_backslash
    else elim rest [ none ↦ none | some r ↦ some (String.◌∷◌ c r.0, r.1) ]

-- The characters that get a backslash.
abbrev pub is_special : Char → Bool
is_special c = code c == b'\\' || code c == b'"'

quote_nil : quote_reject_message "" ≡ ""
unfolding quote_reject_message escape_char
quote_nil = refl

quote_cons :
    (c : Char) (text : String)
    → quote_reject_message (String.◌∷◌ c text) ≡ (
        if is_special c
        then String.◌∷◌ "\\" (String.◌∷◌ c (quote_reject_message text))
        else String.◌∷◌ c (quote_reject_message text))
unfolding quote_reject_message escape_char
quote_cons c text = ground arith

read_special :
    (c : Char) (s : String) (r : String × String)
    → read_quoted false s ≡ some r
    → read_quoted false (String.◌∷◌ "\\" (String.◌∷◌ c s)) ≡ some (String.◌∷◌ c r.0, r.1)
unfolding read_quoted
read_special c s r h = rw (h) refl

read_plain :
    (c : Char) (s : String) (r : String × String)
    → is_special c ≡ false
    → read_quoted false s ≡ some r
    → read_quoted false (String.◌∷◌ c s) ≡ some (String.◌∷◌ c r.0, r.1)
unfolding read_quoted
read_plain c s r p h = ground (arith, h)

read_end : (rest : String) → read_quoted false ("\"" ++ rest) ≡ some ("", rest)
unfolding read_quoted
read_end rest = rw (cons-append "\"" "" rest, nil-append rest) refl

-- A text that is quoted for a reject message is read back as it was, whatever follows it: no
-- character of it ends the string.
pub read_quoted-quote_reject_message :
    (text rest : String)
    → read_quoted false (quote_reject_message text ++ "\"" ++ rest) ≡ some (text, rest)
read_quoted-quote_reject_message String.[] rest =
    rw (quote_nil, nil-append ("\"" ++ rest)) (read_end rest)
read_quoted-quote_reject_message (String.◌∷◌ c text) rest =
    rw (quote_cons c text) (both (is_special c) refl (read_quoted-quote_reject_message text rest))
  where
    both :
        (b : Bool)
        → is_special c ≡ b
        → read_quoted false (quote_reject_message text ++ "\"" ++ rest) ≡ some (text, rest)
        → read_quoted false (
            (if b
              then String.◌∷◌ "\\" (String.◌∷◌ c (quote_reject_message text))
              else String.◌∷◌ c (quote_reject_message text))
            ++ "\""
            ++ rest)
          ≡ some (String.◌∷◌ c text, rest)
    both true p h =
        ap (read_quoted false) (cons-append _ _ _ ∙ ap (λ s. String.◌∷◌ "\\" s) (cons-append c _ _))
        ∙ read_special c _ (text, rest) h
    both false p h = ap (read_quoted false) (cons-append c _ _) ∙ read_plain c _ (text, rest) p h
