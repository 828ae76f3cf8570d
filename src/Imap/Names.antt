-- ===== src/Imap/Names.antt =====
-- The folder names of mailwatch/src/mailwatch/email/imap/client.py: _imap_quote_folder and
-- decode_imap_utf7. What base64 and UTF-16 make of an encoded run is a parameter.
use ronzz_nextcloud.Prelude.{
  Option, String, if◌then◌else◌, none, not, refl, some, str_eq, suc, zero, ℕ, ◌%◌, ◌-◌, ◌==◌, ◌≡◌,
  ◌≤◌, Bool-cases, arith, false, inl, inr, true, ◌<◌,
}
use ronzz_nextcloud.Domain.{characters}
use ronzz_nextcloud.Sieve.{escape_char, quote_reject_message}
use ronzz_nextcloud.Sieve.Quote.{read_quoted, read_quoted-quote_reject_message}
use Prim.Native.Char.{Char, code}
use text.Mathlib.TextLemmas.{append_assoc, cons-append, nil-append}
use Prim.Native.String.{◌++◌ as cat}

-- `_imap_quote_folder`
unfoldable pub quote_folder : String → String
unfolding escape_char
quote_folder name = cat "\"" (cat (escape_char b'"' (escape_char b'\\' name)) "\"")

-- A quoted string with its opening quote.
abbrev pub read_name : String → Option (String × String)
read_name String.[] = none
read_name (String.◌∷◌ c s) = if code c == b'"' then read_quoted false s else none

-- The text before the first character of a code, and the text behind it.
unfoldable pub split_char : ℕ → String → Option (String × String)
split_char q String.[] = none
split_char q (String.◌∷◌ c s) =
    let rest = split_char q s in
    if code c == q
    then some ("", s)
    else elim rest [ none ↦ none | some r ↦ some (String.◌∷◌ c r.0, r.1) ]

-- `"=" * n`
abbrev equals_signs : ℕ → String
equals_signs zero = ""
equals_signs (suc n) = String.◌∷◌ "=" (equals_signs n)

unfoldable pub padded : String → String
padded encoded =
    let pad = 4 - characters encoded % 4 in
    if pad == 4 then encoded else cat encoded (equals_signs pad)

-- The text of a run between `&` and `-`; what cannot be decoded stays as it is.
abbrev pub run_text : (String → Option String) → String → String
run_text base64 encoded = elim (base64 (padded encoded)) [
  | none ↦ cat "&" (cat encoded "-")
  | some decoded ↦ decoded
]

-- decode_imap_utf7, with the number of characters as fuel: each step reads at least one.
unfoldable pub decode_from : (String → Option String) → ℕ → String → String
unfolding split_char
decode_from base64 zero s = ""
decode_from base64 (suc fuel) String.[] = ""
decode_from base64 (suc fuel) (String.◌∷◌ c s) =
    let rest = decode_from base64 fuel s in
    if not (code c == b'&') then String.◌∷◌ c rest else elim (split_char b'-' s) [
      | none ↦ String.◌∷◌ c rest
      | some r ↦
          let after = decode_from base64 fuel r.1 in
          if str_eq r.0 "" then String.◌∷◌ c after else cat (run_text base64 r.0) after
    ]

unfoldable pub decode_imap_utf7 : (String → Option String) → String → String
unfolding decode_from
decode_imap_utf7 base64 name = decode_from base64 (characters name) name

-- The text with `&-` for every `&`.
unfoldable pub escape_ampersands : String → String
escape_ampersands String.[] = ""
escape_ampersands (String.◌∷◌ c s) =
    let rest = escape_ampersands s in
    if code c == b'&' then String.◌∷◌ c (String.◌∷◌ "-" rest) else String.◌∷◌ c rest

decode_escaped :
    (base64 : String → Option String) (n : ℕ) (c : Char) (s : String)
    → (code c == b'&') ≡ true
    → decode_from base64 (suc n) (String.◌∷◌ c (String.◌∷◌ "-" s))
      ≡ String.◌∷◌ c (decode_from base64 n s)
unfolding decode_from split_char
decode_escaped base64 n c s e = rw e refl

decode_plain :
    (base64 : String → Option String) (n : ℕ) (c : Char) (s : String)
    → (code c == b'&') ≡ false
    → decode_from base64 (suc n) (String.◌∷◌ c s) ≡ String.◌∷◌ c (decode_from base64 n s)
unfolding decode_from
decode_plain base64 n c s e = rw e refl

escape_nil : escape_ampersands "" ≡ ""
unfolding escape_ampersands
escape_nil = refl

escape_ampersand :
    (c : Char) (s : String)
    → escape_ampersands (String.◌∷◌ c s) ≡ (
        if code c == b'&'
        then String.◌∷◌ c (String.◌∷◌ "-" (escape_ampersands s))
        else String.◌∷◌ c (escape_ampersands s))
unfolding escape_ampersands
escape_ampersand c s = refl

longer :
    (c : Char) (s : String)
    → characters (escape_ampersands s) < characters (escape_ampersands (String.◌∷◌ c s))
unfolding escape_ampersands
longer c s = ground arith

decode_nil : (base64 : String → Option String) (n : ℕ) → decode_from base64 n "" ≡ ""
unfolding decode_from
decode_nil base64 zero = refl
decode_nil base64 (suc n) = refl

decode_from-escape_ampersands :
    (base64 : String → Option String) (s : String) (n : ℕ)
    → characters (escape_ampersands s) ≤ n
    → decode_from base64 n (escape_ampersands s) ≡ s
decode_from-escape_ampersands base64 String.[] n h = rw escape_nil (decode_nil base64 n)
decode_from-escape_ampersands base64 (String.◌∷◌ c s) zero h = absurd (omega (arith, longer c s))
decode_from-escape_ampersands base64 (String.◌∷◌ c s) (suc n) h =
    let ih = decode_from-escape_ampersands base64 s n (omega (arith, longer c s)) in
    elim (Bool-cases (code c == b'&')) [
      | inl e ↦
          rw (escape_ampersand c s, e, decode_escaped base64 n c (escape_ampersands s) e, ih) refl
      | inr e ↦
          rw (escape_ampersand c s, e, decode_plain base64 n c (escape_ampersands s) e, ih) refl
    ]

decode_imap_utf7-escape_ampersands :
    (base64 : String → Option String) (name : String)
    → decode_imap_utf7 base64 (escape_ampersands name) ≡ name
unfolding decode_imap_utf7
decode_imap_utf7-escape_ampersands base64 name =
    decode_from-escape_ampersands base64 name (characters (escape_ampersands name)) (omega arith)

-- A quoted folder name is read back by a reader of quoted strings, whatever the name holds and
-- whatever follows.
pub read_quoted-quote_folder :
    (name rest : String) → read_name (cat (quote_folder name) rest) ≡ some (name, rest)
unfolding quote_folder quote_reject_message
read_quoted-quote_folder name rest =
    rw
      (
        append_assoc "\"" (cat (quote_reject_message name) "\"") rest,
        append_assoc (quote_reject_message name) "\"" rest,
        cons-append "\"" "" (cat (quote_reject_message name) (cat "\"" rest)),
        nil-append (cat (quote_reject_message name) (cat "\"" rest)),
      )
      (read_quoted-quote_reject_message name rest)
