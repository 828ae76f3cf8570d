-- ===== src/Imap/Listing/Format.antt =====
-- The lines that list_folders of mailwatch/src/mailwatch/email/imap/client.py reads.
use ronzz_nextcloud.Prelude.{
  Bool, String, ap, arith, false, not, refl, some, str_eq, true, ℕ, ◌==◌, ◌∙◌, ◌≡◌,
}
use ronzz_nextcloud.Errors.{ok}
use ronzz_nextcloud.Imap.Listing.{
  on_match, after_spaces, bytes, delimiter_and_mailbox, mailbox, match_list, parse_list_response,
  quoted, special_use_of, words, ◌>>=◌,
}
use ronzz_nextcloud.Imap.Names.{split_char}
use ronzz_nextcloud.Domain.{lstrip}
use Prim.Native.Char.{Char, code}
use text.Mathlib.TextLemmas.{cons-append, nil-append}
use Prim.Native.String.{◌++◌ as cat}

-- The characters of a text all pass a test.
abbrev pub Each : (ℕ → Bool) → String → Type 0
Each p String.[] = Unit
Each p (String.◌∷◌ c s) = (p (code c) ≡ true) × Each p s

abbrev pub without : ℕ → ℕ → Bool
without q c = not (c == q)

found_first : (q : Char) (rest : String) → split_char (code q) (String.◌∷◌ q rest) ≡ some ("", rest)
unfolding split_char
found_first q rest = ground arith

found_later :
    (q c : Char) (s : String) (r : String × String)
    → without (code q) (code c) ≡ true
    → split_char (code q) s ≡ some r
    → split_char (code q) (String.◌∷◌ c s) ≡ some (String.◌∷◌ c r.0, r.1)
unfolding split_char
found_later q c s r h e = ground (arith, e)

split_char_lem :
    (q : Char) (s rest : String)
    → Each (without (code q)) s
    → split_char (code q) (cat s (String.◌∷◌ q rest)) ≡ some (s, rest)
split_char_lem q String.[] rest h =
    ap (split_char (code q)) (nil-append (String.◌∷◌ q rest)) ∙ found_first q rest
split_char_lem q (String.◌∷◌ c s) rest h =
    ap (split_char (code q)) (cons-append c s (String.◌∷◌ q rest))
    ∙ found_later q c (cat s (String.◌∷◌ q rest)) (s, rest) h.0 (split_char_lem q s rest h.1)

mailbox_lem :
    (s name rest : String)
    → split_char b'"' s ≡ some (name, rest)
    → mailbox (String.◌∷◌ " " (String.◌∷◌ "\"" s)) ≡ some name
unfolding mailbox ◌>>=◌ after_spaces quoted lstrip
mailbox_lem s name rest e = rw e refl

delimiter_lem :
    (s d rest name : String)
    → split_char b'"' s ≡ some (d, rest)
    → mailbox rest ≡ some name
    → delimiter_and_mailbox (String.◌∷◌ "\"" s) ≡ some (d, name)
unfolding delimiter_and_mailbox ◌>>=◌ quoted
delimiter_lem s d rest name e m = rw (e, m) refl

match_list_lem :
    (s flags t : String) (r : String × String)
    → split_char b')' s ≡ some (flags, String.◌∷◌ " " (String.◌∷◌ "\"" t))
    → delimiter_and_mailbox (String.◌∷◌ "\"" t) ≡ some r
    → match_list (String.◌∷◌ "(" s) ≡ some (flags, r)
unfolding match_list ◌>>=◌ after_spaces lstrip
match_list_lem s flags t r e m = rw (e, m) refl

parse_matched :
    (line flags d name : String)
    → match_list line ≡ some (flags, (d, name))
    → str_eq d "" ≡ false
    → parse_list_response (bytes line)
      ≡ ok (
          some (record {
            flags = flags;
            delimiter = d;
            name = name;
            special_use = special_use_of (words flags);
          }))
unfolding parse_list_response
parse_matched line flags d name e f = ap on_match e ∙ rw f refl

-- `(flags) "delimiter" "name"`
abbrev pub list_line : String → String → String → String
list_line flags d name = String.◌∷◌ "(" (
    cat flags (
      String.◌∷◌ ")" (
        String.◌∷◌ " " (
          String.◌∷◌ "\"" (
            cat d (
              String.◌∷◌ "\""
                (String.◌∷◌ " " (String.◌∷◌ "\"" (cat name (String.◌∷◌ "\"" ""))))))))))

-- A line of a LIST reply in the quoted form is read back: the flags, which hold no parenthesis, the
-- delimiter, which is not empty, and the name, which hold no quotes, and the first special use.
pub parse_list_response-list_line :
    (flags d name : String)
    → Each (without b')') flags
    → Each (without b'"') d
    → Each (without b'"') name
    → str_eq d "" ≡ false
    → parse_list_response (bytes (list_line flags d name))
      ≡ ok (
          some (record {
            flags = flags;
            delimiter = d;
            name = name;
            special_use = special_use_of (words flags);
          }))
parse_list_response-list_line flags d name hf hd hn e =
    let after_d = String.◌∷◌ " " (String.◌∷◌ "\"" (cat name (String.◌∷◌ "\"" ""))) in
    let quoted_d = cat d (String.◌∷◌ "\"" after_d) in
    parse_matched (list_line flags d name) flags d name
      (match_list_lem _ flags quoted_d (d, name) (split_char_lem ")" flags _ hf)
        (delimiter_lem quoted_d d after_d name (split_char_lem "\"" d after_d hd)
          (mailbox_lem _ name "" (split_char_lem "\"" name "" hn))))
      e
