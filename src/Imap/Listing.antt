-- ===== src/Imap/Listing.antt =====
-- mailwatch/src/mailwatch/email/imap/client.py: _parse_list_response and list_folders. The reply to
-- LIST is a parameter; its bytes are read as ASCII.
pub mod Format
use ronzz_nextcloud.Prelude.{
  Bool, List, Option, String, [], false, if◌then◌else◌, leb, none, some, str_eq, true, ℕ, ◌&&◌,
  ◌==◌, ◌||◌, ◌∷◌, All, not, ◌≡◌,
}
use ronzz_nextcloud.Errors.{Result, ok, other_error, raised, runtime_error, ◌>>◌}
use ronzz_nextcloud.Imap.Names.{split_char}
use ronzz_nextcloud.Domain.{is_space, lstrip}
use ronzz_nextcloud.Prelude.Dict.{Dict, get}
use Prim.Native.Char.{Char, code}

-- What imaplib gives for a line: bytes, or a tuple for a literal and None for no lines at all.
pub data Line : Type 0 where
  bytes : String → Line
  no_bytes : Line

pub record Folder : Type 0 where
  pub flags : String
  pub delimiter : String
  pub name : String
  pub special_use : Option String

-- `\s` in a pattern of bytes
abbrev pub is_byte_space : ℕ → Bool
is_byte_space c = (leb 9 c && leb c 13) || c == 32

-- `\s+`, up to the first character that is no space
unfoldable pub after_spaces : String → Option String
unfolding lstrip
after_spaces String.[] = none
after_spaces (String.◌∷◌ c s) =
    if is_byte_space (code c) then some (lstrip is_byte_space s) else none

-- `"([^"]*)"`
unfoldable pub quoted : String → Option (String × String)
unfolding split_char
quoted String.[] = none
quoted (String.◌∷◌ c s) = if code c == b'"' then split_char b'"' s else none

-- `\S*` and what follows it
unfoldable pub span_word : String → String × String
span_word String.[] = ("", "")
span_word (String.◌∷◌ c s) =
    let r = span_word s in
    if is_byte_space (code c) then ("", String.◌∷◌ c s) else (String.◌∷◌ c r.0, r.1)

-- `(\S+)`
unfoldable pub bare : String → Option (String × String)
unfolding span_word
bare s = let r = span_word s in if str_eq r.0 "" then none else some r

infixl 10 ◌>>=◌
unfoldable pub ◌>>=◌ : {A B : Type 0} → Option A → (A → Option B) → Option B
none >>= f = none
(some a) >>= f = f a

abbrev pub or_else : {A : Type 0} → Option A → Option A → Option A
or_else (some a) o = some a
or_else none o = o

-- `(?:"([^"]*)"|(\S+))` behind spaces
unfoldable pub mailbox : String → Option String
unfolding ◌>>=◌ after_spaces quoted bare
mailbox s = do t ← after_spaces s; found ← or_else (quoted t) (bare t); some found.0

-- The delimiter with the mailbox behind it; a quoted delimiter that fails is read as a bare one.
unfoldable pub delimiter_and_mailbox : String → Option (String × String)
unfolding ◌>>=◌ mailbox quoted bare
delimiter_and_mailbox t =
    or_else (do d ← quoted t; n ← mailbox d.1; some (d.0, n))
      (do d ← bare t; n ← mailbox d.1; some (d.0, n))

-- _LIST_RE.match
unfoldable pub match_list : String → Option (String × (String × String))
unfolding ◌>>=◌ split_char after_spaces delimiter_and_mailbox
match_list String.[] = none
match_list (String.◌∷◌ c s) =
    if code c == b'('
    then (do
      flags ← split_char b')' s
      t ← after_spaces flags.1
      rest ← delimiter_and_mailbox t
      some (flags.0, rest))
    else none

-- `flags.split()`
abbrev pub attach : Char → String → List String → List String
attach c s [] = String.◌∷◌ c "" ∷ []
attach c String.[] (w ∷ ws) = String.◌∷◌ c "" ∷ w ∷ ws
attach c (String.◌∷◌ d s) (w ∷ ws) =
    if is_space (code d) then String.◌∷◌ c "" ∷ w ∷ ws else String.◌∷◌ c w ∷ ws

unfoldable pub words : String → List String
unfolding is_space
words String.[] = []
words (String.◌∷◌ c s) = let rest = words s in if is_space (code c) then rest else attach c s rest

-- _SPECIAL_USE_MAP
abbrev pub special_use_map : Dict String
special_use_map =
    ("\\Inbox", "INBOX")
    ∷ ("\\Sent", "Sent")
    ∷ ("\\Trash", "Trash")
    ∷ ("\\Drafts", "Drafts")
    ∷ ("\\Junk", "Junk")
    ∷ ("\\Spam", "Spam")
    ∷ ("\\Archive", "Archive")
    ∷ ("\\All", "All Mail")
    ∷ ("\\Flagged", "Starred")
    ∷ []

-- The first flag of the map. It holds only names with a backslash, and neither of the two that the
-- code leaves out.
unfoldable pub special_use_of : List String → Option String
unfolding get
special_use_of [] = none
special_use_of (flag ∷ flags) = or_else (get special_use_map flag) (special_use_of flags)

-- `(delim_q or delim_bare or "").decode(…)` raises AttributeError for an empty delimiter.
abbrev pub on_match : Option (String × (String × String)) → Result (Option Folder)
on_match none = ok none
on_match (some (flags, (d, name))) =
    if str_eq d ""
    then raised other_error
    else ok (
        some (record {
          flags = flags;
          delimiter = d;
          name = name;
          special_use = special_use_of (words flags);
        }))

-- The pattern raises TypeError for a line that is not bytes.
unfoldable pub parse_list_response : Line → Result (Option Folder)
unfolding match_list words special_use_of
parse_list_response no_bytes = raised other_error
parse_list_response (bytes line) = on_match (match_list line)

-- `if parsed: result.append(parsed)`
abbrev pub append_parsed : Result (Option Folder) → Result (List Folder) → Result (List Folder)
append_parsed (raised e) rest = raised e
append_parsed (ok none) rest = rest
append_parsed (ok (some f)) (ok fs) = ok (f ∷ fs)
append_parsed (ok (some f)) (raised e) = raised e

unfoldable pub parse_lines : List Line → Result (List Folder)
unfolding parse_list_response
parse_lines [] = ok []
parse_lines (line ∷ lines) = append_parsed (parse_list_response line) (parse_lines lines)

-- list_folders: a reply other than OK gives no folders.
unfoldable pub list_folders : Bool → Result (Option (List Line)) → Result (List Folder)
unfolding parse_lines
list_folders false reply = raised runtime_error
list_folders true (raised e) = raised e
list_folders true (ok none) = ok []
list_folders true (ok (some lines)) = parse_lines lines
