-- ===== src/Imap/Helpers.antt =====
-- mailwatch/src/mailwatch/email/imap/helpers.py and capabilities.py. The pieces of a header, as
-- email.header.decode_header gives them, and the decoding of bytes are parameters.
use ronzz_nextcloud.Prelude.{
  Bool, List, Option, String, [], false, if◌then◌else◌, none, some, str_eq, ℕ, ◌&&◌, ◌==◌, ◌||◌,
  ◌∷◌,
}
use ronzz_nextcloud.Config.Load.{upper}
use ronzz_nextcloud.Domain.{is_space, lstrip, rstrip, strip}
use ronzz_nextcloud.Imap.Names.{split_char}
use ronzz_nextcloud.Prelude.Text.{contains}
use ronzz_nextcloud.Errors.{Result, ok, raised}
use Prim.Native.Char.{code}
use Prim.Native.String.{◌++◌ as cat}

-- A piece of a header: a text, or bytes with the name of their encoding.
pub data Piece : Type 0 where
  shown : String → Piece
  encoded : String → Option String → Piece

-- `x or default`
abbrev pub or_default : String → Option String → String
or_default default none = default
or_default default (some s) = if str_eq s "" then default else s

-- `part.decode(encoding or "utf-8", errors="replace")`; none is the LookupError of an unknown
-- encoding.
abbrev pub piece_text : (String → String → Option String) → Piece → Option String
piece_text decode (shown s) = some s
piece_text decode (encoded bytes encoding) = decode (or_default "utf-8" encoding) bytes

infixl 10 ◌>>=◌
unfoldable pub ◌>>=◌ : {A B : Type 0} → Option A → (A → Option B) → Option B
none >>= f = none
(some a) >>= f = f a

unfoldable pub piece_texts : (String → String → Option String) → List Piece → Option (List String)
unfolding ◌>>=◌
piece_texts decode [] = some []
piece_texts decode (p ∷ ps) = do t ← piece_text decode p; ts ← piece_texts decode ps; some (t ∷ ts)

-- `" ".join(result)`
unfoldable pub join_spaces : List String → String
join_spaces [] = ""
join_spaces (x ∷ []) = x
join_spaces (x ∷ (y ∷ ys)) = cat x (cat " " (join_spaces (y ∷ ys)))

unfoldable pub decode_mime_header :
    (String → Option (List Piece)) → (String → String → Option String) → String → Option String
unfolding ◌>>=◌ piece_texts join_spaces
decode_mime_header decode_header decode value = if str_eq value "" then some "" else (do
  pieces ← decode_header value
  texts ← piece_texts decode pieces
  some (join_spaces texts))

-- `s.split(q)[0]` and `s.split(q)[1]`, for a text with `q`
abbrev pub before : ℕ → String → String
before q s = elim (split_char q s) [ none ↦ s | some r ↦ r.0 ]

abbrev pub between : ℕ → String → String
between q s = elim (split_char q s) [ none ↦ "" | some r ↦ before q r.1 ]

abbrev pub has_brackets : String → Bool
has_brackets value = contains "<" value && contains ">" value

unfoldable pub parse_email_address : String → String
unfolding split_char is_space lstrip rstrip
parse_email_address value =
    if str_eq value ""
    then ""
    else if has_brackets value
    then strip is_space (before b'>' (between b'<' value))
    else strip is_space value

unfoldable pub extract_sender_name : String → String
unfolding split_char is_space lstrip rstrip
extract_sender_name from_header =
    if has_brackets from_header
    then strip (λ c. c == b'"' || c == b'\'') (strip is_space (before b'<' from_header))
    else ""

-- `value.split(",")`
abbrev pub onto_first : String → List String → List String
onto_first s [] = s ∷ []
onto_first s (w ∷ ws) = cat s w ∷ ws

unfoldable pub split_commas : String → List String
split_commas String.[] = "" ∷ []
split_commas (String.◌∷◌ c s) =
    let rest = split_commas s in
    if code c == b',' then "" ∷ rest else onto_first (String.◌∷◌ c "") rest

abbrev pub addresses : List String → List String
addresses [] = []
addresses (part ∷ parts) =
    let addr = parse_email_address (strip is_space part) in
    let rest = addresses parts in if str_eq addr "" then rest else addr ∷ rest

unfoldable pub parse_address_list : String → List String
unfolding split_commas
parse_address_list value = if str_eq value "" then [] else addresses (split_commas value)

pub record ImapCapabilities : Type 0 where
  pub has_condstore : Bool
  pub has_qresync : Bool
  pub has_idle : Bool
  pub has_move : Bool
  pub has_uidplus : Bool

abbrev pub no_capabilities : ImapCapabilities
no_capabilities = record {
  has_condstore = false;
  has_qresync = false;
  has_idle = false;
  has_move = false;
  has_uidplus = false;
}

-- detect_capabilities, of the joined lines of an OK reply; every exception is ignored.
unfoldable pub detect_capabilities : Result (Option String) → ImapCapabilities
unfolding upper
detect_capabilities (raised e) = no_capabilities
detect_capabilities (ok none) = no_capabilities
detect_capabilities (ok (some raw)) =
    let cap_str = upper raw in
    record {
      has_condstore = contains "CONDSTORE" cap_str;
      has_qresync = contains "QRESYNC" cap_str;
      has_idle = contains "IDLE" cap_str;
      has_move = contains "MOVE" cap_str || contains "UID MOVE" cap_str;
      has_uidplus = contains "UIDPLUS" cap_str;
    }
