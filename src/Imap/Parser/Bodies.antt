-- ===== src/Imap/Parser/Bodies.antt =====
-- mailwatch/src/mailwatch/email/imap/parser.py: what parse_email_message finds in the parts of a
-- message. The message is the tree that the email package gives; `none` is an exception. The
-- decoding of bytes and the UUIDs are parameters.
use ronzz_nextcloud.Prelude.{
  Bool, List, Option, String, [], false, if◌then◌else◌, length, none, not, some, str_eq, true, ℕ,
  ◌&&◌, ◌++◌, ◌==◌, ◌||◌, ◌∷◌,
}
use ronzz_nextcloud.Imap.Helpers.{or_default, ◌>>=◌}
use ronzz_nextcloud.Prelude.Text.{contains}
use ronzz_nextcloud.Domain.{strip, characters}

-- `get_payload(decode=True)`: an exception that _decode_payload catches, None, or the bytes.
pub data Payload : Type 0 where
  undecodable absent : Payload
  bytes : String → Payload

-- What is read of a part; an absent header is none.
pub record PartInfo : Type 0 where
  pub content_type : String
  pub disposition : Option String
  pub filename : Option String
  pub content_id : Option String
  pub name : Option String
  pub charset : Option String
  pub payload : Payload
  pub is_multipart : Bool

mutual
  pub data Part : Type 0 where
    part : PartInfo → Parts → Part

  pub data Parts : Type 0 where
    nil : Parts
    cons : Part → Parts → Parts

-- `msg.walk()`: a part before those in it
unfoldable mutual
  pub walk : Part → List PartInfo
  walk (part p ps) = p ∷ walk_all ps

  pub walk_all : Parts → List PartInfo
  walk_all nil = []
  walk_all (cons p ps) = walk p ++ walk_all ps

-- `_decode_payload`, with None and no bytes as the empty payload
abbrev pub payload_bytes : Payload → String
payload_bytes undecodable = ""
payload_bytes absent = ""
payload_bytes (bytes b) = b

-- `data` is None if the payload could not be decoded or attachments are not stored.
pub record Attachment : Type 0 where
  pub filename : String
  pub mime_type : String
  pub size : ℕ
  pub content_id : String
  pub content : Option String

pub record Found : Type 0 where
  pub body : String
  pub html_body : String
  pub attachments : List Attachment

abbrev pub nothing_found : Found
nothing_found = record { body = ""; html_body = ""; attachments = [] }

abbrev pub is_text : String → Bool
is_text ct = str_eq ct "text/plain" || str_eq ct "text/html"

-- `bool(x)` of a header or a parameter
abbrev pub is_given : Option String → Bool
is_given none = false
is_given (some s) = not (str_eq s "")

abbrev pub stored : Bool → Payload → Option String
stored true (bytes b) = some b
stored _ _ = none

-- The branches of the loop: an attachment, an inline resource, a plain text, an HTML text.
abbrev pub is_attached : PartInfo → Bool
is_attached p =
    contains "attachment" (or_default "" p.disposition)
    || (is_given p.filename && not (is_text p.content_type))

abbrev pub is_inline : PartInfo → Bool
is_inline p = not (is_text p.content_type) && not p.is_multipart

module _ (decode : String → String → Option String) (uuid : ℕ → String)
    (store_attachments : Bool) where
  abbrev pub content_id_of : PartInfo → List Attachment → String
  content_id_of p atts =
      strip (λ c. c == b'<' || c == b'>') (or_default (uuid (length atts)) p.content_id)

  abbrev pub attachment : (String → String) → PartInfo → List Attachment → Attachment
  attachment name_for p atts = record {
    filename = name_for (content_id_of p atts);
    mime_type = p.content_type;
    size = characters (payload_bytes p.payload);
    content_id = content_id_of p atts;
    content = stored store_attachments p.payload;
  }

  abbrev pub add_attachment : (String → String) → PartInfo → Found → Found
  add_attachment name_for p f = record f {
    attachments = f.attachments ++ (attachment name_for p f.attachments ∷ []);
  }

  -- The text of a part; no payload leaves it empty.
  abbrev pub part_text : PartInfo → Option String
  part_text p =
      if str_eq (payload_bytes p.payload) ""
      then some ""
      else decode (or_default "utf-8" p.charset) (payload_bytes p.payload)

  abbrev pub with_body : Option String → Found → Option Found
  with_body none f = none
  with_body (some t) f = some (record f { body = t })

  abbrev pub with_html : Option String → Found → Option Found
  with_html none f = none
  with_html (some t) f = some (record f { html_body = t })

  -- One turn of the loop over the parts.
  unfoldable pub add_part : PartInfo → Found → Option Found
  add_part p f =
      if is_attached p
      then some (add_attachment (λ cid. or_default "attachment" p.filename) p f)
      else if is_inline p
      then some (
          if is_given p.name || is_given p.content_id
          then add_attachment (λ cid. or_default cid p.name) p f
          else f)
      else if str_eq p.content_type "text/plain" && str_eq f.body ""
      then with_body (part_text p) f
      else if str_eq p.content_type "text/html" && str_eq f.html_body ""
      then with_html (part_text p) f
      else some f

  unfoldable pub add_parts : List PartInfo → Found → Option Found
  unfolding add_part ◌>>=◌
  add_parts [] f = some f
  add_parts (p ∷ ps) f = add_part p f >>= λ g. add_parts ps g

  -- A message with one part: HTML, or a text whatever its type.
  abbrev pub single : PartInfo → Option Found
  single p =
      if str_eq p.content_type "text/html"
      then with_html (part_text p) nothing_found
      else with_body (part_text p) nothing_found

  unfoldable pub find_bodies : Part → Option Found
  unfolding add_parts walk
  find_bodies (part p ps) =
      if p.is_multipart then add_parts (p ∷ walk_all ps) nothing_found else single p
