-- ===== src/Imap/Parser.antt =====
-- mailwatch/src/mailwatch/email/imap/parser.py: parse_email_message. `none` is an exception, which
-- fetch_uids catches. The decoding of bytes, of headers and of dates, the UUIDs and the clock's
-- reading are parameters.
use ronzz_nextcloud.Prelude.{
  Bool, List, Option, String, [], false, if◌then◌else◌, none, some, str_eq, true, ℕ, ◌==◌, ◌||◌,
  ◌∷◌,
}
use ronzz_nextcloud.Errors.{◌>>◌}
use ronzz_nextcloud.World.{now}
pub mod Bodies
pub mod Texts
mod Tests
use ronzz_nextcloud.Imap.Helpers.{◌>>=◌, parse_address_list}
use ronzz_nextcloud.Imap.Parser.Bodies.{Attachment, Part, find_bodies}
use ronzz_nextcloud.Domain.{strip}

-- `msg.get(…, "")` of the headers that are read
pub record Headers : Type 0 where
  pub message_id : String
  pub in_reply_to : String
  pub subject : String
  pub from_addr : String
  pub to : String
  pub cc : String
  pub date : String

-- The fields of the dict that depend on the message. `_attachments_meta` is read without the
-- content of the attachments, and `_attachments_data` leaves those without content out.
pub record ParsedEmail : Type 0 where
  pub message_id : String
  pub in_reply_to : String
  pub from_addr : String
  pub to_recipients : List String
  pub cc_recipients : List String
  pub subject : String
  pub body : String
  pub html_body : String
  pub received_at : String
  pub attachments_meta : List Attachment
  pub attachments_data : List Attachment

abbrev pub has_content : Option String → Bool
has_content none = false
has_content (some s) = true

abbrev pub with_content : List Attachment → List Attachment
with_content [] = []
with_content (a ∷ atts) =
    let rest = with_content atts in if has_content a.content then a ∷ rest else rest

abbrev pub or_now : String → Option String → String
or_now now none = now
or_now now (some t) = t

abbrev pub is_bracket : ℕ → Bool
is_bracket c = c == b'<' || c == b'>'

-- parse_email_message. `header` is decode_mime_header with its parameters, `date` the reading of a
-- date that is given, where TypeError and ValueError are caught.
unfoldable pub parse_email_message :
    (String → Option String)
    → (String → Option String)
    → (String → String → Option String)
    → (ℕ → String)
    → Bool
    → String
    → Headers
    → Part
    → Option ParsedEmail
unfolding ◌>>=◌ find_bodies parse_address_list
parse_email_message header date decode uuid store_attachments now h p = do
  raw_message_id ← header h.message_id
  in_reply_to ← header h.in_reply_to
  subject ← header h.subject
  from_header ← header h.from_addr
  to_raw ← header h.to
  cc_raw ← header h.cc
  found ← find_bodies decode uuid store_attachments p
  some (record {
    message_id = strip is_bracket raw_message_id;
    in_reply_to = strip is_bracket in_reply_to;
    from_addr = from_header;
    to_recipients = parse_address_list to_raw;
    cc_recipients = parse_address_list cc_raw;
    subject = subject;
    body = found.body;
    html_body = found.html_body;
    received_at = if str_eq h.date "" then now else or_now now (date h.date);
    attachments_meta = found.attachments;
    attachments_data = with_content found.attachments;
  })
