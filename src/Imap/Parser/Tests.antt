-- ===== src/Imap/Parser/Tests.antt =====
-- Tests of parse_email_message, and its theorem at a concrete message.
use ronzz_nextcloud.Domain.{lstrip, rstrip}
use ronzz_nextcloud.Prelude.{
  Option, String, [], false, if◌then◌else◌, none, refl, some, str_eq, true, ◌∷◌, ◌≡◌,
}
use ronzz_nextcloud.Imap.Parser.Bodies.{
  PartInfo, Parts, absent, bytes, cons, find_bodies, nil, nothing_found, part, walk,
}
use ronzz_nextcloud.Imap.Helpers.{parse_address_list, parse_email_address}
use ronzz_nextcloud.Imap.Parser.Texts.{Texts, find_bodies_lem}

abbrev root : PartInfo
root = record {
  content_type = "multipart/mixed";
  disposition = none;
  filename = none;
  content_id = none;
  name = none;
  charset = none;
  payload = absent;
  is_multipart = true;
}

abbrev leaf : String → String → PartInfo
leaf ct text = record root { content_type = ct; payload = bytes text; is_multipart = false }

abbrev attached : PartInfo
attached = record (leaf "text/plain" "notes") { disposition = some "attachment" }

-- An attachment, an empty text, a text, HTML and another text.
abbrev parts : Parts
parts = cons (part attached nil) (
    cons (part (leaf "text/plain" "") nil) (
      cons (part (leaf "text/plain" "hello") nil) (
        cons (part (leaf "text/html" "<p>hello") nil)
          (cons (part (leaf "text/plain" "again") nil) nil))))

abbrev ascii : String → String → Option String
ascii charset text = if str_eq charset "utf-8" then some text else none

parsed :
    find_bodies ascii (λ n. "id") false (part root parts)
    ≡ some (record {
      body = "hello";
      html_body = "<p>hello";
      attachments =
          record {
            filename = "attachment";
            mime_type = "text/plain";
            size = 5;
            content_id = "id";
            content = none;
          }
          ∷ [];
    })
unfolding find_bodies lstrip rstrip
parsed = refl

-- A capital in the header of an attachment makes its text the body of the message.
abbrev capital : PartInfo
capital = record (leaf "text/plain" "notes") { disposition = some "Attachment" }

taken :
    find_bodies ascii (λ n. "id") false (part root (cons (part capital parts) nil))
    ≡ some (record {
      body = "notes";
      html_body = "<p>hello";
      attachments =
          record {
            filename = "attachment";
            mime_type = "text/plain";
            size = 5;
            content_id = "id";
            content = none;
          }
          ∷ [];
    })
unfolding find_bodies lstrip rstrip
taken = refl

find_bodies_lem_example :
    Texts ascii
      (λ n. "id")
      false
      (find_bodies ascii (λ n. "id") false (part root parts))
      nothing_found
      (walk (part root parts))
find_bodies_lem_example = find_bodies_lem ascii (λ n. "id") false root parts refl

two_addresses : parse_address_list "Eve <e@x.org>, , bob@y.org" ≡ "e@x.org" ∷ "bob@y.org" ∷ []
unfolding parse_address_list parse_email_address
two_addresses = refl
