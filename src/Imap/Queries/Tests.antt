-- ===== src/Imap/Queries/Tests.antt =====
-- Tests of the names, lines, dates and searches of client.py.
use ronzz_nextcloud.Prelude.{[], none, refl, some, ◌∷◌, ◌≡◌, eq_iff, arith, true}
use ronzz_nextcloud.Errors.{ok, other_error, raised}
use ronzz_nextcloud.Imap.Dates.{to_imap_date}
use ronzz_nextcloud.Imap.Names.{decode_imap_utf7, padded}
use ronzz_nextcloud.Imap.Listing.{
  bytes, list_folders, no_bytes, parse_list_response, special_use_of, words,
}
use ronzz_nextcloud.Imap.Listing.Format.{list_line, parse_list_response-list_line}
use ronzz_nextcloud.Imap.Queries.{join_parts, search_parts}

leap_day : to_imap_date "2024-02-29" ≡ "29-Feb-2024"
unfolding to_imap_date
leap_day = refl

no_leap_day : to_imap_date "2023-02-29" ≡ "2023-02-29"
unfolding to_imap_date
no_leap_day = refl

short_day : to_imap_date "2024-1-5" ≡ "05-Jan-2024"
unfolding to_imap_date
short_day = refl

-- A run that cannot be decoded stays as it is.
garbled : decode_imap_utf7 (λ s. none) "a&-b &x!-&" ≡ "a&b &x!-&"
unfolding decode_imap_utf7 padded
garbled = refl

padding : padded "AOk" ≡ "AOk="
unfolding padded
padding = refl

-- The quotes of a query are not escaped.
injected :
    join_parts (search_parts (("from_", "a") ∷ []) "x\" ALL \"") ≡ "FROM \"a\" TEXT \"x\" ALL \"\""
unfolding join_parts search_parts
injected = refl

-- An escaped quote ends the name.
cut :
    parse_list_response (bytes "(\\HasNoChildren \\Junk) \"/\" \"a\\\"b\"")
    ≡ ok (
        some (record {
          flags = "\\HasNoChildren \\Junk";
          delimiter = "/";
          name = "a\\";
          special_use = some "Junk";
        }))
unfolding parse_list_response
cut = refl

-- A server without mailboxes makes list_folders raise.
no_lines : list_folders true (ok (some (no_bytes ∷ []))) ≡ raised other_error
unfolding list_folders
no_lines = refl

parse_list_response-list_line_example :
    parse_list_response (bytes (list_line "\\Junk" "/" "Bulk mail"))
    ≡ ok (
        some (record {
          flags = "\\Junk";
          delimiter = "/";
          name = "Bulk mail";
          special_use = some "Junk";
        }))
unfolding words special_use_of
parse_list_response-list_line_example =
    parse_list_response-list_line "\\Junk" "/" "Bulk mail" (ground arith) (ground arith)
      (ground arith) (ground (arith, eq_iff "/" ""))
