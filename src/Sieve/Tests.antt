-- ===== src/Sieve/Tests.antt =====
-- The theorems on the script of sieve_block.py at a concrete text.
use ronzz_nextcloud.Prelude.{false, some, ◌≡◌}
use Prim.Native.String.{◌++◌}
use ronzz_nextcloud.Sieve.{quote_reject_message}
use ronzz_nextcloud.Sieve.Quote.{read_quoted, read_quoted-quote_reject_message}

read_quoted-quote_reject_message_example :
    read_quoted false (quote_reject_message "say \"no\"" ++ "\"" ++ ";") ≡ some ("say \"no\"", ";")
read_quoted-quote_reject_message_example = read_quoted-quote_reject_message "say \"no\"" ";"
