-- ===== src/Sieve.antt =====
-- The script and its upload: generate_block_script and push_block_script of
-- mailwatch/src/mailwatch/sieve_block.py, over SieveManager of email/filters/sieve.py.
pub mod Quote
pub mod Manager
mod Tests
use ronzz_nextcloud.Errors.{Exec, Result, ok, pure, try_except, ◌>>◌, ◌>>=◌}
use ronzz_nextcloud.Config.{AccountConfig, AutoBlockConfig}
use ronzz_nextcloud.World.{
  Env, Event, History, World, record_event, sieve_activated, sieve_connected, sieve_put,
}
use Prim.Native.Char.{code}
use Prim.Native.String.{◌++◌, compare}
use text.Mathlib.Text.{is_lt}
use ronzz_nextcloud.Prelude.{
  Bool, List, String, [], false, if◌then◌else◌, map, str_eq, true, ℕ, ◌==◌, ◌∷◌,
}
use ronzz_nextcloud.SieveBlock.{list_blocked}

-- `text.replace(c, "\\" + c)` for one character `c`
unfoldable pub escape_char : ℕ → String → String
escape_char c String.[] = ""
escape_char c (String.◌∷◌ x s) =
    let rest = escape_char c s in
    if code x == c then String.◌∷◌ "\\" (String.◌∷◌ x rest) else String.◌∷◌ x rest

-- `_quote_reject_message`: first the backslashes, then the quotes
unfoldable pub quote_reject_message : String → String
unfolding escape_char
quote_reject_message text = escape_char b'"' (escape_char b'\\' text)

-- `set(domains)` and `sorted`: insertion by code points, once for each text
unfoldable pub insert_sorted : String → List String → List String
insert_sorted d [] = d ∷ []
insert_sorted d (x ∷ xs) =
    let rest = insert_sorted d xs in
    if str_eq d x then x ∷ xs else if is_lt (compare d x) then d ∷ x ∷ xs else x ∷ rest

unfoldable pub sorted_set : List String → List String
unfolding insert_sorted
sorted_set [] = []
sorted_set (d ∷ ds) = insert_sorted d (sorted_set ds)

unfoldable pub block_rule : String → String
unfolding quote_reject_message
block_rule domain =
    "if address :domain :contains \"from\" \""
    ++ domain
    ++ "\" {\n    reject \"Blocked domain: "
    ++ quote_reject_message domain
    ++ "\";\n}"

-- `"\n".join(parts)` behind the first part
unfoldable pub join_lines : List String → String
join_lines [] = ""
join_lines (part ∷ parts) = "\n" ++ part ++ join_lines parts

unfoldable pub generate_block_script : List String → String
unfolding sorted_set block_rule join_lines
generate_block_script [] = ""
generate_block_script (d ∷ ds) =
    "require [\"reject\", \"address\"];\n"
    ++ join_lines (map block_rule (sorted_set (d ∷ ds)))
    ++ "\n"

unfoldable pub sieve_call : {A : Type 0} → (History → Result A) → (Result A → Event) → Exec World A
sieve_call answer event w = (answer w.history, record_event (event (answer w.history)) w)

-- connect; put_script and activate_script, whose replies are not looked at; and disconnect. Any
-- exception is a failure.
unfoldable pub upload : Env → AccountConfig → String → String → Exec World Bool
upload env account name script =
    try_except
      (do
        sieve_call (λ h. env.sieve_connect h account.email) (sieve_connected account.email)
        sieve_call (λ h. env.sieve_put_script h name script) (sieve_put name script)
        sieve_call (λ h. env.sieve_activate h name) (sieve_activated name)
        pure true)
      (λ e. pure false)

-- With nothing to block, or in a dry run, nothing is uploaded.
unfoldable pub push_block_script : Env → AutoBlockConfig → AccountConfig → Bool → Exec World Bool
push_block_script env cfg account dry_run w =
    let domains = list_blocked account.email w.candidates in
    let script = generate_block_script domains in
    if str_eq script ""
    then (ok true, w)
    else if dry_run
    then (ok true, w)
    else upload env account cfg.script_name script w
