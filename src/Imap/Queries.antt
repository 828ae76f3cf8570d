-- ===== src/Imap/Queries.antt =====
-- mailwatch/src/mailwatch/email/imap/client.py: the searches search_by_header and search_remote, and
-- copy_message.
pub mod Reads
mod Tests
use ronzz_nextcloud.Prelude.{
  Bool, List, Option, String, [], false, if◌then◌else◌, none, some, str_eq, true, ℕ, ◌∷◌,
}
use ronzz_nextcloud.Errors.{Exec, connection_error, pure, raise, try_except, ◌>>=◌, ◌>>◌}
use ronzz_nextcloud.Imap.{call, search, select_folder, uid_copy}
use ronzz_nextcloud.Imap.Dates.{to_imap_date}
use ronzz_nextcloud.World.{Env, Peer, World, selected}
use ronzz_nextcloud.Prelude.Dict.{Dict, get}
use Prim.Native.String.{◌++◌ as cat}

-- `parts.append(…)` for a filter that is given and not empty
abbrev pub part : (String → String) → Option String → List String → List String
part f none rest = rest
part f (some value) rest = if str_eq value "" then rest else f value ∷ rest

-- `FROM "…"`: the value is not escaped.
abbrev pub keyed : String → String → String
keyed key value = cat key (cat " \"" (cat value "\""))

abbrev pub participant : String → String
participant v = cat (keyed "OR FROM" v) (cat " " (cat (keyed "OR TO" v) (cat " " (keyed "CC" v))))

-- The parts of the criterion; no criteria are an empty dict.
unfoldable pub search_parts : Dict String → String → List String
unfolding get to_imap_date
search_parts criteria query = part (keyed "FROM") (get criteria "from_") (
    part (keyed "TO") (get criteria "to") (
      part (keyed "CC") (get criteria "cc") (
        part (keyed "SUBJECT") (get criteria "subject") (
          part participant (get criteria "participant") (
            part (λ v. cat "SINCE " (to_imap_date v)) (get criteria "after")
              (part (λ v. cat "BEFORE " (to_imap_date v)) (get criteria "before")
                (part (keyed "TEXT") (some query) [])))))))

-- `" ".join(parts)`
unfoldable pub join_parts : List String → String
join_parts [] = ""
join_parts (x ∷ []) = x
join_parts (x ∷ (y ∷ ys)) = cat x (cat " " (join_parts (y ∷ ys)))

module _ (env : Env) (p : Peer) where
  -- The reply of the selection is not looked at; every exception gives no UIDs.
  unfoldable pub search_by_header : String → String → String → Exec World (List ℕ)
  search_by_header folder header_name header_value =
      try_except
        (do
          select_folder env p folder
          search env p (cat "HEADER " (cat header_name (cat " " header_value))))
        (λ e. pure [])

  unfoldable pub search_for : List String → Exec World (List ℕ)
  unfolding join_parts
  search_for [] = pure []
  search_for (x ∷ xs) = try_except (search env p (join_parts (x ∷ xs))) (λ e. pure [])

  -- Every exception of the selection, also of a client that is not connected, is an
  -- IMAPConnectionError.
  unfoldable pub search_remote : String → String → Dict String → Exec World (List ℕ)
  unfolding search_parts
  search_remote folder query criteria = do
    try_except (call p (λ h. env.select h p folder true) (selected p folder true))
        (λ e. raise connection_error)
    search_for (search_parts criteria query)

  unfoldable pub copy_message : ℕ → String → String → Exec World Bool
  copy_message uid from_folder to_folder = do
    found ← select_folder env p from_folder
    if found then uid_copy env p uid to_folder else pure false
