-- ===== src/Sieve/Manager.antt =====
-- mailwatch/src/mailwatch/email/filters/sieve.py: SieveManager over the package managesieve, whose
-- answers are parameters. The state says whether there is a client.
use ronzz_nextcloud.Prelude.{
  Bool, Bool-cases, List, Option, String, [], false, if◌then◌else◌, inl, inr, map, none, not, refl,
  some, str_eq, true, ◌≡◌, ◌⊎◌,
}
use ronzz_nextcloud.Errors.{
  Exec, Result, connection_error, ok, pure, raise, raised, runtime_error, try_except, ◌>>=◌, ◌>>◌,
}

abbrev pub answered : {A : Type 0} → Result A → Exec Bool A
answered r has_client = (r, has_client)

-- `self._client = SieveClient(…)`
abbrev pub create : Result (Unit {0}) → Exec Bool (Unit {0})
create (ok u) has_client = (ok u, true)
create (raised e) has_client = (raised e, has_client)

-- `connect`: every exception becomes a ConnectionError, and so does an answer other than OK. The
-- client stays, whatever the login answers.
unfoldable pub connect_sieve : Bool → Result (Unit {0}) → Result String → Exec Bool (Unit {0})
connect_sieve installed created login_answer =
    if not installed
    then raise connection_error
    else try_except
        (do
          create created
          login_ok ← answered login_answer
          if str_eq login_ok "OK" then pure tt else raise connection_error)
        (λ e. raise connection_error)

-- `disconnect` and `__exit__`: the exceptions of the logout are ignored.
unfoldable pub disconnect_sieve : Bool → Bool
disconnect_sieve has_client = false

-- A call of the client, which raises RuntimeError if there is none.
unfoldable pub client_call : {A : Type 0} → Result A → Exec Bool A
client_call r has_client = if has_client then (r, true) else (raised runtime_error, false)

-- `put_script`, `activate_script` and `delete_script` do not look at the answer.
unfoldable pub script_command : Result String → Exec Bool (Unit {0})
unfolding client_call
script_command answer = do client_call answer; pure tt

-- What `listscripts` gives: the tuple of a status with a list, only a list, or nothing like it.
pub data Listing : Type 0 where
  status_with listed : List (String × Option Bool) → Listing
  no_list : Listing

pub record Script : Type 0 where
  pub name : String
  pub active : Bool

-- `{"name": s[0], "active": bool(s[1]) if len(s) > 1 else False}`
abbrev pub script : String × Option Bool → Script
script (name, none) = record { name = name; active = false }
script (name, some active) = record { name = name; active = active }

abbrev pub scripts_of : Listing → List Script
scripts_of (status_with ss) = map script ss
scripts_of (listed ss) = map script ss
scripts_of no_list = []

unfoldable pub list_scripts : Result Listing → Exec Bool (List Script)
unfolding client_call
list_scripts answer = do raw ← client_call answer; pure (scripts_of raw)

-- Whatever the package answers, `connect` returns, or raises a ConnectionError.
pub connect_sieve_lem :
    (installed : Bool) (created : Result (Unit {0})) (login_answer : Result String) (b : Bool)
    → let r : Result (Unit {0}) = (connect_sieve installed created login_answer b).0 in
      (r ≡ ok tt) ⊎ (r ≡ raised connection_error)
unfolding connect_sieve ◌>>=◌ try_except pure raise
connect_sieve_lem false created login_answer b = inr refl
connect_sieve_lem true (raised e) login_answer b = inr refl
connect_sieve_lem true (ok u) (raised e) b = inr refl
connect_sieve_lem true (ok u) (ok answer) b = elim (Bool-cases (str_eq answer "OK")) [
  | inl e ↦ inl (rw e refl)
  | inr e ↦ inr (rw e refl)
]
