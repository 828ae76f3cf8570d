-- ===== src/Config/Toml.antt =====
-- The values of a TOML document, and the readers of mailwatch/src/mailwatch/config.py for one value.
-- Numbers with a fraction are in units of 1/10000.
use ronzz_nextcloud.Domain.{is_space, lower, lstrip, rstrip, strip}
use ronzz_nextcloud.Prelude.{
  Bool, List, Option, String, [], any, false, if◌then◌else◌, none, not, some, str_eq, true, ℕ, ◌&&◌,
  ◌*◌, ◌+◌, ◌/◌, ◌∷◌,
}
use ronzz_nextcloud.Prelude.Int.{leb_ℤ, neg, negsuc, pos, ℤ}

-- `special` is an infinite number or not a number, and `moment` a date or time.
mutual
  pub data Value : Type 0 where
    flag : Bool → Value
    whole : ℤ → Value
    number : ℤ → Value
    special : Special → Value
    text : String → Value
    moment : String → Value
    array : Values → Value
    table : Fields → Value

  pub data Special : Type 0 where
    infinite nan : Special

  pub data Values : Type 0 where
    nil : Values
    cons : Value → Values → Values

  pub data Fields : Type 0 where
    empty : Fields
    field : String → Value → Fields → Fields

-- ConfigError with what its message says; `overflow` and `attribute` are the OverflowError and the
-- AttributeError of Python, which are no ConfigError.
pub data Failure : Type 0 where
  not_found unreadable : Failure
  expected_boolean expected_integer expected_number : String → Failure
  email_required : String → Failure
  email_invalid : String → String → Failure
  invalid_account : ℕ → Failure
  bad_threshold bad_base_delay bad_max_delay : Failure
  accounts_not_a_list no_accounts duplicate_account : Failure
  overflow attribute : Failure

pub data Loaded {ℓ} (A : Type ℓ) : Type ℓ where
  loaded : A → Loaded A
  failed : Failure → Loaded A

infixl 10 ◌>>=◌ ◌>>◌
unfoldable pub ◌>>=◌ {ℓ κ} : {A : Type ℓ} {B : Type κ} → Loaded A → (A → Loaded B) → Loaded B
loaded a >>= f = f a
failed e >>= f = failed e

abbrev pub ◌>>◌ {ℓ} : {B : Type ℓ} → Loaded (Unit {0}) → Loaded B → Loaded B
m >> k = m >>= λ _. k

-- `if not ok: raise`
abbrev pub require : Bool → Failure → Loaded (Unit {0})
require true e = loaded tt
require false e = failed e

-- Conversions of Python: `int(s)` and `float(s)` of a text, where `none` is the ValueError, and `str(v)`
-- of a value that is no text.
pub record Python : Type 0 where
  pub int_of : String → Option ℤ
  pub float_of : String → Option Value
  pub shown : Value → String

-- `raw.get(key)`
unfoldable pub get_value : Fields → String → Option Value
get_value empty key = none
get_value (field k v fs) key = if str_eq k key then some v else get_value fs key

abbrev pub truth_words : List String
truth_words = "true" ∷ "yes" ∷ "1" ∷ "on" ∷ []

abbrev pub false_words : List String
false_words = "false" ∷ "no" ∷ "0" ∷ "off" ∷ []

-- _parse_bool
unfoldable pub parse_bool : Option Value → String → Bool → Loaded Bool
unfolding lower lstrip rstrip is_space
parse_bool none key default = loaded default
parse_bool (some (flag b)) key default = loaded b
parse_bool (some (text s)) key default =
    let word = lower (strip is_space s) in
    if any (str_eq word) truth_words
    then loaded true
    else if any (str_eq word) false_words
    then loaded false
    else failed (expected_boolean key)
parse_bool (some v) key default = failed (expected_boolean key)

-- Toward zero, as `int` of a float.
unfoldable pub truncated : ℤ → ℤ
truncated (pos n) = pos (n / 10000)
truncated (negsuc n) = neg ((n + 1) / 10000)

abbrev pub or_expected : {A : Type 0} → Option A → Failure → Loaded A
or_expected none e = failed e
or_expected (some a) e = loaded a

-- _parse_int
unfoldable pub parse_int : Python → Option Value → String → ℤ → Loaded ℤ
unfolding truncated
parse_int py none key default = loaded default
parse_int py (some (flag b)) key default = loaded (pos (if b then 1 else 0))
parse_int py (some (whole n)) key default = loaded n
parse_int py (some (number x)) key default = loaded (truncated x)
parse_int py (some (special infinite)) key default = failed overflow
parse_int py (some (special nan)) key default = failed (expected_integer key)
parse_int py (some (text s)) key default = or_expected (py.int_of s) (expected_integer key)
parse_int py (some v) key default = failed (expected_integer key)

unfoldable pub scaled : ℤ → ℤ
scaled (pos n) = pos (10000 * n)
scaled (negsuc n) = neg (10000 * (n + 1))

-- A float that was read; `none` is infinite or not a number.
abbrev pub float_value : Option Value → String → Loaded (Option ℤ)
float_value (some (number x)) key = loaded (some x)
float_value (some (special s)) key = loaded none
float_value _ key = failed (expected_number key)

-- _parse_float
unfoldable pub parse_float : Python → Option Value → String → ℤ → Loaded (Option ℤ)
unfolding scaled
parse_float py none key default = loaded (some default)
parse_float py (some (flag b)) key default = loaded (some (pos (if b then 10000 else 0)))
parse_float py (some (whole n)) key default = loaded (some (scaled n))
parse_float py (some (text s)) key default = float_value (py.float_of s) key
parse_float py (some v) key default = float_value (some v) key

abbrev pub shown_or : Python → String → Option Value → String
shown_or py default none = default
shown_or py default (some (text s)) = s
shown_or py default (some v) = py.shown v

-- `str(raw.get(key, default))`
unfoldable pub text_field : Python → Fields → String → String → String
unfolding get_value
text_field py raw key default = shown_or py default (get_value raw key)

-- Whether a value counts as false.
abbrev pub is_falsy : Value → Bool
is_falsy (flag b) = not b
is_falsy (whole n) = leb_ℤ n (pos 0) && leb_ℤ (pos 0) n
is_falsy (number x) = leb_ℤ x (pos 0) && leb_ℤ (pos 0) x
is_falsy (text s) = str_eq s ""
is_falsy (array nil) = true
is_falsy (table empty) = true
is_falsy _ = false

-- `raw.get(key, {}) or {}`, of which `.get` is called: no AttributeError for a table only.
abbrev pub table_or_empty : Option Value → Loaded Fields
table_or_empty none = loaded empty
table_or_empty (some (table fs)) = loaded fs
table_or_empty (some v) = if is_falsy v then loaded empty else failed attribute
