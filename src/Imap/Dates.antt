-- ===== src/Imap/Dates.antt =====
-- mailwatch/src/mailwatch/email/imap/client.py: _to_imap_date, with the reading of strptime.
use ronzz_nextcloud.Prelude.{
  Bool, List, Option, String, [], if◌then◌else◌, leb, ltb, none, not, some, str_eq, suc, zero, ℕ,
  ◌%◌, ◌&&◌, ◌*◌, ◌+◌, ◌-◌, ◌==◌, ◌||◌, ◌∷◌,
}
use ronzz_nextcloud.Prelude.Decimal.{decimal}
use Prim.Native.Char.{Char, code}
use Prim.Native.String.{◌++◌ as cat}

-- `\d`, of ASCII
abbrev pub digit : Char → Option ℕ
digit c = if leb 48 (code c) && leb (code c) 57 then some (code c - 48) else none

-- The number of one or two digits at the beginning, from 1 to a limit: two digits if that fits.
abbrev pub one_digit : ℕ → Option ℕ → String → Option (ℕ × String)
one_digit limit none s = none
one_digit limit (some d) s = if d == 0 then none else some (d, s)

abbrev pub two_digits : ℕ → Option ℕ → Option ℕ → Char → String → Option (ℕ × String)
two_digits limit (some d) (some e) c s =
    if leb 1 (10 * d + e) && leb (10 * d + e) limit
    then some (10 * d + e, s)
    else one_digit limit (some d) (String.◌∷◌ c s)
two_digits limit d e c s = one_digit limit d (String.◌∷◌ c s)

unfoldable pub short_number : ℕ → String → Option (ℕ × String)
short_number limit String.[] = none
short_number limit (String.◌∷◌ c String.[]) = one_digit limit (digit c) ""
short_number limit (String.◌∷◌ c (String.◌∷◌ d s)) = two_digits limit (digit c) (digit d) d s

-- `%d` also takes a space before one digit.
unfoldable pub day_number : String → Option (ℕ × String)
unfolding short_number
day_number String.[] = none
day_number (String.◌∷◌ c String.[]) = short_number 31 (String.◌∷◌ c "")
day_number (String.◌∷◌ c (String.◌∷◌ d s)) =
    if code c == b' '
    then one_digit 31 (digit d) s
    else short_number 31 (String.◌∷◌ c (String.◌∷◌ d s))

-- `%Y`
abbrev pub four : Option ℕ → Option ℕ → Option ℕ → Option ℕ → String → Option (ℕ × String)
four (some a) (some b) (some c) (some d) s = some (1000 * a + 100 * b + 10 * c + d, s)
four _ _ _ _ s = none

unfoldable pub year_number : String → Option (ℕ × String)
year_number (String.◌∷◌ a (String.◌∷◌ b (String.◌∷◌ c (String.◌∷◌ d s)))) =
    four (digit a) (digit b) (digit c) (digit d) s
year_number _ = none

abbrev pub after_dash : String → Option String
after_dash String.[] = none
after_dash (String.◌∷◌ c s) = if code c == b'-' then some s else none

infixl 10 ◌>>=◌
unfoldable pub ◌>>=◌ : {A B : Type 0} → Option A → (A → Option B) → Option B
none >>= f = none
(some a) >>= f = f a

abbrev pub is_leap : ℕ → Bool
is_leap y = y % 4 == 0 && (not (y % 100 == 0) || y % 400 == 0)

abbrev pub days_in_month : ℕ → ℕ → ℕ
days_in_month y m =
    if m == 2
    then (if is_leap y then 29 else 28)
    else if m == 4 || m == 6 || m == 9 || m == 11
    then 30
    else 31

pub record Date : Type 0 where
  pub year : ℕ
  pub month : ℕ
  pub day : ℕ

-- `date(year, month, day)` raises ValueError for a day that is not in the calendar.
abbrev pub valid_date : ℕ → ℕ → ℕ → Option Date
valid_date y m d =
    if not (y == 0) && leb d (days_in_month y m)
    then some (record { year = y; month = m; day = d })
    else none

-- `datetime.datetime.strptime(iso_date, "%Y-%m-%d").date()`
unfoldable pub read_date : String → Option Date
unfolding ◌>>=◌ year_number short_number day_number
read_date s = do
  y ← year_number s
  after_year ← after_dash y.1
  m ← short_number 12 after_year
  after_month ← after_dash m.1
  d ← day_number after_month
  if str_eq d.1 "" then valid_date y.0 m.0 d.0 else none

-- `%b` of the C locale
abbrev pub month_names : List String
month_names =
    "Jan" ∷ "Feb" ∷ "Mar" ∷ "Apr" ∷ "May" ∷ "Jun" ∷ "Jul" ∷ "Aug" ∷ "Sep" ∷ "Oct" ∷ "Nov" ∷ "Dec"
    ∷ []

abbrev pub name_at : ℕ → List String → String
name_at n [] = ""
name_at zero (x ∷ xs) = x
name_at (suc n) (x ∷ xs) = name_at n xs

-- `strftime("%d-%b-%Y")`: two digits for the day, and as many as it has for the year.
unfoldable pub show_date : Date → String
unfolding decimal
show_date t = cat (if ltb t.day 10 then "0" else "") (
    cat (decimal t.day)
      (cat "-" (cat (name_at (t.month - 1) month_names) (cat "-" (decimal t.year)))))

-- `_to_imap_date`: what is no date stays as it is.
unfoldable pub to_imap_date : String → String
unfolding read_date show_date
to_imap_date iso_date = elim (read_date iso_date) [ none ↦ iso_date | some t ↦ show_date t ]
