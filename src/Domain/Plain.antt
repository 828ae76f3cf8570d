-- ===== src/Domain/Plain.antt =====
-- What _extract_domain of spam_similarity.py can return.
use Prim.Native.Char.{Char, code}
use ronzz_nextcloud.Prelude.{
  Bool, String, arith, false, none, refl, some, true, ◌==◌, ◌≡◌, if◌then◌else◌, not, str_eq, ◌||◌,
  ap, Option,
}
use ronzz_nextcloud.Domain.{address, after_last_at, extract_domain, has_at, lower, strip}

has_at-after_last_at : (s : String) → has_at s ≡ true → has_at (after_last_at s) ≡ false
unfolding has_at after_last_at
has_at-after_last_at String.[] h = cc
has_at-after_last_at (String.◌∷◌ c s) h = ground (arith, has_at-after_last_at s)

abbrev pub joined : String → Char → String → String
joined String.[] sign rest = String.◌∷◌ sign rest
joined (String.◌∷◌ c pre) sign rest = String.◌∷◌ c (joined pre sign rest)

-- The domain `d` is what follows the last `@` of the address: in lower case, and without `>` and
-- blanks at its ends.
pub record IsDomainOf (whole d : String) : Type 0 where
  pub before : String
  pub sign : Char
  pub rest : String
  pub splits : whole ≡ joined before sign rest
  pub is_at : code sign ≡ b'@'
  pub last : has_at rest ≡ false
  pub domain : d ≡ strip (λ c. c == b'>' || c == 32 || c == 9) (lower rest)

-- What is read from a From header.
abbrev pub Reads : String → Option String → Type 0
Reads from_addr none = (str_eq from_addr "" || not (has_at (address from_addr))) ≡ true
Reads from_addr (some d) = (str_eq from_addr "" ≡ false) × IsDomainOf (address from_addr) d

-- The pieces round the last `@`.
record Cut (s rest : String) : Type 0 where
  before : String
  sign : Char
  splits : s ≡ joined before sign rest
  is_at : code sign ≡ b'@'

after_last_at-Cut : (s : String) → has_at s ≡ true → Cut s (after_last_at s)
unfolding has_at after_last_at
after_last_at-Cut String.[] h = absurd cc
after_last_at-Cut (String.◌∷◌ c s) h =
    cut (has_at s) (λ e. after_last_at-Cut s e) (code c == b'@') refl h
  where
    cut :
        (b : Bool)
        → (b ≡ true → Cut s (after_last_at s))
        → (at : Bool) → (code c == b'@') ≡ at
        → (at || b) ≡ true
        → Cut (String.◌∷◌ c s) (if b then after_last_at s else if at then s else String.◌∷◌ c s)
    cut true rec at f h =
        let k = rec refl in
        record {
          before = String.◌∷◌ c k.before;
          sign = k.sign;
          splits = ap (String.◌∷◌ c) k.splits;
          is_at = k.is_at;
        }
    cut false rec true f h = record {
      before = "";
      sign = c;
      splits = refl;
      is_at = ground (arith, f);
    }
    cut false rec false f h = absurd cc

-- Of an empty header, and of one whose address has no `@`, there is no domain; of any other it is
-- what follows the last `@` of the address, in lower case, without `>`, spaces and tabs at its ends.
pub extract_domain_lem : (from_addr : String) → Reads from_addr (extract_domain from_addr)
unfolding extract_domain
extract_domain_lem from_addr = found (str_eq from_addr "") refl (has_at (address from_addr)) refl
  where
    plain : String
    plain = strip (λ c. c == b'>' || c == 32 || c == 9) (lower (after_last_at (address from_addr)))

    found :
        (empty : Bool)
        → str_eq from_addr "" ≡ empty
        → (at : Bool) → has_at (address from_addr) ≡ at
        → Reads from_addr (if empty || not at then none else some plain)
    found true e at f = rw e refl
    found false e false f = rw (e, f) refl
    found false e true f =
        let k = after_last_at-Cut (address from_addr) f in
        (
          e,
          record {
            before = k.before;
            sign = k.sign;
            rest = after_last_at (address from_addr);
            splits = k.splits;
            is_at = k.is_at;
            last = has_at-after_last_at (address from_addr) f;
            domain = refl;
          },
        )
