-- ===== src/Phishing/Brands.antt =====
-- _load_brands of mailwatch/src/mailwatch/email/filters/phishing.py.
use ronzz_nextcloud.Prelude.{List, Option, String, [], none, some, ◌∷◌}
use ronzz_nextcloud.Prelude.Dict.{Dict, put}

abbrev pub default_brands : Dict (List String)
default_brands =
    ("paypal", "paypal.com" ∷ "paypal.de" ∷ "paypal.co.uk" ∷ "paypal.fr" ∷ [])
    ∷ (
      "amazon",
      "amazon.com" ∷ "amazon.co.uk" ∷ "amazon.de" ∷ "amazon.fr" ∷ "amazon.ca" ∷ "amazon.co.jp" ∷ [],
    )
    ∷ ("apple", "apple.com" ∷ "icloud.com" ∷ [])
    ∷ ("netflix", "netflix.com" ∷ [])
    ∷ ("microsoft", "microsoft.com" ∷ "outlook.com" ∷ "hotmail.com" ∷ "live.com" ∷ [])
    ∷ ("google", "google.com" ∷ "gmail.com" ∷ [])
    ∷ ("facebook", "facebook.com" ∷ "fb.com" ∷ "meta.com" ∷ [])
    ∷ ("linkedin", "linkedin.com" ∷ [])
    ∷ ("github", "github.com" ∷ [])
    ∷ ("chase", "chase.com" ∷ [])
    ∷ ("wellsfargo", "wellsfargo.com" ∷ [])
    ∷ ("bankofamerica", "bankofamerica.com" ∷ [])
    ∷ ("amex", "americanexpress.com" ∷ [])
    ∷ ("visa", "visa.com" ∷ [])
    ∷ ("mastercard", "mastercard.com" ∷ [])
    ∷ []

-- `defaults.update(overrides)`
unfoldable pub update : Dict (List String) → Dict (List String) → Dict (List String)
unfolding put
update d [] = d
update d ((brand, domains) ∷ rest) = update (put d brand domains) rest

-- The table of a file phishing_brands.json, which may be missing or unreadable.
unfoldable pub load_brands : Option (Dict (List String)) → Dict (List String)
unfolding update
load_brands none = default_brands
load_brands (some overrides) = update default_brands overrides
