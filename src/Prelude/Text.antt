-- ===== src/Prelude/Text.antt =====
-- Searches in texts: `s.startswith(p)`, `part in s` and `s.endswith(p)`.
use mathlib.Core.Bool.{Bool, true, false, ◌&&◌, ◌||◌}
use Prim.Native.Char.{code}
use Prim.Native.String.{String}
use text.Mathlib.Text.{◌==◌ as str_eq}
use ronzz_nextcloud.Prelude.Tests.{◌==◌}

-- `prefix` is the text's beginning.
abbrev pub begins : String → String → Bool
begins String.[] s = true
begins (String.◌∷◌ c prefix) String.[] = false
begins (String.◌∷◌ c prefix) (String.◌∷◌ d s) = code c == code d && begins prefix s

-- `part in s`
abbrev pub contains : String → String → Bool
contains part String.[] = begins part ""
contains part (String.◌∷◌ c s) = begins part (String.◌∷◌ c s) || contains part s

-- `suffix` is the text's end.
abbrev pub ends : String → String → Bool
ends suffix String.[] = str_eq suffix ""
ends suffix (String.◌∷◌ c s) = str_eq suffix (String.◌∷◌ c s) || ends suffix s
