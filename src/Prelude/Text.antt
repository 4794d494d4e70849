-- ===== src/Prelude/Text.antt =====
-- Python's methods on texts that the program uses.
use Prim.Native.Char.{code}
use Prim.Native.String.{String}
use mathlib.Core.Bool.{Bool, true, false}
use nexusfeed.Prelude.Tests.{nat_beq, if◌then◌else◌}

-- `text.startswith(prefix)`
unfoldable pub starts_with : (text prefix : String) → Bool
starts_with text String.[] = true
starts_with String.[] (String.◌∷◌ c prefix) = false
starts_with (String.◌∷◌ d text) (String.◌∷◌ c prefix) =
    if nat_beq (code d) (code c) then starts_with text prefix else false

-- `text.rstrip("/")`
unfoldable pub rstrip_slash : String → String
rstrip_slash String.[] = ""
rstrip_slash (String.◌∷◌ c text) = elim (rstrip_slash text) [
  | String.[] ↦ if nat_beq (code c) b'/' then "" else String.◌∷◌ c ""
  | String.◌∷◌ d rest ↦ String.◌∷◌ c (String.◌∷◌ d rest)
]
