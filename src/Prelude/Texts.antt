-- ===== src/Prelude/Texts.antt =====
-- Texts, character by character: prefixes and `marker in text`.
use Prim.Native.Char.{code}
use Prim.Native.String.{String}
use mathlib.Core.Bool.{Bool, true, false, ◌&&◌, ◌||◌}
use ai_examiner.Prelude.Tests.{◌==◌}

-- Whether a text begins with another; then whether it contains it.
unfoldable pub begins : String → String → Bool
begins String.[] s = true
begins (String.◌∷◌ a p) String.[] = false
begins (String.◌∷◌ a p) (String.◌∷◌ b s) = code a == code b && begins p s

unfoldable pub has_text : String → String → Bool
has_text marker String.[] = begins marker String.[]
has_text marker (String.◌∷◌ c s) = begins marker (String.◌∷◌ c s) || has_text marker s
