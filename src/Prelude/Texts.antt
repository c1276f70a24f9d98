-- ===== src/Prelude/Texts.antt =====
-- Membership in a list of texts.
use mathlib.Core.Bool.{Bool, false, ◌||◌}
use mathlib.Core.List.{List, [], ◌∷◌}
use Prim.Native.String.{String}
use text.Mathlib.Text.{◌==◌ as str_eq}

-- Whether a text is one of a list.
unfoldable pub listed : String → List String → Bool
listed k [] = false
listed k (i ∷ ks) = str_eq k i || listed k ks
