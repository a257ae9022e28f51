-- ===== src/Text/Split.antt =====
-- strings.Split by a separator of one character.
use Prim.Native.Char.{Char, code}
use trustyca.Base.{ℕ, String, List, [], ◌∷◌, ◌==◌, if◌then◌else◌}

abbrev add_head : Char → List String → List String
add_head c [] = (String.◌∷◌ c "") ∷ []
add_head c (part ∷ parts) = (String.◌∷◌ c part) ∷ parts

unfoldable pub split : ℕ → String → List String
split sep String.[] = "" ∷ []
split sep (String.◌∷◌ c s) =
    let rest = split sep s in if code c == sep then "" ∷ rest else add_head c rest
