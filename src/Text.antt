-- ===== src/Text.antt =====
-- The parts of Go's `strings` package that the code calls, over the native texts. `EqualFold` and
-- `ToLower` fold the letters of ASCII, with the two other characters whose simple folding is an
-- ASCII letter (U+017F and U+212A).
pub mod Laws
pub mod Split
use Prim.Native.Char.{Char, code}
use Prim.Native.String.{[], ◌∷◌}
use trustyca.Base.{ℕ, ◌+◌, String, Bool, true, false, ◌&&◌, ◌||◌, leb, ◌==◌, if◌then◌else◌}

-- unicode.IsSpace
unfoldable pub is_space : ℕ → Bool
is_space c =
    (leb 9 c && leb c 13)
    || c == 32
    || c == 0x85
    || c == 0xa0
    || c == 0x1680
    || (leb 0x2000 c && leb c 0x200a)
    || c == 0x2028
    || c == 0x2029
    || c == 0x202f
    || c == 0x205f
    || c == 0x3000

abbrev trim_left : String → String
trim_left [] = []
trim_left (c ∷ s) = let rest = trim_left s in if is_space (code c) then rest else c ∷ s

abbrev cons_trimmed : Char → String → String
cons_trimmed c [] = if is_space (code c) then [] else c ∷ []
cons_trimmed c (d ∷ s) = c ∷ d ∷ s

abbrev trim_right : String → String
trim_right [] = []
trim_right (c ∷ s) = cons_trimmed c (trim_right s)

-- strings.TrimSpace
unfoldable pub trim_space : String → String
trim_space s = trim_right (trim_left s)

-- the simple case folding of a character, to lower case
unfoldable pub fold_code : ℕ → ℕ
fold_code c =
    if leb 65 c && leb c 90
    then c + 32
    else if c == 0x212a
    then 107
    else if c == 0x17f
    then 115
    else c

-- strings.EqualFold, exact where one of the texts is ASCII
unfoldable pub equal_fold : String → String → Bool
equal_fold [] [] = true
equal_fold [] (d ∷ t) = false
equal_fold (c ∷ s) [] = false
equal_fold (c ∷ s) (d ∷ t) = fold_code (code c) == fold_code (code d) && equal_fold s t

-- strings.HasSuffix with the text "*", and s[:len(s)-1] where it holds
unfoldable pub ends_with_star : String → Bool
ends_with_star [] = false
ends_with_star (c ∷ []) = code c == b'*'
ends_with_star (c ∷ d ∷ s) = ends_with_star (d ∷ s)

unfoldable pub drop_last : String → String
drop_last [] = []
drop_last (c ∷ []) = []
drop_last (c ∷ d ∷ s) = c ∷ drop_last (d ∷ s)
