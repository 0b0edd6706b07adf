-- ===== src/Common/Utf8.antt =====
-- `String::from_utf8` of the standard library: which bytes are UTF-8.
use Prim.Native.Nat.{ℕ}
use mathlib.Core.Bool.{Bool, true, ◌&&◌, ◌||◌}
use mathlib.Core.List.{List, [], ◌∷◌}
use psbox.Common.Tests.{leb, ltb, ◌==◌, if◌then◌else◌}

abbrev between : ℕ → ℕ → ℕ → Bool
between low b high = leb low b && leb b high

-- A byte that goes on with a character.
abbrev continues : ℕ → Bool
continues b = between 0x80 b 0xBF

-- The second byte of a character of three or four, by its first: no longer form than is needed, no
-- surrogate, nothing above U+10FFFF.
abbrev second_of_3 : ℕ → ℕ → Bool
second_of_3 a b =
    if a == 0xE0
    then between 0xA0 b 0xBF
    else if a == 0xED
    then between 0x80 b 0x9F
    else continues b

abbrev second_of_4 : ℕ → ℕ → Bool
second_of_4 a b =
    if a == 0xF0
    then between 0x90 b 0xBF
    else if a == 0xF4
    then between 0x80 b 0x8F
    else continues b

unfoldable pub is_utf8 : List ℕ → Bool
is_utf8 [] = true
is_utf8 (a ∷ []) = ltb a 0x80
is_utf8 (a ∷ b ∷ []) = (ltb a 0x80 && is_utf8 (b ∷ [])) || (between 0xC2 a 0xDF && continues b)
is_utf8 (a ∷ b ∷ c ∷ []) =
    (ltb a 0x80 && is_utf8 (b ∷ c ∷ []))
    || (between 0xC2 a 0xDF && continues b && is_utf8 (c ∷ []))
    || (between 0xE0 a 0xEF && second_of_3 a b && continues c)
is_utf8 (a ∷ b ∷ c ∷ d ∷ rest) =
    (ltb a 0x80 && is_utf8 (b ∷ c ∷ d ∷ rest))
    || (between 0xC2 a 0xDF && continues b && is_utf8 (c ∷ d ∷ rest))
    || (between 0xE0 a 0xEF && second_of_3 a b && continues c && is_utf8 (d ∷ rest))
    || (between 0xF0 a 0xF4 && second_of_4 a b && continues c && continues d && is_utf8 rest)
