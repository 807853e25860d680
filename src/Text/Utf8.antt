-- ===== src/Text/Utf8.antt =====
-- Which Go strings are UTF-8, as `unicode/utf8` reads them. encoding/json writes U+FFFD in the place
-- of what is not, so only these texts come back from it as they were.
use manta.Prelude.{ℕ, Bool, true, false, ◌&&◌, List, [], ◌∷◌, leb, if◌then◌else◌}
use manta.Text.{Str}

-- A byte from `low` to `high`.
abbrev within : ℕ × ℕ → ℕ → Bool
within (low, high) b = leb low b && leb b high

abbrev any_tail : ℕ × ℕ
any_tail = (128, 191)

-- The ranges of the bytes that follow a first byte, after the test that it is one; the bytes of a
-- surrogate, of a longer form than is needed and of what is above U+10FFFF are in none.
unfoldable pub follow : ℕ → List (ℕ × ℕ)
follow b =
    if leb b 127
    then []
    else if leb b 223
    then any_tail ∷ []
    else if leb b 224
    then (160, 191) ∷ any_tail ∷ []
    else if leb b 236
    then any_tail ∷ any_tail ∷ []
    else if leb b 237
    then (128, 159) ∷ any_tail ∷ []
    else if leb b 239
    then any_tail ∷ any_tail ∷ []
    else if leb b 240
    then (144, 191) ∷ any_tail ∷ any_tail ∷ []
    else if leb b 243
    then any_tail ∷ any_tail ∷ any_tail ∷ []
    else (128, 143) ∷ any_tail ∷ any_tail ∷ []

abbrev is_first : ℕ → Bool
is_first b = if leb b 127 then true else within (194, 244) b

-- The rest of a text, where the bytes of these ranges are still to come.
unfoldable pub rest_is_utf8 : List (ℕ × ℕ) → Str → Bool
rest_is_utf8 [] [] = true
rest_is_utf8 (r ∷ rs) [] = false
rest_is_utf8 [] (b ∷ s) = is_first b && rest_is_utf8 (follow b) s
rest_is_utf8 (r ∷ rs) (b ∷ s) = within r b && rest_is_utf8 rs s

-- utf8.ValidString
unfoldable pub is_utf8 : Str → Bool
is_utf8 s = rest_is_utf8 [] s

unfoldable pub all_utf8 : List Str → Bool
all_utf8 [] = true
all_utf8 (s ∷ ss) = is_utf8 s && all_utf8 ss
