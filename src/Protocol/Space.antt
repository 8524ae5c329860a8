-- ===== src/Protocol/Space.antt =====
-- bytes.TrimSpace and strings.TrimSpace of the Go library, on UTF-8 bytes.
use mathlib.Core.List.{reverse}
use go_cli_messenger.Common.{
  ℕ, zero, suc, Bool, ◌&&◌, ◌||◌, leb, ◌==◌, if◌then◌else◌, Option, none, some, [], ◌∷◌, length,
  Text,
}

is_ascii_space : ℕ → Bool
is_ascii_space c = c == 32 || (leb 9 c && leb c 13)

-- U+0085 and U+00A0
is_space_2 : ℕ → ℕ → Bool
is_space_2 a b = a == 0xC2 && (b == 0x85 || b == 0xA0)

-- U+1680, U+2000 to U+200A, U+2028, U+2029, U+202F, U+205F and U+3000
is_space_3 : ℕ → ℕ → ℕ → Bool
is_space_3 a b c =
    (a == 0xE1 && b == 0x9A && c == 0x80)
    || (a == 0xE2
        && b == 0x80
        && ((leb 0x80 c && leb c 0x8A) || c == 0xA8 || c == 0xA9 || c == 0xAF))
    || (a == 0xE2 && b == 0x81 && c == 0x9F)
    || (a == 0xE3 && b == 0x80 && c == 0x80)

-- The text less one leading space, if there is one.
drop_first : Text → Option Text
unfolding is_ascii_space is_space_2 is_space_3
drop_first [] = none
drop_first (a ∷ []) = if is_ascii_space a then some [] else none
drop_first (a ∷ b ∷ []) =
    if is_ascii_space a then some (b ∷ []) else if is_space_2 a b then some [] else none
drop_first (a ∷ b ∷ c ∷ s) =
    if is_ascii_space a
    then some (b ∷ c ∷ s)
    else if is_space_2 a b
    then some (c ∷ s)
    else if is_space_3 a b c
    then some s
    else none

-- The same on the reversed text, where the bytes of a character come last first.
drop_last : Text → Option Text
unfolding is_ascii_space is_space_2 is_space_3
drop_last [] = none
drop_last (a ∷ []) = if is_ascii_space a then some [] else none
drop_last (b ∷ a ∷ []) =
    if is_ascii_space b then some (a ∷ []) else if is_space_2 a b then some [] else none
drop_last (c ∷ b ∷ a ∷ s) =
    if is_ascii_space c
    then some (b ∷ a ∷ s)
    else if is_space_2 b c
    then some (a ∷ s)
    else if is_space_3 a b c
    then some s
    else none

-- Each round removes a byte at least, so the length of the text is fuel enough.
trim : (Text → Option Text) → ℕ → Text → Text
trim step zero s = s
trim step (suc n) s = elim (step s) [ none ↦ s | some rest ↦ trim step n rest ]

unfoldable pub trim_space : Text → Text
unfolding trim drop_first drop_last
trim_space s =
    let left = trim drop_first (length s) s in reverse (trim drop_last (length left) (reverse left))
