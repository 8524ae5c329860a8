-- ===== src/Terminal/Runes.antt =====
-- Go's unicode/utf8 and unicode packages, as `Sanitize` and `RightAlign` of
-- internal/client/terminal/terminal.go call them.
pub mod Roundtrip
use go_cli_messenger.Common.{
  ℕ, zero, suc, ◌+◌, ◌-◌, ◌*◌, ◌/◌, ◌%◌, ◌≤◌, ◌<◌, ◌≡◌, refl, Bool, true, false, ◌&&◌, ◌||◌, not,
  ◌==◌, leb, ltb, if◌then◌else◌, Option, none, some, List, [], ◌∷◌, any_of, ◌++◌, arith, Text,
}
use go_cli_messenger.Protocol.Control.{lead}

-- The bytes behind the first one, each in its range; `acc` is the value so far.
unfoldable pub rune_tail : List (ℕ × ℕ) → ℕ → Text → Option (ℕ × Text)
rune_tail [] acc s = some (acc, s)
rune_tail (range ∷ needs) acc [] = none
rune_tail ((lo, hi) ∷ needs) acc (b ∷ s) =
    if leb lo b && leb b hi then rune_tail needs (acc * 64 + b % 64) s else none

-- The bits of the first byte that belong to the value.
abbrev pub lead_bits : ℕ → ℕ
lead_bits a =
    if ltb a 0x80 then a else if ltb a 0xE0 then a % 32 else if ltb a 0xF0 then a % 16 else a % 8

abbrev pub decode_tail : Option (List (ℕ × ℕ)) → ℕ → Text → Option (ℕ × Text)
decode_tail none acc s = none
decode_tail (some needs) acc s = rune_tail needs acc s

-- `utf8.DecodeRuneInString` of `a ∷ s`: the rune and what follows it; `none` is (RuneError, 1).
unfoldable pub decode_rune : ℕ → Text → Option (ℕ × Text)
unfolding rune_tail lead
decode_rune a s = decode_tail (lead a) (lead_bits a) s

abbrev rest_byte : ℕ → ℕ
rest_byte n = 0x80 + n % 64

-- `utf8.AppendRune`: the bytes of a rune; a surrogate or a number too large becomes U+FFFD.
unfoldable pub encode_rune : ℕ → Text
encode_rune r =
    if ltb r 0x80
    then r ∷ []
    else if ltb r 0x800
    then (0xC0 + r / 64) ∷ rest_byte r ∷ []
    else if ltb 0x10FFFF r || leb 0xD800 r && leb r 0xDFFF
    then 0xEF ∷ 0xBF ∷ 0xBD ∷ []
    else if ltb r 0x10000
    then (0xE0 + r / 4096) ∷ rest_byte (r / 64) ∷ rest_byte r ∷ []
    else (0xF0 + r / 262144) ∷ rest_byte (r / 4096) ∷ rest_byte (r / 64) ∷ rest_byte r ∷ []

-- `unicode.IsControl`
abbrev pub is_control : ℕ → Bool
is_control r = ltb r 0x20 || leb 0x7F r && leb r 0x9F

-- `unicode.Cf`, the format characters.
format_ranges : List (ℕ × ℕ)
format_ranges =
    (0xAD, 0xAD)
    ∷ (0x600, 0x605)
    ∷ (0x61C, 0x61C)
    ∷ (0x6DD, 0x6DD)
    ∷ (0x70F, 0x70F)
    ∷ (0x890, 0x891)
    ∷ (0x8E2, 0x8E2)
    ∷ (0x180E, 0x180E)
    ∷ (0x200B, 0x200F)
    ∷ (0x202A, 0x202E)
    ∷ (0x2060, 0x2064)
    ∷ (0x2066, 0x206F)
    ∷ (0xFEFF, 0xFEFF)
    ∷ (0xFFF9, 0xFFFB)
    ∷ (0x110BD, 0x110BD)
    ∷ (0x110CD, 0x110CD)
    ∷ (0x13430, 0x1343F)
    ∷ (0x1BCA0, 0x1BCA3)
    ∷ (0x1D173, 0x1D17A)
    ∷ (0xE0001, 0xE0001)
    ∷ (0xE0020, 0xE007F)
    ∷ []

unfoldable pub is_format : ℕ → Bool
unfolding format_ranges
is_format r = any_of (λ (lo, hi). leb lo r && leb r hi) format_ranges

-- A rune that does nothing to a terminal: a tab, or neither control nor format.
abbrev pub is_harmless : ℕ → Bool
is_harmless r = if r == 9 then true else not (is_control r || is_format r)
