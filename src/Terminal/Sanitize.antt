-- ===== src/Terminal/Sanitize.antt =====
-- internal/client/terminal/terminal.go: `Sanitize`, `RightAlign`, `VideoSize` and the lines of the
-- chat. What `xterm.GetSize` answers is an argument: `none` where it fails.
pub mod Clean
pub mod Aligned
use go_cli_messenger.Common.{
  ℕ, zero, suc, ◌+◌, ◌-◌, ◌*◌, ◌/◌, ◌%◌, Bool, true, false, ◌&&◌, ◌||◌, not, ◌==◌, leb, ltb,
  if◌then◌else◌, Option, none, some, List, [], ◌∷◌, ◌++◌, length, Text, codes,
}
use go_cli_messenger.Terminal.Runes.{decode_rune, encode_rune, is_control, is_format}

-- An upper-case hexadecimal digit.
abbrev pub hex_digit : ℕ → ℕ
hex_digit n = if ltb n 10 then b'0' + n else 55 + n

-- The digits of a number below 16 ^ fuel, in front of what is written already; zeros fill up the
-- first `width` places.
pub hex_from : ℕ → ℕ → ℕ → Text → Text
hex_from zero width n s = s
hex_from (suc f) width n s =
    let more = hex_from f (width - 1) (n / 16) (hex_digit (n % 16) ∷ s) in
    if n == 0 && width == 0 then s else more

-- `%0wX`, for a width above 0
pub padded_hex : ℕ → ℕ → Text
unfolding hex_from
padded_hex width n = hex_from (width + n) width n []

-- What is written for a rune, or for a byte that is no rune.
pub sanitized_rune : ℕ → Text
unfolding padded_hex
sanitized_rune r =
    if r == 9
    then 9 ∷ []
    else if r == 10
    then b'\\' ∷ b'n' ∷ []
    else if r == 13
    then b'\\' ∷ b'r' ∷ []
    else if is_control r || is_format r
    then b'\\' ∷ b'u' ∷ b'{' ∷ padded_hex 4 r ++ b'}' ∷ []
    else encode_rune r

abbrev pub bad_byte : ℕ → Text
bad_byte a = b'\\' ∷ b'x' ∷ padded_hex 2 a

-- The loop of `Sanitize`, on fuel: each round takes at least one byte.
pub sanitize_from : ℕ → Text → Text
sanitize_from zero s = []
sanitize_from (suc f) [] = []
sanitize_from (suc f) (a ∷ s) = elim (decode_rune a s) [
  | none ↦ bad_byte a ++ sanitize_from f s
  | some (r, rest) ↦ sanitized_rune r ++ sanitize_from f rest
]

unfoldable pub sanitize : Text → Text
unfolding sanitize_from sanitized_rune padded_hex
sanitize s = sanitize_from (length s) s

-- `utf8.RuneCountInString`: a byte that is no rune counts as one.
pub rune_count_from : ℕ → Text → ℕ
rune_count_from zero s = 0
rune_count_from (suc f) [] = 0
rune_count_from (suc f) (a ∷ s) = elim (decode_rune a s) [
  | none ↦ suc (rune_count_from f s)
  | some (r, rest) ↦ suc (rune_count_from f rest)
]

unfoldable pub rune_count : Text → ℕ
unfolding rune_count_from
rune_count s = rune_count_from (length s) s

unfoldable pub spaces : ℕ → Text
spaces zero = []
spaces (suc n) = b' ' ∷ spaces n

unfoldable pub right_align : Text → ℕ → Text
unfolding rune_count spaces
right_align value width =
    let visible = rune_count value in
    if leb width visible then value else spaces (width - visible) ++ value

pub aligned : Bool → Option (ℕ × ℕ) → Text → Text
aligned true (some (width, height)) message = right_align message width
aligned interactive size message = message

-- The texts that `Local` and `Remote` write.
unfoldable pub local_line : Bool → Option (ℕ × ℕ) → Text → Text
unfolding sanitize right_align aligned
local_line interactive size text =
    let message = sanitize text ++ codes " <you" in aligned interactive size message ++ 10 ∷ []

unfoldable pub remote_line : Text → Text → Text
unfolding sanitize
remote_line username text = sanitize username ++ (codes "> " ++ (sanitize text ++ 10 ∷ []))

-- `VideoSize`; a count below 1, which the code raises to 1, is 0 here at the least.
unfoldable pub video_size : Bool → Option (ℕ × ℕ) → ℕ → ℕ → ℕ × ℕ
video_size true (some (width, height)) max_columns max_rows =
    let columns = if ltb width max_columns then width else max_columns in
    let rows = if ltb (height - 4) max_rows then height - 4 else max_rows in
    (if columns == 0 then 1 else columns, if rows == 0 then 1 else rows)
video_size interactive size max_columns max_rows = (max_columns, max_rows)
