-- ===== src/Protocol/Names.antt =====
-- internal/protocol/validation.go: base names, canonical addresses and message ids.
pub mod Address
use go_cli_messenger.Common.{
  ℕ, ◌+◌, ◌-◌, Bool, ◌&&◌, ◌||◌, not, leb, ltb, ◌==◌, if◌then◌else◌, true, false, length, take,
  Text,
}
use go_cli_messenger.Protocol.Signal.{
  min_base_name_length, max_base_name_length, address_suffix_length, max_address_length,
}
use go_cli_messenger.Protocol.Regex.{Regex, one, many, times, opt, seq, matches}

abbrev between : ℕ → ℕ → ℕ → Bool
between lo hi c = leb lo c && leb c hi

-- `[a-z0-9]`
abbrev pub is_alnum : ℕ → Bool
is_alnum c = between b'a' b'z' c || between b'0' b'9' c

-- `[a-z0-9_-]`
abbrev pub is_name_byte : ℕ → Bool
is_name_byte c = is_alnum c || c == b'_' || c == b'-'

-- `[a-z2-7]`
abbrev pub is_base32 : ℕ → Bool
is_base32 c = between b'a' b'z' c || between b'2' b'7' c

-- `[0-9a-f]`
abbrev pub is_hex : ℕ → Bool
is_hex c = between b'0' b'9' c || between b'a' b'f' c

abbrev pub is_dash : ℕ → Bool
is_dash c = c == b'-'

-- `(?:[a-z0-9_-]*[a-z0-9])?`
abbrev name_tail : Regex
name_tail = opt (seq (many is_name_byte) (one is_alnum))

abbrev pub base_name_pattern : Regex
base_name_pattern = seq (one is_alnum) name_tail

abbrev pub address_pattern : Regex
address_pattern =
    seq (one is_alnum) (seq name_tail (seq (one is_dash) (times address_suffix_length is_base32)))

abbrev pub uuid_pattern : Regex
uuid_pattern = seq (times 8 is_hex) (
    seq (one is_dash) (
      seq (times 4 is_hex) (
        seq (one is_dash) (
          seq (one (between b'1' b'8')) (
            seq (times 3 is_hex) (
              seq (one is_dash) (
                seq (one (λ c. c == b'8' || c == b'9' || c == b'a' || c == b'b'))
                  (seq (times 3 is_hex) (seq (one is_dash) (times 12 is_hex))))))))))

unfoldable pub valid_uuid : Text → Bool
unfolding matches
valid_uuid value = matches uuid_pattern value

unfoldable pub valid_base_name : Text → Bool
valid_base_name name =
    leb min_base_name_length (length name)
    && leb (length name) max_base_name_length
    && matches base_name_pattern name

unfoldable pub valid_address : Text → Bool
unfolding valid_base_name
valid_address address =
    if ltb (length address) (min_base_name_length + 1 + address_suffix_length)
      || ltb max_address_length (length address)
      || not (matches address_pattern address)
    then false
    else valid_base_name (take (length address - 1 - address_suffix_length) address)
