-- ===== src/AsciiVideo/Wire.antt =====
-- internal/client/asciivideo/codec.go: big-endian words, the frame header, `marshal` and `unmarshal`.
-- A time counts nanoseconds from Go's zero time; the header carries the milliseconds since 1970 as a
-- 64-bit word, which wraps for the times before 1970. Words for times before Go's zero time have no
-- number here: such a time is read modulo 2^64 milliseconds.
use go_cli_messenger.Common.{
  ℕ, zero, suc, ◌+◌, ◌-◌, ◌*◌, ◌/◌, ◌%◌, ◌^◌, Bool, true, ◌&&◌, ◌||◌, not, ◌==◌, leb, ltb,
  if◌then◌else◌, [], ◌∷◌, length, drop, Text, ◌≡◌, arith, ◌<◌, ◌≤◌,
}

abbrev pub max_columns : ℕ
max_columns = 200

abbrev pub max_rows : ℕ
max_rows = 80

abbrev pub max_encoded_size : ℕ
max_encoded_size = 65536

abbrev pub header_size : ℕ
header_size = 26

abbrev pub byte_at : Text → ℕ → ℕ
byte_at [] i = 0
byte_at (c ∷ s) zero = c
byte_at (c ∷ s) (suc i) = byte_at s i

abbrev pub byte : ℕ → ℕ → ℕ
byte n k = n / 2 ^ (8 * k) % 256

-- binary.BigEndian.PutUint16, PutUint32 and PutUint64
abbrev pub put16 : ℕ → Text → Text
put16 n s = byte n 1 ∷ byte n 0 ∷ s

abbrev pub put32 : ℕ → Text → Text
put32 n s = byte n 3 ∷ byte n 2 ∷ byte n 1 ∷ byte n 0 ∷ s

abbrev pub put64 : ℕ → Text → Text
put64 n s = byte n 7 ∷ byte n 6 ∷ byte n 5 ∷ byte n 4 ∷ put32 n s

-- binary.BigEndian.Uint16, Uint32 and Uint64 of the bytes at an offset
abbrev pub get16 : Text → ℕ → ℕ
get16 s i = byte_at s i * 256 + byte_at s (i + 1)

abbrev pub get32 : Text → ℕ → ℕ
get32 s i = get16 s i * 65536 + get16 s (i + 2)

abbrev pub get64 : Text → ℕ → ℕ
get64 s i = get32 s i * 4294967296 + get32 s (i + 4)

-- The milliseconds from Go's zero time to 1970.
abbrev pub epoch : ℕ
epoch = 62135596800000

abbrev pub unix_milli : ℕ → ℕ
unix_milli t = (t / 1000000 + (2 ^ 64 - epoch)) % 2 ^ 64

abbrev pub from_milli : ℕ → ℕ
from_milli w = (w + epoch) % 2 ^ 64 * 1000000

pub data FrameError : Type 0 where
  invalid_frame needs_keyframe : FrameError

pub data Result {ℓ} (A : Type ℓ) : Type ℓ where
  ok : A → Result A
  err : FrameError → Result A

unfoldable pub valid_dimensions : ℕ → ℕ → Bool
valid_dimensions columns rows =
    leb 1 columns && leb columns max_columns && leb 1 rows && leb rows max_rows

-- The fields of a frame on the wire; `kind` is the byte of the frame type.
pub record Packet : Type 0 where
  pub kind : ℕ
  pub sequence : ℕ
  pub timestamp : ℕ
  pub columns : ℕ
  pub rows : ℕ
  pub payload : Text

abbrev pub layout : ℕ → ℕ → ℕ → ℕ → ℕ → Text → Text
layout kind sequence timestamp columns rows payload =
    b'T'
    ∷ b'V'
    ∷ 1
    ∷ kind
    ∷ put32 sequence (
        put64 (unix_milli timestamp)
          (put16 columns (put16 rows (1 ∷ 0 ∷ put32 (length payload) payload))))

unfoldable pub marshal : ℕ → ℕ → ℕ → ℕ → ℕ → Text → Result Text
unfolding valid_dimensions
marshal kind sequence timestamp columns rows payload =
    if not (valid_dimensions columns rows)
    then err invalid_frame
    else if ltb max_encoded_size (header_size + length payload)
    then err invalid_frame
    else ok (layout kind sequence timestamp columns rows payload)

unfoldable pub unmarshal : Text → Result Packet
unfolding valid_dimensions
unmarshal s =
    let columns = get16 s 16 in
    let rows = get16 s 18 in
    if ltb (length s) header_size
      || ltb max_encoded_size (length s)
      || not (byte_at s 0 == b'T')
      || not (byte_at s 1 == b'V')
    then err invalid_frame
    else if not (byte_at s 2 == 1)
    then err invalid_frame
    else if not (valid_dimensions columns rows)
    then err invalid_frame
    else if not (byte_at s 20 == 1) || not (byte_at s 21 == 0)
    then err invalid_frame
    else if not (get32 s 22 == length s - header_size)
    then err invalid_frame
    else ok (record {
      kind = byte_at s 3;
      sequence = get32 s 4;
      timestamp = from_milli (get64 s 8);
      columns = columns;
      rows = rows;
      payload = drop header_size s;
    })

abbrev join16 : ℕ → ℕ
join16 n = byte n 1 * 256 + byte n 0

abbrev join32 : ℕ → ℕ
join32 n = (byte n 3 * 256 + byte n 2) * 65536 + join16 n

abbrev join64 : ℕ → ℕ
join64 n =
    ((byte n 7 * 256 + byte n 6) * 65536 + (byte n 5 * 256 + byte n 4)) * 4294967296 + join32 n

pub join16_lem : (n : ℕ) → n < 2 ^ 16 → join16 n ≡ n
join16_lem n h = omega arith

pub join32_lem : (n : ℕ) → n < 2 ^ 32 → join32 n ≡ n
join32_lem n h = omega arith

join64_lem : (n : ℕ) → n < 2 ^ 64 → join64 n ≡ n
join64_lem n h = omega arith

from_milli-unix_milli : (t : ℕ) → t < 2 ^ 82 → from_milli (unix_milli t) ≡ t / 1000000 * 1000000
from_milli-unix_milli t h = omega arith

unix_milli-lt : (t : ℕ) → unix_milli t < 2 ^ 64
unix_milli-lt t = omega arith

-- What is read back: all fields, and the time in whole milliseconds.
abbrev pub packet : ℕ → ℕ → ℕ → ℕ → ℕ → Text → Packet
packet kind sequence timestamp columns rows payload = record {
  kind = kind;
  sequence = sequence;
  timestamp = timestamp / 1000000 * 1000000;
  columns = columns;
  rows = rows;
  payload = payload;
}

module _ (kind sequence timestamp columns rows : ℕ) (payload : Text) (hs : sequence < 2 ^ 32)
    (ht : timestamp < 2 ^ 82) where
  bounds :
      valid_dimensions columns rows ≡ true
      → (1 ≤ columns) × (columns ≤ 200) × (1 ≤ rows) × (rows ≤ 80)
  unfolding valid_dimensions
  bounds h = (ground arith, ground arith, ground arith, ground arith)

  pub unmarshal-layout :
      valid_dimensions columns rows ≡ true
      → 26 + length payload ≤ 65536
      → unmarshal (layout kind sequence timestamp columns rows payload)
        ≡ ok (packet kind sequence timestamp columns rows payload)
  unfolding unmarshal
  unmarshal-layout d l =
      let (c₁, c₂, r₁, r₂) = bounds d in
      rw
        (
          join16_lem columns (omega arith),
          join16_lem rows (omega arith),
          join32_lem sequence hs,
          join32_lem (length payload) (omega arith),
          join64_lem (unix_milli timestamp) (unix_milli-lt timestamp),
          from_milli-unix_milli timestamp ht,
        )
        (ground arith)

  -- What `marshal` writes, `unmarshal` reads back: the kind, the sequence number (a 32-bit word), the
  -- size and the payload as they were, and the time (below 2^82 nanoseconds, about 150 million years)
  -- in whole milliseconds.
  pub unmarshal-marshal :
      (bytes : Text)
      → marshal kind sequence timestamp columns rows payload ≡ ok bytes
      → unmarshal bytes ≡ ok (packet kind sequence timestamp columns rows payload)
  unfolding marshal
  unmarshal-marshal bytes h =
      let dims : valid_dimensions columns rows ≡ true = ground arith in
      let fits : 26 + length payload ≤ 65536 = ground arith in
      let same : layout kind sequence timestamp columns rows payload ≡ bytes = ground arith in
      rw (← same) (unmarshal-layout dims fits)
