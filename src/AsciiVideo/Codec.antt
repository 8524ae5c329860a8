-- ===== src/AsciiVideo/Codec.antt =====
-- internal/client/asciivideo/codec.go: `Encoder` and `Decoder`. A method returns the new state beside
-- its result, also where it fails: the encoder has then counted a frame, and the decoder may have
-- written into its cells.
pub mod Stream
pub mod Safety
use go_cli_messenger.Common.{
  ℕ, zero, suc, ◌+◌, ◌*◌, ◌%◌, ◌^◌, Bool, true, false, ◌&&◌, ◌||◌, not, ◌==◌, leb, ltb, ℤ,
  positive_or, if◌then◌else◌, Option, none, some, List, [], ◌∷◌, all_of, length, is_empty, Text,
}
use go_cli_messenger.AsciiVideo.Wire.{
  FrameError, invalid_frame, needs_keyframe, Result, ok, err, Packet, valid_dimensions, marshal,
  unmarshal,
}
use go_cli_messenger.AsciiVideo.Delta.{encode_delta, apply_delta}

abbrev pub frame_key : ℕ
frame_key = 1

abbrev pub frame_delta : ℕ
frame_delta = 2

pub record Frame : Type 0 where
  pub kind : ℕ
  pub sequence : ℕ
  pub timestamp : ℕ
  pub columns : ℕ
  pub rows : ℕ
  pub cells : Text

-- `sequence` is a uint32.
pub record Encoder : Type 0 where
  pub columns : ℕ
  pub rows : ℕ
  pub key_interval : ℕ
  pub previous : Text
  pub sequence : ℕ
  pub last_keyframe : ℕ
  pub force_key : Bool

unfoldable pub new_encoder : ℕ → ℕ → ℤ → Result Encoder
unfolding valid_dimensions
new_encoder columns rows key_interval =
    if valid_dimensions columns rows
    then ok (record {
      columns = columns;
      rows = rows;
      key_interval = positive_or key_interval 2000000000;
      previous = [];
      sequence = 0;
      last_keyframe = 0;
      force_key = true;
    })
    else err invalid_frame

unfoldable pub force_keyframe : Encoder → Encoder
force_keyframe e = record e { force_key = true }

-- `cell < 0x20 || cell > 0x7e` is what is refused.
abbrev pub is_cell : ℕ → Bool
is_cell c = leb 0x20 c && leb c 0x7E

-- `if timestamp.IsZero() { timestamp = time.Now() }`
abbrev pub stamp : ℕ → ℕ → ℕ
stamp timestamp clock = if timestamp == 0 then clock else timestamp

abbrev pub wants_key : Encoder → Text → ℕ → Text → Bool
wants_key e cells t delta =
    e.force_key
    || is_empty e.previous
    || leb (e.last_keyframe + e.key_interval) t
    || leb (length cells) (length delta)

-- `encoded, err := marshal(…)`, and the assignment to `previous` where it succeeds.
abbrev emit : Text → Encoder → Result Text → Encoder × Result Text
emit cells e (ok bytes) = (record e { previous = cells }, ok bytes)
emit cells e (err x) = (e, err x)

abbrev encode_key : Text → ℕ → Encoder → Encoder × Result Text
encode_key cells t e =
    emit cells (record e { last_keyframe = t; force_key = false })
      (marshal frame_key e.sequence t e.columns e.rows cells)

abbrev encode_cells : Text → ℕ → Text → Encoder → Encoder × Result Text
encode_cells cells t delta e =
    if wants_key e cells t delta
    then encode_key cells t e
    else emit cells e (marshal frame_delta e.sequence t e.columns e.rows delta)

-- `clock` is what `time.Now()` would give.
unfoldable pub encode : Text → ℕ → ℕ → Encoder → Encoder × Result Text
encode cells timestamp clock e =
    if not (length cells == e.columns * e.rows)
    then (e, err invalid_frame)
    else if not (all_of is_cell cells)
    then (e, err invalid_frame)
    else encode_cells cells (stamp timestamp clock) (encode_delta e.previous cells)
        (record e { sequence = (e.sequence + 1) % 2 ^ 32 })

pub record Decoder : Type 0 where
  pub columns : ℕ
  pub rows : ℕ
  pub sequence : ℕ
  pub cells : Text

unfoldable pub new_decoder : Decoder
new_decoder = record { columns = 0; rows = 0; sequence = 0; cells = [] }

-- The end of `Decode`: the new cells are in place, and are looked at.
abbrev pub settle : Packet → Text → Decoder → Decoder × Result Frame
settle p cells d =
    if all_of is_cell cells
    then (
      record { columns = p.columns; rows = p.rows; sequence = p.sequence; cells = cells },
      ok (record {
        kind = p.kind;
        sequence = p.sequence;
        timestamp = p.timestamp;
        columns = p.columns;
        rows = p.rows;
        cells = cells;
      }),
    )
    else (record d { cells = cells }, err invalid_frame)

abbrev pub patched : Packet → Text × Bool → Decoder → Decoder × Result Frame
patched p (cells, true) d = settle p cells d
patched p (cells, false) d = (record d { cells = cells }, err invalid_frame)

-- `sequence != d.sequence+1` on uint32
abbrev pub follows : Packet → Decoder → Bool
follows p d =
    length d.cells == p.columns * p.rows
    && d.columns == p.columns
    && d.rows == p.rows
    && p.sequence == (d.sequence + 1) % 2 ^ 32

abbrev pub decode_packet : Packet → Decoder → Decoder × Result Frame
decode_packet p d =
    if p.kind == frame_key
    then (if length p.payload == p.columns * p.rows
        then settle p p.payload d
        else (d, err invalid_frame))
    else if p.kind == frame_delta
    then (if follows p d
        then patched p (apply_delta d.cells p.payload) d
        else (d, err needs_keyframe))
    else (d, err invalid_frame)

abbrev decode_result : Result Packet → Decoder → Decoder × Result Frame
decode_result (ok p) d = decode_packet p d
decode_result (err x) d = (d, err x)

unfoldable pub decode : Text → Decoder → Decoder × Result Frame
decode bytes d = decode_result (unmarshal bytes) d
