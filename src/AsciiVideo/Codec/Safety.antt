-- ===== src/AsciiVideo/Codec/Safety.antt =====
-- What any bytes at all can put on the screen.
use go_cli_messenger.Common.{
  ◌*◌, ◌≡◌, refl, ◌∙◌, Bool, true, false, ◌==◌, all_of, length, Text, arith, Bool-cases, ==_iff,
  inl, inr,
}
use go_cli_messenger.AsciiVideo.Wire.{Result, ok, err, Packet, valid_dimensions, unmarshal}
use go_cli_messenger.AsciiVideo.Delta.{apply_delta}
use go_cli_messenger.AsciiVideo.Delta.Length.{apply_delta-length}
use go_cli_messenger.AsciiVideo.Codec.{
  Decoder, Frame, decode, decode_packet, decode_result, settle, patched, follows, is_cell,
  frame_key, frame_delta,
}

-- A picture that the terminal can be given: printable ASCII, in a size within the limits.
pub record Safe (f : Frame) : Type 0 where
  pub dimensions : valid_dimensions f.columns f.rows ≡ true
  pub whole : length f.cells ≡ f.columns * f.rows
  pub printable : all_of is_cell f.cells ≡ true

settle-Safe :
    (p : Packet) (cells : Text) (d e : Decoder) (f : Frame)
    → valid_dimensions p.columns p.rows ≡ true
    → length cells ≡ p.columns * p.rows
    → settle p cells d ≡ (e, ok f)
    → Safe f
settle-Safe p cells d e f v l h = ground arith

patched-Safe :
    (p : Packet) (r : Text × Bool) (d e : Decoder) (f : Frame)
    → valid_dimensions p.columns p.rows ≡ true
    → length r.0 ≡ p.columns * p.rows
    → patched p r d ≡ (e, ok f)
    → Safe f
patched-Safe p (cells, true) d e f v l h = settle-Safe p cells d e f v l h
patched-Safe p (cells, false) d e f v l h = cc

decode_packet-Safe :
    (p : Packet) (d e : Decoder) (f : Frame)
    → valid_dimensions p.columns p.rows ≡ true
    → decode_packet p d ≡ (e, ok f)
    → Safe f
decode_packet-Safe p d e f v h = elim (Bool-cases (p.kind == frame_key)) [
  | inl key ↦ elim (Bool-cases (length p.payload == p.columns * p.rows)) [
    | inl fits ↦ settle-Safe p p.payload d e f v ((==_iff _ _).0 fits) (rw (key, fits) at h)
    | inr short ↦ absurd (ground arith)
  ]
  | inr other ↦ elim (Bool-cases (p.kind == frame_delta)) [
    | inr unknown ↦ absurd (ground arith)
    | inl delta ↦ elim (Bool-cases (follows p d)) [
      | inr behind ↦ absurd (ground arith)
      | inl next ↦
          patched-Safe p (apply_delta d.cells p.payload) d e f v
            (apply_delta-length d.cells p.payload ∙ ground arith) (rw (other, delta, next) at h)
    ]
  ]
]

unmarshal-dimensions :
    (bytes : Text) (p : Packet) → unmarshal bytes ≡ ok p → valid_dimensions p.columns p.rows ≡ true
unfolding unmarshal
unmarshal-dimensions bytes p h = ground arith

-- Whatever bytes come in and whatever the decoder has seen before, a frame that it accepts is safe:
-- its size is within the limits, it has a cell for each place, and every cell is printable ASCII.
pub decode-Safe : (bytes : Text) (d e : Decoder) (f : Frame) → decode bytes d ≡ (e, ok f) → Safe f
unfolding decode
decode-Safe bytes d e f h = read (unmarshal bytes) refl h
  where
    read : (r : Result Packet) → unmarshal bytes ≡ r → decode_result r d ≡ (e, ok f) → Safe f
    read (ok p) u k = decode_packet-Safe p d e f (unmarshal-dimensions bytes p u) k
    read (err x) u k = cc
