-- ===== src/Examples/Video.antt =====
-- A small picture through the video codec.
use go_cli_messenger.Common.{ℕ, ◌≡◌, refl, inl, inr, true, [], arith, Text, codes}
use go_cli_messenger.AsciiVideo.Wire.{
  ok, Packet, valid_dimensions, marshal, unmarshal, packet, layout,
}
use go_cli_messenger.AsciiVideo.Delta.{encode_delta, apply_delta}
use go_cli_messenger.AsciiVideo.Delta.Roundtrip.{apply_delta-encode_delta}
use go_cli_messenger.AsciiVideo.Codec.{Encoder, Decoder, Frame, new_decoder, encode, decode}
use go_cli_messenger.AsciiVideo.Codec.Stream.{Sound, Shows, encode-Shows}
use go_cli_messenger.AsciiVideo.Codec.Safety.{Safe, decode-Safe}

apply_delta-encode_delta_example :
    apply_delta (codes "abcd") (encode_delta (codes "abcd") (codes "axyd")) ≡ (codes "axyd", true)
apply_delta-encode_delta_example =
    apply_delta-encode_delta (codes "abcd") (codes "axyd") refl (omega arith)

-- 2025-01-01.
abbrev new_year : ℕ
new_year = 63871286400000000000

abbrev picture : Text
picture = codes "abcd"

abbrev key_bytes : Text
key_bytes = layout 1 1 new_year 2 2 picture

marshalled : marshal 1 1 new_year 2 2 picture ≡ ok key_bytes
unfolding marshal valid_dimensions
marshalled = refl

abbrev fresh : Encoder
fresh = record {
  columns = 2;
  rows = 2;
  key_interval = 2000000000;
  previous = [];
  sequence = 0;
  last_keyframe = 0;
  force_key = true;
}

fresh-Sound : Sound fresh
unfolding valid_dimensions
fresh-Sound = record { dimensions = refl; sequence_word = omega arith; whole = inl refl }

encode-Shows_example : Shows picture new_decoder (encode picture new_year 0 fresh)
encode-Shows_example =
    encode-Shows fresh new_decoder picture new_year 0 fresh-Sound refl refl (omega arith) (inr refl)

abbrev shown : Frame
shown = record {
  kind = 1;
  sequence = 1;
  timestamp = new_year;
  columns = 2;
  rows = 2;
  cells = picture;
}

abbrev showing : Decoder
showing = record { columns = 2; rows = 2; sequence = 1; cells = picture }

decoded : decode key_bytes new_decoder ≡ (showing, ok shown)
unfolding decode unmarshal valid_dimensions new_decoder
decoded = refl

decode-Safe_example : Safe shown
decode-Safe_example = decode-Safe key_bytes new_decoder showing shown decoded

abbrev third : Packet
third = packet 2 3 new_year 2 2 []
