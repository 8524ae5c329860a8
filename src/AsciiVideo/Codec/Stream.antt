-- ===== src/AsciiVideo/Codec/Stream.antt =====
-- A decoder that hears every frame of an encoder shows the encoder's pictures.
use go_cli_messenger.Common.{
  ℕ, ◌+◌, ◌*◌, ◌%◌, ◌^◌, ◌≤◌, ◌<◌, ◌≡◌, ◌≢◌, sym, ap, ◌⊎◌, inl, inr, true, false, [], all_of,
  length, is_empty, Text, arith, Bool-cases, ==_iff, subst,
}
use go_cli_messenger.AsciiVideo.Wire.{
  needs_keyframe, Result, ok, err, Packet, valid_dimensions, marshal, unmarshal-layout, layout,
  packet,
}
use go_cli_messenger.AsciiVideo.Delta.{encode_delta, apply_delta}
use go_cli_messenger.AsciiVideo.Delta.Roundtrip.{apply_delta-encode_delta}
use go_cli_messenger.AsciiVideo.Codec.{
  Encoder, Decoder, Frame, encode, encode_cells, emit, encode_key, decode, decode_packet,
  decode_result, stamp, wants_key, is_cell, frame_delta,
}

-- The decoder has seen the encoder's last frame.
pub record InSync (e : Encoder) (d : Decoder) : Type 0 where
  pub same_columns : d.columns ≡ e.columns
  pub same_rows : d.rows ≡ e.rows
  pub same_sequence : d.sequence ≡ e.sequence
  pub same_cells : d.cells ≡ e.previous

-- What every encoder has: sizes within the limits, a picture of that size or none yet.
pub record Sound (e : Encoder) : Type 0 where
  pub dimensions : valid_dimensions e.columns e.rows ≡ true
  pub sequence_word : e.sequence < 2 ^ 32
  pub whole : (e.previous ≡ []) ⊎ (length e.previous ≡ e.columns * e.rows)

area_bounds : (c r : ℕ) → valid_dimensions c r ≡ true → (1 ≤ c * r) × (c * r ≤ 16000)
unfolding valid_dimensions
area_bounds c r h =
    let c₁ : 1 ≤ c = ground arith in
    let c₂ : c ≤ 200 = ground arith in
    let r₁ : 1 ≤ r = ground arith in
    let r₂ : r ≤ 80 = ground arith in (product_pos c r c₁ r₁, product_le c r c₂ r₂)
  where
    product_pos : (c r : ℕ) → 1 ≤ c → 1 ≤ r → 1 ≤ c * r
    product_pos c r p q = grind arith

    product_le : (c r : ℕ) → c ≤ 200 → r ≤ 80 → c * r ≤ 16000
    product_le c r p q = grind arith

marshal_fits :
    (kind sequence t c r : ℕ) (payload : Text)
    → valid_dimensions c r ≡ true
    → length payload ≤ 16000
    → marshal kind sequence t c r payload ≡ ok (layout kind sequence t c r payload)
unfolding marshal
marshal_fits kind sequence t c r payload d l = ground arith

-- The decoder took the frame, shows the cells and is in step with the encoder.
abbrev pub Seen : Text → Encoder → Decoder × Result Frame → Type 0
Seen cells e (d, ok f) = (f.cells ≡ cells) × InSync e d
Seen cells e (d, err x) = ⊥

-- The encoder gave out a frame, and the decoder saw it.
abbrev pub Shows : Text → Decoder → Encoder × Result Text → Type 0
Shows cells d (e, ok bytes) = Sound e × Seen cells e (decode bytes d)
Shows cells d (e, err x) = ⊥

decode-layout :
    (kind sequence t c r : ℕ) (payload : Text) (d : Decoder)
    → sequence < 2 ^ 32
    → t < 2 ^ 82
    → valid_dimensions c r ≡ true
    → length payload ≤ 16000
    → decode (layout kind sequence t c r payload) d
      ≡ decode_packet (packet kind sequence t c r payload) d
unfolding decode
decode-layout kind sequence t c r payload d hs ht v l =
    ap (λ p. decode_result p d) (unmarshal-layout kind sequence t c r payload hs ht v (omega arith))

abbrev counted : Encoder → Encoder
counted e = record e { sequence = (e.sequence + 1) % 2 ^ 32 }

module _ (e : Encoder) (d : Decoder) (cells : Text) (t : ℕ) (sound : Sound e)
    (size : length cells ≡ e.columns * e.rows) (printable : all_of is_cell cells ≡ true)
    (when : t < 2 ^ 82) where
  small : length cells ≤ 16000
  small = rw size (area_bounds e.columns e.rows sound.dimensions).1

  key-Shows : Shows cells d (encode_key cells t (counted e))
  key-Shows =
      rw
        (marshal_fits 1 ((e.sequence + 1) % 2 ^ 32) t e.columns e.rows cells sound.dimensions small)
        (
          record { dimensions = sound.dimensions; sequence_word = omega arith; whole = inr size },
          subst (Seen cells _)
              (sym (
                decode-layout 1 ((e.sequence + 1) % 2 ^ 32) t e.columns e.rows cells d (omega arith)
                  when sound.dimensions small))
              (ground arith),
        )

  module _ (delta : Text) (short : length delta ≤ length cells)
      (applies : apply_delta e.previous delta ≡ (cells, true))
      (prior : length e.previous ≡ length cells) (sync : InSync e d) where
    delta-Shows : Shows cells d (
        emit cells
          (counted e)
          (marshal frame_delta ((e.sequence + 1) % 2 ^ 32) t e.columns e.rows delta))
    delta-Shows =
        rw
          (marshal_fits 2 ((e.sequence + 1) % 2 ^ 32) t e.columns e.rows delta sound.dimensions
            (omega (arith, small)))
          (
            record { dimensions = sound.dimensions; sequence_word = omega arith; whole = inr size },
            subst (Seen cells _)
                (sym (
                  decode-layout 2 ((e.sequence + 1) % 2 ^ 32) t e.columns e.rows delta d
                    (omega arith) when sound.dimensions (omega (arith, small))))
                (rw (sync.same_cells, applies)
                  (ground (arith, sync.same_columns, sync.same_rows, sync.same_sequence))),
          )

  prior_picture : is_empty e.previous ≡ false → length e.previous ≡ length cells
  prior_picture h = ground (arith, sound.whole)

  cells-Shows :
      InSync e d ⊎ (wants_key e cells t (encode_delta e.previous cells) ≡ true)
      → Shows cells d (encode_cells cells t (encode_delta e.previous cells) (counted e))
  cells-Shows h = elim (Bool-cases (wants_key e cells t (encode_delta e.previous cells))) [
    | inl key ↦ rw key key-Shows
    | inr plain ↦ rw plain (
        let prior = prior_picture (ground arith) in
        delta-Shows (encode_delta e.previous cells) (ground arith)
          (apply_delta-encode_delta e.previous cells prior (omega (arith, small))) prior
          (elim h [ inl sync ↦ sync | inr key ↦ absurd (ground arith) ]))
  ]

-- Given a whole picture of printable cells and a time below 2^82 nanoseconds, a sound encoder gives
-- out a frame; a decoder that has seen the encoder's last frame, or any decoder at all if the frame
-- is a keyframe, then shows exactly that picture and is in step with the encoder, whose own state
-- stays sound.
pub encode-Shows :
    (e : Encoder) (d : Decoder) (cells : Text) (timestamp clock : ℕ)
    → Sound e
    → length cells ≡ e.columns * e.rows
    → all_of is_cell cells ≡ true
    → stamp timestamp clock < 2 ^ 82
    → InSync e d
      ⊎ (wants_key e cells (stamp timestamp clock) (encode_delta e.previous cells) ≡ true)
    → Shows cells d (encode cells timestamp clock e)
unfolding encode
encode-Shows e d cells timestamp clock sound size printable when h =
    rw ((==_iff (length cells) (e.columns * e.rows)).1 size, printable)
      (cells-Shows e d cells (stamp timestamp clock) sound size printable when h)

-- A delta whose sequence number does not follow the decoder's is refused with a call for a keyframe,
-- and the decoder is left as it was.
pub lost_frame :
    (p : Packet) (d : Decoder)
    → p.kind ≡ frame_delta
    → p.sequence ≢ (d.sequence + 1) % 2 ^ 32
    → decode_packet p d ≡ (d, err needs_keyframe)
lost_frame p d h g = ground arith
