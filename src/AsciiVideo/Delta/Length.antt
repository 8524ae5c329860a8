-- ===== src/AsciiVideo/Delta/Length.antt =====
-- A delta leaves the number of cells alone.
use go_cli_messenger.Common.{
  ℕ, zero, suc, ◌+◌, ◌≤◌, ◌≡◌, refl, ◌++◌, length, length-append, length-take, length-drop, take,
  drop, Text, arith,
}
use go_cli_messenger.AsciiVideo.Wire.{get16, get32}
use go_cli_messenger.AsciiVideo.Delta.{apply_delta, apply_from, overwrite}

overwrite-length :
    (cells : Text) (start : ℕ) (run : Text)
    → start + length run ≤ length cells
    → length (overwrite cells start run) ≡ length cells
overwrite-length cells start run h = omega (
  arith,
  length-append (take start cells ++ run) (drop (start + length run) cells),
  length-append (take start cells) run,
  length-take start cells,
  length-drop (start + length run) cells,
)

-- A delta never changes the number of cells, whether it is accepted or not.
pub apply_from-length :
    (f : ℕ) (cells payload : Text) → length (apply_from f cells payload).0 ≡ length cells
unfolding apply_from
apply_from-length zero cells payload = refl
apply_from-length (suc f) cells payload =
    let start = get32 payload 0 in
    let run = take (get16 payload 4) (drop 6 payload) in
    ground (
      arith,
      apply_from-length f (overwrite cells start run) (drop (get16 payload 4) (drop 6 payload)),
      overwrite-length cells start run,
      length-take (get16 payload 4) (drop 6 payload),
    )

pub apply_delta-length :
    (cells payload : Text) → length (apply_delta cells payload).0 ≡ length cells
unfolding apply_delta
apply_delta-length cells payload = apply_from-length (length payload + 1) cells payload
