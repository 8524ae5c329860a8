-- ===== src/Examples/Showing.antt =====
-- What the terminal shows.
use go_cli_messenger.Common.{◌≡◌, refl, true, [], ◌∷◌, codes, ◌++◌, arith}
use go_cli_messenger.Common.Decimal.{decimal}
use go_cli_messenger.Terminal.Screen.{Screen, plain}
use go_cli_messenger.Terminal.Video.{Ui, render_video_update, render_video, kept}
use go_cli_messenger.Terminal.Video.Rendered.{Tracks, Rendered, render_video-Rendered, with_picture}
use go_cli_messenger.Terminal.Sanitize.{sanitize}
use go_cli_messenger.Terminal.Sanitize.Clean.{Clean, sanitize-Clean}
use go_cli_messenger.Terminal.Runes.{decode_rune, encode_rune, is_format}

-- A bidirectional override, an escape and a byte that is no rune.
hostile_text :
    sanitize (b'a' ∷ 0xE2 ∷ 0x80 ∷ 0xAE ∷ 0x1B ∷ 0xFF ∷ []) ≡ codes "a\\u{202E}\\u{001B}\\xFF"
unfolding sanitize decode_rune encode_rune is_format
hostile_text = refl

sanitize-Clean_example :
    Clean (sanitize (0x1B ∷ b'[' ∷ []))
    × (Clean (0x1B ∷ b'[' ∷ []) → sanitize (0x1B ∷ b'[' ∷ []) ≡ 0x1B ∷ b'[' ∷ [])
sanitize-Clean_example = sanitize-Clean (0x1B ∷ b'[' ∷ [])

-- A terminal that shows the picture `ab`, of two columns and one row.
abbrev ui : Ui
ui = record { interactive = true; video_cells = codes "ab"; video_width = 2; video_height = 1 }

abbrev screen : Screen
screen = record {
  mode = plain;
  row = 9;
  column = 4;
  saved_row = 1;
  saved_column = 1;
  grid = with_picture (codes "ab") 2 1 (λ y x. 0x20);
}

-- One cell changes, and is written alone.
one_cell :
    (render_video 2 1 (codes "ac") ui).1
    ≡ 0x1B ∷ b'[' ∷ b's' ∷ 0x1B ∷ codes "[1;2Hc" ++ 0x1B ∷ b'[' ∷ b'u' ∷ []
unfolding render_video render_video_update kept decimal
one_cell = refl

ui-Tracks : Tracks ui screen
ui-Tracks = record { reads = refl; shown = λ y x. ground arith }

render_video-Rendered_example :
    Rendered 2 1 (codes "ac") ui screen (render_video 2 1 (codes "ac") ui)
render_video-Rendered_example = render_video-Rendered 2 1 (codes "ac") ui screen ui-Tracks
