-- ===== src/Terminal/Video/Rendered.antt =====
-- `renderVideoUpdate` and `RenderVideo` against a screen that shows the frame before.
use go_cli_messenger.Common.{
  ℕ, ◌+◌, ◌-◌, ◌*◌, ◌≤◌, ◌≡◌, refl, inl, inr, Bool, true, false, ◌&&◌, ◌==◌, leb, ltb,
  if◌then◌else◌, Bool-cases, [], all_of, length, Text, arith,
}
use go_cli_messenger.Terminal.Screen.{Screen, plain, run, cell_at, is_printable}
use go_cli_messenger.Terminal.Video.{
  framed, is_full, render_video_update, Ui, render_video, kept, rows_from, whole_rows,
}
use go_cli_messenger.Terminal.Video.Runs.{Shows-ext}
use go_cli_messenger.Terminal.Video.Shown.{
  Undisturbed, with_saved, run-framed-Undisturbed, if-Undisturbed, run-rows_from-Shows,
  run-whole_rows-Shows,
}

-- A picture in the top left corner, and the old cells round it.
abbrev pub with_picture : Text → ℕ → ℕ → (ℕ → ℕ → ℕ) → ℕ → ℕ → ℕ
with_picture cells columns rows old y x =
    if ltb 0 y && leb y rows && ltb 0 x && leb x columns
    then cell_at cells ((y - 1) * columns + (x - 1))
    else old y x

-- The cells of the last picture are on the screen.
abbrev pub IsShown : Text → ℕ → ℕ → Screen → Type 0
IsShown cells columns rows s = (y x : ℕ) → s.grid y x ≡ with_picture cells columns rows s.grid y x

module _ (previous cells : Text) (columns rows : ℕ) (s : Screen) (m : s.mode ≡ plain)
    (size : length cells ≡ columns * rows) (printable : all_of is_printable cells ≡ true) where
  rows_size : (0 + rows) * columns ≤ length cells
  rows_size = grind arith

  changed-Undisturbed :
      (full : Bool)
      → (full ≡ false → IsShown previous columns rows s)
      → Undisturbed s
          (with_picture cells columns rows s.grid)
          (run (framed (rows_from full previous cells columns rows 0)) s)
  changed-Undisturbed full shown =
      run-framed-Undisturbed (rows_from full previous cells columns rows 0) s
        (with_picture cells columns rows s.grid) m
        (Shows-ext
          (run-rows_from-Shows cells columns printable full previous rows 0 (with_saved s) m
            rows_size)
          (λ y x. elim (Bool-cases full) [
            | inl f ↦ rw f (unfold kept in ground arith)
            | inr f ↦ rw f (unfold kept in ground (arith, shown f y x))
          ]))

  whole-Undisturbed :
      Undisturbed s
        (with_picture cells columns rows s.grid)
        (run (framed (whole_rows cells columns rows 0)) s)
  whole-Undisturbed =
      run-framed-Undisturbed (whole_rows cells columns rows 0) s
        (with_picture cells columns rows s.grid) m
        (Shows-ext (run-whole_rows-Shows cells columns printable rows 0 (with_saved s) m rows_size)
          (λ y x. ground arith))

  pub render_video_update-Undisturbed :
      (previous_columns previous_rows : ℕ)
      → IsShown previous previous_columns previous_rows s
      → Undisturbed s
          (with_picture cells columns rows s.grid)
          (run (render_video_update previous previous_columns previous_rows columns rows cells) s)
  unfolding render_video_update
  render_video_update-Undisturbed pc pr shown =
      if-Undisturbed s _ _ _ _
        (changed-Undisturbed (is_full previous pc pr columns rows cells)
          (λ e y x. ground (arith, shown y x)))
        whole-Undisturbed

-- The state of the renderer agrees with the screen.
pub record Tracks (u : Ui) (s : Screen) : Type 0 where
  pub reads : s.mode ≡ plain
  pub shown : IsShown u.video_cells u.video_width u.video_height s

-- A picture that is drawn.
abbrev pub is_picture : ℕ → ℕ → Text → Bool
is_picture columns rows cells =
    ltb 0 columns && ltb 0 rows && length cells == columns * rows && all_of is_printable cells

-- What the write of a frame leaves: the picture where it is one, with the rest of the screen and the
-- cursor as they were, and a state that agrees with the screen.
abbrev pub Rendered : ℕ → ℕ → Text → Ui → Screen → Ui × Text → Type 0
Rendered columns rows cells u s (u', output) =
    Undisturbed s
      (if u.interactive && is_picture columns rows cells
        then with_picture cells columns rows s.grid
        else s.grid)
      (run output s)
    × Tracks u' (run output s)

module _ (columns rows : ℕ) (cells : Text) (u : Ui) (s : Screen) where
  by_picture : render_video columns rows cells u ≡ (
      if u.interactive && is_picture columns rows cells
      then (
        record u { video_cells = cells; video_width = columns; video_height = rows },
        render_video_update u.video_cells u.video_width u.video_height columns rows cells,
      )
      else (u, []))
  unfolding render_video
  by_picture = ground arith

  -- A frame that is a picture of its size is shown whole, with the rest of the screen and the cursor
  -- as they were, however little of it is written; any other frame, and a frame for a terminal that
  -- is not interactive, writes nothing. The state agrees with the screen again.
  pub render_video-Rendered :
      Tracks u s → Rendered columns rows cells u s (render_video columns rows cells u)
  unfolding run
  render_video-Rendered v =
      rw by_picture (elim (Bool-cases (u.interactive && is_picture columns rows cells)) [
        | inr f ↦
            rw f (record { reads = v.reads; row = refl; column = refl; grid = λ y x. refl }, v)
        | inl f ↦
            let w =
              render_video_update-Undisturbed u.video_cells cells columns rows s v.reads
                (ground arith) (ground arith) u.video_width u.video_height v.shown in
            rw f (w, record { reads = w.reads; shown = λ y x. ground (arith, w.grid y x) })
      ])
