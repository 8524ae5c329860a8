-- ===== src/Terminal/Video.antt =====
-- internal/client/terminal/terminal.go: `RenderVideo` and `renderVideoUpdate`, the differential
-- renderer, and `VideoSize`. Slices are read at indices; an index out of range, which the code does
-- not reach, reads 0.
pub mod Runs
pub mod Drawn
pub mod Shown
pub mod Rendered
use go_cli_messenger.Common.{
  ℕ, zero, suc, ◌+◌, ◌-◌, ◌*◌, Bool, true, false, ◌&&◌, ◌||◌, not, ◌==◌, leb, ltb, if◌then◌else◌,
  Option, none, some, List, [], ◌∷◌, ◌++◌, all_of, length, take, drop, Text,
}
use go_cli_messenger.Terminal.Screen.{cell_at, cursor_to, is_printable}

-- `cells[i:j]`
abbrev pub slice : Text → ℕ → ℕ → Text
slice cells i j = take (j - i) (drop i cells)

abbrev pub save_cursor : Text
save_cursor = 0x1B ∷ b'[' ∷ b's' ∷ []

abbrev pub restore_cursor : Text
restore_cursor = 0x1B ∷ b'[' ∷ b'u' ∷ []

module _ (full : Bool) (previous cells : Text) where
  -- `!full && previous[index] == cells[index]`
  unfoldable pub kept : ℕ → Bool
  unfolding cell_at
  kept index = not full && cell_at previous index == cell_at cells index

  module _ (columns row : ℕ) where
    -- The inner loop, with `left` columns to go: the column after the run of changed cells.
    pub run_end : ℕ → ℕ → ℕ
    run_end zero column = column
    run_end (suc left) column =
        let next = run_end left (column + 1) in
        if kept (row * columns + column) then column else next

    -- The loop over the columns of a row, on fuel: each round moves at least one column on.
    pub row_from : ℕ → ℕ → Text
    row_from zero column = []
    row_from (suc f) column =
        let skip = row_from f (column + 1) in
        let stop = run_end (columns - column) column in
        let rest = row_from f stop in
        let drawn =
          cursor_to (row + 1) (column + 1)
          ++ (slice cells (row * columns + column) (row * columns + stop) ++ rest) in
        if not (ltb column columns)
        then []
        else if kept (row * columns + column)
        then skip
        else drawn

  -- The rows from `row` on, `left` of them.
  pub rows_from : ℕ → ℕ → ℕ → Text
  rows_from columns zero row = []
  rows_from columns (suc left) row =
      row_from columns row (columns + 1) 0 ++ rows_from columns left (row + 1)

-- The second form, which writes every row whole.
pub whole_rows : Text → ℕ → ℕ → ℕ → Text
whole_rows cells columns zero row = []
whole_rows cells columns (suc left) row =
    cursor_to (row + 1) 1
    ++ (slice cells (row * columns) ((row + 1) * columns)
        ++ whole_rows cells columns left (row + 1))

abbrev pub framed : Text → Text
framed body = save_cursor ++ (body ++ restore_cursor)

abbrev pub is_full : Text → ℕ → ℕ → ℕ → ℕ → Text → Bool
is_full previous previous_columns previous_rows columns rows cells =
    not (previous_columns == columns)
    || not (previous_rows == rows)
    || not (length previous == length cells)

-- `renderVideoUpdate`
unfoldable pub render_video_update : Text → ℕ → ℕ → ℕ → ℕ → Text → Text
unfolding rows_from row_from run_end kept whole_rows
render_video_update previous previous_columns previous_rows columns rows cells =
    let full = is_full previous previous_columns previous_rows columns rows cells in
    let output = framed (rows_from full previous cells columns rows 0) in
    if full || leb (length output) (length cells + rows * 12)
    then output
    else framed (whole_rows cells columns rows 0)

pub record Ui : Type 0 where
  pub interactive : Bool
  pub video_cells : Text
  pub video_width : ℕ
  pub video_height : ℕ

-- `RenderVideo`: the new state, and what is written to the output. A count below 1 is 0 here.
unfoldable pub render_video : ℕ → ℕ → Text → Ui → Ui × Text
render_video columns rows cells u =
    if not u.interactive || columns == 0 || rows == 0 || not (length cells == columns * rows)
    then (u, [])
    else if not (all_of is_printable cells)
    then (u, [])
    else (
      record u { video_cells = cells; video_width = columns; video_height = rows },
      render_video_update u.video_cells u.video_width u.video_height columns rows cells,
    )
