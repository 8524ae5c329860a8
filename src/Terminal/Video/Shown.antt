-- ===== src/Terminal/Video/Shown.antt =====
-- What `renderVideoUpdate` leaves on the screen, on each of its branches.
use go_cli_messenger.Common.{
  ℕ, zero, suc, ◌+◌, ◌-◌, ◌*◌, ◌≤◌, ◌≡◌, refl, ap, ◌∙◌, inl, inr, Bool, true, false, ◌&&◌, not,
  ◌==◌, ==_iff, leb, ltb, if◌then◌else◌, Bool-cases, ◌++◌, all_of, length, Text, arith,
}
use go_cli_messenger.Terminal.Screen.{
  Screen, plain, run, run-append, cell_at, feed, cursor_to, is_printable,
}
use go_cli_messenger.Terminal.Video.{
  save_cursor, restore_cursor, framed, slice, kept, row_from, rows_from, whole_rows,
}
use go_cli_messenger.Terminal.Video.Runs.{
  Shows, run-nil-Shows, run-drawn, over, Shows-ext, Shows-over, run-slice-Shows,
}
use go_cli_messenger.Terminal.Video.Drawn.{run-row_from-Shows}

-- The screen shows this grid, with the cursor where it was.
pub record Undisturbed (s : Screen) (shown : ℕ → ℕ → ℕ) (t : Screen) : Type 0 where
  pub reads : t.mode ≡ plain
  pub row : t.row ≡ s.row
  pub column : t.column ≡ s.column
  pub grid : (y x : ℕ) → t.grid y x ≡ shown y x

-- The screen with the cursor saved.
abbrev pub with_saved : Screen → Screen
with_saved s = record s { saved_row = s.row; saved_column = s.column }

run-save_cursor : (s : Screen) → s.mode ≡ plain → run save_cursor s ≡ with_saved s
unfolding run feed
run-save_cursor s m = ground arith

run-restore_cursor :
    (s : Screen)
    → s.mode ≡ plain
    → run restore_cursor s ≡ record s { row = s.saved_row; column = s.saved_column }
unfolding run feed
run-restore_cursor s m = ground arith

pub run-framed-Undisturbed :
    (body : Text) (s : Screen) (shown : ℕ → ℕ → ℕ)
    → s.mode ≡ plain
    → Shows (with_saved s) shown (run body (with_saved s))
    → Undisturbed s shown (run (framed body) s)
run-framed-Undisturbed body s shown m v =
    rw whole record { reads = v.reads; row = v.saved_row; column = v.saved_column; grid = v.grid }
  where
    drawn : Screen
    drawn = run body (with_saved s)

    whole : run (framed body) s ≡ record (run body (with_saved s)) {
      row = (run body (with_saved s)).saved_row;
      column = (run body (with_saved s)).saved_column;
    }
    whole =
        run-append save_cursor (body ++ restore_cursor) s
        ∙ ap (run (body ++ restore_cursor)) (run-save_cursor s m)
        ∙ run-append body restore_cursor (with_saved s)
        ∙ run-restore_cursor (run body (with_saved s)) v.reads

module _ (cells : Text) (columns : ℕ) where
  -- The cells of `left` rows behind `row` for which the test fails.
  abbrev pub in_rows : (ℕ → Bool) → ℕ → ℕ → ℕ → ℕ → Bool
  in_rows keep row left y x =
      ltb row y
      && leb y (row + left)
      && ltb 0 x
      && leb x columns
      && not (keep ((y - 1) * columns + (x - 1)))

  abbrev pub picture : ℕ → ℕ → ℕ
  picture y x = cell_at cells ((y - 1) * columns + (x - 1))

  -- One row, and the rows behind it.
  over-in_rows :
      (keep : ℕ → Bool) (row left : ℕ) (old first : ℕ → ℕ → ℕ)
      → ((y x : ℕ)
          → first y x ≡ (
              if y == row + 1 && ltb 0 x && leb x columns && not (keep (row * columns + (x - 1)))
              then cell_at cells (row * columns + (x - 1))
              else old y x))
      → (y x : ℕ)
      → over (in_rows keep (row + 1) left) picture first y x
        ≡ over (in_rows keep row (suc left)) picture old y x
  over-in_rows keep row left old first h y x = elim (Bool-cases (y == row + 1)) [
    | inl e ↦ rw ((==_iff y (row + 1)).0 e) (ground (arith, h (row + 1) x, back_one))
    | inr e ↦ ground (arith, h y x)
  ]
    where
      back_one : row + 1 - 1 ≡ row
      back_one = omega arith

  rows_fit :
      (row left : ℕ)
      → (row + suc left) * columns ≤ length cells
      → (row * columns + columns ≤ length cells)
        × ((row + 1 + left) * columns ≤ length cells)
        × (row * columns + columns ≡ (row + 1) * columns)
  rows_fit row left h = (grind arith, grind arith, grind arith)

  module _ (printable : all_of is_printable cells ≡ true) where
    pub run-rows_from-Shows :
        (full : Bool) (previous : Text) (left row : ℕ) (s : Screen)
        → s.mode ≡ plain
        → (row + left) * columns ≤ length cells
        → Shows s
            (over (in_rows (kept full previous cells) row left) picture s.grid)
            (run (rows_from full previous cells columns left row) s)
    unfolding rows_from
    run-rows_from-Shows full previous zero row s m l = run-nil-Shows m (λ y x. ground arith)
    run-rows_from-Shows full previous (suc left) row s m l =
        let (fits, more, _) = rows_fit row left l in
        let v =
          run-row_from-Shows full previous cells columns row (columns + 1) 0 s m printable fits
            (omega arith) in
        let first = run (row_from full previous cells columns row (columns + 1) 0) s in
        let w = run-rows_from-Shows full previous left (row + 1) first v.reads more in
        rw
          (run-append (row_from full previous cells columns row (columns + 1) 0)
            (rows_from full previous cells columns left (row + 1)) s)
          (Shows-ext (Shows-over (in_rows (kept full previous cells) (row + 1) left) picture v w)
            (over-in_rows (kept full previous cells) row left s.grid _ (λ y x. refl)))

    pub run-whole_rows-Shows :
        (left row : ℕ) (s : Screen)
        → s.mode ≡ plain
        → (row + left) * columns ≤ length cells
        → Shows s
            (over (in_rows (λ _. false) row left) picture s.grid)
            (run (whole_rows cells columns left row) s)
    unfolding whole_rows
    run-whole_rows-Shows zero row s m l = run-nil-Shows m (λ y x. ground arith)
    run-whole_rows-Shows (suc left) row s m l =
        let (fits, more, next) = rows_fit row left l in
        let v =
          run-slice-Shows (row + 1) 1 (row * columns) ((row + 1) * columns) cells s m printable
            (omega (arith, next)) (omega (arith, next)) in
        let first =
          run (cursor_to (row + 1) 1 ++ slice cells (row * columns) ((row + 1) * columns)) s in
        let w = run-whole_rows-Shows left (row + 1) first v.reads more in
        rw
          (run-drawn (cursor_to (row + 1) 1) (slice cells (row * columns) ((row + 1) * columns))
            (whole_rows cells columns left (row + 1)) s)
          (Shows-ext (Shows-over (in_rows (λ _. false) (row + 1) left) picture v w)
            (over-in_rows (λ _. false) row left s.grid _ (λ y x. ground (arith, next))))

pub if-Undisturbed :
    (s : Screen) (shown : ℕ → ℕ → ℕ) (b : Bool) (first second : Text)
    → Undisturbed s shown (run first s)
    → Undisturbed s shown (run second s)
    → Undisturbed s shown (run (if b then first else second) s)
if-Undisturbed s shown true first second v w = v
if-Undisturbed s shown false first second v w = w
